-- ===== src/Budget/Policies.antt =====
-- The policies of crates/token-budget-engine/src/lib.rs against one specification, and each other.
use inference_data_plane.Prelude.{
  ℕ, ◌+◌, ◌≤◌, ◌<◌, ◌≡◌, subst, sym, ◌↔◌, true, false, List, arith, u64_mod, ok, err,
}
use inference_data_plane.Budget.{
  Prompt, text, chat, ChatMessage, BudgetPolicy, strict_reject, truncate_oldest,
  reserve_output_first, BudgetRequest, BudgetDecision, invalid_context_limit,
  invalid_max_output_tokens, TokenCounter, strict_decision, reserve_output_first_decision,
  truncate_chat, truncate_prompt, by_policy, truncate_oldest_decision, requested_tokens,
  decide_budget,
}

module _ (counter : TokenCounter) where
  -- The count of the decision's prompt and the output that is asked for are no zero and do not wrap.
  pub record InRange (d : BudgetDecision) : Type 0 where
    pub positive : 0 < counter.count_prompt d.prompt
    pub no_wrap : counter.count_prompt d.prompt + d.requested_max_tokens < u64_mod

  pub record IsSound (request : BudgetRequest) (d : BudgetDecision) : Type 0 where
    pub counted : d.prompt_tokens ≡ counter.count_prompt d.prompt
    pub asked : d.requested_max_tokens ≡ requested_tokens counter request
    pub fits :
        d.admitted ≡ true → d.prompt_tokens + d.admitted_max_tokens ≤ request.model.context_limit
    pub granted : d.admitted ≡ true → d.admitted_max_tokens ≡ d.requested_max_tokens
    pub capped : d.admitted_max_tokens ≤ request.model.max_output_tokens
    pub refused : d.admitted ≡ false → d.admitted_max_tokens ≡ 0
    pub named : d.model ≡ request.model.model

  requested_tokens-le :
      (request : BudgetRequest) → requested_tokens counter request ≤ request.model.max_output_tokens
  unfolding requested_tokens
  requested_tokens-le request = omega arith

  strict_decision-IsSound :
      (request : BudgetRequest)
      → InRange (strict_decision counter request (requested_tokens counter request))
      → IsSound request (strict_decision counter request (requested_tokens counter request))
  unfolding strict_decision
  strict_decision-IsSound request r = ground (arith, requested_tokens-le request)

  reserve_output_first-IsSound :
      (request : BudgetRequest)
      → InRange (reserve_output_first_decision counter request (requested_tokens counter request))
      → IsSound request
          (reserve_output_first_decision counter request (requested_tokens counter request))
  unfolding reserve_output_first_decision
  reserve_output_first-IsSound request r = ground (arith, requested_tokens-le request)

  truncate_chat-IsSound :
      (request : BudgetRequest) (left : List ChatMessage × ℕ)
      → InRange (truncate_chat counter request (requested_tokens counter request) left)
      → IsSound request (truncate_chat counter request (requested_tokens counter request) left)
  unfolding truncate_chat
  truncate_chat-IsSound request (messages, truncated) r =
      ground (arith, requested_tokens-le request)

  truncate_prompt-IsSound :
      (prompt : Prompt) (request : BudgetRequest)
      → InRange (truncate_prompt counter prompt request (requested_tokens counter request))
      → IsSound request (truncate_prompt counter prompt request (requested_tokens counter request))
  unfolding truncate_prompt
  truncate_prompt-IsSound (text s) request r = strict_decision-IsSound request r
  truncate_prompt-IsSound (chat ms) request r = truncate_chat-IsSound request _ r

  by_policy-IsSound :
      (policy : BudgetPolicy) (request : BudgetRequest)
      → InRange (by_policy counter policy request (requested_tokens counter request))
      → IsSound request (by_policy counter policy request (requested_tokens counter request))
  unfolding by_policy truncate_oldest_decision
  by_policy-IsSound strict_reject request r = strict_decision-IsSound request r
  by_policy-IsSound reserve_output_first request r = reserve_output_first-IsSound request r
  by_policy-IsSound truncate_oldest request r = truncate_prompt-IsSound request.prompt request r

  decide_budget-eq-ok :
      (request : BudgetRequest) (d : BudgetDecision)
      → decide_budget counter request ≡ ok d
      → d ≡ by_policy counter request.policy request (requested_tokens counter request)
  unfolding decide_budget
  decide_budget-eq-ok request d e = ground arith

  -- Under every policy a decision whose prompt counts for at least one token, and for too little
  -- to wrap around, tells the truth: an admitted prompt and the output granted to it fit the
  -- context, the grant is what was asked for up to the model's cap, and a refusal grants nothing.
  pub decide_budget-IsSound :
      (request : BudgetRequest) (d : BudgetDecision)
      → decide_budget counter request ≡ ok d
      → InRange d
      → IsSound request d
  decide_budget-IsSound request d e r =
      subst (λ x. InRange x → IsSound request x) (sym (decide_budget-eq-ok request d e))
        (by_policy-IsSound request.policy request) r

  -- `decide_budget` fails exactly for a model with no context or no output, and names which.
  pub decide_budget-errors :
      (request : BudgetRequest)
      → ((decide_budget counter request ≡ err invalid_context_limit)
          ↔ (request.model.context_limit ≡ 0))
        × ((decide_budget counter request ≡ err invalid_max_output_tokens)
            ↔ ((0 < request.model.context_limit) × (request.model.max_output_tokens ≡ 0)))
  unfolding decide_budget
  decide_budget-errors request = ground arith

  -- Reserving the output first admits what the strict policy admits, if the prompt counts for at
  -- least one token and the sum does not wrap around.
  pub reserve_output_first-eq-strict :
      (request : BudgetRequest) (requested : ℕ)
      → 0 < counter.count_prompt request.prompt
      → counter.count_prompt request.prompt + requested < u64_mod
      → (reserve_output_first_decision counter request requested).admitted
        ≡ (strict_decision counter request requested).admitted
  unfolding reserve_output_first_decision strict_decision
  reserve_output_first-eq-strict request requested p h = ground arith
