-- ===== src/Budget/Examples.antt =====
-- Runs of crates/token-budget-engine/src/lib.rs, its tests among them.
pub mod Command
use inference_data_plane.Prelude.{
  ℕ, suc, zero, ◌+◌, ◌*◌, ◌≤◌, ◌<◌, ◌≡◌, ◌↔◌, refl, true, some, List, [], ◌∷◌, ◌++◌, arith, length,
  max, u64_mod, drop, ok, err,
}
use inference_data_plane.Text.{Text, codes}
use inference_data_plane.Text.Space.{split_whitespace}
use inference_data_plane.Budget.{
  ChatMessage, Prompt, text, chat, ModelBudget, BudgetPolicy, strict_reject, truncate_oldest,
  BudgetRequest, BudgetDecision, invalid_context_limit, invalid_max_output_tokens, TokenCounter,
  approx_token_counter, count_text, count_message, count_prompt, sum_from, requested_tokens,
  strict_decision, reserve_output_first_decision, truncate_oldest_decision, decide_budget,
}
use inference_data_plane.Budget.Count.{
  count_text_bounds, chat_size, message_size, messages_size, count_prompt-chat,
}
use inference_data_plane.Budget.Policies.{
  InRange, IsSound, decide_budget-IsSound, decide_budget-errors, reserve_output_first-eq-strict,
}
use inference_data_plane.Budget.Truncation.Approx.{truncate_oldest-admits_iff}
use inference_data_plane.Budget.Truncation.{
  IsLongest, NoWrap, truncate_oldest-IsLongest, truncate_oldest-eq-strict,
}

abbrev tiny_model : ModelBudget
tiny_model = record {
  model = codes "tiny";
  context_limit = 40;
  default_max_tokens = 8;
  max_output_tokens = 16;
}

abbrev repeat : ℕ → Text → Text
repeat zero s = []
repeat (suc n) s = s ++ repeat n s

abbrev request_of : Prompt → BudgetPolicy → BudgetRequest
request_of prompt policy = record {
  prompt = prompt;
  requested_max_tokens = some 8;
  policy = policy;
  model = tiny_model;
}

abbrev old_and_new : List ChatMessage
old_and_new =
    record { role = codes "user"; content = repeat 40 (codes "old ") }
    ∷ record { role = codes "user"; content = codes "new" }
    ∷ []

abbrev small_request : BudgetRequest
small_request = request_of (text (codes "hello world")) strict_reject

admits_small_prompt :
    let d = strict_decision approx_token_counter small_request 8 in
    (d.admitted ≡ true) × (d.admitted_max_tokens ≡ 8)
unfolding strict_decision count_text count_prompt split_whitespace codes
admits_small_prompt = (refl, refl)

-- One token for each message, whatever it says.
abbrev flat_counter : TokenCounter
flat_counter = record {
  count_prompt = λ p. elim p [ text s ↦ 1 | chat ms ↦ length ms + 1 ];
  count_text = λ s. 1;
}

abbrev flat_request : BudgetRequest
flat_request = request_of (chat old_and_new) truncate_oldest

flat_NoWrap : NoWrap flat_counter 8 old_and_new
unfolding drop
flat_NoWrap zero = omega arith
flat_NoWrap (suc zero) = omega arith
flat_NoWrap (suc (suc zero)) = omega arith
flat_NoWrap (suc (suc (suc j))) = omega arith

truncate_oldest-IsLongest_example :
    IsLongest flat_counter 8 40 old_and_new (truncate_oldest_decision flat_counter flat_request 8)
truncate_oldest-IsLongest_example =
    truncate_oldest-IsLongest flat_counter 8 flat_request old_and_new refl flat_NoWrap

abbrev small_decision : BudgetDecision
small_decision = strict_decision approx_token_counter small_request 8

decides_small : decide_budget approx_token_counter small_request ≡ ok small_decision
unfolding decide_budget requested_tokens
decides_small = refl

small_InRange : InRange approx_token_counter small_decision
unfolding strict_decision count_prompt count_text codes split_whitespace
small_InRange = record { positive = omega arith; no_wrap = omega arith }

decide_budget-IsSound_example : IsSound approx_token_counter small_request small_decision
decide_budget-IsSound_example =
    decide_budget-IsSound approx_token_counter small_request small_decision decides_small
      small_InRange

abbrev no_context : BudgetRequest
no_context = record small_request { model = record tiny_model { context_limit = 0 } }

decide_budget-errors_example :
    ((decide_budget approx_token_counter no_context ≡ err invalid_context_limit)
      ↔ (no_context.model.context_limit ≡ 0))
    × ((decide_budget approx_token_counter no_context ≡ err invalid_max_output_tokens)
        ↔ ((0 < no_context.model.context_limit) × (no_context.model.max_output_tokens ≡ 0)))
decide_budget-errors_example = decide_budget-errors approx_token_counter no_context

reserve_output_first-eq-strict_example :
    (reserve_output_first_decision approx_token_counter small_request 8).admitted
    ≡ (strict_decision approx_token_counter small_request 8).admitted
unfolding count_prompt count_text codes split_whitespace
reserve_output_first-eq-strict_example =
    reserve_output_first-eq-strict approx_token_counter small_request 8 (omega arith) (omega arith)

abbrev new_only : BudgetRequest
new_only =
    request_of (chat (record { role = codes "user"; content = codes "new" } ∷ [])) truncate_oldest

new_only-admitted : (strict_decision approx_token_counter new_only 8).admitted ≡ true
unfolding strict_decision count_prompt sum_from count_message count_text codes split_whitespace
new_only-admitted = refl

truncate_oldest-eq-strict_example :
    truncate_oldest_decision approx_token_counter new_only 8
    ≡ strict_decision approx_token_counter new_only 8
truncate_oldest-eq-strict_example =
    truncate_oldest-eq-strict approx_token_counter 8 new_only new_only-admitted

old_and_new-size : chat_size old_and_new + 8 < u64_mod
unfolding chat_size messages_size message_size count_text codes split_whitespace
old_and_new-size = omega arith

truncate_oldest-admits_iff_example :
    ((truncate_oldest_decision approx_token_counter flat_request 8).admitted ≡ true) ↔ (2 + 8 ≤ 40)
truncate_oldest-admits_iff_example =
    truncate_oldest-admits_iff flat_request old_and_new 8 refl old_and_new-size

count_text_bounds_example :
    let s = codes "hello world" in
    (1 ≤ count_text s)
    × (length (split_whitespace s) ≤ count_text s)
    × (length s ≤ 4 * count_text s)
    × (count_text s ≤ max (length s) 1)
count_text_bounds_example = count_text_bounds (codes "hello world")

count_prompt-chat_example : count_prompt (chat old_and_new) ≡ chat_size old_and_new
count_prompt-chat_example = count_prompt-chat old_and_new (omega (arith, old_and_new-size))
