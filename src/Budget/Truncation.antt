-- ===== src/Budget/Truncation.antt =====
-- `truncate_oldest` of crates/token-budget-engine/src/lib.rs against its specification.
pub mod Approx
use inference_data_plane.Prelude.{
  ℕ, zero, suc, ◌+◌, ◌≤◌, ◌<◌, ◌≡◌, refl, sym, ap, ◌∙◌, subst, ◌↔◌, ◌⊎◌, inl, inr, true, false,
  List, [], ◌∷◌, arith, ltb, leb, length, drop, Bool-cases, add_u64, u64_mod,
}
use inference_data_plane.Budget.{
  Prompt, text, chat, ChatMessage, BudgetRequest, BudgetDecision, TokenCounter,
  approx_token_counter, count_prompt, strict_decision, truncate_loop, truncate_chat,
  truncate_prompt, truncate_oldest_decision, truncate_reason, strict_reason,
}
use inference_data_plane.Budget.Count.{messages_size, chat_size, count_prompt-chat}

module _ (counter : TokenCounter) (requested : ℕ) where
  -- No suffix of the chat wraps around when the output is added to it.
  abbrev pub NoWrap : List ChatMessage → Type 0
  NoWrap ms = (j : ℕ) → counter.count_prompt (chat (drop j ms)) + requested < u64_mod

  -- Less than `k` messages removed leave too much.
  abbrev pub Needed : ℕ → List ChatMessage → ℕ → Type 0
  Needed limit ms k = (j : ℕ) → j < k → limit < counter.count_prompt (chat (drop j ms)) + requested

  record Trimmed (limit : ℕ) (ms : List ChatMessage) (truncated : ℕ) (r : List ChatMessage × ℕ)
      : Type 0 where
    count : ℕ
    left : r.0 ≡ drop count ms
    total : r.1 ≡ truncated + count
    bound : count ≤ length ms
    needed : Needed limit ms count
    stopped : (r.0 ≡ []) ⊎ (counter.count_prompt (chat r.0) + requested ≤ limit)

  stay :
      (limit : ℕ) (ms : List ChatMessage) (truncated : ℕ)
      → ((ms ≡ []) ⊎ (counter.count_prompt (chat ms) + requested ≤ limit))
      → Trimmed limit ms truncated (ms, truncated)
  unfolding drop
  stay limit ms truncated h = record {
    count = 0;
    left = refl;
    total = omega arith;
    bound = omega arith;
    needed = λ j lt. absurd (omega arith);
    stopped = h;
  }

  Needed-suc :
      (limit : ℕ) (m : ChatMessage) (ms : List ChatMessage) (k : ℕ)
      → limit < counter.count_prompt (chat (m ∷ ms)) + requested
      → Needed limit ms k
      → Needed limit (m ∷ ms) (suc k)
  unfolding drop
  Needed-suc limit m ms k h n zero lt = h
  Needed-suc limit m ms k h n (suc j) lt = n j (omega arith)

  go_on :
      (limit : ℕ) (m : ChatMessage) (ms : List ChatMessage) (truncated : ℕ)
      (r : List ChatMessage × ℕ)
      → limit < counter.count_prompt (chat (m ∷ ms)) + requested
      → Trimmed limit ms (truncated + 1) r
      → Trimmed limit (m ∷ ms) truncated r
  unfolding drop
  go_on limit m ms truncated r h t = record {
    count = suc t.count;
    left = t.left;
    total = omega (arith, t.total);
    bound = omega (arith, t.bound);
    needed = Needed-suc limit m ms t.count h t.needed;
    stopped = t.stopped;
  }

  truncate_loop-Trimmed :
      (limit : ℕ) (ms : List ChatMessage) (truncated : ℕ)
      → NoWrap ms
      → Trimmed limit ms truncated (truncate_loop counter requested limit ms truncated)
  unfolding truncate_loop drop
  truncate_loop-Trimmed limit [] truncated h = stay limit [] truncated (inl refl)
  truncate_loop-Trimmed limit (m ∷ ms) truncated h =
      elim (Bool-cases (ltb limit (add_u64 (counter.count_prompt (chat (m ∷ ms))) requested))) [
        | inl more ↦ rw more (
            go_on limit m ms truncated _ (ground (arith, h 0))
              (truncate_loop-Trimmed limit ms (truncated + 1) (λ j. h (suc j))))
        | inr done ↦ rw done (stay limit (m ∷ ms) truncated (inr (ground (arith, h 0))))
      ]

  -- What the decision on a chat must be: the prompt is the chat without its oldest messages, no
  -- message is removed that could stay, and a refusal has removed them all.
  pub record IsLongest (limit : ℕ) (ms : List ChatMessage) (d : BudgetDecision) : Type 0 where
    pub suffix : d.prompt ≡ chat (drop d.truncated_messages ms)
    pub bound : d.truncated_messages ≤ length ms
    pub needed : Needed limit ms d.truncated_messages
    pub exhausted : d.admitted ≡ false → d.prompt ≡ chat []

  Trimmed-IsLongest :
      (request : BudgetRequest) (ms : List ChatMessage) (r : List ChatMessage × ℕ)
      → counter.count_prompt (chat r.0) + requested < u64_mod
      → Trimmed request.model.context_limit ms 0 r
      → IsLongest request.model.context_limit ms (truncate_chat counter request requested r)
  unfolding truncate_chat
  Trimmed-IsLongest request ms (left, truncated) w t =
      let same : t.count ≡ truncated = omega (arith, t.total) in
      record {
        suffix = rw (← same) (ap chat t.left);
        bound = omega (arith, t.bound);
        needed = subst (Needed request.model.context_limit ms) same t.needed;
        exhausted = λ e. ground (arith, t.stopped);
      }

  -- A chat is cut to its longest suffix that fits with the output, if no suffix wraps around:
  -- fewer removed messages would not fit, and a refusal means that not even the empty chat fits.
  pub truncate_oldest-IsLongest :
      (request : BudgetRequest) (ms : List ChatMessage)
      → request.prompt ≡ chat ms
      → NoWrap ms
      → IsLongest request.model.context_limit ms
          (truncate_oldest_decision counter request requested)
  unfolding truncate_oldest_decision truncate_prompt
  truncate_oldest-IsLongest request ms e h =
      let t = truncate_loop-Trimmed request.model.context_limit ms 0 h in
      subst
        (λ p.
          IsLongest request.model.context_limit ms (truncate_prompt counter p request requested))
        (sym e)
        (Trimmed-IsLongest request ms _
          (subst (λ l. counter.count_prompt (chat l) + requested < u64_mod) (sym t.left)
            (h t.count))
          t)

  keep_all-eq-strict :
      (request : BudgetRequest) (ms : List ChatMessage)
      → request.prompt ≡ chat ms
      → (strict_decision counter request requested).admitted ≡ true
      → truncate_chat counter request requested (ms, 0) ≡ strict_decision counter request requested
  unfolding truncate_chat strict_decision truncate_reason strict_reason
  keep_all-eq-strict request ms e h = ground arith

  truncate_loop_fits :
      (limit : ℕ) (ms : List ChatMessage)
      → leb (add_u64 (counter.count_prompt (chat ms)) requested) limit ≡ true
      → truncate_loop counter requested limit ms 0 ≡ (ms, 0)
  unfolding truncate_loop
  truncate_loop_fits limit [] h = refl
  truncate_loop_fits limit (m ∷ ms) h = ground arith

  truncate_prompt-eq-strict :
      (prompt : Prompt) (request : BudgetRequest)
      → request.prompt ≡ prompt
      → (strict_decision counter request requested).admitted ≡ true
      → truncate_prompt counter prompt request requested ≡ strict_decision counter request requested
  unfolding truncate_prompt
  truncate_prompt-eq-strict (text s) request e h = refl
  truncate_prompt-eq-strict (chat ms) request e h =
      rw (truncate_loop_fits request.model.context_limit ms (fits h))
        (keep_all-eq-strict request ms e h)
    where
      fits :
          (strict_decision counter request requested).admitted ≡ true
          → leb (add_u64 (counter.count_prompt (chat ms)) requested) request.model.context_limit
            ≡ true
      fits k = unfold strict_decision in rw (← e) k

  -- Where the strict policy admits the request, truncation makes the very same decision.
  pub truncate_oldest-eq-strict :
      (request : BudgetRequest)
      → (strict_decision counter request requested).admitted ≡ true
      → truncate_oldest_decision counter request requested
        ≡ strict_decision counter request requested
  unfolding truncate_oldest_decision
  truncate_oldest-eq-strict request h = truncate_prompt-eq-strict request.prompt request refl h
