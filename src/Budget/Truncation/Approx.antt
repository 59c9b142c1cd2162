-- ===== src/Budget/Truncation/Approx.antt =====
-- Truncation with the counter `ApproxTokenCounter` of crates/token-budget-engine/src/lib.rs.
use inference_data_plane.Prelude.{
  ℕ, zero, suc, ◌+◌, ◌≤◌, ◌<◌, ◌≡◌, refl, ap, ◌∙◌, ◌↔◌, inl, inr, true, false, List, [], ◌∷◌, arith,
  leb, drop, Bool-cases, add_u64, u64_mod,
}
use inference_data_plane.Budget.{
  Prompt, text, chat, ChatMessage, BudgetRequest, BudgetDecision, TokenCounter,
  approx_token_counter, count_prompt, strict_decision, truncate_chat, truncate_prompt,
  truncate_oldest_decision,
}
use inference_data_plane.Budget.Count.{messages_size, chat_size, count_prompt-chat}
use inference_data_plane.Budget.Truncation.{NoWrap, IsLongest, truncate_oldest-IsLongest}

messages_size-drop-le :
    (j : ℕ) (ms : List ChatMessage) → messages_size (drop j ms) ≤ messages_size ms
unfolding drop messages_size
messages_size-drop-le zero ms = omega arith
messages_size-drop-le (suc j) [] = omega arith
messages_size-drop-le (suc j) (m ∷ ms) = omega (arith, messages_size-drop-le j ms)

chat_size-drop-le : (j : ℕ) (ms : List ChatMessage) → chat_size (drop j ms) ≤ chat_size ms
unfolding chat_size
chat_size-drop-le j ms = omega (arith, messages_size-drop-le j ms)

count_prompt-drop :
    (j : ℕ) (ms : List ChatMessage)
    → chat_size ms < u64_mod
    → count_prompt (chat (drop j ms)) ≡ chat_size (drop j ms)
count_prompt-drop j ms h = count_prompt-chat (drop j ms) (omega (arith, chat_size-drop-le j ms))

approx-NoWrap :
    (requested : ℕ) (ms : List ChatMessage)
    → chat_size ms + requested < u64_mod
    → NoWrap approx_token_counter requested ms
approx-NoWrap requested ms h j =
    omega (arith, chat_size-drop-le j ms, count_prompt-drop j ms (omega arith))

truncate_prompt-admitted :
    (counter : TokenCounter) (request : BudgetRequest) (requested : ℕ) (prompt : Prompt)
    → request.prompt ≡ prompt
    → let d = truncate_prompt counter prompt request requested in
      d.admitted
      ≡ leb (add_u64 (counter.count_prompt d.prompt) requested) request.model.context_limit
unfolding truncate_prompt truncate_chat strict_decision
truncate_prompt-admitted counter request requested (text s) e = refl
truncate_prompt-admitted counter request requested (chat ms) e = refl

chat_size-ge : (ms : List ChatMessage) → 2 ≤ chat_size ms
unfolding chat_size
chat_size-ge ms = omega arith

chat_size-nil : chat_size [] ≡ 2
unfolding chat_size messages_size
chat_size-nil = refl

module _ (request : BudgetRequest) (ms : List ChatMessage) (requested : ℕ)
    (asks : request.prompt ≡ chat ms) (small : chat_size ms + requested < u64_mod) where
  decision : BudgetDecision
  decision = truncate_oldest_decision approx_token_counter request requested

  decision-IsLongest :
      IsLongest approx_token_counter requested request.model.context_limit ms decision
  unfolding decision
  decision-IsLongest =
      truncate_oldest-IsLongest approx_token_counter requested request ms asks
        (approx-NoWrap requested ms small)

  decision-admitted :
      decision.admitted
      ≡ leb (add_u64 (count_prompt decision.prompt) requested) request.model.context_limit
  unfolding decision truncate_oldest_decision
  decision-admitted =
      truncate_prompt-admitted approx_token_counter request requested request.prompt refl

  decision-counted : count_prompt decision.prompt ≡ chat_size (drop decision.truncated_messages ms)
  decision-counted =
      ap count_prompt decision-IsLongest.suffix
      ∙ count_prompt-drop decision.truncated_messages ms (omega arith)

  admitted_needs : decision.admitted ≡ true → 2 + requested ≤ request.model.context_limit
  admitted_needs h = ground (
    arith,
    decision-admitted,
    decision-counted,
    chat_size-ge (drop decision.truncated_messages ms),
    chat_size-drop-le decision.truncated_messages ms,
  )

  refused_lacks : decision.admitted ≡ false → request.model.context_limit < 2 + requested
  refused_lacks h = ground (
    arith,
    decision-admitted,
    chat_size-nil,
    ap count_prompt (decision-IsLongest.exhausted h),
    count_prompt-chat [] (omega (arith, chat_size-nil)),
    chat_size-ge ms,
  )

-- With the approximate counter a chat that counts, with its output, for less than 2 ^ 64 tokens
-- is admitted by truncation exactly when the two tokens of an empty chat and the output fit the
-- context.
pub truncate_oldest-admits_iff :
    (request : BudgetRequest) (ms : List ChatMessage) (requested : ℕ)
    → request.prompt ≡ chat ms
    → chat_size ms + requested < u64_mod
    → ((truncate_oldest_decision approx_token_counter request requested).admitted ≡ true)
      ↔ (2 + requested ≤ request.model.context_limit)
unfolding decision
truncate_oldest-admits_iff request ms requested e h = (
  admitted_needs request ms requested e h,
  λ fits. elim (Bool-cases (decision request ms requested e h).admitted) [
    | inl admitted ↦ admitted
    | inr refused ↦ absurd (omega (arith, refused_lacks request ms requested e h refused))
  ],
)
