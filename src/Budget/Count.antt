-- ===== src/Budget/Count.antt =====
-- What `ApproxTokenCounter` of crates/token-budget-engine/src/lib.rs counts.
use inference_data_plane.Prelude.{
  ℕ, ◌+◌, ◌*◌, ◌≤◌, ◌<◌, ◌≡◌, List, [], ◌∷◌, map, arith, length, max, add_u64, u64_mod,
}
use inference_data_plane.Text.{Text}
use inference_data_plane.Text.Space.{split_whitespace, length-split_whitespace-le}
use inference_data_plane.Budget.{
  ChatMessage, chat, count_text, count_message, count_prompt, sum_from,
}

-- A text counts for one token at least, for one token a word at least, and for one token every
-- four characters at least; and for no more tokens than it has characters, unless it is empty.
pub count_text_bounds :
    (s : Text)
    → (1 ≤ count_text s)
      × (length (split_whitespace s) ≤ count_text s)
      × (length s ≤ 4 * count_text s)
      × (count_text s ≤ max (length s) 1)
unfolding count_text
count_text_bounds s = ground (arith, length-split_whitespace-le s)

-- The sizes without the wrap-around.
unfoldable pub message_size : ChatMessage → ℕ
message_size m = count_text m.role + count_text m.content + 4

unfoldable pub messages_size : List ChatMessage → ℕ
messages_size [] = 0
messages_size (m ∷ ms) = message_size m + messages_size ms

unfoldable pub chat_size : List ChatMessage → ℕ
chat_size ms = messages_size ms + 2

count_message-eq : (m : ChatMessage) → message_size m < u64_mod → count_message m ≡ message_size m
unfolding count_message message_size
count_message-eq m h = omega arith

sum_from-eq :
    (acc : ℕ) (ms : List ChatMessage)
    → acc + messages_size ms < u64_mod
    → sum_from acc (map count_message ms) ≡ acc + messages_size ms
unfolding sum_from messages_size
sum_from-eq acc [] h = omega arith
sum_from-eq acc (m ∷ ms) h =
    ground (arith, count_message-eq m, sum_from-eq (add_u64 acc (count_message m)) ms)

-- A chat whose size is below 2 ^ 64 counts for exactly that size.
pub count_prompt-chat :
    (ms : List ChatMessage) → chat_size ms < u64_mod → count_prompt (chat ms) ≡ chat_size ms
unfolding count_prompt chat_size
count_prompt-chat ms h = omega (arith, sum_from-eq 0 ms)

pub message_size-ge : (m : ChatMessage) → 6 ≤ message_size m
unfolding message_size
message_size-ge m = omega (arith, (count_text_bounds m.role).0, (count_text_bounds m.content).0)
