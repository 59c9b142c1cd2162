-- ===== src/Text/Space.antt =====
-- `char::is_whitespace` (the Unicode property White_Space) and `str::split_whitespace`.
use inference_data_plane.Prelude.{
  ℕ, ◌+◌, ◌≤◌, Bool, not, ◌&&◌, ◌||◌, List, [], ◌∷◌, ◌++◌, arith, leb, eqb, length, length-append,
  is_empty, if◌then◌else◌,
}
use inference_data_plane.Text.{Text}

unfoldable pub is_whitespace : ℕ → Bool
is_whitespace c =
    (leb 9 c && leb c 13)
    || eqb c 32
    || eqb c 133
    || eqb c 160
    || eqb c 5760
    || (leb 8192 c && leb c 8202)
    || eqb c 8232
    || eqb c 8233
    || eqb c 8239
    || eqb c 8287
    || eqb c 12288

-- `word` is the run of other characters that has been read.
unfoldable pub words_from : Text → Text → List Text
unfolding is_whitespace
words_from word [] = if is_empty word then [] else word ∷ []
words_from word (c ∷ s) =
    let space = is_whitespace c in
    let rest = words_from (if space then [] else word ++ c ∷ []) s in
    if space && not (is_empty word) then word ∷ rest else rest

unfoldable pub split_whitespace : Text → List Text
unfolding words_from
split_whitespace s = words_from [] s

words_from-le : (word s : Text) → length (words_from word s) ≤ length word + length s
unfolding words_from
words_from-le [] [] = omega arith
words_from-le (a ∷ word) [] = omega arith
words_from-le [] (c ∷ s) = ground (arith, words_from-le [] s, words_from-le (c ∷ []) s)
words_from-le (a ∷ word) (c ∷ s) =
    ground
      (arith, words_from-le [] s, words_from-le (a ∷ word ++ c ∷ []) s, length-append word (c ∷ []))

-- There are at most as many words as characters.
pub length-split_whitespace-le : (s : Text) → length (split_whitespace s) ≤ length s
unfolding split_whitespace
length-split_whitespace-le s = omega (arith, words_from-le [] s)
