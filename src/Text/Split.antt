-- ===== src/Text/Split.antt =====
-- `str::split_once`, `strip_prefix` and `join`.
use inference_data_plane.Prelude.{
  ℕ, ◌≡◌, refl, List, [], ◌∷◌, ◌++◌, Option, none, some, arith, eqb, All, ◌≢◌, if◌then◌else◌,
}
use inference_data_plane.Text.{Text}

unfoldable pub add_front : ℕ → Option (Text × Text) → Option (Text × Text)
add_front c none = none
add_front c (some (a, b)) = some (c ∷ a, b)

-- The parts before and after the first `mark`.
unfoldable pub split_once : ℕ → Text → Option (Text × Text)
unfolding add_front
split_once mark [] = none
split_once mark (c ∷ s) = if eqb c mark then some ([], s) else add_front c (split_once mark s)

unfoldable pub strip_prefix : Text → Text → Option Text
strip_prefix [] s = some s
strip_prefix (p ∷ ps) [] = none
strip_prefix (p ∷ ps) (c ∷ s) = if eqb p c then strip_prefix ps s else none

unfoldable pub join : Text → List Text → Text
join mark [] = []
join mark (a ∷ []) = a
join mark (a ∷ b ∷ rest) = a ++ (mark ++ join mark (b ∷ rest))

-- `split_once` undoes the concatenation when the first part is free of the mark.
pub split_once-append :
    (mark : ℕ) (a b : Text) → All (λ c. c ≢ mark) a → split_once mark (a ++ mark ∷ b) ≡ some (a, b)
unfolding split_once
split_once-append mark [] b h = ground arith
split_once-append mark (c ∷ a) b h = ground (arith, split_once-append mark a b h.1, h.0)

-- `strip_prefix` succeeds exactly on the texts that begin with the prefix.
pub strip_prefix-append : (p s : Text) → strip_prefix p (p ++ s) ≡ some s
unfolding strip_prefix
strip_prefix-append [] s = refl
strip_prefix-append (c ∷ p) s = ground (arith, strip_prefix-append p s)

pub strip_prefix_sound : (p s rest : Text) → strip_prefix p s ≡ some rest → s ≡ p ++ rest
unfolding strip_prefix
strip_prefix_sound [] s rest h = cc
strip_prefix_sound (c ∷ p) [] rest h = cc
strip_prefix_sound (c ∷ p) (d ∷ s) rest h = ground (arith, strip_prefix_sound p s rest)
