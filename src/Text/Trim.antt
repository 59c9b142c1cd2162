-- ===== src/Text/Trim.antt =====
-- `str::trim` and `str::trim_end_matches` of a character.
use inference_data_plane.Prelude.{ℕ, Bool, ◌&&◌, [], ◌∷◌, eqb, is_empty, if◌then◌else◌}
use inference_data_plane.Text.{Text}
use inference_data_plane.Text.Space.{is_whitespace}

module _ (test : ℕ → Bool) where
  pub trim_end_by : Text → Text
  trim_end_by [] = []
  trim_end_by (c ∷ s) = let rest = trim_end_by s in if is_empty rest && test c then [] else c ∷ rest

  pub trim_start_by : Text → Text
  trim_start_by [] = []
  trim_start_by (c ∷ s) = let rest = trim_start_by s in if test c then rest else c ∷ s

unfoldable pub trim_end_matches : ℕ → Text → Text
unfolding trim_end_by
trim_end_matches mark s = trim_end_by (λ c. eqb c mark) s

unfoldable pub trim : Text → Text
unfolding trim_end_by trim_start_by is_whitespace
trim s = trim_start_by is_whitespace (trim_end_by is_whitespace s)
