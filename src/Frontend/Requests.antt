-- ===== src/Frontend/Requests.antt =====
-- What the checks of crates/inference-frontend/src/main.rs let through.
use inference_data_plane.Prelude.{
  ℕ, ◌<◌, ◌≡◌, ◌≢◌, refl, ap, ◌∙◌, ◌↔◌, true, Option, none, some, List, ◌∷◌, ◌++◌, arith, All-map,
  lookup, u64_mod, ok, Option-cases,
}
use inference_data_plane.Text.{Text, codes, text_eq}
use inference_data_plane.Text.Split.{
  split_once-append, strip_prefix, strip_prefix-append, strip_prefix_sound,
}
use inference_data_plane.Text.Decimal.{show, parse_u64-show, show-IsDigit, IsDigit}
use inference_data_plane.Frontend.{
  AppState, HeaderMap, contains, strip_bearer, header_text, bearer_token, authenticate,
  valid_stream_id, both_parse,
}

digit-ne-dash : (c : ℕ) → IsDigit c → c ≢ b'-'
digit-ne-dash c d = omega arith

-- The cursor of every entry that the broker numbers, `milliseconds-sequence` of two 64-bit words, is
-- taken for one.
pub valid_stream_id-show :
    (milliseconds sequence : ℕ)
    → milliseconds < u64_mod
    → sequence < u64_mod
    → valid_stream_id (show milliseconds ++ b'-' ∷ show sequence) ≡ true
unfolding valid_stream_id both_parse
valid_stream_id-show milliseconds sequence h k =
    let digits =
      All-map (λ c d. digit-ne-dash c d) (show milliseconds) (show-IsDigit milliseconds) in
    rw
      (
        split_once-append b'-' (show milliseconds) (show sequence) digits,
        parse_u64-show milliseconds h,
        parse_u64-show sequence k,
      )
      refl

module _ (to_str : List ℕ → Option Text) (state : AppState) (headers : HeaderMap) where
  strip_bearer_iff :
      (value : Option Text) (token : Text)
      → (strip_bearer to_str value ≡ some token) ↔ (value ≡ some (codes "Bearer " ++ token))
  unfolding strip_bearer
  strip_bearer_iff none token = (λ h. cc, λ h. cc)
  strip_bearer_iff (some value) token = (
    λ h. ap some (strip_prefix_sound (codes "Bearer ") value token h),
    λ h.
        let same : value ≡ codes "Bearer " ++ token = cc in
        ap (strip_prefix (codes "Bearer ")) same ∙ strip_prefix-append (codes "Bearer ") token,
  )

  -- `authenticate` lets a token in exactly when the header is `Bearer ` and that token, and the
  -- token is a key.
  pub authenticate-ok_iff :
      (token : Text)
      → (authenticate to_str state headers ≡ ok token) ↔ (
          (header_text to_str (lookup (codes "authorization") headers)
            ≡ some (codes "Bearer " ++ token))
          × (contains state.api_keys token ≡ true))
  unfolding authenticate bearer_token
  authenticate-ok_iff token =
      let value = header_text to_str (lookup (codes "authorization") headers) in
      ground (arith, strip_bearer_iff value token, Option-cases (strip_bearer to_str value))
