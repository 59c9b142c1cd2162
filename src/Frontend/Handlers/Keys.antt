-- ===== src/Frontend/Handlers/Keys.antt =====
-- The API keys that crates/inference-frontend/src/main.rs lets in.
use inference_data_plane.Prelude.{
  ℕ, ◌≡◌, ◌≢◌, refl, true, false, not, Option, none, some, List, [], ◌∷◌, map, is_empty, All,
  All-filter, arith, ok,
}
use inference_data_plane.Text.{Text, text_beq}
use inference_data_plane.Text.Trim.{trim}
use inference_data_plane.Frontend.{HeaderMap, contains, authenticate}
use inference_data_plane.Frontend.Requests.{authenticate-ok_iff}
use inference_data_plane.Frontend.Handlers.{
  ServiceConfig, clean_keys, split_at, api_keys_from_env, app_state,
}

abbrev IsNamed : Text → Type 0
IsNamed key = is_empty key ≡ false

all_true : (keys : List Text) → All (λ key. Unit {0}) keys
all_true [] = tt
all_true (key ∷ keys) = (tt, all_true keys)

clean_keys-IsNamed : (keys : List Text) → All IsNamed (clean_keys keys)
unfolding clean_keys
clean_keys-IsNamed keys =
    All-filter (λ key. not (is_empty key)) (λ key h k. ground (arith, h)) (map trim keys)
      (all_true (map trim keys))

app_state-IsNamed :
    (env : Option Text) (config : ServiceConfig) → All IsNamed (app_state env config).api_keys
unfolding app_state api_keys_from_env
app_state-IsNamed none config = clean_keys-IsNamed config.api_keys
app_state-IsNamed (some raw) config = clean_keys-IsNamed (split_at b',' raw)

contains-empty : (keys : List Text) → All IsNamed keys → contains keys [] ≡ false
unfolding contains text_beq
contains-empty [] h = refl
contains-empty ([] ∷ keys) h = cc (h.0)
contains-empty ((c ∷ k) ∷ keys) h = contains-empty keys h.1

-- Whatever the environment and the configuration file hold, blanks and empty items among them, the
-- empty token is no key: a request that is let in has a token that is not empty.
pub authenticate-named :
    (to_str : List ℕ → Option Text) (env : Option Text) (config : ServiceConfig)
    (headers : HeaderMap) (token : Text)
    → authenticate to_str (app_state env config) headers ≡ ok token
    → token ≢ []
authenticate-named to_str env config headers token h e =
    let state = app_state env config in
    let known : contains state.api_keys token ≡ true =
      ((authenticate-ok_iff to_str state headers token).0 h).1 in
    let unknown = contains-empty state.api_keys (app_state-IsNamed env config) in
    cc (known, unknown, e)
