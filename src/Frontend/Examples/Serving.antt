-- ===== src/Frontend/Examples/Serving.antt =====
-- The handlers and the keys of crates/inference-frontend/src/main.rs at concrete requests.
use inference_data_plane.Prelude.{◌≡◌, ◌≢◌, ◌↔◌, refl, none, some, [], ◌∷◌, ok, lookup}
use inference_data_plane.Text.{codes, text_beq}
use inference_data_plane.Text.Split.{strip_prefix}
use inference_data_plane.Text.Trim.{trim}
use inference_data_plane.Text.Lines.{split_lines}
use inference_data_plane.Frontend.{success, authenticate, bearer_token, contains}
use inference_data_plane.Frontend.Admit.{Admission}
use inference_data_plane.Frontend.Handlers.{
  ServiceConfig, default_settings, clean_keys, split_at, api_keys_from_env, app_state, admitted,
  rpc_generate, rpc_stream_generate,
}
use inference_data_plane.Frontend.Handlers.Keys.{authenticate-named}
use inference_data_plane.Frontend.Handlers.Answers.{Succeeds, Completed, handlers-success_iff}
use inference_data_plane.Frontend.Examples.{bearer, served, plain_codec}
use inference_data_plane.Frontend.Examples.Admission.{ledger_services, hello, broker_down}

abbrev file : ServiceConfig
file = record {
  model = served.model;
  api_keys = [];
  quota = served.quota;
  streams = default_settings;
}

-- Blanks around a key and empty items are dropped.
keys_from_env :
    api_keys_from_env (some (codes " key ,, x,")) ≡ some (codes "key" ∷ (codes "x" ∷ []))
unfolding api_keys_from_env clean_keys split_at trim split_lines codes
keys_from_env = refl

let_in : authenticate some (app_state (some (codes " key ,, x,")) file) bearer ≡ ok (codes "key")
unfolding authenticate bearer_token lookup strip_prefix contains text_beq app_state
    api_keys_from_env clean_keys split_at trim split_lines codes
let_in = refl

authenticate-named_example : codes "key" ≢ []
authenticate-named_example =
    authenticate-named some (some (codes " key ,, x,")) file bearer (codes "key") let_in

handlers-success_iff_example :
    (Succeeds ledger_services served bearer 0
        (codes "r")
        (λ response. response.text)
        plain_codec
        (λ id w. ok none)
        (rpc_generate ledger_services served bearer 0
          (codes "r")
          (λ response. response.text)
          (λ id w. ok none)
          (ok hello)
          broker_down).0
      ↔ Completed ledger_services served bearer 0
          (codes "r")
          (λ response. response.text)
          plain_codec
          (λ id w. ok none)
          (admitted ledger_services served bearer 0 (codes "r") (ok hello) broker_down))
    × (((rpc_stream_generate ledger_services served bearer 0
            (codes "r")
            plain_codec
            (λ id w. ok none)
            (ok hello)
            broker_down).0.status
          ≡ success)
        ↔ ((a : Admission) × ((admitted ledger_services served bearer 0
                (codes "r")
                (ok hello)
                broker_down).0
              ≡ ok a)))
handlers-success_iff_example =
    handlers-success_iff ledger_services served bearer 0 (codes "r") (λ response. response.text)
      plain_codec (λ id w. ok none) (ok hello) broker_down
