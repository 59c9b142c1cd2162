-- ===== src/Frontend/Handlers.antt =====
-- `rpc_generate`, `rpc_stream_generate`, and what `main` of crates/inference-frontend/src/main.rs
-- makes of the environment and the configuration file. The decoding of a body is a parameter.
pub mod Keys
pub mod Refusals
pub mod Answers
use inference_data_plane.Prelude.{
  ℕ, ◌*◌, Bool, not, Option, none, some, List, [], ◌∷◌, ◌++◌, map, filter, is_empty, unwrap_or,
  Result, ok, err,
}
use inference_data_plane.Text.{Text, codes}
use inference_data_plane.Text.Trim.{trim}
use inference_data_plane.Text.Lines.{split_lines}
use inference_data_plane.Streams.{StreamsConfig}
use inference_data_plane.Streams.Wire.{GenerateRequest, GenerateResponse, GenerationEvent}
use inference_data_plane.Streams.Quota.{QuotaLimits}
use inference_data_plane.Frontend.{
  ModelConfig, AppState, Response, HeaderMap, error_response, bad_request,
}
use inference_data_plane.Frontend.Envelope.{Codec}
use inference_data_plane.Frontend.Admit.{Services, Admission, admit_and_dispatch}
use inference_data_plane.Frontend.Generate.{Reply, collect_generation, stream_generation}

-- Durations in seconds.
pub record StreamSettings : Type 0 where
  pub active_ttl_seconds : ℕ
  pub result_retention_seconds : ℕ
  pub lease_seconds : ℕ
  pub generation_timeout_seconds : ℕ

abbrev pub default_settings : StreamSettings
default_settings = record {
  active_ttl_seconds = 3_600;
  result_retention_seconds = 600;
  lease_seconds = 60;
  generation_timeout_seconds = 300;
}

-- `ServiceConfig`, without the addresses of the broker and of the server.
pub record ServiceConfig : Type 0 where
  pub model : ModelConfig
  pub api_keys : List Text
  pub quota : QuotaLimits
  pub streams : StreamSettings

unfoldable pub clean_keys : List Text → List Text
unfolding trim
clean_keys keys = filter (λ key. not (is_empty key)) (map trim keys)

-- `str::split` at a character
unfoldable pub split_at : ℕ → Text → List Text
unfolding split_lines
split_at mark s = let (parts, last) = split_lines mark s in parts ++ last ∷ []

unfoldable pub api_keys_from_env : Option Text → Option (List Text)
unfolding clean_keys split_at
api_keys_from_env none = none
api_keys_from_env (some raw) = some (clean_keys (split_at b',' raw))

unfoldable pub streams_config : StreamSettings → StreamsConfig
streams_config settings = record {
  active_ttl = settings.active_ttl_seconds * 1000;
  result_retention = settings.result_retention_seconds * 1000;
  lease_duration = settings.lease_seconds * 1000;
}

-- The state that the handlers share.
unfoldable pub app_state : Option Text → ServiceConfig → AppState
unfolding api_keys_from_env clean_keys
app_state api_keys config = record {
  model = config.model;
  api_keys = unwrap_or (api_keys_from_env api_keys) (clean_keys config.api_keys);
  quota = config.quota;
  generation_timeout = config.streams.generation_timeout_seconds * 1000;
}

module _ (S : Services) (state : AppState) (headers : HeaderMap) (unix_ms : ℕ)
    (request_id : Text) where
  open S use {World}

  -- The two handlers up to the admission.
  unfoldable pub admitted : Result Text GenerateRequest → World → Result Response Admission × World
  unfolding error_response admit_and_dispatch
  admitted (err e) w = (err (error_response bad_request e), w)
  admitted (ok request) w = admit_and_dispatch S state headers request unix_ms request_id w

  module _ (encode_response : GenerateResponse → List ℕ)
      (subscribe : Text → World → Result Text (Option (List Reply))) where
    collected : Result Response Admission × World → Option Response × World
    unfolding collect_generation
    collected (err response, w) = (some response, w)
    collected (ok admission, w) =
        (collect_generation encode_response state (subscribe admission.request_id w) admission, w)

    unfoldable pub rpc_generate : Result Text GenerateRequest → World → Option Response × World
    unfolding admitted collected
    rpc_generate decoded w = collected (admitted decoded w)

  module _ (P : Codec GenerationEvent)
      (subscribe : Text → World → Result Text (Option (List Reply))) where
    streamed : Result Response Admission × World → Response × World
    unfolding stream_generation
    streamed (err response, w) = (response, w)
    streamed (ok admission, w) =
        (stream_generation P state admission.request_id (subscribe admission.request_id w), w)

    unfoldable pub rpc_stream_generate : Result Text GenerateRequest → World → Response × World
    unfolding admitted streamed
    rpc_stream_generate decoded w = streamed (admitted decoded w)
