-- ===== src/Engine/Start.antt =====
-- `main` of crates/inference-engine/src/main.rs: its configuration file and environment, what it
-- makes of them, and the loop that it starts. The parsed file and the environment are arguments; the
-- HTTP client is part of the model server, and its making does not fail.
use inference_data_plane.Prelude.{
  ℕ, ◌*◌, not, Option, none, some, List, ◌++◌, is_empty, unwrap_or, or_option, filter_option,
  if◌then◌else◌,
}
use inference_data_plane.Prelude.Action.{Action, ◌>>=◌}
use inference_data_plane.Text.{Text, codes, text_beq}
use inference_data_plane.Streams.{StreamsConfig}
use inference_data_plane.Engine.{
  Backend, synthetic, open_ai_compatible, EngineConfig, Json, Client, ModelServer,
}
use inference_data_plane.Engine.Worker.{Consumers, turns}

-- Durations in seconds.
pub record StreamSettings : Type 0 where
  pub active_ttl_seconds : ℕ
  pub result_retention_seconds : ℕ
  pub lease_seconds : ℕ
  pub reclaim_idle_seconds : ℕ

abbrev pub default_settings : StreamSettings
default_settings = record {
  active_ttl_seconds = 3_600;
  result_retention_seconds = 600;
  lease_seconds = 60;
  reclaim_idle_seconds = 90;
}

pub record ModelConfig : Type 0 where
  pub id : Text
  pub endpoint : Text

pub record BackendConfig : Type 0 where
  pub kind : Text
  pub mlx_base_url : Option Text
  pub openai_base_url : Option Text
  pub synthetic_token_delay_ms : Option ℕ

-- The file, without the address of the broker.
pub record ServiceConfig : Type 0 where
  pub model : ModelConfig
  pub backend : BackendConfig
  pub streams : StreamSettings

-- The variables that are set.
pub record Environment : Type 0 where
  pub engine_id : Option Text
  pub backend : Option Text
  pub model_endpoint : Option Text
  pub model_id : Option Text

unfoldable pub streams_config : StreamSettings → StreamsConfig
streams_config settings = record {
  active_ttl = settings.active_ttl_seconds * 1000;
  result_retention = settings.result_retention_seconds * 1000;
  lease_duration = settings.lease_seconds * 1000;
}

-- `format!("engine-{}", uuid)` unless ENGINE_ID is set.
unfoldable pub worker_id : Environment → Text → Text
unfolding codes
worker_id env uuid = unwrap_or env.engine_id (codes "engine-" ++ uuid)

unfoldable pub backend_of : Text → Backend
unfolding codes text_beq
backend_of kind = if text_beq kind (codes "synthetic") then synthetic else open_ai_compatible

-- The first of MODEL_ENDPOINT, the endpoint of the model, and the two addresses of the backend.
unfoldable pub endpoint : Environment → ServiceConfig → Text
unfolding codes
endpoint env service =
    unwrap_or
      (or_option
        (or_option
          (or_option (filter_option (λ value. not (is_empty value)) env.model_endpoint)
            (if not (is_empty service.model.endpoint) then some service.model.endpoint else none))
          service.backend.openai_base_url)
        service.backend.mlx_base_url)
      (codes "http://127.0.0.1:18000")

unfoldable pub engine_config : Environment → ServiceConfig → EngineConfig
unfolding backend_of endpoint
engine_config env service = record {
  backend = backend_of (unwrap_or env.backend service.backend.kind);
  model = unwrap_or env.model_id service.model.id;
  endpoint = endpoint env service;
  synthetic_token_delay = unwrap_or service.backend.synthetic_token_delay_ms 0;
}

module _ (Js : Json) (C : Client) (M : ModelServer Js.Value C.World) (Q : Consumers C.World) where
  -- `main`, for as many rounds of its loop as there are clock readings and fresh identifiers.
  unfoldable pub run_engine :
      Environment → ServiceConfig → Text → List (ℕ × Text) → Action C.World Text Q.JobConsumer
  unfolding worker_id engine_config turns
  run_engine env service uuid rounds =
      let id = worker_id env uuid in
      Q.consumer id
      >>= turns Js C M Q (engine_config env service) id
          (service.streams.reclaim_idle_seconds * 1000) rounds
