-- ===== src/Engine.antt =====
-- crates/inference-engine/src/main.rs: the worker that takes jobs, runs them on a model and
-- publishes their results. The Streams client, the model server, JSON and UTF-8 are interfaces;
-- the clock and fresh identifiers are arguments.
pub mod Request
pub mod Results
pub mod Sse
pub mod Attempt
pub mod Job
pub mod Worker
pub mod Start
pub mod Reliable
pub mod Calls
pub mod Protocol
pub mod Counts
pub mod Heartbeat
pub mod Examples
use inference_data_plane.Prelude.{ℕ, Bool, Option, none, List, [], Result}
use inference_data_plane.Prelude.Action.{Action}
use inference_data_plane.Text.{Text}
use inference_data_plane.Streams.Wire.{GenerationResult, GenerationStatus}

pub data Backend : Type 0 where
  synthetic open_ai_compatible : Backend

-- The delay is in milliseconds; the HTTP client is part of `ModelServer`.
pub record EngineConfig : Type 0 where
  pub backend : Backend
  pub model : Text
  pub endpoint : Text
  pub synthetic_token_delay : ℕ

-- A float that is passed on only, by its bits.
pub record RuntimeRequest (Value : Type 0) : Type 0 where
  pub model : Text
  pub messages : Option (List Value)
  pub prompt : Option Text
  pub max_tokens : ℕ
  pub temperature : ℕ

pub record GenerationUsage : Type 0 where
  pub prompt_tokens : ℕ
  pub generated_tokens : ℕ
  pub finish_reason : Text

abbrev pub default_usage : GenerationUsage
default_usage = record { prompt_tokens = 0; generated_tokens = 0; finish_reason = [] }

pub data JobDisposition : Type 0 where
  acknowledge pending : JobDisposition

-- What the engine uses of `serde_json`: `Value::get` at a key, `as_u64`, `as_str`, `as_array`, the
-- objects and strings that `json!` makes, and the two parsers, with the text of their errors.
pub record Json : Type 1 where
  pub Value : Type 0
  pub get : Text → Value → Option Value
  pub as_u64 : Value → Option ℕ
  pub as_str : Value → Option Text
  pub as_array : Value → Option (List Value)
  pub object : List (Text × Value) → Value
  pub string : Text → Value
  pub from_str : Text → Result Text Value
  pub from_slice : List ℕ → Result Text (RuntimeRequest Value)

-- The body that is posted to the model server.
pub record ChatPayload (Value : Type 0) : Type 0 where
  pub model : Text
  pub messages : List Value
  pub max_tokens : ℕ
  pub temperature : ℕ
  pub stream : Bool
  pub include_usage : Bool

-- The Streams client as the engine uses it. An error is the text of the `anyhow::Error` that `?`
-- makes of it. What other tasks do meanwhile is part of what a call does to the world.
pub record Client : Type 1 where
  pub World : Type 0
  pub publish_result : GenerationResult → Action World Text Text
  pub status : Text → Action World Text (Option GenerationStatus)
  pub acquire_lease : Text → Text → Action World Text Bool
  pub renew_lease : Text → Text → Action World Text Bool
  pub release_lease : Text → Text → Action World Text (Unit {0})
  pub reconcile_quota : Text → ℕ → Action World Text ℕ
  pub cancel_quota : Text → Action World Text (Unit {0})
  -- `tokio::time::sleep`, in milliseconds
  pub sleep : ℕ → World → World

-- The model server: `post` sends the body and checks the status of the response, whose chunks
-- arrive one by one, each perhaps an error instead. `from_utf8_lossy` decodes one chunk.
pub record ModelServer (Value World : Type 0) : Type 1 where
  pub post : Text → ChatPayload Value → Action World Text (List (Result Text (List ℕ)))
  pub from_utf8_lossy : List ℕ → Text
