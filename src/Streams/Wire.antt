-- ===== src/Streams/Wire.antt =====
-- The messages of proto/inference/v1/inference.proto and proto/inference/internal/v1/streams.proto
-- that the Rust crates exchange. Their encoding is generated code, and a parameter where it is used.
use inference_data_plane.Prelude.{ℕ, Bool, Option, some, List}
use inference_data_plane.Text.{Text}
use inference_data_plane.Budget.{ChatMessage}

-- A float that is passed on only, by its bits.
pub record GenerateRequest : Type 0 where
  pub model : Text
  pub messages : List ChatMessage
  pub prompt : Text
  pub max_tokens : ℕ
  pub temperature : ℕ

pub record GenerateResponse : Type 0 where
  pub request_id : Text
  pub model : Text
  pub text : Text
  pub prompt_tokens : ℕ
  pub generated_tokens : ℕ
  pub finish_reason : Text

pub record SubscribeGenerationRequest : Type 0 where
  pub request_id : Text
  pub after_event_id : Option Text

pub record GenerationEvent : Type 0 where
  pub request_id : Text
  pub model : Text
  pub delta : Text
  pub generated_tokens : ℕ
  pub finish_reason : Text
  pub event_id : Text
  pub attempt_id : Text
  pub prompt_tokens : ℕ
  pub terminal : Bool

pub record CacheMetadata : Type 0 where
  pub cache_key : Text
  pub prefix_tokens_estimate : ℕ

pub record GenerationJob : Type 0 where
  pub schema_version : ℕ
  pub request_id : Text
  pub model_id : Text
  pub model_revision : Text
  pub model_endpoint : Text
  pub request_json : List ℕ
  pub deadline_unix_ms : ℕ
  pub reservation_id : Text
  pub cache : Option CacheMetadata

pub record TokenChunk : Type 0 where
  pub text : Text
  pub cumulative_generated_tokens : ℕ

pub record GenerationCompleted : Type 0 where
  pub prompt_tokens : ℕ
  pub generated_tokens : ℕ
  pub finish_reason : Text

pub record GenerationFailed : Type 0 where
  pub code : Text
  pub message : Text
  pub retryable : Bool

-- The `oneof event` of a result.
pub data ResultEvent : Type 0 where
  attempt_started : ResultEvent
  token : TokenChunk → ResultEvent
  completed : GenerationCompleted → ResultEvent
  failed : GenerationFailed → ResultEvent

-- An event that does not end the generation.
abbrev pub IsOpenEvent : Option ResultEvent → Type 0
IsOpenEvent (some (completed done)) = ⊥
IsOpenEvent (some (failed failure)) = ⊥
IsOpenEvent _ = Unit {0}

pub record GenerationResult : Type 0 where
  pub schema_version : ℕ
  pub request_id : Text
  pub attempt_id : Text
  pub event : Option ResultEvent

-- `ResultEntry` of crates/inference-streams/src/lib.rs
pub record ResultEntry : Type 0 where
  pub event_id : Text
  pub result : GenerationResult

-- `GenerationStatus` of crates/inference-streams/src/lib.rs
pub record GenerationStatus : Type 0 where
  pub state : Text
  pub model_id : Text
  pub active_attempt_id : Option Text
  pub terminal_event_id : Option Text
