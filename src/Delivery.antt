-- ===== src/Delivery.antt =====
-- A job of crates/inference-engine/src/main.rs, and the answer that `collect_generation` of
-- crates/inference-frontend/src/main.rs makes of the results that the engine publishes.
pub mod Collect
pub mod Answer
pub mod Broker
pub mod Examples
use inference_data_plane.Prelude.{
  ◌≡◌, ◌≢◌, ◌⊎◌, ℕ, Option, none, some, true, List, [], ◌∷◌, ◌++◌, Has, Result, ok, err,
}
use inference_data_plane.Text.{Text}
use inference_data_plane.Streams.Wire.{
  GenerationJob, GenerationStatus, ResultEvent, token, TokenChunk, GenerationResult, ResultEntry,
}
use inference_data_plane.Frontend.{Response, error_response, bad_gateway}
use inference_data_plane.Frontend.Generate.{Collected}
use inference_data_plane.Frontend.Generate.Collect.{last_started}
use inference_data_plane.Engine.Job.{is_completed}
use inference_data_plane.Engine.Calls.{Call, published, asked, reconciled, cancelled}

-- The entry of a result that has been published, in the stream of its request.
unfoldable pub entries : List Call → List ResultEntry
entries [] = []
entries (published result (ok event_id) ∷ cs) =
    record { event_id = event_id; result = result } ∷ entries cs
entries (call ∷ cs) = entries cs

abbrev pub token_text : Option ResultEvent → Text
token_text (some (token chunk)) = chunk.text
token_text event = []

-- The texts of the tokens, one after the other.
unfoldable pub written : List ResultEntry → Text
written [] = []
written (entry ∷ rest) = token_text entry.result.event ++ written rest

-- The entries that are in the stream before the attempt are none, or those of another attempt.
abbrev pub IsFresh : Text → List ResultEntry → Type 0
IsFresh attempt_id before =
    (before ≡ []) ⊎ ((last_started [] before ≢ []) × (last_started [] before ≢ attempt_id))

-- A job whose generation had ended before: one question, and no other call.
abbrev pub LeftAlone : GenerationJob → List Call → Type 0
LeftAlone job cs =
    (known : Option GenerationStatus) × (is_completed known ≡ true)
    × (cs ≡ asked job.request_id (ok known) ∷ [])

-- The answer to the caller, and what the reservation was charged.
pub data Delivered (job : GenerationJob) (cs : List Call)
    : Option (Result Response Collected) → Type 0 where
  answered :
      (generated refund : ℕ) (reason : Text)
      → Has (reconciled job.reservation_id generated (ok refund)) cs
      → Delivered job cs (
          some (
            ok (record {
              text = written (entries cs);
              generated_tokens = generated;
              finish_reason = reason;
            })))
  refused :
      (message : Text) (refund : ℕ)
      → Has (reconciled job.reservation_id 0 (ok refund)) cs
      → Delivered job cs (some (err (error_response bad_gateway message)))
  expired :
      (message : Text)
      → Has (cancelled job.reservation_id (ok tt)) cs
      → Delivered job cs (some (err (error_response bad_gateway message)))
