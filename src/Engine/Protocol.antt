-- ===== src/Engine/Protocol.antt =====
-- What one run of `run_job` of crates/inference-engine/src/main.rs may do to the broker, as the
-- calls that it makes: the protocol between an engine and the rest of the data plane.
pub mod Tokens
pub mod Backends
pub mod Attempt
pub mod Settle
pub mod Job
use inference_data_plane.Prelude.{
  ℕ, ◌≡◌, Bool, true, false, Option, some, List, [], ◌∷◌, ◌++◌, is_empty, All, Result, ok, err,
}
use inference_data_plane.Text.{Text, codes}
use inference_data_plane.Streams.Wire.{
  GenerationJob, GenerationStatus, GenerationResult, ResultEvent, attempt_started, token,
  TokenChunk, IsOpenEvent,
}
use inference_data_plane.Engine.{GenerationUsage, JobDisposition, acknowledge, pending}
use inference_data_plane.Engine.Results.{result_of, completion_event, failure_event}
use inference_data_plane.Engine.Job.{is_overdue, is_completed, lease_owner}
use inference_data_plane.Engine.Calls.{
  Call, published, asked, acquired, released, reconciled, cancelled,
}

-- No event that ends a generation is known to be in a result stream because of the call.
abbrev pub IsUnfinished : Call → Type 0
IsUnfinished (published result (ok event_id)) = IsOpenEvent result.event
IsUnfinished _ = Unit {0}

module _ (job : GenerationJob) where
  -- A result that has been published under an identifier.
  unfoldable pub sent : Text → ResultEvent → Text → Call
  unfolding result_of
  sent attempt_id event event_id = published (result_of job attempt_id event) (ok event_id)

  unfoldable pub token_calls : Text → List (Text × TokenChunk) → List Call
  unfolding sent
  token_calls attempt_id [] = []
  token_calls attempt_id ((event_id, chunk) ∷ chunks) =
      sent attempt_id (token chunk) event_id ∷ token_calls attempt_id chunks

  -- A start or a token of the attempt, whatever the reply.
  pub data IsOpening (attempt_id : Text) : Call → Type 0 where
    opening :
        (event : ResultEvent) (reply : Result Text Text)
        → IsOpenEvent (some event)
        → IsOpening attempt_id (published (result_of job attempt_id event) reply)

  module _ (engine_id : Text) (unix_ms : ℕ) (attempt_id : Text) where
    -- What comes before an attempt: the job is not overdue and not completed, and its lease has been
    -- asked for.
    unfoldable pub asked_lease : Option GenerationStatus → Bool → List Call → List Call
    unfolding lease_owner
    asked_lease known granted cs =
        asked job.request_id (ok known)
        ∷ (acquired job.request_id (lease_owner engine_id attempt_id) (ok granted) ∷ cs)

    -- What comes after an attempt: the lease is given back, the quota is reconciled with the tokens
    -- that were generated, and the generation is ended.
    unfoldable pub ended : ℕ → ℕ → ResultEvent → Text → List Call
    unfolding sent lease_owner
    ended generated refund event event_id =
        released job.request_id (lease_owner engine_id attempt_id) (ok tt)
        ∷ (reconciled job.reservation_id generated (ok refund)
            ∷ (sent attempt_id event event_id ∷ []))

    pub data Protocol : Result Text JobDisposition → List Call → Type 0 where
      overdue :
          (event_id : Text)
          → is_overdue unix_ms job ≡ true
          → Protocol (ok acknowledge) (
              cancelled job.reservation_id (ok tt)
              ∷ (sent engine_id
                    (failure_event
                      (codes "deadline_exceeded")
                      (codes "generation deadline exceeded")
                      false)
                    event_id
                  ∷ []))
      already :
          (known : Option GenerationStatus)
          → is_overdue unix_ms job ≡ false
          → is_completed known ≡ true
          → Protocol (ok acknowledge) (asked job.request_id (ok known) ∷ [])
      owned :
          (known : Option GenerationStatus)
          → is_overdue unix_ms job ≡ false
          → is_completed known ≡ false
          → Protocol (ok pending) (asked_lease known false [])
      finished :
          (known : Option GenerationStatus) (start_id : Text) (chunks : List (Text × TokenChunk))
          (usage : GenerationUsage) (refund : ℕ) (event_id : Text)
          → is_overdue unix_ms job ≡ false
          → is_completed known ≡ false
          → is_empty usage.finish_reason ≡ false
          → Protocol (ok acknowledge) (
              asked_lease known true (
                (sent attempt_id attempt_started start_id ∷ token_calls attempt_id chunks)
                ++ ended usage.generated_tokens refund (completion_event usage) event_id))
      given_up :
          (known : Option GenerationStatus) (cs : List Call) (error_chain : Text) (refund : ℕ)
          (event_id : Text)
          → is_overdue unix_ms job ≡ false
          → is_completed known ≡ false
          → All (IsOpening attempt_id) cs
          → Protocol (ok acknowledge) (
              asked_lease known true (
                cs
                ++ ended 0 refund
                    (failure_event (codes "backend_error") error_chain false)
                    event_id))
      broken : (e : Text) (cs : List Call) → All IsUnfinished cs → Protocol (err e) cs
