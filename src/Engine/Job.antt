-- ===== src/Engine/Job.antt =====
-- `run_job` and the heartbeat of crates/inference-engine/src/main.rs.
use inference_data_plane.Prelude.{
  ℕ, Bool, true, false, ◌&&◌, Option, none, some, List, [], ◌∷◌, ◌++◌, ltb, Result, ok, err,
  if◌then◌else◌,
}
use inference_data_plane.Prelude.Action.{Action, pure, ◌>>=◌, ◌>>◌}
use inference_data_plane.Text.{Text, codes, text_beq}
use inference_data_plane.Streams.Wire.{GenerationJob, GenerationStatus}
use inference_data_plane.Engine.{
  EngineConfig, GenerationUsage, JobDisposition, acknowledge, pending, Json, Client, ModelServer,
}
use inference_data_plane.Engine.Results.{publish_completion, publish_failure}
use inference_data_plane.Engine.Attempt.{execute_attempt}

-- `job.deadline_unix_ms > 0 && unix_ms() > job.deadline_unix_ms`
unfoldable pub is_overdue : ℕ → GenerationJob → Bool
is_overdue unix_ms job = ltb 0 job.deadline_unix_ms && ltb job.deadline_unix_ms unix_ms

unfoldable pub is_completed : Option GenerationStatus → Bool
unfolding codes text_beq
is_completed none = false
is_completed (some status) = text_beq status.state (codes "completed")

-- `format!("{engine_id}:{attempt_id}")`
unfoldable pub lease_owner : Text → Text → Text
lease_owner engine_id attempt_id = engine_id ++ b':' ∷ attempt_id

-- Which branch of `select!` a round of the heartbeat takes: the signal to stop, or the twenty
-- seconds that have passed.
pub data Wake : Type 0 where
  stop elapsed : Wake

-- Whether the task goes on after a renewal: an error is only logged.
unfoldable pub goes_on : Result Text Bool → Bool
goes_on (ok renewed) = renewed
goes_on (err e) = true

module _ (C : Client) (request_id owner : Text) where
  open C use {World, renew_lease}

  -- Whether the task has returned, after the given rounds.
  unfoldable pub heartbeat : List Wake → World → Bool × World
  unfolding goes_on
  heartbeat [] w = (false, w)
  heartbeat (stop ∷ wakes) w = (true, w)
  heartbeat (elapsed ∷ wakes) w =
      let (reply, after) = renew_lease request_id owner w in
      elim (goes_on reply) [ true ↦ heartbeat wakes after | false ↦ (true, after) ]

module _ (Js : Json) (C : Client) (M : ModelServer Js.Value C.World) (config : EngineConfig)
    (engine_id : Text) (job : GenerationJob) where
  open C use {World, status, acquire_lease, release_lease, reconcile_quota, cancel_quota}

  unfoldable pub fail_overdue : Action World Text JobDisposition
  unfolding codes publish_failure
  fail_overdue = do
    cancel_quota job.reservation_id
    publish_failure C job engine_id (codes "deadline_exceeded")
        (codes "generation deadline exceeded") false
    pure acknowledge

  -- What follows the attempt, on its result.
  unfoldable pub settle : Text → Result Text GenerationUsage → Action World Text JobDisposition
  unfolding codes publish_completion publish_failure
  settle attempt_id (ok usage) = do
    refund ← reconcile_quota job.reservation_id usage.generated_tokens
    publish_completion C job attempt_id usage
    pure acknowledge
  settle attempt_id (err error_chain) = do
    refund ← reconcile_quota job.reservation_id 0
    publish_failure C job attempt_id (codes "backend_error") error_chain false
    pure acknowledge

  -- The lease is given back whatever the result of the attempt is.
  unfoldable pub run_attempt : Text → Action World Text JobDisposition
  unfolding execute_attempt settle lease_owner
  run_attempt attempt_id w =
      let (result, after) = execute_attempt Js C config job attempt_id M w in
      (release_lease job.request_id (lease_owner engine_id attempt_id) >> settle attempt_id result)
        after

  unfoldable pub run_leased : Text → Bool → Action World Text JobDisposition
  unfolding run_attempt
  run_leased attempt_id true = run_attempt attempt_id
  run_leased attempt_id false = pure pending

  unfoldable pub run_known : Text → Bool → Action World Text JobDisposition
  unfolding run_leased lease_owner
  run_known attempt_id true = pure acknowledge
  run_known attempt_id false =
      acquire_lease job.request_id (lease_owner engine_id attempt_id) >>= run_leased attempt_id

  -- The heartbeat runs beside the attempt as a task of its own.
  unfoldable pub run_job : ℕ → Text → Action World Text JobDisposition
  unfolding is_overdue is_completed fail_overdue run_known
  run_job unix_ms attempt_id =
      if is_overdue unix_ms job
      then fail_overdue
      else (status job.request_id >>= λ known. run_known attempt_id (is_completed known))
