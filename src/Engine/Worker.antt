-- ===== src/Engine/Worker.antt =====
-- The loop of `main` in crates/inference-engine/src/main.rs.
use inference_data_plane.Prelude.{ℕ, Bool, Option, none, some, List, [], ◌∷◌, Result, ok, err}
use inference_data_plane.Prelude.Action.{Action, pure, ◌>>=◌}
use inference_data_plane.Text.{Text}
use inference_data_plane.Streams.Reply.{ConsumedJob}
use inference_data_plane.Engine.{
  EngineConfig, JobDisposition, acknowledge, pending, Json, Client, ModelServer,
}
use inference_data_plane.Engine.Job.{run_job}

-- The job consumer of the Streams client: `consumer`, and the three operations of its result. The
-- durations are in milliseconds.
pub record Consumers (World : Type 0) : Type 1 where
  pub JobConsumer : Type 0
  pub consumer : Text → Action World Text JobConsumer
  pub next : JobConsumer → ℕ → Action World Text (Option ConsumedJob)
  pub reclaim_stale : JobConsumer → ℕ → Action World Text (Option ConsumedJob)
  pub acknowledge_entry : JobConsumer → Text → Action World Text Bool

module _ (Js : Json) (C : Client) (M : ModelServer Js.Value C.World) (Q : Consumers C.World)
    (config : EngineConfig) (engine_id : Text) (reclaim_idle : ℕ) where
  open C use {World, sleep}
  open Q use {JobConsumer, consumer, next, reclaim_stale, acknowledge_entry}

  -- An interrupted subscription is made anew after 250 ms, without a job.
  unfoldable pub reconnect : Action World Text (JobConsumer × Option ConsumedJob)
  reconnect w = (consumer engine_id >>= λ fresh. pure (fresh, none)) (sleep 250 w)

  unfoldable pub take_job :
      JobConsumer
      → Result Text (Option ConsumedJob)
      → Action World Text (JobConsumer × Option ConsumedJob)
  unfolding reconnect
  take_job queue (ok (some consumed)) = pure (queue, some consumed)
  take_job queue (ok none) = reclaim_stale queue reclaim_idle >>= λ stale. pure (queue, stale)
  take_job queue (err e) = reconnect

  -- What becomes of the entry of a job: an error of `run_job` is only logged.
  unfoldable pub dispose :
      JobConsumer → Text → Result Text JobDisposition → Action World Text JobConsumer
  dispose queue entry_id (ok acknowledge) =
      acknowledge_entry queue entry_id >>= λ acknowledged. pure queue
  dispose queue entry_id (ok pending) = pure queue
  dispose queue entry_id (err e) = pure queue

  unfoldable pub run_consumed :
      ℕ → Text → JobConsumer × Option ConsumedJob → Action World Text JobConsumer
  unfolding run_job dispose
  run_consumed unix_ms attempt_id (queue, none) w = (ok queue, w)
  run_consumed unix_ms attempt_id (queue, some consumed) w =
      let (disposition, after) =
        run_job Js C M config engine_id consumed.job unix_ms attempt_id w in
      dispose queue consumed.entry_id disposition after

  -- One round of the loop.
  unfoldable pub turn : ℕ → Text → JobConsumer → Action World Text JobConsumer
  unfolding take_job run_consumed
  turn unix_ms attempt_id queue w =
      let (reply, after) = next queue 5000 w in
      (take_job queue reply >>= run_consumed unix_ms attempt_id) after

  -- The loop, for as many rounds as there are clock readings and fresh identifiers.
  unfoldable pub turns : List (ℕ × Text) → JobConsumer → Action World Text JobConsumer
  unfolding turn
  turns [] queue = pure queue
  turns ((unix_ms, attempt_id) ∷ rounds) queue = turn unix_ms attempt_id queue >>= turns rounds
