-- ===== src/Engine/Reliable.antt =====
-- `run_job` and the loop of crates/inference-engine/src/main.rs when the calls are answered.
use inference_data_plane.Prelude.{
  ℕ, ◌≡◌, refl, Bool, true, false, Option, none, some, List, [], ◌∷◌, Bool-cases, inl, inr, Result,
  ok, err,
}
use inference_data_plane.Prelude.Action.{Action, pure, ◌>>=◌, ◌>>◌, continue}
use inference_data_plane.Text.{Text, codes}
use inference_data_plane.Streams.Wire.{
  GenerationJob, GenerationResult, GenerationStatus, ResultEvent,
}
use inference_data_plane.Streams.Reply.{ConsumedJob, schema_version}
use inference_data_plane.Engine.{
  EngineConfig, GenerationUsage, JobDisposition, acknowledge, pending, Json, Client, ModelServer,
}
use inference_data_plane.Engine.Results.{
  completion_event, failure_event, publish_event, publish_completion, publish_failure, result_of,
}
use inference_data_plane.Engine.Attempt.{execute_attempt}
use inference_data_plane.Engine.Job.{
  is_overdue, is_completed, lease_owner, fail_overdue, settle, run_attempt, run_leased, run_known,
  run_job,
}
use inference_data_plane.Engine.Worker.{
  Consumers, reconnect, take_job, dispose, run_consumed, turn, turns,
}

module _ {W A : Type 0} where
  -- The action returns a value, whatever the world is; or always the same value.
  abbrev pub Returns : Action W Text A → Type 0
  Returns m = (w : W) → (a : A) × ((m w).0 ≡ ok a)

  abbrev pub Always : Action W Text A → A → Type 0
  Always m a = (w : W) → (m w).0 ≡ ok a

module _ {W A B : Type 0} where
  continue-Always :
      (f : A → Action W Text B) (b : B) (s : Result Text A × W) (a : A)
      → s.0 ≡ ok a
      → ((a : A) → Always (f a) b)
      → (continue f s).0 ≡ ok b
  continue-Always f b (ok a', w) a h k = k a' w
  continue-Always f b (err e, w) a h k = cc

  pub Always-bind :
      (m : Action W Text A) (f : A → Action W Text B) (b : B)
      → Returns m
      → ((a : A) → Always (f a) b)
      → Always (m >>= f) b
  Always-bind m f b h k w = continue-Always f b (m w) (h w).0 (h w).1 k

-- Every call of the client that the run makes is answered, but for the lease, of which nothing is
-- said.
pub record Answers (C : Client) : Type 0 where
  pub publishes :
      (result : GenerationResult)
      → result.schema_version ≡ schema_version
      → Returns (C.publish_result result)
  pub tells_status : (request_id : Text) → Returns (C.status request_id)
  pub releases : (request_id owner : Text) → Returns (C.release_lease request_id owner)
  pub reconciles : (id : Text) (n : ℕ) → Returns (C.reconcile_quota id n)
  pub cancels : (id : Text) → Returns (C.cancel_quota id)

module _ {C : Client} (H : Answers C) (job : GenerationJob) where
  open C use {World}

  publish_event-Always :
      (attempt_id : Text) (event : ResultEvent)
      → Always (publish_event C job attempt_id event >> pure acknowledge) acknowledge
  unfolding publish_event result_of
  publish_event-Always attempt_id event =
      let result = result_of job attempt_id event in
      Always-bind (publish_event C job attempt_id event) (λ done. pure acknowledge) acknowledge
        (λ w. (
          tt,
          Always-bind (C.publish_result result) (λ event_id. pure tt) tt (H.publishes result refl)
              (λ event_id v. refl) w,
        ))
        (λ done w. refl)

  module _ (Js : Json) (M : ModelServer Js.Value World) (config : EngineConfig)
      (engine_id : Text) where
    settle-Always :
        (attempt_id : Text) (r : Result Text GenerationUsage)
        → Always (settle Js C M config engine_id job attempt_id r) acknowledge
    unfolding settle publish_completion publish_failure
    settle-Always attempt_id (ok usage) =
        Always-bind (C.reconcile_quota job.reservation_id usage.generated_tokens)
          (λ refund. publish_event C job attempt_id (completion_event usage) >> pure acknowledge)
          acknowledge (H.reconciles job.reservation_id usage.generated_tokens)
          (λ refund. publish_event-Always attempt_id (completion_event usage))
    settle-Always attempt_id (err e) =
        Always-bind (C.reconcile_quota job.reservation_id 0)
          (λ refund.
            publish_event C job attempt_id (failure_event (codes "backend_error") e false)
            >> pure acknowledge)
          acknowledge (H.reconciles job.reservation_id 0)
          (λ refund.
            publish_event-Always attempt_id (failure_event (codes "backend_error") e false))

    run_attempt-Always :
        (attempt_id : Text)
        → Always (run_attempt Js C M config engine_id job attempt_id) acknowledge
    unfolding run_attempt
    run_attempt-Always attempt_id w =
        let (r, v) = execute_attempt Js C config job attempt_id M w in
        Always-bind (C.release_lease job.request_id (lease_owner engine_id attempt_id))
          (λ done. settle Js C M config engine_id job attempt_id r) acknowledge
          (H.releases job.request_id (lease_owner engine_id attempt_id))
          (λ done. settle-Always attempt_id r) v

    -- The lease is granted when the run asks for it, in the world after its question for the status.
    abbrev pub IsGranted : Text → World → Type 0
    IsGranted attempt_id w =
        (C.acquire_lease job.request_id (lease_owner engine_id attempt_id)
          (C.status job.request_id w).1).0
        ≡ ok true

    leased :
        (attempt_id : Text) (s : Result Text Bool × World)
        → s.0 ≡ ok true
        → (continue (run_leased Js C M config engine_id job attempt_id) s).0 ≡ ok acknowledge
    unfolding run_leased
    leased attempt_id (ok true, v) h = run_attempt-Always attempt_id v
    leased attempt_id (ok false, v) h = cc
    leased attempt_id (err e, v) h = cc

    told :
        (attempt_id : Text) (s : Result Text (Option GenerationStatus) × World)
        (known : Option GenerationStatus)
        → s.0 ≡ ok known
        → (C.acquire_lease job.request_id (lease_owner engine_id attempt_id) s.1).0 ≡ ok true
        → (continue
            (λ known. run_known Js C M config engine_id job attempt_id (is_completed known))
            s).0
          ≡ ok acknowledge
    unfolding run_known
    told attempt_id (ok found, u) known h granted = elim (Bool-cases (is_completed found)) [
      | inl done ↦ rw done refl
      | inr open_still ↦ rw open_still (
          leased attempt_id (C.acquire_lease job.request_id (lease_owner engine_id attempt_id) u)
            granted)
    ]
    told attempt_id (err e, u) known h granted = cc

    pub run_job-acknowledges :
        (unix_ms : ℕ) (attempt_id : Text) (w : World)
        → IsGranted attempt_id w
        → (run_job Js C M config engine_id job unix_ms attempt_id w).0 ≡ ok acknowledge
    unfolding run_job fail_overdue publish_failure
    run_job-acknowledges unix_ms attempt_id w granted = elim (Bool-cases (is_overdue unix_ms job)) [
      | inl h ↦
          let late =
            failure_event (codes "deadline_exceeded") (codes "generation deadline exceeded")
              false in
          rw h (
            Always-bind (C.cancel_quota job.reservation_id)
              (λ done. publish_event C job engine_id late >> pure acknowledge) acknowledge
              (H.cancels job.reservation_id) (λ done. publish_event-Always engine_id late) w)
      | inr h ↦
          let (known, asked) = H.tells_status job.request_id w in
          rw h (told attempt_id (C.status job.request_id w) known asked granted)
    ]

-- The loop is never left while these calls are answered; `next` may fail.
pub record Consumes {W : Type 0} (Q : Consumers W) : Type 0 where
  pub connects : (engine_id : Text) → Returns (Q.consumer engine_id)
  pub reclaims : (queue : Q.JobConsumer) (idle : ℕ) → Returns (Q.reclaim_stale queue idle)
  pub acknowledges :
      (queue : Q.JobConsumer) (entry_id : Text) → Returns (Q.acknowledge_entry queue entry_id)

module _ {W A B : Type 0} where
  continue-Returns :
      (f : A → Action W Text B) (s : Result Text A × W) (a : A)
      → s.0 ≡ ok a
      → ((a : A) → Returns (f a))
      → (b : B) × ((continue f s).0 ≡ ok b)
  continue-Returns f (ok a', w) a h k = k a' w
  continue-Returns f (err e, w) a h k = cc

  pub Returns-bind :
      (m : Action W Text A) (f : A → Action W Text B)
      → Returns m
      → ((a : A) → Returns (f a))
      → Returns (m >>= f)
  Returns-bind m f h k w = continue-Returns f (m w) (h w).0 (h w).1 k

module _ (Js : Json) (C : Client) (M : ModelServer Js.Value C.World) (Q : Consumers C.World)
    (H : Consumes Q) (config : EngineConfig) (engine_id : Text) (reclaim_idle : ℕ) where
  open C use {World}
  open Q use {JobConsumer}

  take_job-Returns :
      (queue : JobConsumer) (reply : Result Text (Option ConsumedJob))
      → Returns (take_job Js C M Q config engine_id reclaim_idle queue reply)
  unfolding take_job reconnect
  take_job-Returns queue (ok (some consumed)) = λ w. ((queue, some consumed), refl)
  take_job-Returns queue (ok none) =
      Returns-bind (Q.reclaim_stale queue reclaim_idle) (λ stale. pure (queue, stale))
        (H.reclaims queue reclaim_idle) (λ stale w. ((queue, stale), refl))
  take_job-Returns queue (err e) = λ w.
      Returns-bind (Q.consumer engine_id) (λ fresh. pure (fresh, none)) (H.connects engine_id)
        (λ fresh v. ((fresh, none), refl)) (C.sleep 250 w)

  dispose-Returns :
      (queue : JobConsumer) (entry_id : Text) (r : Result Text JobDisposition)
      → Returns (dispose Js C M Q config engine_id reclaim_idle queue entry_id r)
  unfolding dispose
  dispose-Returns queue entry_id (ok acknowledge) =
      Returns-bind (Q.acknowledge_entry queue entry_id) (λ acknowledged. pure queue)
        (H.acknowledges queue entry_id) (λ acknowledged w. (queue, refl))
  dispose-Returns queue entry_id (ok pending) = λ w. (queue, refl)
  dispose-Returns queue entry_id (err e) = λ w. (queue, refl)

  turn-Returns :
      (unix_ms : ℕ) (attempt_id : Text) (queue : JobConsumer)
      → Returns (turn Js C M Q config engine_id reclaim_idle unix_ms attempt_id queue)
  unfolding turn run_consumed
  turn-Returns unix_ms attempt_id queue w =
      let (reply, v) = Q.next queue 5000 w in
      Returns-bind (take_job Js C M Q config engine_id reclaim_idle queue reply)
        (run_consumed Js C M Q config engine_id reclaim_idle unix_ms attempt_id)
        (take_job-Returns queue reply) consumed v
    where
      consumed :
          (taken : JobConsumer × Option ConsumedJob)
          → Returns (run_consumed Js C M Q config engine_id reclaim_idle unix_ms attempt_id taken)
      consumed (q, none) u = (q, refl)
      consumed (q, some job) u =
          let (r, v') = run_job Js C M config engine_id job.job unix_ms attempt_id u in
          dispose-Returns q job.entry_id r v'

  -- Any number of rounds, each at its time and with its attempt, ends without an error, whatever
  -- the jobs and their runs are, when making a consumer, reclaiming and acknowledging are answered;
  -- waiting for a job may fail, and so may every run.
  pub turns-Returns :
      (rounds : List (ℕ × Text)) (queue : JobConsumer)
      → Returns (turns Js C M Q config engine_id reclaim_idle rounds queue)
  unfolding turns
  turns-Returns [] queue = λ w. (queue, refl)
  turns-Returns ((unix_ms, attempt_id) ∷ rounds) queue =
      Returns-bind (turn Js C M Q config engine_id reclaim_idle unix_ms attempt_id queue)
        (turns Js C M Q config engine_id reclaim_idle rounds)
        (turn-Returns unix_ms attempt_id queue) (turns-Returns rounds)
