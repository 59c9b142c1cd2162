-- ===== src/Delivery/Broker/Completion.antt =====
-- A job that an engine of crates/inference-engine/src/main.rs acknowledges, and the status that the
-- broker of crates/inference-streams/src/lib.rs then has of it.
use inference_data_plane.Prelude.{
  ℕ, ◌/◌, ◌<◌, ◌≡◌, refl, ap, ◌∙◌, Bool, true, false, Option, none, some, List, Bool-cases, inl,
  inr, Result, ok, err, ok-injective, subst, if◌then◌else◌,
}
use inference_data_plane.Prelude.Action.{Action, pure, ◌>>=◌, ◌>>◌, bind-eq-ok}
use inference_data_plane.Text.{Text, codes, text_beq_iff}
use inference_data_plane.Streams.{StreamsConfig}
use inference_data_plane.Streams.Keys.{status_key}
use inference_data_plane.Streams.Keyspace.{Keyspace}
use inference_data_plane.Streams.Lease.{LeaseStore}
use inference_data_plane.Streams.Transport.{Transport, RedisError}
use inference_data_plane.Streams.Wire.{
  GenerationJob, GenerationResult, GenerationStatus, ResultEvent,
}
use inference_data_plane.Streams.Jobs.{
  JobStore, is_terminal, result_ttl, call, status, status_of, status_values,
}
use inference_data_plane.Streams.Jobs.Board.{status_of-known}
use inference_data_plane.Streams.Jobs.Outcomes.{call-delivered, publish_result-Recorded}
use inference_data_plane.Engine.{
  EngineConfig, GenerationUsage, JobDisposition, acknowledge, Json, Client, ModelServer,
}
use inference_data_plane.Engine.Results.{
  result_of, completion_event, failure_event, publish_event, publish_completion, publish_failure,
}
use inference_data_plane.Engine.Attempt.{execute_attempt}
use inference_data_plane.Engine.Job.{
  is_overdue, is_completed, lease_owner, fail_overdue, settle, run_attempt, run_leased, run_known,
  run_job,
}
use inference_data_plane.Delivery.Broker.{Broker, on_jobs, streams_client}

module _ (J : JobStore) (L : LeaseStore) (K : Keyspace) (T : Transport (Broker J L K))
    (config : StreamsConfig) (redis_text : RedisError → Text) (sha256_hex : Text → Text)
    (encode : GenerationResult → List ℕ) (sleep : ℕ → T.World → T.World)
    (kept : 0 < config.result_retention / 1000) where
  open T use {World, db}

  abbrev client : Client
  client = streams_client J L K T config redis_text sha256_hex encode sleep

  -- The broker says that the generation is completed.
  abbrev pub IsDone : Text → World → Type 0
  IsDone request_id w =
      J.hget (db w).jobs (status_key request_id) (codes "state") ≡ some (codes "completed")

  retained :
      (result : GenerationResult) → is_terminal result.event ≡ true → 0 < result_ttl J config result
  unfolding result_ttl
  retained result h = rw h kept

  publish_event-IsDone :
      (job : GenerationJob) (attempt_id : Text) (event : ResultEvent) (w v : World)
      → is_terminal (some event) ≡ true
      → publish_event client job attempt_id event w ≡ (ok tt, v)
      → IsDone job.request_id v
  unfolding publish_event result_of
  publish_event-IsDone job attempt_id event w v h e =
      let result = result_of job attempt_id event in
      let (id, u, sent, after) =
        bind-eq-ok (λ event_id. pure tt) (client.publish_result result) w v tt e in
      let same : u ≡ v = ap (λ s. s.1) after in
      let r =
        publish_result-Recorded J config (on_jobs J L K T) redis_text encode result
          (retained result h) w u id sent in
      rw (← same) (r.state ∙ rw h refl)

  is_completed-state :
      (known : Option GenerationStatus)
      → is_completed known ≡ true
      → (s : GenerationStatus) × (known ≡ some s) × (s.state ≡ codes "completed")
  unfolding is_completed
  is_completed-state none h = cc
  is_completed-state (some s) h = (s, refl, (text_beq_iff s.state (codes "completed")).0 h)

  status-IsDone :
      (request_id : Text) (known : Option GenerationStatus) (w v : World)
      → client.status request_id w ≡ (ok known, v)
      → is_completed known ≡ true
      → IsDone request_id v
  unfolding status status_values
  status-IsDone request_id known w v e h =
      let read : Action World Text (List (Option Text)) =
        call J config (on_jobs J L K T) redis_text
          (λ d. (status_values J config request_id d, d)) in
      let (values, u, sent, after) = bind-eq-ok (λ vs. pure (status_of vs)) read w v known e in
      let answer =
        call-delivered J config (on_jobs J L K T) redis_text
          (λ d. (status_values J config request_id d, d)) w u values sent in
      let same : u ≡ v = ap (λ s. s.1) after in
      let jobs_same : (db w).jobs ≡ (db u).jobs = ap (λ s. s.1) answer in
      let (s, known_s, state) = is_completed-state known h in
      let there : status_of (status_values J config request_id (db w).jobs) ≡ some s =
        ap (λ x. status_of x.0) answer ∙ ok-injective (ap (λ x. x.0) after) ∙ known_s in
      let field : Text → Option Text = J.hget (db w).jobs (status_key request_id) in
      rw (← same, ← jobs_same)
        ((status_of-known (field (codes "state")) (field (codes "model_id"))
            (field (codes "active_attempt_id")) (field (codes "terminal_event_id")) s there).0
          ∙ ap some state)

  module _ (Js : Json) (M : ModelServer Js.Value World) (engine : EngineConfig) (engine_id : Text)
      (job : GenerationJob) where
    last_step :
        (m : Action World Text (Unit {0})) (w v : World)
        → (m >> pure acknowledge) w ≡ (ok acknowledge, v)
        → m w ≡ (ok tt, v)
    last_step m w v e =
        let (done, u, ran, after) = bind-eq-ok (λ d. pure acknowledge) m w v acknowledge e in
        ran ∙ ap (λ x. (ok tt, x.1)) after

    -- The run of a job, with the parameters of this module.
    abbrev reconciled : ℕ → Action World Text ℕ
    reconciled n = client.reconcile_quota job.reservation_id n

    settle-IsDone :
        (attempt_id : Text) (result : Result Text GenerationUsage) (w v : World)
        → settle Js client M engine engine_id job attempt_id result w ≡ (ok acknowledge, v)
        → IsDone job.request_id v
    unfolding settle publish_completion publish_failure is_terminal
    settle-IsDone attempt_id (ok usage) w v e =
        let publish = publish_event client job attempt_id (completion_event usage) in
        let (refund, u, done, after) =
          bind-eq-ok (λ r. publish >> pure acknowledge) (reconciled usage.generated_tokens) w v
            acknowledge e in
        publish_event-IsDone job attempt_id (completion_event usage) u v refl
          (last_step publish u v after)
    settle-IsDone attempt_id (err chain) w v e =
        let event = failure_event (codes "backend_error") chain false in
        let publish = publish_event client job attempt_id event in
        let (refund, u, done, after) =
          bind-eq-ok (λ r. publish >> pure acknowledge) (reconciled 0) w v acknowledge e in
        publish_event-IsDone job attempt_id event u v refl (last_step publish u v after)

    fail_overdue-IsDone :
        (w v : World)
        → fail_overdue Js client M engine engine_id job w ≡ (ok acknowledge, v)
        → IsDone job.request_id v
    unfolding fail_overdue publish_failure is_terminal
    fail_overdue-IsDone w v e =
        let event =
          failure_event (codes "deadline_exceeded") (codes "generation deadline exceeded") false in
        let publish = publish_event client job engine_id event in
        let (cancelled, u, done, after) =
          bind-eq-ok (λ c. publish >> pure acknowledge) (client.cancel_quota job.reservation_id) w v
            acknowledge e in
        publish_event-IsDone job engine_id event u v refl (last_step publish u v after)

    run_leased-IsDone :
        (attempt_id : Text) (granted : Bool) (w v : World)
        → run_leased Js client M engine engine_id job attempt_id granted w ≡ (ok acknowledge, v)
        → IsDone job.request_id v
    unfolding run_leased run_attempt
    run_leased-IsDone attempt_id false w v e = cc
    run_leased-IsDone attempt_id true w v e =
        let (result, u) = execute_attempt Js client engine job attempt_id M w in
        let (released, u1, done, after) =
          bind-eq-ok (λ d. settle Js client M engine engine_id job attempt_id result)
            (client.release_lease job.request_id (lease_owner engine_id attempt_id)) u v acknowledge
            e in
        settle-IsDone attempt_id result u1 v after

    abbrev Runs : Text → World → World → Bool → Type 0
    Runs attempt_id u v completed =
        run_known Js client M engine engine_id job attempt_id completed u ≡ (ok acknowledge, v)

    run_known-IsDone :
        (attempt_id : Text) (known : Option GenerationStatus) (w u v : World)
        → client.status job.request_id w ≡ (ok known, u)
        → run_known Js client M engine engine_id job attempt_id (is_completed known) u
          ≡ (ok acknowledge, v)
        → IsDone job.request_id v
    unfolding run_known
    run_known-IsDone attempt_id known w u v k e = elim (Bool-cases (is_completed known)) [
      | inl h ↦
          let stop = subst (Runs attempt_id u v) h e in
          status-IsDone job.request_id known w v (k ∙ ap (λ x. (ok known, x.1)) stop) h
      | inr h ↦
          let go = subst (Runs attempt_id u v) h e in
          let (granted, u1, asked, after) =
            bind-eq-ok (run_leased Js client M engine engine_id job attempt_id)
              (client.acquire_lease job.request_id (lease_owner engine_id attempt_id)) u v
              acknowledge go in
          run_leased-IsDone attempt_id granted u1 v after
    ]

    abbrev RunsAt : Text → World → World → Bool → Type 0
    RunsAt attempt_id w v late =
        ◌≡◌ {A = Result Text JobDisposition × World}
          ((if late
              then fail_overdue Js client M engine engine_id job
              else (client.status job.request_id >>= λ known.
                  run_known Js client M engine engine_id job attempt_id (is_completed known)))
            w)
          (ok acknowledge, v)

    -- On one broker that keeps results for a second or more, a job is acknowledged only when its
    -- generation is completed there: right after the run, the status of the request says so, whatever
    -- the model server did.
    pub run_job-IsDone :
        (unix_ms : ℕ) (attempt_id : Text) (w v : World)
        → run_job Js client M engine engine_id job unix_ms attempt_id w ≡ (ok acknowledge, v)
        → IsDone job.request_id v
    unfolding run_job
    run_job-IsDone unix_ms attempt_id w v e = elim (Bool-cases (is_overdue unix_ms job)) [
      | inl h ↦ fail_overdue-IsDone w v (subst (RunsAt attempt_id w v) h e)
      | inr h ↦
          let go = subst (RunsAt attempt_id w v) h e in
          let (known, u, told, after) =
            bind-eq-ok
              (λ known. run_known Js client M engine engine_id job attempt_id (is_completed known))
              (client.status job.request_id) w v acknowledge go in
          run_known-IsDone attempt_id known w u v told after
    ]
