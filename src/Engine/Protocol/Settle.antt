-- ===== src/Engine/Protocol/Settle.antt =====
-- The calls with which `run_job` of crates/inference-engine/src/main.rs ends a generation.
use inference_data_plane.Prelude.{
  ◌≡◌, refl, ◌∙◌, false, List, [], ◌∷◌, ◌++◌, append-nil, All, Result, ok, err,
}
use inference_data_plane.Prelude.Action.{Action, pure, ◌>>=◌, ◌>>◌}
use inference_data_plane.Text.{Text, codes}
use inference_data_plane.Streams.Wire.{GenerationJob, ResultEvent, attempt_started}
use inference_data_plane.Engine.{
  EngineConfig, GenerationUsage, JobDisposition, acknowledge, Json, Client, ModelServer,
}
use inference_data_plane.Engine.Results.{
  result_of, completion_event, failure_event, publish_event, publish_completion, publish_failure,
}
use inference_data_plane.Engine.Job.{settle}
use inference_data_plane.Engine.Calls.{
  Call, published, reconciled, CallLog, Does, Does-lift, Does-call, Does-bind,
}
use inference_data_plane.Engine.Protocol.{IsUnfinished, sent, IsOpening, opening}
use inference_data_plane.Engine.Protocol.Tokens.{token_calls-IsOpening}
use inference_data_plane.Engine.Protocol.Attempt.{Attempted}

module _ {C : Client} (L : CallLog C) (job : GenerationJob) where
  open C use {World}

  -- One call, with its reply.
  abbrev pub Only : {A : Type 0} → (Result Text A → Call) → Result Text A → List Call → Type 0
  Only call r cs = cs ≡ call r ∷ []

  -- An event that has been published, or a call for it that failed.
  abbrev Sent : Text → ResultEvent → Result Text (Unit {0}) → List Call → Type 0
  Sent attempt_id event (ok done) cs =
      (event_id : Text) × (cs ≡ sent job attempt_id event event_id ∷ [])
  Sent attempt_id event (err e) cs = All IsUnfinished cs

  Does-Sent :
      (attempt_id : Text) (event : ResultEvent)
      → Does L (publish_event C job attempt_id event) (Sent attempt_id event)
  unfolding publish_event sent
  Does-Sent attempt_id event =
      let result = result_of job attempt_id event in
      Does-bind L {P = Only (published result)} (C.publish_result result) (λ event_id. pure tt)
        (Does-call L (C.publish_result result) (published result) (L.calls-publish_result result)
          (λ r. refl))
        (λ event_id cs h. Does-lift L (ok tt) (event_id, append-nil cs ∙ h))
        (λ e cs h. rw h (tt, tt))

  -- Acknowledged after some calls, or broken off before the generation has ended.
  abbrev pub Acknowledged : (List Call → Type 0) → Result Text JobDisposition → List Call → Type 0
  Acknowledged P (ok disposition) cs = (disposition ≡ acknowledge) × P cs
  Acknowledged P (err e) cs = All IsUnfinished cs

  -- One call, a published event, and the acknowledgement.
  abbrev pub CallAndEvent :
      {A : Type 0} → (Result Text A → Call) → Text → ResultEvent → List Call → Type 0
  CallAndEvent {A} call attempt_id event cs =
      (reply : A) × (event_id : Text) × (cs
        ≡ call (ok reply) ∷ (sent job attempt_id event event_id ∷ []))

  pub Does-CallAndEvent :
      {A : Type 0} (m : Action World Text A) (call : Result Text A → Call) (attempt_id : Text)
      (event : ResultEvent)
      → ((w : World) → L.calls (m w).1 ≡ L.calls w ++ call (m w).0 ∷ [])
      → ((e : Text) → IsUnfinished (call (err e)))
      → ((a : A) → IsUnfinished (call (ok a)))
      → Does L
          (m >>= λ reply. publish_event C job attempt_id event >> pure acknowledge)
          (Acknowledged (CallAndEvent call attempt_id event))
  Does-CallAndEvent m call attempt_id event log h k =
      Does-bind L {P = Only call} m
        (λ reply. publish_event C job attempt_id event >> pure acknowledge)
        (Does-call L m call log (λ r. refl))
        (λ reply cs p.
          Does-bind L (publish_event C job attempt_id event) (λ done. pure acknowledge)
            (Does-Sent attempt_id event)
            (λ done ds (event_id, q).
              Does-lift L (ok acknowledge) (refl, (reply, event_id, rw (p, q) refl)))
            (λ e ds q. rw p (k reply, q)))
        (λ e cs p. rw p (h e, tt))

  -- What follows an attempt once the lease is back.
  unfoldable pub Settling : Text → Result Text GenerationUsage → List Call → Type 0
  Settling attempt_id (ok usage) =
      CallAndEvent (reconciled job.reservation_id usage.generated_tokens) attempt_id
        (completion_event usage)
  Settling attempt_id (err e) =
      CallAndEvent (reconciled job.reservation_id 0) attempt_id
        (failure_event (codes "backend_error") e false)

  pub Does-settle :
      (engine_id attempt_id : Text) (Js : Json) (M : ModelServer Js.Value World)
      (config : EngineConfig) (r : Result Text GenerationUsage)
      → Does L
          (settle Js C M config engine_id job attempt_id r)
          (Acknowledged (Settling attempt_id r))
  unfolding settle publish_completion publish_failure Settling
  Does-settle engine_id attempt_id Js M config (ok usage) =
      Does-CallAndEvent (C.reconcile_quota job.reservation_id usage.generated_tokens)
        (reconciled job.reservation_id usage.generated_tokens) attempt_id (completion_event usage)
        (L.calls-reconcile_quota job.reservation_id usage.generated_tokens) (λ e. tt) (λ n. tt)
  Does-settle engine_id attempt_id Js M config (err e) =
      Does-CallAndEvent (C.reconcile_quota job.reservation_id 0) (reconciled job.reservation_id 0)
        attempt_id (failure_event (codes "backend_error") e false)
        (L.calls-reconcile_quota job.reservation_id 0) (λ e. tt) (λ n. tt)

  pub Opening-Unfinished :
      (attempt_id : Text) (c : Call) → IsOpening job attempt_id c → IsUnfinished c
  unfolding result_of
  Opening-Unfinished attempt_id _ (opening event (ok event_id) h) = h
  Opening-Unfinished attempt_id _ (opening event (err e) h) = tt

  pub Attempted-Opening :
      (attempt_id : Text) (r : Result Text GenerationUsage) (cs : List Call)
      → Attempted L job attempt_id r cs
      → All (IsOpening job attempt_id) cs
  unfolding sent
  Attempted-Opening attempt_id (ok usage) cs (start_id, chunks, h, k) =
      rw h (opening attempt_started (ok start_id) tt, token_calls-IsOpening L job attempt_id chunks)
  Attempted-Opening attempt_id (err e) cs h = h
