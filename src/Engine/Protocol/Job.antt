-- ===== src/Engine/Protocol/Job.antt =====
-- `run_job` of crates/inference-engine/src/main.rs keeps to the protocol.
use inference_data_plane.Prelude.{
  ℕ, ◌≡◌, refl, Bool, true, false, Option, List, [], ◌∷◌, ◌++◌, Bool-cases, inl, inr, All,
  All-append, All-map, Result, ok, err,
}
use inference_data_plane.Prelude.Action.{◌>>◌}
use inference_data_plane.Text.{Text, codes}
use inference_data_plane.Streams.Wire.{GenerationJob, GenerationStatus, ResultEvent}
use inference_data_plane.Engine.{
  EngineConfig, GenerationUsage, JobDisposition, acknowledge, pending, Json, Client, ModelServer,
}
use inference_data_plane.Engine.Results.{failure_event, publish_failure}
use inference_data_plane.Engine.Attempt.{execute_attempt}
use inference_data_plane.Engine.Job.{
  is_overdue, is_completed, lease_owner, fail_overdue, settle, run_attempt, run_leased, run_known,
  run_job,
}
use inference_data_plane.Engine.Calls.{
  Call, asked, acquired, released, cancelled, CallLog, Apart, Does, Does-lift, Does-call,
  Does-weaken, Does-bind, Does-after,
}
use inference_data_plane.Engine.Protocol.{
  IsUnfinished, asked_lease, ended, Protocol, overdue, already, owned, finished, given_up, broken,
}
use inference_data_plane.Engine.Protocol.Settle.{
  Only, Acknowledged, CallAndEvent, Settling, Does-CallAndEvent, Does-settle, Opening-Unfinished,
  Attempted-Opening,
}
use inference_data_plane.Engine.Protocol.Attempt.{Attempted, execute_attempt-Attempted}

module _ {C : Client} (L : CallLog C) (job : GenerationJob) where
  open C use {World}

  module _ (Js : Json) (M : ModelServer Js.Value World) (A : Apart C L M) (config : EngineConfig)
      (engine_id : Text) (unix_ms : ℕ) (attempt_id : Text) where
    -- The calls of an attempt, of the release and of what follows.
    abbrev Attempt : List Call → Type 0
    Attempt cs =
        (r : Result Text GenerationUsage) × (before : List Call) × (after : List Call) × Attempted L
          job attempt_id r before
        × Settling L job attempt_id r after
        × (cs
            ≡ before ++ released job.request_id (lease_owner engine_id attempt_id) (ok tt) ∷ after)

    Attempted-Unfinished :
        (r : Result Text GenerationUsage) (cs : List Call)
        → Attempted L job attempt_id r cs
        → All IsUnfinished cs
    Attempted-Unfinished r cs p =
        All-map (Opening-Unfinished L job attempt_id) cs (Attempted-Opening L job attempt_id r cs p)

    Attempt-settled :
        (r : Result Text GenerationUsage) (before between : List Call)
        → Attempted L job attempt_id r before
        → between ≡ released job.request_id (lease_owner engine_id attempt_id) (ok tt) ∷ []
        → (s : Result Text JobDisposition) (after : List Call)
        → Acknowledged L job (Settling L job attempt_id r) s after
        → Acknowledged L job Attempt s (before ++ (between ++ after))
    Attempt-settled r before between p h (ok disposition) after (d, q) =
        rw h (d, (r, before, after, p, q, refl))
    Attempt-settled r before between p h (err e) after q = rw h (
        All-append IsUnfinished before
          (released job.request_id (lease_owner engine_id attempt_id) (ok tt) ∷ after)
          (Attempted-Unfinished r before p) (tt, q))

    Does-run_attempt :
        Does L (run_attempt Js C M config engine_id job attempt_id) (Acknowledged L job Attempt)
    unfolding run_attempt
    Does-run_attempt =
        let owner = lease_owner engine_id attempt_id in
        Does-after L (execute_attempt Js C config job attempt_id M)
          (λ r.
            C.release_lease job.request_id owner >> settle Js C M config engine_id job attempt_id r)
          (execute_attempt-Attempted L job attempt_id Js config M A)
          (λ r cs p.
            Does-bind L {P = Only L job (released job.request_id owner)}
              (C.release_lease job.request_id owner)
              (λ done. settle Js C M config engine_id job attempt_id r)
              (Does-call L (C.release_lease job.request_id owner) (released job.request_id owner)
                (L.calls-release_lease job.request_id owner) (λ reply. refl))
              (λ done ds q.
                Does-weaken L (settle Js C M config engine_id job attempt_id r)
                  (Attempt-settled r cs ds p q)
                  (Does-settle L job engine_id attempt_id Js M config r))
              (λ e ds q. rw q (
                All-append IsUnfinished cs (released job.request_id owner (err e) ∷ [])
                  (Attempted-Unfinished r cs p) (tt, tt))))

    Attempt-Protocol :
        (known : Option GenerationStatus) (cs : List Call)
        → is_overdue unix_ms job ≡ false
        → is_completed known ≡ false
        → Attempt cs
        → Protocol job engine_id unix_ms attempt_id
            (ok acknowledge)
            (asked_lease job engine_id unix_ms attempt_id known true cs)
    unfolding Settling ended
    Attempt-Protocol known cs h k
          (ok usage, before, after, (start_id, chunks, p, named), (refund, event_id, q), e) =
        rw (e, p, q) (finished known start_id chunks usage refund event_id h k named)
    Attempt-Protocol known cs h k (err error_chain, before, after, p, (refund, event_id, q), e) =
        rw (e, q) (given_up known before error_chain refund event_id h k p)

    -- What is left of the protocol when the status is known, and when the lease was asked for.
    abbrev Known : Option GenerationStatus → Result Text JobDisposition → List Call → Type 0
    Known known r cs =
        Protocol job engine_id unix_ms attempt_id r (asked job.request_id (ok known) ∷ cs)

    Known-leased :
        (known : Option GenerationStatus) (granted : Bool)
        → is_overdue unix_ms job ≡ false
        → is_completed known ≡ false
        → Does L (run_leased Js C M config engine_id job attempt_id granted) (λ r cs.
          Protocol job engine_id unix_ms attempt_id r
            (asked_lease job engine_id unix_ms attempt_id known granted cs))
    unfolding run_leased asked_lease
    Known-leased known false h k = Does-lift L (ok pending) (owned known h k)
    Known-leased known true h k =
        Does-weaken L (run_attempt Js C M config engine_id job attempt_id) ends Does-run_attempt
      where
        ends :
            (r : Result Text JobDisposition) (cs : List Call)
            → Acknowledged L job Attempt r cs
            → Protocol job engine_id unix_ms attempt_id r
                (asked_lease job engine_id unix_ms attempt_id known true cs)
        ends (ok disposition) cs (d, p) = rw d (Attempt-Protocol known cs h k p)
        ends (err e) cs p =
            broken e (asked_lease job engine_id unix_ms attempt_id known true cs) (tt, (tt, p))

    Known-run :
        (known : Option GenerationStatus) (completed : Bool)
        → is_overdue unix_ms job ≡ false
        → is_completed known ≡ completed
        → Does L (run_known Js C M config engine_id job attempt_id completed) (Known known)
    unfolding run_known asked_lease
    Known-run known true h k = Does-lift L (ok acknowledge) (already known h k)
    Known-run known false h k =
        let owner = lease_owner engine_id attempt_id in
        Does-bind L {P = Only L job (acquired job.request_id owner)}
          (C.acquire_lease job.request_id owner) (run_leased Js C M config engine_id job attempt_id)
          (Does-call L (C.acquire_lease job.request_id owner) (acquired job.request_id owner)
            (L.calls-acquire_lease job.request_id owner) (λ reply. refl))
          (λ granted cs q.
            Does-weaken L (run_leased Js C M config engine_id job attempt_id granted)
              (λ r ds p. rw q p) (Known-leased known granted h k))
          (λ e cs q. rw q (broken e (asked job.request_id (ok known) ∷ _) (tt, (tt, tt))))

    abbrev late : ResultEvent
    late = failure_event (codes "deadline_exceeded") (codes "generation deadline exceeded") false

    Does-overdue :
        Does L
          (fail_overdue Js C M config engine_id job)
          (Acknowledged L job (CallAndEvent L job (cancelled job.reservation_id) engine_id late))
    unfolding fail_overdue publish_failure
    Does-overdue =
        Does-CallAndEvent L job (C.cancel_quota job.reservation_id) (cancelled job.reservation_id)
          engine_id late (L.calls-cancel_quota job.reservation_id) (λ e. tt) (λ done. tt)

    overdue-Protocol :
        is_overdue unix_ms job ≡ true
        → (r : Result Text JobDisposition) (cs : List Call)
        → Acknowledged L job (CallAndEvent L job (cancelled job.reservation_id) engine_id late) r cs
        → Protocol job engine_id unix_ms attempt_id r cs
    overdue-Protocol h (ok disposition) cs (d, (done, event_id, q)) = rw (d, q) (overdue event_id h)
    overdue-Protocol h (err e) cs q = broken e cs q

    Does-run_job :
        Does L
          (run_job Js C M config engine_id job unix_ms attempt_id)
          (Protocol job engine_id unix_ms attempt_id)
    unfolding run_job
    Does-run_job = elim (Bool-cases (is_overdue unix_ms job)) [
      | inl h ↦ rw h (
          Does-weaken L (fail_overdue Js C M config engine_id job) (overdue-Protocol h)
            Does-overdue)
      | inr h ↦ rw h (
          Does-bind L {P = Only L job (asked job.request_id)} (C.status job.request_id)
            (λ known. run_known Js C M config engine_id job attempt_id (is_completed known))
            (Does-call L (C.status job.request_id) (asked job.request_id)
              (L.calls-status job.request_id) (λ reply. refl))
            (λ known cs q.
              Does-weaken L (run_known Js C M config engine_id job attempt_id (is_completed known))
                (λ r ds p. rw q p) (Known-run known (is_completed known) h refl))
            (λ e cs q. rw q (broken e _ (tt, tt))))
    ]

    -- The calls of every run keep to the protocol: an overdue job is cancelled and failed; a job
    -- that is completed, or whose lease another engine has, is left alone; and otherwise the job is
    -- acknowledged only when the calls were those of an attempt, of the release of its lease, of
    -- one reconciliation, with the tokens of the completion or with none, and of one last event; an
    -- error leaves no such event that was known to be published.
    pub run_job-Protocol :
        (w : World)
        → let (r, v) = run_job Js C M config engine_id job unix_ms attempt_id w in
          (cs : List Call) × (L.calls v ≡ L.calls w ++ cs)
          × Protocol job engine_id unix_ms attempt_id r cs
    run_job-Protocol w = let run = Does-run_job w in (run.made, run.grows, run.holds)
