-- ===== src/Delivery/Answer.antt =====
-- What `collect_generation` of crates/inference-frontend/src/main.rs makes of the results of a job
-- that an engine has acknowledged.

use inference_data_plane.Prelude.{
  ◌≡◌, ◌⊎◌, inl, inr, ℕ, refl, ap, sym, ◌∙◌, true, false, Option, some, List, [], ◌∷◌, ◌++◌, map,
  append_assoc, append-nil, All, All-append, Has, subst, Result, ok,
}
use inference_data_plane.Text.{Text, codes}
use inference_data_plane.Streams.Wire.{
  GenerationJob, GenerationStatus, ResultEvent, attempt_started, TokenChunk, ResultEntry,
}
use inference_data_plane.Frontend.Generate.{Reply, collect_loop}
use inference_data_plane.Frontend.Generate.Collect.{reply, IsOpen}
use inference_data_plane.Engine.{
  EngineConfig, GenerationUsage, JobDisposition, acknowledge, Json, Client, ModelServer,
}
use inference_data_plane.Engine.Results.{result_of, completion_event, failure_event}
use inference_data_plane.Engine.Job.{lease_owner, run_job}
use inference_data_plane.Engine.Calls.{Call, released, reconciled, cancelled, CallLog, Apart}
use inference_data_plane.Engine.Reliable.{Answers, run_job-acknowledges}
use inference_data_plane.Engine.Protocol.{
  sent, token_calls, IsOpening, asked_lease, ended, Protocol, overdue, already, owned, finished,
  given_up, broken,
}
use inference_data_plane.Engine.Protocol.Job.{run_job-Protocol}
use inference_data_plane.Delivery.{
  entries, written, IsFresh, LeftAlone, Delivered, answered, refused, expired,
}
use inference_data_plane.Delivery.Collect.{
  entries-append, written-append, entry, opening-IsOpen, collect_loop-finished, collect_loop-failed,
}

module _ (job : GenerationJob) (attempt_id : Text) where
  module _ (engine_id : Text) (unix_ms : ℕ) (known : Option GenerationStatus) where
    -- The calls of the two ways in which an attempt ends a generation.
    abbrev finished_calls : Text → List (Text × TokenChunk) → GenerationUsage → ℕ → Text → List Call
    finished_calls start_id chunks usage refund event_id =
        asked_lease job engine_id unix_ms attempt_id known true (
          (sent job attempt_id attempt_started start_id ∷ token_calls job attempt_id chunks)
          ++ ended job engine_id unix_ms attempt_id usage.generated_tokens refund
              (completion_event usage) event_id)

    abbrev failed_calls : List Call → Text → ℕ → Text → List Call
    failed_calls cs error_chain refund event_id =
        asked_lease job engine_id unix_ms attempt_id known true (
          cs
          ++ ended job engine_id unix_ms attempt_id 0 refund
              (failure_event (codes "backend_error") error_chain false) event_id)

    entries-finished :
        (start_id : Text) (chunks : List (Text × TokenChunk)) (usage : GenerationUsage) (refund : ℕ)
        (event_id : Text)
        → entries (finished_calls start_id chunks usage refund event_id)
          ≡ entry job attempt_id start_id attempt_started
            ∷ (entries (token_calls job attempt_id chunks)
                ++ entry job attempt_id event_id (completion_event usage) ∷ [])
    unfolding entries asked_lease ended sent
    entries-finished start_id chunks usage refund event_id =
        ap (◌∷◌ (entry job attempt_id start_id attempt_started)) (
          entries-append (token_calls job attempt_id chunks) (
            ended job engine_id unix_ms attempt_id usage.generated_tokens refund
              (completion_event usage) event_id))

    entries-failed :
        (cs : List Call) (error_chain : Text) (refund : ℕ) (event_id : Text)
        → entries (failed_calls cs error_chain refund event_id)
          ≡ entries cs
            ++ entry job attempt_id event_id
                (failure_event (codes "backend_error") error_chain false)
              ∷ []
    unfolding entries asked_lease ended sent
    entries-failed cs error_chain refund event_id = entries-append cs (
        ended job engine_id unix_ms attempt_id 0 refund
          (failure_event (codes "backend_error") error_chain false) event_id)

    Has-ended :
        (cs : List Call) (n refund : ℕ) (event : ResultEvent) (event_id : Text)
        → Has (reconciled job.reservation_id n (ok refund)) (
            asked_lease job engine_id unix_ms attempt_id known true
              (cs ++ ended job engine_id unix_ms attempt_id n refund event event_id))
    unfolding asked_lease ended
    Has-ended cs n refund event event_id = (
      asked_lease job engine_id unix_ms attempt_id known true
          (cs ++ released job.request_id (lease_owner engine_id attempt_id) (ok tt) ∷ []),
      sent job attempt_id event event_id ∷ [],
      rw
          (append_assoc cs (released job.request_id (lease_owner engine_id attempt_id) (ok tt) ∷ [])
            (reconciled job.reservation_id n (ok refund)
              ∷ (sent job attempt_id event event_id ∷ [])))
          refl,
    )

  written-finished :
      (start_id event_id : Text) (usage : GenerationUsage) (es : List ResultEntry)
      → written (
          entry job attempt_id start_id attempt_started
          ∷ (es ++ entry job attempt_id event_id (completion_event usage) ∷ []))
        ≡ written es
  unfolding written result_of
  written-finished start_id event_id usage es =
      written-append es (entry job attempt_id event_id (completion_event usage) ∷ [])
      ∙ append-nil (written es)

  module _ (engine_id : Text) (unix_ms : ℕ) (before : List ResultEntry) (after : List Reply)
      (h : All IsOpen before) (k : IsFresh attempt_id before) where
    -- The answer after the calls of a run.
    abbrev Answer : List Call → Type 0
    Answer cs = Delivered job cs (collect_loop [] [] (map reply (before ++ entries cs) ++ after))

    Answer-finished :
        (known : Option GenerationStatus) (start_id : Text) (chunks : List (Text × TokenChunk))
        (usage : GenerationUsage) (refund : ℕ) (event_id : Text)
        → Answer (finished_calls engine_id unix_ms known start_id chunks usage refund event_id)
    Answer-finished known start_id chunks usage refund event_id =
        let cs = finished_calls engine_id unix_ms known start_id chunks usage refund event_id in
        let tokens = entries (token_calls job attempt_id chunks) in
        let e = entries-finished engine_id unix_ms known start_id chunks usage refund event_id in
        let t : written tokens ≡ written (entries cs) =
          sym (ap written e ∙ written-finished start_id event_id usage tokens) in
        subst (Delivered job cs)
          (sym (
            ap (λ es. collect_loop [] [] (map reply (before ++ es) ++ after)) e
            ∙ collect_loop-finished job attempt_id before start_id chunks usage event_id after h k
            ∙ ap
                (λ text. some (
                  ok (record {
                    text = text;
                    generated_tokens = usage.generated_tokens;
                    finish_reason = usage.finish_reason;
                  })))
                t))
          (answered usage.generated_tokens refund usage.finish_reason (
            Has-ended engine_id unix_ms known
              (sent job attempt_id attempt_started start_id ∷ token_calls job attempt_id chunks)
              usage.generated_tokens refund (completion_event usage) event_id))

    Answer-failed :
        (known : Option GenerationStatus) (cs : List Call) (error_chain : Text) (refund : ℕ)
        (event_id : Text)
        → All (IsOpening job attempt_id) cs
        → Answer (failed_calls engine_id unix_ms known cs error_chain refund event_id)
    Answer-failed known cs error_chain refund event_id opens =
        let e = entries-failed engine_id unix_ms known cs error_chain refund event_id in
        let last =
          entry job attempt_id event_id (failure_event (codes "backend_error") error_chain false) in
        subst (Delivered job (failed_calls engine_id unix_ms known cs error_chain refund event_id))
          (sym (
            ap (λ es. collect_loop [] [] (map reply (before ++ es) ++ after)) e
            ∙ ap (λ es. collect_loop [] [] (map reply es ++ after))
                (sym (append_assoc before (entries cs) (last ∷ [])))
            ∙ collect_loop-failed job attempt_id (before ++ entries cs) event_id attempt_id
                (codes "backend_error") error_chain after
                (All-append IsOpen before (entries cs) h (opening-IsOpen job attempt_id cs opens))))
          (refused error_chain refund (
            Has-ended engine_id unix_ms known cs 0 refund
              (failure_event (codes "backend_error") error_chain false) event_id))

    overdue-Answer :
        (event_id : Text)
        → Answer (
            cancelled job.reservation_id (ok tt)
            ∷ (sent job engine_id
                  (failure_event
                    (codes "deadline_exceeded")
                    (codes "generation deadline exceeded")
                    false)
                  event_id
                ∷ []))
    unfolding entries sent
    overdue-Answer event_id =
        rw
          (collect_loop-failed job attempt_id before event_id engine_id (codes "deadline_exceeded")
            (codes "generation deadline exceeded") after h)
          (expired (codes "generation deadline exceeded") (
            [],
            (sent job engine_id
                  (failure_event (codes "deadline_exceeded") (codes "generation deadline exceeded")
                    false)
                  event_id
                ∷ []),
            refl,
          ))

    Protocol-Answer :
        (r : Result Text JobDisposition) (cs : List Call)
        → Protocol job engine_id unix_ms attempt_id r cs
        → r ≡ ok acknowledge
        → LeftAlone job cs ⊎ Answer cs
    Protocol-Answer _ _ (overdue event_id late) e = inr (overdue-Answer event_id)
    Protocol-Answer _ _ (already known late done) e = inl (known, done, refl)
    Protocol-Answer _ _ (owned known late done) e = cc
    Protocol-Answer _ _ (finished known start_id chunks usage refund event_id late done named) e =
        inr (Answer-finished known start_id chunks usage refund event_id)
    Protocol-Answer _ _ (given_up known cs error_chain refund event_id late done opens) e =
        inr (Answer-failed known cs error_chain refund event_id opens)
    Protocol-Answer _ _ (broken x cs unfinished) e = cc

-- An acknowledged job was completed before, with one question and no other call; or else the caller
-- who reads the stream up to the engine's last result, with any entries of another attempt in front
-- that had not ended the generation, has an answer, whatever follows: the text of the tokens that
-- were published and the count with which the reservation was reconciled, or an error, and then
-- the reservation was reconciled with no tokens or cancelled.
pub run_job-Delivered :
    {C : Client} (L : CallLog C) (Js : Json) (M : ModelServer Js.Value C.World) (A : Apart C L M)
    (config : EngineConfig) (engine_id : Text) (job : GenerationJob) (unix_ms : ℕ)
    (attempt_id : Text) (before : List ResultEntry) (after : List Reply) (w v : C.World)
    → All IsOpen before
    → IsFresh attempt_id before
    → run_job Js C M config engine_id job unix_ms attempt_id w ≡ (ok acknowledge, v)
    → (cs : List Call) × (L.calls v ≡ L.calls w ++ cs)
      × (LeftAlone job cs
          ⊎ Delivered job cs (collect_loop [] [] (map reply (before ++ entries cs) ++ after)))
run_job-Delivered L Js M A config engine_id job unix_ms attempt_id before after w v h k e =
    let (cs, grows, keeps) = run_job-Protocol L job Js M A config engine_id unix_ms attempt_id w in
    (
      cs,
      ap L.calls (ap (λ s. s.1) (sym e)) ∙ grows,
      Protocol-Answer job attempt_id engine_id unix_ms before after h k _ cs keeps
          (ap (λ s. s.0) e),
    )

-- When the broker answers every call of the run, and grants the lease of this request when the run
-- asks for it, right after its question for the status, the job is acknowledged, whatever its
-- request, its model and the model server are: its generation had ended before, or the caller who
-- reads up to the engine's last result, with any entries of another attempt in front that had not
-- ended the generation, has an answer.
pub run_job-answers :
    {C : Client} (H : Answers C) (L : CallLog C) (Js : Json) (M : ModelServer Js.Value C.World)
    (A : Apart C L M) (config : EngineConfig) (engine_id : Text) (job : GenerationJob) (unix_ms : ℕ)
    (attempt_id : Text) (before : List ResultEntry) (after : List Reply) (w : C.World)
    → (C.acquire_lease job.request_id
        (lease_owner engine_id attempt_id)
        (C.status job.request_id w).1).0
      ≡ ok true
    → All IsOpen before
    → IsFresh attempt_id before
    → let (r, v) = run_job Js C M config engine_id job unix_ms attempt_id w in
      (r ≡ ok acknowledge)
      × (cs : List Call) × (L.calls v ≡ L.calls w ++ cs)
      × (LeftAlone job cs
          ⊎ Delivered job cs (collect_loop [] [] (map reply (before ++ entries cs) ++ after)))
run_job-answers H L Js M A config engine_id job unix_ms attempt_id before after w granted h k =
    let (r, v) = run_job Js _ M config engine_id job unix_ms attempt_id w in
    let done = run_job-acknowledges H job Js M config engine_id unix_ms attempt_id w granted in
    let (cs, grows, answers) =
      run_job-Delivered L Js M A config engine_id job unix_ms attempt_id before after w v h k
        (ap (λ result. (result, v)) done) in
    (done, cs, grows, answers)
