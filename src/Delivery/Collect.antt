-- ===== src/Delivery/Collect.antt =====
-- `collect_generation` of crates/inference-frontend/src/main.rs on the results of one attempt of an
-- engine.
use mathlib.Core.List.{map-append}
use inference_data_plane.Prelude.{
  ◌≡◌, inl, inr, refl, ap, sym, ◌∙◌, false, some, List, [], ◌∷◌, ◌++◌, map, append_assoc,
  append-nil, All, ok, err, if◌then◌else◌,
}
use inference_data_plane.Text.{Text}
use inference_data_plane.Streams.Wire.{
  GenerationJob, ResultEvent, attempt_started, TokenChunk, ResultEntry,
}
use inference_data_plane.Frontend.{error_response, bad_gateway}
use inference_data_plane.Frontend.Generate.{Reply, restarts, collect_loop}
use inference_data_plane.Frontend.Generate.Collect.{
  reply, IsOpen, last_started, collect_loop-open, restarts_other,
}
use inference_data_plane.Engine.{GenerationUsage}
use inference_data_plane.Engine.Results.{result_of, completion_event, failure_event}
use inference_data_plane.Engine.Calls.{
  Call, published, asked, acquired, released, reconciled, cancelled,
}
use inference_data_plane.Engine.Protocol.{sent, token_calls, IsOpening, opening}
use inference_data_plane.Delivery.{entries, token_text, written, IsFresh}

pub entries-append : (a b : List Call) → entries (a ++ b) ≡ entries a ++ entries b
unfolding entries
entries-append [] b = refl
entries-append (published result (ok event_id) ∷ a) b =
    ap (◌∷◌ (record { event_id = event_id; result = result })) (entries-append a b)
entries-append (published result (err e) ∷ a) b = entries-append a b
entries-append (asked _ _ ∷ a) b = entries-append a b
entries-append (acquired _ _ _ ∷ a) b = entries-append a b
entries-append (Call.renewed _ _ _ ∷ a) b = entries-append a b
entries-append (released _ _ _ ∷ a) b = entries-append a b
entries-append (reconciled _ _ _ ∷ a) b = entries-append a b
entries-append (cancelled _ _ ∷ a) b = entries-append a b

pub written-append : (a b : List ResultEntry) → written (a ++ b) ≡ written a ++ written b
unfolding written
written-append [] b = refl
written-append (entry ∷ a) b =
    ap (λ t. token_text entry.result.event ++ t) (written-append a b)
    ∙ sym (append_assoc (token_text entry.result.event) (written a) (written b))

module _ (job : GenerationJob) (attempt_id : Text) where
  -- The loop collects the tokens of an attempt.
  collect_loop-token_calls :
      (chunks : List (Text × TokenChunk)) (kept current : Text) (rest : List Reply)
      → collect_loop kept current (map reply (entries (token_calls job attempt_id chunks)) ++ rest)
        ≡ collect_loop (kept ++ written (entries (token_calls job attempt_id chunks))) current rest
  unfolding collect_loop entries written token_calls sent result_of
  collect_loop-token_calls [] kept current rest = rw (append-nil kept) refl
  collect_loop-token_calls ((event_id, chunk) ∷ chunks) kept current rest =
      collect_loop-token_calls chunks (kept ++ chunk.text) current rest
      ∙ rw (append_assoc kept chunk.text (written (entries (token_calls job attempt_id chunks))))
          refl

  -- The calls of an attempt that failed leave only entries that do not end the generation.
  pub opening-IsOpen :
      (cs : List Call) → All (IsOpening job attempt_id) cs → All IsOpen (entries cs)
  unfolding entries result_of
  opening-IsOpen [] h = tt
  opening-IsOpen (_ ∷ cs) (opening event (ok event_id) open_event, h) =
      (open_event, opening-IsOpen cs h)
  opening-IsOpen (_ ∷ cs) (opening event (err e) open_event, h) = opening-IsOpen cs h

  -- The entry of a result of the attempt.
  abbrev pub entry : Text → ResultEvent → ResultEntry
  entry event_id event = record { event_id = event_id; result = result_of job attempt_id event }

  collect_loop-fresh :
      (before : List ResultEntry) (start_id : Text) (rest : List Reply)
      → All IsOpen before
      → IsFresh attempt_id before
      → collect_loop [] [] (map reply before ++ reply (entry start_id attempt_started) ∷ rest)
        ≡ collect_loop [] attempt_id rest
  unfolding collect_loop restarts last_started result_of
  collect_loop-fresh before start_id rest h (inl empty) = rw empty refl
  collect_loop-fresh before start_id rest h (inr (started, other)) =
      let (kept, f) = collect_loop-open before [] [] h in
      f (reply (entry start_id attempt_started) ∷ rest)
      ∙ ap (λ b. collect_loop (if b then [] else kept) attempt_id rest)
          (restarts_other (last_started [] before) attempt_id started other)

  -- The answer to an attempt that has finished.
  pub collect_loop-finished :
      (before : List ResultEntry) (start_id : Text) (chunks : List (Text × TokenChunk))
      (usage : GenerationUsage) (event_id : Text) (after : List Reply)
      → All IsOpen before
      → IsFresh attempt_id before
      → collect_loop [] [] (
          map reply (
            before
            ++ entry start_id attempt_started
              ∷ (entries (token_calls job attempt_id chunks)
                  ++ entry event_id (completion_event usage) ∷ []))
          ++ after)
        ≡ some (
            ok (record {
              text = written (entries (token_calls job attempt_id chunks));
              generated_tokens = usage.generated_tokens;
              finish_reason = usage.finish_reason;
            }))
  unfolding collect_loop result_of
  collect_loop-finished before start_id chunks usage event_id after h k =
      let tokens = entries (token_calls job attempt_id chunks) in
      let last = entry event_id (completion_event usage) in
      rw (map-append reply before (entry start_id attempt_started ∷ (tokens ++ last ∷ []))) (
        rw
          (append_assoc (map reply before)
            (map reply (entry start_id attempt_started ∷ (tokens ++ last ∷ []))) after)
          (collect_loop-fresh before start_id (map reply (tokens ++ last ∷ []) ++ after) h k
            ∙ rw (map-append reply tokens (last ∷ [])) (
                rw (append_assoc (map reply tokens) (reply last ∷ []) after)
                  (collect_loop-token_calls chunks [] attempt_id (reply last ∷ after)))))

  -- The answer to an attempt that has failed, and to a job that was overdue.
  pub collect_loop-failed :
      (before : List ResultEntry) (event_id other_id code message : Text) (after : List Reply)
      → All IsOpen before
      → collect_loop [] [] (
          map reply (
            before
            ++ record {
              event_id = event_id;
              result = result_of job other_id (failure_event code message false);
            }
              ∷ [])
          ++ after)
        ≡ some (err (error_response bad_gateway message))
  unfolding collect_loop result_of
  collect_loop-failed before event_id other_id code message after h =
      let last : ResultEntry = record {
        event_id = event_id;
        result = result_of job other_id (failure_event code message false);
      } in
      let (kept, f) = collect_loop-open before [] [] h in
      rw (map-append reply before (last ∷ []))
        (rw (append_assoc (map reply before) (reply last ∷ []) after) (f (reply last ∷ after)))
