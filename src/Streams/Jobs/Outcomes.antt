-- ===== src/Streams/Jobs/Outcomes.antt =====
-- What the replies of `publish_result` and `status` of crates/inference-streams/src/lib.rs say of the
-- broker.
use inference_data_plane.Prelude.{
  ℕ, ◌<◌, ◌≡◌, refl, sym, ap, ◌∙◌, subst, Bool, true, false, Option, some, List, [], is_empty, not,
  filter_option, unwrap_or, ok-injective, Result, ok, err, map_err, if◌then◌else◌,
}
use inference_data_plane.Prelude.Action.{Action, pure, lift, ◌>>=◌, ◌>>◌, bind-eq-ok}
use inference_data_plane.Text.{Text, codes}
use inference_data_plane.Streams.{StreamsConfig}
use inference_data_plane.Streams.Keys.{result_stream, status_key}
use inference_data_plane.Streams.Reply.{validate_schema}
use inference_data_plane.Streams.Transport.{Transport, RedisError}
use inference_data_plane.Streams.Wire.{GenerationResult, GenerationStatus}
use inference_data_plane.Streams.Jobs.{
  JobStore, is_terminal, result_ttl, result_writes, call, publish_result, status, status_of,
  status_values, cell,
}
use inference_data_plane.Streams.Jobs.Effects.{Recorded, result_writes-Recorded}

module _ (S : JobStore) (config : StreamsConfig) (T : Transport S.Db)
    (redis_text : RedisError → Text) where
  open T use {World, db, send}

  read_ok :
      {A : Type 0} (s : Result RedisError A × World) (a : A) (v : World)
      → ◌≡◌ {A = Result Text A × World} (map_err redis_text s.0, s.1) (ok a, v)
      → s ≡ (ok a, v)
  read_ok (ok a', u) a v h = cc
  read_ok (err e, u) a v h = cc

  -- A command that returned has run once.
  pub call-delivered :
      {A : Type 0} (run : S.Db → A × S.Db) (w v : World) (a : A)
      → call S config T redis_text run w ≡ (ok a, v)
      → run (db w) ≡ (a, db v)
  unfolding call
  call-delivered run w v a h = T.delivered run w v a (read_ok (send run w) a v h)

  module _ (encode : GenerationResult → List ℕ) (result : GenerationResult)
      (positive : 0 < result_ttl S config result) where
    recorded :
        (w u v : World) (id : Text)
        → call S config T redis_text (S.xadd (result_stream result.request_id) (encode result)) w
          ≡ (ok id, u)
        → call S config T redis_text (λ d. (tt, result_writes S config result id d)) u ≡ (ok tt, v)
        → Recorded S config result (encode result) id (db w) (db v)
    recorded w u v id h k =
        let added =
          call-delivered (S.xadd (result_stream result.request_id) (encode result)) w u id h in
        let wrote = call-delivered (λ d. (tt, result_writes S config result id d)) u v tt k in
        subst (Recorded S config result (encode result) id (db w)) (ap (λ s. s.1) wrote) (
          subst
            (λ (s : Text × S.Db).
              Recorded S config result (encode result) s.0 (db w)
                (result_writes S config result s.0 s.1))
            added (result_writes-Recorded S config result positive (encode result) (db w)))

    abbrev add : Action World Text Text
    add = call S config T redis_text (S.xadd (result_stream result.request_id) (encode result))

    abbrev write : Text → Action World Text (Unit {0})
    write id = call S config T redis_text (λ d. (tt, result_writes S config result id d))

    -- A result that is published is recorded.
    pub publish_result-Recorded :
        (w v : World) (id : Text)
        → publish_result S config T redis_text encode result w ≡ (ok id, v)
        → Recorded S config result (encode result) id (db w) (db v)
    unfolding publish_result
    publish_result-Recorded w v id h =
        let check : Action World Text (Unit {0}) = lift (validate_schema result.schema_version) in
        let last : Text → Action World Text Text = λ id1. write id1 >> pure id1 in
        let (valid, u0, checked, h1) = bind-eq-ok (λ done. add >>= last) check w v id h in
        let (id1, u1, added, h2) = bind-eq-ok last add u0 v id h1 in
        let (done, u2, wrote, h3) = bind-eq-ok (λ d. pure id1) (write id1) u1 v id h2 in
        let same : w ≡ u0 = ap (λ s. s.1) checked in
        let named : id1 ≡ id = ok-injective (ap (λ s. s.0) h3) in
        let here : u2 ≡ v = ap (λ s. s.1) h3 in
        rw (same, ← named, ← here) (recorded u0 u1 u2 id1 added wrote)

    -- The status that is read after a result.
    abbrev pub status_after : S.Db → Text → GenerationStatus
    status_after before id =
        let filled : Option Text → Option Text = filter_option (λ value. not (is_empty value)) in
        let old = S.hget before (status_key result.request_id) in
        record {
          state = if is_terminal result.event then codes "completed" else codes "running";
          model_id = unwrap_or (old (codes "model_id")) [];
          active_attempt_id = filled (some result.attempt_id);
          terminal_event_id =
              filled
                (if is_terminal result.event then some id else old (codes "terminal_event_id"));
        }

    named_state : (b : Bool) → is_empty (if b then codes "completed" else codes "running") ≡ false
    unfolding codes
    named_state true = refl
    named_state false = refl

    status_of-Recorded :
        (before after : S.Db) (id : Text)
        → Recorded S config result (encode result) id before after
        → status_of (status_values S config result.request_id after) ≡ some (status_after before id)
    unfolding status_of cell status_values
    status_of-Recorded before after id r =
        rw (r.state, r.model, r.attempt, r.terminal, named_state (is_terminal result.event)) refl

    -- When the time for which a result is kept, the retention after a last event and the active time
    -- to live after any other, is a second or more: the status that is read right after the result
    -- was published says that the generation is running, or completed by a last event, and names the
    -- attempt and, for a last event, the event; the model is as before.
    pub publish_result-status :
        (w v u : World) (id : Text) (known : Option GenerationStatus)
        → publish_result S config T redis_text encode result w ≡ (ok id, v)
        → status S config T redis_text result.request_id v ≡ (ok known, u)
        → known ≡ some (status_after (db w) id)
    unfolding status
    publish_result-status w v u id known h k =
        let read : Action World Text (List (Option Text)) =
          call S config T redis_text (λ d. (status_values S config result.request_id d, d)) in
        let (values, v1, sent, k1) = bind-eq-ok (λ vs. pure (status_of vs)) read v u known k in
        let answer =
          call-delivered (λ d. (status_values S config result.request_id d, d)) v v1 values sent in
        sym (ok-injective (ap (λ s. s.0) k1))
        ∙ ap (λ (s : List (Option Text) × S.Db). status_of s.0) (sym answer)
        ∙ status_of-Recorded (db w) (db v) id (publish_result-Recorded w v id h)
