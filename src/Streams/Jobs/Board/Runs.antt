-- ===== src/Streams/Jobs/Board/Runs.antt =====
-- `publish_generation` and `publish_result` of crates/inference-streams/src/lib.rs, when they return,
-- as histories of the broker: an append, and then its transaction.
use inference_data_plane.Prelude.{ℕ, ◌≡◌, refl, ap, ◌∙◌, false, List, [], ok-injective, Result, ok}
use inference_data_plane.Prelude.Action.{Action, pure, lift, ◌>>=◌, ◌>>◌, bind-eq-ok}
use inference_data_plane.Text.{Text}
use inference_data_plane.Streams.{StreamsConfig}
use inference_data_plane.Streams.Keys.{request_stream, result_stream}
use inference_data_plane.Streams.Reply.{validate_schema}
use inference_data_plane.Streams.Transport.{Transport, RedisError}
use inference_data_plane.Streams.Wire.{GenerationJob, GenerationResult}
use inference_data_plane.Streams.Jobs.{
  JobStore, call, publish_generation, publish_result, queued_writes, result_writes,
}
use inference_data_plane.Streams.Jobs.Outcomes.{call-delivered}
use inference_data_plane.Streams.Jobs.Board.{
  BoardState, PendingResult, adds_job, writes_job, adds_result, writes_result, History, nothing,
  then_change, add_job, write_job, add_result, write_result,
}

module _ (S : JobStore) (config : StreamsConfig) (encode_job : GenerationJob → List ℕ)
    (encode_result : GenerationResult → List ℕ) (T : Transport S.Db)
    (redis_text : RedisError → Text) where
  open T use {World, db}

  abbrev State : Type 0
  State = BoardState S config encode_job encode_result

  -- A valid message whose two commands have returned: what each has done.
  two_commands :
      (valid : Result Text (Unit {0})) (add : S.Db → Text × S.Db) (write : Text → S.Db → S.Db)
      (w v : World) (id : Text)
      → (lift valid >>= λ done. call S config T redis_text add >>= λ entry_id.
            call S config T redis_text (λ d. (tt, write entry_id d)) >> pure entry_id)
          w
        ≡ (ok id, v)
      → ((add (db w)).0 ≡ id) × (write (add (db w)).0 (add (db w)).1 ≡ db v)
  two_commands valid add write w v id h =
      let second : Text → Action World Text Text =
        λ entry_id. call S config T redis_text (λ d. (tt, write entry_id d)) >> pure entry_id in
      let first : Action World Text Text = call S config T redis_text add in
      let check : Action World Text (Unit {0}) = lift valid in
      let (done, u0, checked, h1) = bind-eq-ok (λ done. first >>= second) check w v id h in
      let (entry_id, u1, added, h2) = bind-eq-ok second first u0 v id h1 in
      let (ran, u2, wrote, h3) =
        bind-eq-ok (λ d. pure entry_id) (call S config T redis_text (λ d. (tt, write entry_id d)))
          u1 v id h2 in
      let same : db w ≡ db u0 = ap (λ s. db s.1) checked in
      let appended = call-delivered S config T redis_text add u0 u1 entry_id added in
      let written =
        call-delivered S config T redis_text (λ d. (tt, write entry_id d)) u1 u2 tt wrote in
      let begun : add (db w) ≡ (entry_id, db u1) = ap add same ∙ appended in
      (
        ap (λ s. s.0) begun ∙ ok-injective (ap (λ s. s.0) h3),
        ap (λ s. write s.0 s.1) begun ∙ ap (λ s. s.1) written ∙ ap (λ s. db s.1) h3,
      )

  -- A call of `publish_generation` or of `publish_result` that returns is a history of two changes,
  -- from any state of the other calls.
  pub publish_generation-History :
      (job : GenerationJob) (b : State) (w v : World) (id : Text)
      → b.db ≡ db w
      → publish_generation S config T redis_text encode_job job w ≡ (ok id, v)
      → (after : State) × History S config encode_job encode_result b after
        × (after.db ≡ db v)
        × (after.jobs ≡ b.jobs)
  unfolding publish_generation add_job write_job
  publish_generation-History job b w v id here h =
      let added = add_job S config encode_job encode_result job b in
      let entry_id = (S.xadd request_stream (encode_job job) b.db).0 in
      let (named, done) =
        two_commands (validate_schema job.schema_version) (S.xadd request_stream (encode_job job))
          (λ i d. queued_writes S config job i d) w v id h in
      (
        write_job S config encode_job encode_result b.jobs (job, entry_id) added,
        then_change (then_change nothing (adds_job job b))
            (writes_job [] b.jobs (job, entry_id) added refl),
        rw here done,
        refl,
      )

  pub publish_result-History :
      (result : GenerationResult) (b : State) (w v : World) (id : Text)
      → b.db ≡ db w
      → publish_result S config T redis_text encode_result result w ≡ (ok id, v)
      → (after : State) × History S config encode_job encode_result b after
        × (after.db ≡ db v)
        × (after.results ≡ b.results)
  unfolding publish_result add_result write_result
  publish_result-History result b w v id here h =
      let added = add_result S config encode_job encode_result result b in
      let p : PendingResult S config encode_job encode_result = record {
        result = result;
        id = (S.xadd (result_stream result.request_id) (encode_result result) b.db).0;
        expired = false;
      } in
      let (named, done) =
        two_commands (validate_schema result.schema_version)
          (S.xadd (result_stream result.request_id) (encode_result result))
          (λ i d. result_writes S config result i d) w v id h in
      (
        write_result S config encode_job encode_result b.results p added,
        then_change (then_change nothing (adds_result result b))
            (writes_result [] b.results p added refl),
        rw here done,
        refl,
      )
