-- ===== src/Streams/Jobs/Board/Safety.antt =====
-- What every history of the commands of `publish_generation` and `publish_result`, their
-- transactions and the passage of time keeps in the broker of crates/inference-streams/src/lib.rs.
use inference_data_plane.Prelude.{
  ℕ, ◌/◌, ◌<◌, ◌≡◌, ◌⊎◌, refl, ap, subst, ◌∙◌, Bool-cases, inl, inr, some, List, ◌++◌, All, All-map,
  All-without, map-All, Has,
}
use inference_data_plane.Text.{Text, codes, text_eq}
use inference_data_plane.Streams.{StreamsConfig}
use inference_data_plane.Streams.Wire.{GenerationJob, GenerationResult, GenerationStatus}
use inference_data_plane.Streams.Jobs.{JobStore, is_terminal, result_ttl, status_of, status_values}
use inference_data_plane.Streams.Jobs.Board.{
  status_of-known, BoardState, PendingResult, Change, adds_job, writes_job, adds_result,
  writes_result, passes, History, nothing, then_change, LastEvent, Inv, Sound, Keeps, IsFirst,
  add_job, write_job, add_result, write_result, age, wait,
}
use inference_data_plane.Streams.Jobs.Board.Steps.{
  Keeps-Sound, add_job-Inv, add_job-Keeps, write_job-Inv, queued-Keeps,
}
use inference_data_plane.Streams.Jobs.Board.Waiting.{wait-Inv, age-Sound}
use inference_data_plane.Streams.Jobs.Board.Results.{
  add_result-Inv, added-Keeps, added-Sound, write_result-Inv, write_result-Keeps,
}

module _ (S : JobStore) (config : StreamsConfig) (encode_job : GenerationJob → List ℕ)
    (encode_result : GenerationResult → List ℕ) (active : 0 < config.active_ttl / 1000)
    (retained : 0 < config.result_retention / 1000) where
  open S use {Db}

  abbrev State : Type 0
  State = BoardState S config encode_job encode_result

  -- What all requests and all calls under way keep to.
  record IsConsistent (b : State) : Type 0 where
    known : (q : Text) → Inv S config encode_job encode_result b q
    sound : All (Sound S config encode_job encode_result b.db) b.results

  positive : (result : GenerationResult) → 0 < result_ttl S config result
  unfolding result_ttl
  positive result = elim (Bool-cases (is_terminal result.event)) [
    | inl h ↦ rw h retained
    | inr h ↦ rw h active
  ]

  kept :
      (db after : Db) (ps : List (PendingResult S config encode_job encode_result))
      → Keeps S config encode_job encode_result db after
      → All (Sound S config encode_job encode_result db) ps
      → All (Sound S config encode_job encode_result after) ps
  kept db after ps keeps =
      All-map (λ p. Keeps-Sound S config encode_job encode_result db after p keeps) ps

  Change-IsConsistent :
      (b after : State)
      → Change S config encode_job encode_result b after
      → IsConsistent b
      → IsConsistent after
  unfolding add_job write_job add_result write_result wait
  Change-IsConsistent _ _ (adds_job job b) c = record {
    known = λ q. add_job-Inv S config encode_job encode_result job b q (c.known q);
    sound = kept b.db _ b.results (add_job-Keeps S config encode_job encode_result job b) c.sound;
  }
  Change-IsConsistent _ _ (writes_job before after (job, id) b h) c = record {
    known = λ q.
        write_job-Inv S config encode_job encode_result active (before ++ after) (job, id) b q
          (c.known q);
    sound =
        kept b.db _ b.results (queued-Keeps S config encode_job encode_result job id active b.db)
          c.sound;
  }
  Change-IsConsistent _ _ (adds_result result b) c = record {
    known = λ q. add_result-Inv S config encode_job encode_result result b q (c.known q);
    sound = (
      added-Sound S config encode_job encode_result result b.db,
      kept b.db _ b.results (added-Keeps S config encode_job encode_result result b.db) c.sound,
    );
  }
  Change-IsConsistent _ _ (writes_result before after p b h) c =
      let (here, others) =
        All-without (Sound S config encode_job encode_result b.db) before p after
          (subst (All (Sound S config encode_job encode_result b.db)) h c.sound) in
      record {
        known = λ q.
            write_result-Inv S config encode_job encode_result (before ++ after) p
              (positive p.result) b q here (c.known q);
        sound =
            kept b.db _ (before ++ after)
              (write_result-Keeps S config encode_job encode_result (before ++ after) p
                (positive p.result) b)
              others;
      }
  Change-IsConsistent _ _ (passes n b) c = record {
    known = λ q. wait-Inv S config encode_job encode_result n b q (c.known q);
    sound =
        map-All (Sound S config encode_job encode_result b.db)
          (Sound S config encode_job encode_result (S.elapse n b.db))
          (age S config encode_job encode_result n b.db)
          (age-Sound S config encode_job encode_result n b.db) b.results c.sound;
  }

  History-IsConsistent :
      (first b : State)
      → IsConsistent first
      → History S config encode_job encode_result first b
      → IsConsistent b
  History-IsConsistent first _ c nothing = c
  History-IsConsistent first _ c (then_change {b} {after} before change) =
      Change-IsConsistent b after change (History-IsConsistent first b c before)

  IsFirst-IsConsistent :
      (first : State) → IsFirst S config encode_job encode_result first → IsConsistent first
  IsFirst-IsConsistent first start = record {
    known = λ q done. absurd (start.not_completed q done);
    sound = rw start.no_results tt;
  }

  -- For a broker where no generation is completed and no result is under way, and times to live of a
  -- second or more, after any interleaving of the commands of any jobs and results, some of whose
  -- transactions may never run, and of waiting: whenever the status of a request says that it is
  -- completed, it names an event, and that event ends the generation, is of this request, is in the
  -- result stream under this name, and the status and the stream expire together; or else the
  -- stream had expired between the append of that event and its transaction.
  pub History-LastEvent :
      (first b : State) (request_id : Text) (known : GenerationStatus)
      → IsFirst S config encode_job encode_result first
      → History S config encode_job encode_result first b
      → status_of (status_values S config request_id b.db) ≡ some known
      → known.state ≡ codes "completed"
      → (id : Text) × (known.terminal_event_id ≡ some id)
        × (LastEvent S config encode_job encode_result b.db request_id id
            ⊎ Has (request_id, id) b.late)
  unfolding status_values
  History-LastEvent first b q known start history h done =
      let c = History-IsConsistent first b (IsFirst-IsConsistent first start) history in
      let (state, terminal) = status_of-known _ _ _ _ known h in
      let last = c.known q (state ∙ ap some done) in
      (last.id, terminal ∙ rw (last.named, last.is_named) refl, last.outcome)
