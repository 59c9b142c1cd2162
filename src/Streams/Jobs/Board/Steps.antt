-- ===== src/Streams/Jobs/Board/Steps.antt =====
-- What the commands on jobs keep in the broker of crates/inference-streams/src/lib.rs.
use inference_data_plane.Prelude.{
  ℕ, ◌/◌, ◌<◌, ◌≡◌, refl, sym, subst, ◌∙◌, false, List, [], ◌∷◌, Bool-cases, inl, inr, lookup,
  arith, cons-ne-nil, Has, if◌then◌else◌,
}
use inference_data_plane.Text.{Text, codes, text_eq, text_beq}
use inference_data_plane.Streams.{StreamsConfig}
use inference_data_plane.Streams.Keys.{
  request_stream, result_stream, status_key, kind-status, kind-result, kind_request_stream,
  request_stream-beq-result_stream,
}
use inference_data_plane.Streams.Keyspace.{or_old}
use inference_data_plane.Streams.Wire.{GenerationJob, GenerationResult}
use inference_data_plane.Streams.Jobs.{JobStore, queued_writes}
use inference_data_plane.Streams.Jobs.Effects.{kinds_apart}
use inference_data_plane.Streams.Jobs.Board.{
  queued-ne-completed, BoardState, PendingResult, Inv, Sound, Same, Keeps, add_job, write_job,
}

module _ (S : JobStore) (config : StreamsConfig) (encode_job : GenerationJob → List ℕ)
    (encode_result : GenerationResult → List ℕ) where
  open S use {Db, entries, hget, exists, deadline, now, xadd, elapse}

  abbrev State : Type 0
  State = BoardState S config encode_job encode_result

  abbrev Known : State → Text → Type 0
  Known = Inv S config encode_job encode_result

  -- The three predicates with the parameters of this module.
  abbrev Untouched : Db → Db → Text → Type 0
  Untouched = Same S config encode_job encode_result

  abbrev Kept : Db → Db → Type 0
  Kept = Keeps S config encode_job encode_result

  abbrev IsSound : Db → PendingResult S config encode_job encode_result → Type 0
  IsSound = Sound S config encode_job encode_result

  pub Same-Inv :
      (b after : State) (q : Text)
      → Untouched b.db after.db q
      → ((e : Text × Text) → Has e b.late → Has e after.late)
      → Known b q
      → Known after q
  Same-Inv b after q same grows inv done =
      let known = inv (sym (same.fields (codes "state")) ∙ done) in
      record {
        id = known.id;
        is_named = known.is_named;
        named = same.fields (codes "terminal_event_id") ∙ known.named;
        outcome = elim known.outcome [
          | inl last ↦ inl (record {
            result = last.result;
            is_last = last.is_last;
            of_request = last.of_request;
            there = same.results (known.id, encode_result last.result) last.there;
            together = same.status_ends ∙ last.together ∙ sym same.results_end;
          })
          | inr late ↦ inr (grows (q, known.id) late)
        ];
      }

  pub Keeps-Sound :
      (db after : Db) (p : PendingResult S config encode_job encode_result)
      → Kept db after
      → IsSound db p
      → IsSound after p
  Keeps-Sound db after p kept sound = record {
    is_named = sound.is_named;
    there = λ h. kept.results p.result.request_id (p.id, encode_result p.result) (sound.there h);
    alive = λ h. kept.alive p.result.request_id (sound.alive h);
  }

  -- The append of a job.
  add_job-Same :
      (job : GenerationJob) (b : State) (q : Text)
      → Untouched b.db (add_job S config encode_job encode_result job b).db q
  unfolding add_job
  add_job-Same job b q =
      let payload = encode_job job in
      record {
        fields = λ f. S.hget-xadd request_stream (status_key q) f payload b.db kind_request_stream;
        results = λ e. subst (Has e) (
            sym (
              S.entries-xadd request_stream (result_stream q) payload b.db kind_request_stream
              ∙ rw (request_stream-beq-result_stream q) refl));
        status_ends =
            S.deadline-xadd request_stream (status_key q) payload b.db kind_request_stream;
        results_end =
            S.deadline-xadd request_stream (result_stream q) payload b.db kind_request_stream;
      }

  pub add_job-Inv :
      (job : GenerationJob) (b : State) (q : Text)
      → Known b q
      → Known (add_job S config encode_job encode_result job b) q
  unfolding add_job
  add_job-Inv job b q =
      Same-Inv b (add_job S config encode_job encode_result job b) q (add_job-Same job b q)
        (λ e h. h)

  pub add_job-Keeps :
      (job : GenerationJob) (b : State)
      → Kept b.db (add_job S config encode_job encode_result job b).db
  unfolding add_job
  add_job-Keeps job b = record {
    results = λ q. (add_job-Same job b q).results;
    alive = λ q h.
        S.exists-xadd request_stream (result_stream q) (encode_job job) b.db kind_request_stream
        ∙ ground (arith, h);
  }

  module _ (job : GenerationJob) (id : Text) (positive : 0 < config.active_ttl / 1000)
      (db : Db) where
    abbrev st : Text
    st = status_key job.request_id

    abbrev queued_fields : List (Text × Text)
    queued_fields =
        (codes "state", codes "queued")
        ∷ ((codes "model_id", job.model_id) ∷ ((codes "request_entry_id", id) ∷ []))

    abbrev queued : Db
    queued = queued_writes S config job id db

    hget-queued :
        (j f : Text)
        → hget queued j f ≡ (
            if text_eq.beq st j then or_old (lookup f queued_fields) (hget db j f) else hget db j f)
    unfolding queued_writes
    hget-queued j f =
        S.hget-expire st j f (config.active_ttl / 1000) _ positive
        ∙ S.hget-hset st j f queued_fields db (kind-status job.request_id)

    deadline-queued : (j : Text) → text_eq.beq st j ≡ false → deadline queued j ≡ deadline db j
    unfolding queued_writes
    deadline-queued j h =
        S.deadline-expire st j (config.active_ttl / 1000) _ positive
        ∙ rw h (S.deadline-hset st j queued_fields db (kind-status job.request_id))

    entries-queued : (q : Text) → entries queued (result_stream q) ≡ entries db (result_stream q)
    unfolding queued_writes
    entries-queued q =
        S.entries-expire st (result_stream q) (config.active_ttl / 1000) _ positive
        ∙ S.entries-hset st (result_stream q) queued_fields db (kind-status job.request_id)

    pub queued-Keeps : Kept db queued
    unfolding queued_writes
    queued-Keeps = record {
      results = λ q e. subst (Has e) (sym (entries-queued q));
      alive = λ q h.
          S.exists-expire st (result_stream q) (config.active_ttl / 1000) _ positive
          ∙ S.exists-hset st (result_stream q) queued_fields db (kind-status job.request_id)
              cons-ne-nil
          ∙ ground (arith, h);
    }

    queued-Same : (q : Text) → text_eq.beq st (status_key q) ≡ false → Untouched db queued q
    queued-Same q h = record {
      fields = λ f. hget-queued (status_key q) f ∙ rw h refl;
      results = λ e. subst (Has e) (sym (entries-queued q));
      status_ends = deadline-queued (status_key q) h;
      results_end =
          deadline-queued (result_stream q)
            (kinds_apart st (result_stream q) (kind-status job.request_id) (kind-result q));
    }

  -- The transaction of a job: its own generation is queued again, whatever it was.
  pub write_job-Inv :
      (positive : 0 < config.active_ttl / 1000) (others : List (GenerationJob × Text))
      (pending : GenerationJob × Text) (b : State) (q : Text)
      → Known b q
      → Known (write_job S config encode_job encode_result others pending b) q
  unfolding write_job lookup codes text_beq
  write_job-Inv positive others (job, id) b q inv =
      elim (Bool-cases (text_eq.beq (status_key job.request_id) (status_key q))) [
        | inl h ↦ λ done. absurd (
            queued-ne-completed (
              sym (hget-queued job id positive b.db (status_key q) (codes "state") ∙ rw h refl)
              ∙ done))
        | inr h ↦
            Same-Inv b (write_job S config encode_job encode_result others (job, id) b) q
              (queued-Same job id positive b.db q h) (λ e k. k) inv
      ]
