-- ===== src/Streams/Jobs/Board/Results.antt =====
-- What the commands on results keep in the broker of crates/inference-streams/src/lib.rs.
use inference_data_plane.Prelude.{
  ℕ, ◌<◌, ◌≡◌, ◌≢◌, refl, sym, subst, ◌∙◌, false, List, [], ◌∷◌, Bool-cases, inl, inr, lookup,
  ==_ne, ==_self, arith, Has, Has-append, Has-last, Has-cons, Has-first, true,
}
use inference_data_plane.Text.{Text, codes, text_eq, text_beq, text_beq_iff}
use inference_data_plane.Streams.{StreamsConfig}
use inference_data_plane.Streams.Keys.{
  result_stream, status_key, kind-status, kind-result, status_key-injective,
  result_stream-injective,
}
use inference_data_plane.Streams.Wire.{GenerationJob, GenerationResult}
use inference_data_plane.Streams.Jobs.{JobStore, Entry, is_terminal, result_ttl, result_writes}
use inference_data_plane.Streams.Jobs.Effects.{
  kinds_apart, kinds_apart_back, hget-other, first_field, terminal_field, deadline-status,
  deadline-results, exists-result_writes, deadline-other, entries-result_writes,
}
use inference_data_plane.Streams.Jobs.Board.{
  running-ne-completed, not_empty, BoardState, PendingResult, LastEvent, Inv, Sound, Same, Keeps,
  add_result, write_result,
}
use inference_data_plane.Streams.Jobs.Board.Steps.{Same-Inv}

module _ (S : JobStore) (config : StreamsConfig) (encode_job : GenerationJob → List ℕ)
    (encode_result : GenerationResult → List ℕ) where
  open S use {Db, entries, hget, exists, deadline, now, xadd, elapse}

  abbrev State : Type 0
  State = BoardState S config encode_job encode_result

  abbrev Known : State → Text → Type 0
  Known = Inv S config encode_job encode_result

  -- The append of a result.
  module _ (result : GenerationResult) (db : Db) where
    abbrev rs : Text
    rs = result_stream result.request_id

    abbrev added : Db
    added = (xadd rs (encode_result result) db).1

    abbrev appended_id : Text
    appended_id = (xadd rs (encode_result result) db).0

    added-results :
        (q : Text) (e : Entry)
        → Has e (entries db (result_stream q))
        → Has e (entries added (result_stream q))
    added-results q e h =
        let grown =
          S.entries-xadd rs (result_stream q) (encode_result result) db
            (kind-result result.request_id) in
        elim (Bool-cases (text_eq.beq rs (result_stream q))) [
          | inl own ↦ subst (Has e) (sym (grown ∙ rw own refl)) (
              Has-append e (entries db (result_stream q)) ((appended_id, encode_result result) ∷ [])
                h)
          | inr other ↦ subst (Has e) (sym (grown ∙ rw other refl)) h
        ]

    pub added-Keeps : Keeps S config encode_job encode_result db added
    added-Keeps = record {
      results = added-results;
      alive = λ q h.
          S.exists-xadd rs (result_stream q) (encode_result result) db
            (kind-result result.request_id)
          ∙ ground (arith, h);
    }

    added-Same : (q : Text) → Same S config encode_job encode_result db added q
    added-Same q =
        let kind = kind-result result.request_id in
        record {
          fields = λ f. S.hget-xadd rs (status_key q) f (encode_result result) db kind;
          results = added-results q;
          status_ends = S.deadline-xadd rs (status_key q) (encode_result result) db kind;
          results_end = S.deadline-xadd rs (result_stream q) (encode_result result) db kind;
        }

    -- The result that waits for its transaction.
    pub added-Sound :
        Sound S config encode_job encode_result added
          (record { result = result; id = appended_id; expired = false })
    added-Sound =
        let kind = kind-result result.request_id in
        record {
          is_named = not_empty _ (S.xadd-ne-nil rs (encode_result result) db kind);
          there = λ h.
              subst (Has (appended_id, encode_result result))
                (sym (S.entries-xadd rs rs (encode_result result) db kind ∙ rw (==_self rs) refl))
                (Has-last (appended_id, encode_result result) (entries db rs));
          alive = λ h. S.exists-xadd rs rs (encode_result result) db kind ∙ rw (==_self rs) refl;
        }

  pub add_result-Inv :
      (result : GenerationResult) (b : State) (q : Text)
      → Known b q
      → Known (add_result S config encode_job encode_result result b) q
  unfolding add_result
  add_result-Inv result b q =
      Same-Inv S config encode_job encode_result b
        (add_result S config encode_job encode_result result b) q (added-Same result b.db q)
        (λ e h. h)

  -- The transaction of a result.
  module _ (others : List (PendingResult S config encode_job encode_result))
      (p : PendingResult S config encode_job encode_result)
      (positive : 0 < result_ttl S config p.result) (b : State) where
    abbrev result : GenerationResult
    result = p.result

    abbrev written : Db
    written = result_writes S config result p.id b.db

    abbrev after : State
    after = write_result S config encode_job encode_result others p b

    late_grows : (e : Text × Text) → Has e b.late → Has e after.late
    unfolding write_result
    late_grows e h = elim (Bool-cases p.expired) [
      | inl x ↦ rw x (Has-cons e (result.request_id, p.id) b.late h)
      | inr x ↦ rw x h
    ]

    pub write_result-Keeps : Keeps S config encode_job encode_result b.db after.db
    unfolding write_result
    write_result-Keeps = record {
      results = λ q e.
          subst (Has e)
            (sym (entries-result_writes S config result positive p.id (result_stream q) b.db));
      alive = λ q. exists-result_writes S config result positive p.id (result_stream q) b.db;
    }

    written-Same :
        (q : Text) → result.request_id ≢ q → Same S config encode_job encode_result b.db written q
    written-Same q other =
        let st = status_key result.request_id in
        let rs = result_stream result.request_id in
        let status_other : text_eq.beq st (status_key q) ≡ false =
          ==_ne st (status_key q) (λ h. other (status_key-injective result.request_id q h)) in
        let results_other : text_eq.beq rs (result_stream q) ≡ false =
          ==_ne rs (result_stream q) (λ h. other (result_stream-injective result.request_id q h)) in
        let status_results =
          kinds_apart st (result_stream q) (kind-status result.request_id) (kind-result q) in
        let results_status : text_eq.beq rs (status_key q) ≡ false =
          kinds_apart_back rs (status_key q) (kind-result result.request_id) (kind-status q) in
        record {
          fields = λ f. hget-other S config result positive p.id (status_key q) f b.db status_other;
          results = λ e.
              subst (Has e)
                (sym (entries-result_writes S config result positive p.id (result_stream q) b.db));
          status_ends =
              deadline-other S config result positive p.id (status_key q) b.db status_other
                results_status;
          results_end =
              deadline-other S config result positive p.id (result_stream q) b.db status_results
                results_other;
        }

    -- A last event whose stream has not expired, right after its transaction.
    written-LastEvent :
        Sound S config encode_job encode_result b.db p
        → p.expired ≡ false
        → is_terminal result.event ≡ true
        → LastEvent S config encode_job encode_result written result.request_id p.id
    written-LastEvent sound fresh terminal =
        let rs = result_stream result.request_id in
        record {
          result = result;
          is_last = terminal;
          of_request = refl;
          there =
              subst (Has (p.id, encode_result result))
                (sym (entries-result_writes S config result positive p.id rs b.db))
                (sound.there fresh);
          together =
              deadline-status S config result positive p.id b.db
              ∙ sym (deadline-results S config result positive p.id b.db (sound.alive fresh));
        }

    written-Known_self :
        Sound S config encode_job encode_result b.db p → Known after result.request_id
    unfolding write_result lookup codes text_beq
    written-Known_self sound done =
        let state = first_field S config result positive p.id (codes "state") b.db refl in
        elim (Bool-cases (is_terminal result.event)) [
          | inl terminal ↦ record {
            id = p.id;
            is_named = sound.is_named;
            named = terminal_field S config result positive p.id b.db ∙ rw terminal refl;
            outcome = elim (Bool-cases p.expired) [
              | inl x ↦ inr (rw x (Has-first (result.request_id, p.id) b.late))
              | inr x ↦ inl (written-LastEvent sound x terminal)
            ];
          }
          | inr goes_on ↦ absurd (running-ne-completed (sym (state ∙ rw goes_on refl) ∙ done))
        ]

    pub write_result-Inv :
        (q : Text) → Sound S config encode_job encode_result b.db p → Known b q → Known after q
    unfolding write_result
    write_result-Inv q sound inv = elim (Bool-cases (text_beq result.request_id q)) [
      | inl own ↦
          subst (Known after) ((text_beq_iff result.request_id q).0 own) (written-Known_self sound)
      | inr other ↦
          Same-Inv S config encode_job encode_result b after q
            (written-Same q (λ e. cc (other, (text_beq_iff result.request_id q).1 e))) late_grows
            inv
    ]
