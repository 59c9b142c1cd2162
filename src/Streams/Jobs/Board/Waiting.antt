-- ===== src/Streams/Jobs/Board/Waiting.antt =====
-- What the passage of time keeps in the broker of crates/inference-streams/src/lib.rs.
use inference_data_plane.Prelude.{
  ℕ, ◌+◌, ◌≡◌, refl, sym, ap, subst, ◌∙◌, false, List, Bool-cases, inl, inr, Bool, Has, ◌||◌, true,
}
use inference_data_plane.Text.{Text, codes, text_eq}
use inference_data_plane.Streams.{StreamsConfig}
use inference_data_plane.Streams.Keys.{result_stream, status_key}
use inference_data_plane.Streams.Keyspace.{is_past}
use inference_data_plane.Streams.Wire.{GenerationJob, GenerationResult}
use inference_data_plane.Streams.Jobs.{JobStore}
use inference_data_plane.Streams.Jobs.Board.{
  BoardState, PendingResult, LastEvent, Inv, Sound, age, wait,
}

module _ (S : JobStore) (config : StreamsConfig) (encode_job : GenerationJob → List ℕ)
    (encode_result : GenerationResult → List ℕ) where
  open S use {Db, entries, hget, exists, deadline, now, xadd, elapse}

  abbrev State : Type 0
  State = BoardState S config encode_job encode_result

  abbrev Known : State → Text → Type 0
  Known = Inv S config encode_job encode_result

  abbrev IsSound : Db → PendingResult S config encode_job encode_result → Type 0
  IsSound = Sound S config encode_job encode_result

  -- The passage of time.
  pub wait-Inv :
      (n : ℕ) (b : State) (q : Text)
      → Known b q
      → Known (wait S config encode_job encode_result n b) q
  unfolding wait
  wait-Inv n b q inv = elim (Bool-cases (is_past (deadline b.db (status_key q)) (now b.db + n))) [
    | inl h ↦ λ done. cc (done, S.hget-elapse n (status_key q) (codes "state") b.db, h)
    | inr h ↦ λ done.
        let known =
          inv (sym (S.hget-elapse n (status_key q) (codes "state") b.db ∙ rw h refl) ∙ done) in
        record {
          id = known.id;
          is_named = known.is_named;
          named =
              S.hget-elapse n (status_key q) (codes "terminal_event_id") b.db ∙ rw h known.named;
          outcome = elim known.outcome [
            | inl last ↦ inl (alive n b q known.id h last)
            | inr late ↦ inr late
          ];
        }
  ]
    where
      alive :
          (n : ℕ) (b : State) (q id : Text)
          → is_past (deadline b.db (status_key q)) (now b.db + n) ≡ false
          → LastEvent S config encode_job encode_result b.db q id
          → LastEvent S config encode_job encode_result (elapse n b.db) q id
      alive n b q id h last =
          let still : is_past (deadline b.db (result_stream q)) (now b.db + n) ≡ false =
            ap (λ d. is_past d (now b.db + n)) (sym last.together) ∙ h in
          let status_kept : deadline (elapse n b.db) (status_key q) ≡ deadline b.db (status_key q) =
            S.deadline-elapse n (status_key q) b.db ∙ rw h refl in
          let results_kept : deadline (elapse n b.db) (result_stream q)
              ≡ deadline b.db (result_stream q) =
            S.deadline-elapse n (result_stream q) b.db ∙ rw still refl in
          record {
            result = last.result;
            is_last = last.is_last;
            of_request = last.of_request;
            there =
                subst (Has (id, encode_result last.result))
                  (sym (S.entries-elapse n (result_stream q) b.db ∙ rw still refl)) last.there;
            together = status_kept ∙ last.together ∙ sym results_kept;
          }

  -- A pending result that has not expired is still there.
  pub age-Sound :
      (n : ℕ) (db : Db) (p : PendingResult S config encode_job encode_result)
      → IsSound db p
      → IsSound (elapse n db) (age S config encode_job encode_result n db p)
  unfolding age
  age-Sound n db p sound =
      let rs = result_stream p.result.request_id in
      record {
        is_named = sound.is_named;
        there = λ h.
            let (fresh, still) = both_false p.expired _ h in
            subst (Has (p.id, encode_result p.result))
              (sym (S.entries-elapse n rs db ∙ rw still refl)) (sound.there fresh);
        alive = λ h.
            let (fresh, still) = both_false p.expired _ h in
            S.exists-elapse n rs db ∙ rw still (sound.alive fresh);
      }
    where
      both_false : (x y : Bool) → (x || y) ≡ false → (x ≡ false) × (y ≡ false)
      both_false true y h = cc
      both_false false y h = (refl, h)
