-- ===== src/Streams/Quota/Expiry.antt =====
-- The books of crates/inference-streams/src/lib.rs after the passage of time.
use inference_data_plane.Prelude.{
  ℕ, ◌+◌, ◌≡◌, refl, ◌∙◌, Bool, true, false, List, [], ◌∷◌, arith, All, All-map, inl, inr,
  Bool-cases, if◌then◌else◌,
}
use inference_data_plane.Prelude.Int.{pos, int_laws}
use inference_data_plane.Text.{Text}
use inference_data_plane.Streams.Keyspace.{Keyspace, is_past}
use inference_data_plane.Streams.Quota.{Charge, count, status}
use inference_data_plane.Streams.Quota.Effects.{charge_at, touches}
use inference_data_plane.Streams.Quota.Settle.{is_open}
use inference_data_plane.Streams.Quota.Accounts.{
  untouched, Timed, Sound, open_at, Balanced, Closes, open_at-le,
}

module _ (K : Keyspace) (n : ℕ) (db : K.Db) where
  open K use {Db, get, hget, deadline, now, elapse}

  pub past : Text → Bool
  past k = is_past (deadline db k) (now db + n)

  pub count-elapse : (k : Text) → count K (elapse n db) k ≡ (if past k then pos 0 else count K db k)
  unfolding count past
  count-elapse k = ground (arith, K.get-elapse n k db)

  -- What is still open had not reached its deadline.
  still_open :
      (c : Charge)
      → is_open K (elapse n db) c ≡ true
      → (past c.reservation_at ≡ false) × (is_open K db c ≡ true)
  unfolding is_open past
  still_open c h = ground (arith, K.hget-elapse n c.reservation_at status db)

  closes : Closes K db (elapse n db)
  closes c h = (still_open c h).1

  hget_kept :
      (c : Charge) (f : Text)
      → past c.reservation_at ≡ false
      → hget (elapse n db) c.reservation_at f ≡ hget db c.reservation_at f
  unfolding past
  hget_kept c f h = K.hget-elapse n c.reservation_at f db ∙ rw h

  deadline_kept : (k : Text) → past k ≡ false → deadline (elapse n db) k ≡ deadline db k
  unfolding past
  deadline_kept k h = K.deadline-elapse n k db ∙ rw h

  -- The counters of what is still open have not reached their deadlines either.
  counter_kept :
      (c : Charge) (k : Text)
      → past c.reservation_at ≡ false
      → Timed K db c
      → touches c k ≡ true
      → past k ≡ false
  unfolding past
  counter_kept c k h t m = ground (arith, t.ends, t.outlived k m)

  elapsed_Sound : (c : Charge) → Sound K db c → Sound K (elapse n db) c
  elapsed_Sound c g = record {
    charge = g.charge;
    stored = λ h.
        let (alive, o) = still_open c h in
        let s = g.stored o in
        record {
          requests = hget_kept c _ alive ∙ s.requests;
          prompts = hget_kept c _ alive ∙ s.prompts;
          generations = hget_kept c _ alive ∙ s.generations;
          prompt_add = hget_kept c _ alive ∙ s.prompt_add;
          generated_add = hget_kept c _ alive ∙ s.generated_add;
        };
    timed = λ h.
        let (alive, o) = still_open c h in
        let t = g.timed o in
        record {
          limit = t.limit;
          ends = deadline_kept c.reservation_at alive ∙ t.ends;
          soon = omega (arith, t.soon, K.now-elapse n db);
          until = t.until;
          outlived = λ k m. (
            deadline_kept k (counter_kept c k alive t m) ∙ (t.outlived k m).0,
            (t.outlived k m).1,
          );
        };
  }

  charged_nothing :
      (c : Charge) (k : Text)
      → Sound K db c
      → past k ≡ true
      → is_open K (elapse n db) c ≡ true
      → charge_at c k ≡ 0
  charged_nothing c k g gone h =
      let (alive, o) = still_open c h in
      elim (Bool-cases (touches c k)) [
        | inl touched ↦ absurd (ground (arith, counter_kept c k alive (g.timed o) touched))
        | inr free ↦ untouched c k free
      ]

  nothing_open :
      (k : Text) (issued : List Charge)
      → past k ≡ true
      → All (Sound K db) issued
      → open_at K (elapse n db) k issued ≡ 0
  unfolding open_at
  nothing_open k [] gone h = refl
  nothing_open k (c ∷ issued) gone h =
      ground (arith, charged_nothing c k h.0 gone, nothing_open k issued gone h.1)

  pub elapsed-Balanced :
      (issued : List Charge) → Balanced K db issued → Balanced K (elapse n db) issued
  elapsed-Balanced issued b = record {
    sound = All-map elapsed_Sound issued b.sound;
    covered = λ k. elim (Bool-cases (past k)) [
      | inl gone ↦ rw (count-elapse k, gone, nothing_open k issued gone b.sound) (omega arith)
      | inr kept ↦
          rw (count-elapse k, kept)
            (omega (int_laws, b.covered k, open_at-le K db (elapse n db) k issued closes))
    ];
  }
