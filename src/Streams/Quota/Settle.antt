-- ===== src/Streams/Quota/Settle.antt =====
-- What reconciling and cancelling an open reservation do, by the scripts of
-- crates/inference-streams/src/lib.rs.
use inference_data_plane.Prelude.{
  ℕ, ◌+◌, ◌-◌, ◌≤◌, ◌≡◌, refl, ap, ◌∙◌, Bool, true, false, some, List, [], ◌∷◌, arith, lookup,
  ==_self, if◌then◌else◌,
}
use inference_data_plane.Prelude.Int.{ℤ, pos, ◌+ℤ◌, ◌-ℤ◌, ltb_ℤ, pos_part, neg_part, int_laws}
use inference_data_plane.Text.{Text, text_eq, text_beq}
use inference_data_plane.Streams.Keys.{counter, key_kind}
use inference_data_plane.Streams.Keyspace.{Keyspace, Datum, number, word}
use inference_data_plane.Streams.Quota.{
  Charge, count, reconcile_script, cancel_script, refund_of, decr_some, is_word, status, reserved,
  reconciled, cancelled, requests_field, prompt_field, generated_field, prompt, generated,
  actual_generated, refunded,
}
use inference_data_plane.Streams.Quota.Effects.{IsCharge, charge_at, count-incr_by, count-hset}

add_back_three :
    (x y z w : ℤ) (a b c : ℕ)
    → y +ℤ pos a ≡ x
    → z +ℤ pos b ≡ y
    → w +ℤ pos c ≡ z
    → w +ℤ pos (a + b + c) ≡ x
add_back_three x y z w a b c h i j = omega (
  int_laws,
  ap pos_part h,
  ap neg_part h,
  ap pos_part i,
  ap neg_part i,
  ap pos_part j,
  ap neg_part j,
)

module _ (K : Keyspace) where
  open K use {Db, hget, deadline, now, incr_by, hset}

  unfoldable pub is_open : Db → Charge → Bool
  is_open db c = is_word reserved (hget db c.reservation_at status)

  -- The fields of a reservation say what was charged.
  pub record Stored (db : Db) (c : Charge) : Type 0 where
    pub requests : hget db c.reservation_at requests_field ≡ some (word c.requests_at)
    pub prompts : hget db c.reservation_at prompt_field ≡ some (word c.prompt_at)
    pub generations : hget db c.reservation_at generated_field ≡ some (word c.generated_at)
    pub prompt_add : hget db c.reservation_at prompt ≡ some (number (pos c.prompt_add))
    pub generated_add : hget db c.reservation_at generated ≡ some (number (pos c.generated_add))

  -- An open reservation was closed, at most its own charge was given back, and nothing else moved.
  pub record Settled (c : Charge) (db after : Db) : Type 0 where
    pub paid : Text → ℕ
    pub paid_le : (k : Text) → paid k ≤ charge_at c k
    pub counted : (k : Text) → count K after k +ℤ pos (paid k) ≡ count K db k
    pub others :
        (j f : Text) → text_eq.beq c.reservation_at j ≡ false → hget after j f ≡ hget db j f
    pub closed : is_open after c ≡ false
    pub deadlines : (j : Text) → deadline after j ≡ deadline db j
    pub clock : now after ≡ now db

  refund_of-pos : (g a : ℕ) → refund_of K (pos g) a ≡ pos (g - a)
  unfolding refund_of ◌-ℤ◌
  refund_of-pos g a = ground arith

  is_open-hset :
      (c : Charge) (w : Text) (fs : List (Text × Datum)) (db : Db)
      → IsCharge c
      → text_eq.beq w reserved ≡ false
      → is_open (hset c.reservation_at ((status, word w) ∷ fs) db) c ≡ false
  unfolding is_open lookup
  is_open-hset c w fs db v h =
      simp (K.hget-hset _ _ _ _ _ v.reservation, ==_self c.reservation_at, ==_self status, h)

  count-decr_by :
      (k j : Text) (n : ℕ) (db : Db)
      → key_kind k ≡ counter
      → count K (incr_by k (pos 0 -ℤ pos n) db) j +ℤ pos (if text_eq.beq k j then n else 0)
        ≡ count K db j
  unfolding ◌+ℤ◌ ◌-ℤ◌
  count-decr_by k j n db h = ground (arith, count-incr_by K k j (pos 0 -ℤ pos n) db h)

  -- A refund is taken off the counter exactly when there is one.
  pub pay : Charge → ℕ → Db → Db
  pay c n db = if ltb_ℤ (pos 0) (pos n) then incr_by c.generated_at (pos 0 -ℤ pos n) db else db

  count-pay :
      (c : Charge) (n : ℕ) (db : Db) (k : Text)
      → IsCharge c
      → count K (pay c n db) k +ℤ pos (if text_eq.beq c.generated_at k then n else 0) ≡ count K db k
  unfolding pay ◌+ℤ◌ ◌-ℤ◌
  count-pay c n db k v =
      ground (arith, count-incr_by K c.generated_at k (pos 0 -ℤ pos n) db v.generations)

  hget-pay :
      (c : Charge) (n : ℕ) (db : Db) (j f : Text) → IsCharge c → hget (pay c n db) j f ≡ hget db j f
  unfolding pay
  hget-pay c n db j f v =
      ground (arith, K.hget-incr_by c.generated_at j f (pos 0 -ℤ pos n) db v.generations)

  deadline-pay :
      (c : Charge) (n : ℕ) (db : Db) (j : Text)
      → IsCharge c
      → deadline (pay c n db) j ≡ deadline db j
  unfolding pay
  deadline-pay c n db j v =
      ground (arith, K.deadline-incr_by c.generated_at j (pos 0 -ℤ pos n) db v.generations)

  now-pay : (c : Charge) (n : ℕ) (db : Db) → now (pay c n db) ≡ now db
  unfolding pay
  now-pay c n db = ground (arith, K.now-incr_by c.generated_at (pos 0 -ℤ pos n) db)

  module _ (c : Charge) (v : IsCharge c) (db : Db) (open_now : is_open db c ≡ true)
      (st : Stored db c) where
    pub reconcile_fields : ℕ → List (Text × Datum)
    reconcile_fields actual =
        (status, word reconciled)
        ∷ (actual_generated, number (pos actual))
        ∷ (refunded, number (pos (c.generated_add - actual)))
        ∷ []

    pub reconcile_script-eq :
        (actual : ℕ)
        → reconcile_script K c.reservation_at actual db ≡ (
          pos (c.generated_add - actual),
          hset c.reservation_at (reconcile_fields actual) (pay c (c.generated_add - actual) db),
        )
    unfolding reconcile_script is_open reconcile_fields decr_some pay
    reconcile_script-eq actual =
        rw (st.generated_add, st.generations, open_now, refund_of-pos c.generated_add actual)

    pub cancel_script-eq : cancel_script K c.reservation_at db ≡ (
      pos 1,
      hset c.reservation_at ((status, word cancelled) ∷ []) (
          incr_by c.generated_at (pos 0 -ℤ pos c.generated_add) (
            incr_by c.prompt_at
              (pos 0 -ℤ pos c.prompt_add)
              (incr_by c.requests_at (pos 0 -ℤ pos 1) db))),
    )
    unfolding cancel_script is_open decr_some
    cancel_script-eq =
        rw (st.generated_add, st.generations, st.prompt_add, st.prompts, st.requests, open_now)

    abbrev cancelled_db : Db
    cancelled_db = hset c.reservation_at ((status, word cancelled) ∷ []) (
        incr_by c.generated_at (pos 0 -ℤ pos c.generated_add) (
          incr_by c.prompt_at (pos 0 -ℤ pos c.prompt_add)
            (incr_by c.requests_at (pos 0 -ℤ pos 1) db)))

    cancelled-Settled : Settled c db cancelled_db
    unfolding charge_at
    cancelled-Settled = record {
      paid = charge_at c;
      paid_le = λ k. omega arith;
      counted = λ k. simp (count-hset K _ _ _ _ v.reservation) (
          add_back_three _ _ _ _ _ _ _ (count-decr_by c.requests_at k 1 db v.requests)
            (count-decr_by c.prompt_at k c.prompt_add _ v.prompts)
            (count-decr_by c.generated_at k c.generated_add _ v.generations));
      others = λ j f h. simp (
        K.hget-hset _ _ _ _ _ v.reservation,
        h,
        K.hget-incr_by _ _ _ _ _ v.requests,
        K.hget-incr_by _ _ _ _ _ v.prompts,
        K.hget-incr_by _ _ _ _ _ v.generations,
      );
      closed = is_open-hset c cancelled [] _ v (unfold text_beq cancelled reserved in refl);
      deadlines = λ j. simp (
        K.deadline-hset _ _ _ _ v.reservation,
        K.deadline-incr_by _ _ _ _ v.requests,
        K.deadline-incr_by _ _ _ _ v.prompts,
        K.deadline-incr_by _ _ _ _ v.generations,
      );
      clock = simp (K.now-hset, K.now-incr_by);
    }

    pub cancel-Settled : Settled c db (cancel_script K c.reservation_at db).1
    cancel-Settled = rw cancel_script-eq cancelled-Settled

    reconciled-Settled :
        (actual : ℕ)
        → Settled c db
            (hset c.reservation_at (reconcile_fields actual) (pay c (c.generated_add - actual) db))
    unfolding reconcile_fields
    reconciled-Settled actual = record {
      paid = λ k. if text_eq.beq c.generated_at k then c.generated_add - actual else 0;
      paid_le = λ k. unfold charge_at in ground arith;
      counted = λ k.
          ap (λ n. n +ℤ pos (if text_eq.beq c.generated_at k then c.generated_add - actual else 0))
            (count-hset K _ _ _ _ v.reservation)
          ∙ count-pay c (c.generated_add - actual) db k v;
      others = λ j f h.
          simp (
            K.hget-hset _ _ _ _ _ v.reservation,
            h,
            hget-pay c (c.generated_add - actual) db j f v,
          );
      closed = is_open-hset c reconciled _ _ v (unfold text_beq reconciled reserved in refl);
      deadlines = λ j.
          K.deadline-hset _ _ _ _ v.reservation ∙ deadline-pay c (c.generated_add - actual) db j v;
      clock = K.now-hset _ _ _ ∙ now-pay c (c.generated_add - actual) db;
    }

    pub reconcile-Settled :
        (actual : ℕ) → Settled c db (reconcile_script K c.reservation_at actual db).1
    reconcile-Settled actual = rw (reconcile_script-eq actual) (reconciled-Settled actual)
