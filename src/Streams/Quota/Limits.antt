-- ===== src/Streams/Quota/Limits.antt =====
-- The quota scripts of crates/inference-streams/src/lib.rs as a system that clients and time move, and
-- its limits.
use inference_data_plane.Prelude.{
  ℕ, ◌≡◌, sym, ap, subst, inl, inr, Bool, true, false, not, ◌&&◌, List, [], ◌∷◌, ◌++◌, arith, eqb,
  Bool-cases, All, if◌then◌else◌,
}
use inference_data_plane.Prelude.Int.{
  ℤ, pos, negsuc, pos_part, neg_part, ◌+ℤ◌, ◌≤ℤ◌, ltb_ℤ, int_laws,
}
use inference_data_plane.Text.{Text, text_eq, text_beq_iff}
use inference_data_plane.Streams.Keys.{quota_prefix, reservation_key}
use inference_data_plane.Streams.Keyspace.{Keyspace}
use inference_data_plane.Streams.Quota.{
  Charge, QuotaLimits, charge_of, count, reserve_writes, reserve_script, reconcile_script,
  cancel_script,
}
use inference_data_plane.Streams.Quota.Effects.{count-reserve_writes}
use inference_data_plane.Streams.Quota.Settle.{is_open, Settled, reconcile-Settled, cancel-Settled}
use inference_data_plane.Streams.Quota.Accounts.{
  quota_ttl, Sound, open_at, Balanced, settled-Balanced,
}
use inference_data_plane.Streams.Quota.Grants.{IsFresh, ttl_pos, granted-Balanced}
use inference_data_plane.Streams.Quota.Expiry.{elapsed-Balanced, count-elapse}
use inference_data_plane.Streams.Quota.Columns.{
  Column, requests, prompts, generations, key_of, limit_of, amount_of, charge_of-IsCharge,
  charge_at-charge_of,
}

-- The first number of a reply that grants is 1.
abbrev pub is_granted : List ℤ → Bool
is_granted [] = false
is_granted (pos n ∷ rest) = eqb n 1
is_granted (negsuc n ∷ rest) = false

module _ (K : Keyspace) (limits : QuotaLimits) where
  open K use {Db, elapse}

  pub record System : Type 0 where
    pub db : Db
    pub issued : List Charge

  unfoldable pub after_reserve : System → Charge → System
  after_reserve s c =
      let (answer, after) = reserve_script K c limits quota_ttl s.db in
      record { db = after; issued = if is_granted answer then c ∷ s.issued else s.issued }

  -- One script, sent by any client, or the passage of time. A reservation has a fresh identifier,
  -- and the ones that clients settle were issued; so says the origin of the identifiers.
  pub data Step : System → System → Type 0 where
    reserves :
        (s : System) (key_hash : Text) (bucket : ℕ) (id : Text) (p g : ℕ)
        → IsFresh (reservation_key id) s.issued
        → Step s (after_reserve s (charge_of (quota_prefix key_hash bucket) id p g))
    reconciles :
        (s : System) (before rest : List Charge) (c : Charge) (actual : ℕ)
        → s.issued ≡ before ++ c ∷ rest
        → Step s (record s { db = (reconcile_script K c.reservation_at actual s.db).1 })
    cancels :
        (s : System) (before rest : List Charge) (c : Charge)
        → s.issued ≡ before ++ c ∷ rest
        → Step s (record s { db = (cancel_script K c.reservation_at s.db).1 })
    elapses : (s : System) (n : ℕ) → Step s (record s { db = elapse n s.db })

  pub data Reach (s : System) : System → Type 0 where
    here : Reach s s
    next : {t u : System} → Reach s t → Step t u → Reach s u

  -- The tests of the script.
  fits : Charge → Db → Bool
  fits c db =
      not (ltb_ℤ (pos limits.requests_per_minute) (count K db c.requests_at +ℤ pos 1))
      && not
          (ltb_ℤ (pos limits.prompt_tokens_per_minute) (count K db c.prompt_at +ℤ pos c.prompt_add))
      && not (
          ltb_ℤ (pos limits.generated_tokens_per_minute)
            (count K db c.generated_at +ℤ pos c.generated_add))

  granted-eq-fits :
      (c : Charge) (db : Db) → is_granted (reserve_script K c limits quota_ttl db).0 ≡ fits c db
  unfolding reserve_script fits
  granted-eq-fits c db = ground arith

  reserve_script-db :
      (c : Charge) (db : Db)
      → (reserve_script K c limits quota_ttl db).1
        ≡ (if fits c db then reserve_writes K c quota_ttl db else db)
  unfolding reserve_script fits
  reserve_script-db c db = ground arith

  fits-le :
      (col : Column) (prefix id : Text) (p g : ℕ) (db : Db)
      → fits (charge_of prefix id p g) db ≡ true
      → count K db (key_of col prefix) +ℤ pos (amount_of col p g) ≤ℤ pos (limit_of col limits)
  unfolding fits charge_of
  fits-le requests prefix id p g db h = ground arith
  fits-le prompts prefix id p g db h = ground arith
  fits-le generations prefix id p g db h = ground arith

  pub record Inv (s : System) : Type 0 where
    pub balanced : Balanced K s.db s.issued
    pub capped :
        (col : Column) (prefix : Text)
        → count K s.db (key_of col prefix) ≤ℤ pos (limit_of col limits)

  after_reserve_granted :
      (s : System) (c : Charge)
      → fits c s.db ≡ true
      → after_reserve s c ≡ record { db = reserve_writes K c quota_ttl s.db; issued = c ∷ s.issued }
  unfolding after_reserve
  after_reserve_granted s c h = rw (granted-eq-fits c s.db, reserve_script-db c s.db, h)

  after_reserve_refused : (s : System) (c : Charge) → fits c s.db ≡ false → after_reserve s c ≡ s
  unfolding after_reserve
  after_reserve_refused s c h = rw (granted-eq-fits c s.db, reserve_script-db c s.db, h)

  grant-capped :
      (db : Db) (key_hash : Text) (bucket : ℕ) (id : Text) (p g : ℕ) (col : Column) (prefix : Text)
      → ((prefix : Text) → count K db (key_of col prefix) ≤ℤ pos (limit_of col limits))
      → let c = charge_of (quota_prefix key_hash bucket) id p g in
        fits c db ≡ true
        → count K (reserve_writes K c quota_ttl db) (key_of col prefix) ≤ℤ pos (limit_of col limits)
  grant-capped db key_hash bucket id p g col prefix capped h =
      let own = quota_prefix key_hash bucket in
      rw
        (
          count-reserve_writes K (charge_of own id p g) (charge_of-IsCharge key_hash bucket id p g)
              quota_ttl ttl_pos db (key_of col prefix),
          charge_at-charge_of col own prefix id p g,
        )
        (elim (Bool-cases (text_eq.beq (key_of col own) (key_of col prefix))) [
          | inl same ↦
              rw (same, ← (text_beq_iff (key_of col own) (key_of col prefix)).0 same)
                (fits-le col own id p g db h)
          | inr other ↦ rw other (omega (int_laws, capped prefix))
        ])

  reserves-Inv :
      (s : System) (key_hash : Text) (bucket : ℕ) (id : Text) (p g : ℕ)
      → IsFresh (reservation_key id) s.issued
      → Inv s
      → Inv (after_reserve s (charge_of (quota_prefix key_hash bucket) id p g))
  reserves-Inv s key_hash bucket id p g fresh v =
      let c = charge_of (quota_prefix key_hash bucket) id p g in
      elim (Bool-cases (fits c s.db)) [
        | inl room ↦ subst Inv (sym (after_reserve_granted s c room)) (record {
          balanced =
              granted-Balanced K c (charge_of-IsCharge key_hash bucket id p g) s.db s.issued
                (unfold charge_of in fresh) v.balanced;
          capped =
              λ col prefix. grant-capped s.db key_hash bucket id p g col prefix (v.capped col) room;
        })
        | inr full ↦ subst Inv (sym (after_reserve_refused s c full)) v
      ]

  Settled-Inv :
      (s : System) (before rest : List Charge) (c : Charge) (after : Db)
      → s.issued ≡ before ++ c ∷ rest
      → is_open K s.db c ≡ true
      → Settled K c s.db after
      → Inv s
      → Inv (record s { db = after })
  Settled-Inv s before rest c after e o t v = record {
    balanced =
        subst (Balanced K after) (sym e)
          (settled-Balanced K c s.db after t before rest o (subst (Balanced K s.db) e v.balanced));
    capped = λ col prefix. omega (
      int_laws,
      v.capped col prefix,
      ap pos_part (t.counted (key_of col prefix)),
      ap neg_part (t.counted (key_of col prefix)),
    );
  }

  reconcile_closed :
      (db : Db) (c : Charge) (actual : ℕ)
      → is_open K db c ≡ false
      → (reconcile_script K c.reservation_at actual db).1 ≡ db
  unfolding reconcile_script is_open
  reconcile_closed db c actual h = rw h

  cancel_closed :
      (db : Db) (c : Charge) → is_open K db c ≡ false → (cancel_script K c.reservation_at db).1 ≡ db
  unfolding cancel_script is_open
  cancel_closed db c h = rw h

  issued-Sound :
      (db : Db) (before rest : List Charge) (c : Charge)
      → All (Sound K db) (before ++ c ∷ rest)
      → Sound K db c
  issued-Sound db [] rest c h = h.0
  issued-Sound db (d ∷ before) rest c h = issued-Sound db before rest c h.1

  found-Sound :
      (s : System) (before rest : List Charge) (c : Charge)
      → s.issued ≡ before ++ c ∷ rest
      → Inv s
      → Sound K s.db c
  found-Sound s before rest c e v =
      issued-Sound s.db before rest c (subst (All (Sound K s.db)) e v.balanced.sound)

  Step-Inv : {s t : System} → Step s t → Inv s → Inv t
  Step-Inv (reserves s key_hash bucket id p g fresh) v =
      reserves-Inv s key_hash bucket id p g fresh v
  Step-Inv (reconciles s before rest c actual e) v =
      let g = found-Sound s before rest c e v in
      elim (Bool-cases (is_open K s.db c)) [
        | inl o ↦
            Settled-Inv s before rest c _ e o
              (reconcile-Settled K c g.charge s.db o (g.stored o) actual) v
        | inr x ↦ rw (reconcile_closed s.db c actual x) v
      ]
  Step-Inv (cancels s before rest c e) v =
      let g = found-Sound s before rest c e v in
      elim (Bool-cases (is_open K s.db c)) [
        | inl o ↦
            Settled-Inv s before rest c _ e o (cancel-Settled K c g.charge s.db o (g.stored o)) v
        | inr x ↦ rw (cancel_closed s.db c x) v
      ]
  Step-Inv (elapses s n) v = record {
    balanced = elapsed-Balanced K n s.db s.issued v.balanced;
    capped = λ col prefix.
        rw (count-elapse K n s.db (key_of col prefix)) (ground (arith, v.capped col prefix));
  }

  Reach-Inv : {s t : System} → Reach s t → Inv s → Inv t
  Reach-Inv here v = v
  Reach-Inv (next r st) v = Step-Inv st (Reach-Inv r v)

  -- No reservation was issued, and no counter is negative or over its limit.
  pub record IsStart (s : System) : Type 0 where
    pub unissued : s.issued ≡ []
    pub nonnegative : (k : Text) → pos 0 ≤ℤ count K s.db k
    pub capped :
        (col : Column) (prefix : Text)
        → count K s.db (key_of col prefix) ≤ℤ pos (limit_of col limits)

  start-Inv : (s : System) → IsStart s → Inv s
  unfolding open_at
  start-Inv s i = record {
    balanced =
        subst (Balanced K s.db) (sym i.unissued)
          (record { sound = tt; covered = λ k. i.nonnegative k });
    capped = i.capped;
  }

  -- In every interleaving of reservations, reconciliations, cancellations and waiting, with
  -- reservation identifiers that are fresh, what the open reservations of a key and a minute hold
  -- of requests, prompt tokens and generated tokens is at most the counter, and the counter is at
  -- most the limit. So no counter is ever negative, although refunds are subtracted blindly.
  pub Reach-open-le-limit :
      {s t : System} (col : Column) (prefix : Text)
      → IsStart s
      → Reach s t
      → (pos (open_at K t.db (key_of col prefix) t.issued) ≤ℤ count K t.db (key_of col prefix))
        × (count K t.db (key_of col prefix) ≤ℤ pos (limit_of col limits))
  Reach-open-le-limit {s} col prefix i r =
      let v = Reach-Inv r (start-Inv s i) in
      (v.balanced.covered (key_of col prefix), v.capped col prefix)
