-- ===== src/Streams/Quota/Effects.antt =====
-- What the quota scripts of crates/inference-streams/src/lib.rs do to the counters, the
-- reservations and the deadlines, key by key.
use inference_data_plane.Prelude.{
  ℕ, ◌+◌, ◌*◌, ◌<◌, ◌≡◌, ap, Bool, false, ◌||◌, some, List, arith, unwrap_or, cons-ne-nil,
  if◌then◌else◌,
}
use inference_data_plane.Prelude.Int.{ℤ, pos, ◌+ℤ◌}
use inference_data_plane.Text.{Text, text_eq, text_beq_iff}
use inference_data_plane.Streams.Keys.{counter, hash, key_kind}
use inference_data_plane.Streams.Keyspace.{Keyspace, Datum}
use inference_data_plane.Streams.Quota.{Charge, count, reserve_writes}

-- The keys of a reservation hold what they should.
pub record IsCharge (c : Charge) : Type 0 where
  pub requests : key_kind c.requests_at ≡ counter
  pub prompts : key_kind c.prompt_at ≡ counter
  pub generations : key_kind c.generated_at ≡ counter
  pub reservation : key_kind c.reservation_at ≡ hash

-- What a reservation adds to a counter.
unfoldable pub charge_at : Charge → Text → ℕ
charge_at c k =
    (if text_eq.beq c.requests_at k then 1 else 0)
    + (if text_eq.beq c.prompt_at k then c.prompt_add else 0)
    + (if text_eq.beq c.generated_at k then c.generated_add else 0)

unfoldable pub touches : Charge → Text → Bool
touches c k =
    text_eq.beq c.reservation_at k
    || text_eq.beq c.requests_at k
    || text_eq.beq c.prompt_at k
    || text_eq.beq c.generated_at k

-- Keys of two types are two keys.
pub other_kind : (k j : Text) → key_kind k ≡ counter → key_kind j ≡ hash → text_eq.beq k j ≡ false
other_kind k j a b = ground (arith, text_beq_iff k j)

module _ (K : Keyspace) where
  open K use {Db, get, hget, exists, deadline, now, incr_by, hset, expire, elapse}

  pub count-incr_by :
      (k j : Text) (n : ℤ) (db : Db)
      → key_kind k ≡ counter
      → count K (incr_by k n db) j ≡ (if text_eq.beq k j then count K db j +ℤ n else count K db j)
  unfolding count
  count-incr_by k j n db h = ground (arith, K.get-incr_by k j n db h, text_beq_iff k j)

  pub count-hset :
      (k j : Text) (fs : List (Text × Datum)) (db : Db)
      → key_kind k ≡ hash
      → count K (hset k fs db) j ≡ count K db j
  unfolding count
  count-hset k j fs db h = ap (λ o. unwrap_or o (pos 0)) (K.get-hset k j fs db h)

  pub count-expire :
      (k j : Text) (s : ℕ) (db : Db) → 0 < s → count K (expire k s db) j ≡ count K db j
  unfolding count
  count-expire k j s db h = ap (λ o. unwrap_or o (pos 0)) (K.get-expire k j s db h)

  module _ (c : Charge) (v : IsCharge c) (ttl : ℕ) (p : 0 < ttl) (db : Db) where
    pub count-reserve_writes :
        (k : Text) → count K (reserve_writes K c ttl db) k ≡ count K db k +ℤ pos (charge_at c k)
    unfolding reserve_writes charge_at ◌+ℤ◌
    count-reserve_writes k =
        simp
          (
            count-expire _ _ _ _ p,
            count-hset _ _ _ _ v.reservation,
            count-incr_by _ _ _ _ v.requests,
            count-incr_by _ _ _ _ v.prompts,
            count-incr_by _ _ _ _ v.generations,
          )
          (ground arith)

    pub deadline-reserve_writes :
        (k : Text)
        → deadline (reserve_writes K c ttl db) k
          ≡ (if touches c k then some (now db + ttl * 1000) else deadline db k)
    unfolding reserve_writes touches
    deadline-reserve_writes k =
        simp
          (
            K.deadline-expire _ _ _ _ p,
            K.deadline-hset _ _ _ _ v.reservation,
            K.deadline-incr_by _ _ _ _ v.requests,
            K.deadline-incr_by _ _ _ _ v.prompts,
            K.deadline-incr_by _ _ _ _ v.generations,
            K.exists-expire _ _ _ _ p,
            K.exists-hset _ _ _ _ v.reservation cons-ne-nil,
            K.exists-incr_by _ _ _ _ v.requests,
            K.exists-incr_by _ _ _ _ v.prompts,
            K.exists-incr_by _ _ _ _ v.generations,
            K.now-expire,
            K.now-hset,
            K.now-incr_by,
          )
          (ground (
            arith,
            text_beq_iff c.reservation_at c.reservation_at,
            text_beq_iff c.requests_at c.requests_at,
            text_beq_iff c.prompt_at c.prompt_at,
            text_beq_iff c.generated_at c.generated_at,
          ))

    pub hget-reserve_writes_ne :
        (j f : Text)
        → text_eq.beq c.reservation_at j ≡ false
        → hget (reserve_writes K c ttl db) j f ≡ hget db j f
    unfolding reserve_writes
    hget-reserve_writes_ne j f h = simp (
      K.hget-expire _ _ _ _ _ p,
      K.hget-hset _ _ _ _ _ v.reservation,
      h,
      K.hget-incr_by _ _ _ _ _ v.requests,
      K.hget-incr_by _ _ _ _ _ v.prompts,
      K.hget-incr_by _ _ _ _ _ v.generations,
    )

    pub now-reserve_writes : now (reserve_writes K c ttl db) ≡ now db
    unfolding reserve_writes
    now-reserve_writes = simp (K.now-expire, K.now-hset, K.now-incr_by)
