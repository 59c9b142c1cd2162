-- ===== src/Limiter/Refunds.antt =====
-- `reconcile` of crates/generation-quota-limiter/src/lib.rs: what a refund does to the usage and to
-- the reservations that are left.
use inference_data_plane.Prelude.{
  ℕ, ◌+◌, ◌-◌, ◌≤◌, ◌≡◌, refl, ap, inl, inr, false, Option, none, some, List, [], ◌∷◌, arith, eqb,
  lookup, insert, remove, lookup-insert, lookup-remove, ==_self, nat_eq, Result, ok, err,
  if◌then◌else◌, Option-cases,
}
use inference_data_plane.Text.{Text, text_eq, text_beq_iff}
use inference_data_plane.Limiter.{
  QuotaCheck, QuotaReservation, QuotaError, reservation_not_found, check_limits, WindowCounters,
  InMemoryQuotaLimiter, in_window, current, reserve, give_back, refund_counters, settle, reconcile,
}
use inference_data_plane.Limiter.Windows.{current-insert_ne}
use inference_data_plane.Limiter.Reserve.{spent, made, reserve-eq-ok, reserve-eq-err}

-- What a reservation holds for a key.
abbrev pub held : Text → QuotaReservation → ℕ
held key r = if text_eq.beq r.api_key key then r.reserved_generated_tokens else 0

-- The generated tokens that the open reservations of a key hold together.
unfoldable pub outstanding : Text → List (ℕ × QuotaReservation) → ℕ
outstanding key [] = 0
outstanding key ((i, r) ∷ rs) = held key r + outstanding key rs

pub outstanding-remove-le :
    (key : Text) (id : ℕ) (rs : List (ℕ × QuotaReservation))
    → outstanding key (remove id rs) ≤ outstanding key rs
unfolding outstanding remove
outstanding-remove-le key id [] = omega arith
outstanding-remove-le key id ((i, r) ∷ rs) = ground (arith, outstanding-remove-le key id rs)

pub outstanding-insert-le :
    (key : Text) (id : ℕ) (r : QuotaReservation) (rs : List (ℕ × QuotaReservation))
    → outstanding key (insert id r rs) ≤ held key r + outstanding key rs
unfolding outstanding insert
outstanding-insert-le key id r rs = omega (arith, outstanding-remove-le key id rs)

pub outstanding_taken :
    (key : Text) (id : ℕ) (rs : List (ℕ × QuotaReservation)) (r : QuotaReservation)
    → lookup id rs ≡ some r
    → held key r + outstanding key (remove id rs) ≤ outstanding key rs
unfolding outstanding remove lookup
outstanding_taken key id [] r h = cc
outstanding_taken key id ((i, x) ∷ rs) r h =
    ground (arith, outstanding-remove-le key id rs, outstanding_taken key id rs r)

generated-refund_counters :
    (l : InMemoryQuotaLimiter) (o : Option WindowCounters) (minute refund : ℕ) (key j : Text)
    → lookup key l.state ≡ o
    → (current (refund_counters o key refund l) minute j).generated_tokens_reserved ≡ (
        if text_eq.beq key j
        then (current l minute j).generated_tokens_reserved - refund
        else (current l minute j).generated_tokens_reserved)
unfolding refund_counters current in_window
generated-refund_counters l none minute refund key j h = ground (arith, text_beq_iff key j)
generated-refund_counters l (some c) minute refund key j h = ground (
  arith,
  text_beq_iff key j,
  lookup-insert key j
      (record c { generated_tokens_reserved = c.generated_tokens_reserved - refund }) l.state,
)

-- A refund lowers the usage of its key and of no other, whatever the minute.
pub generated-give_back :
    (l : InMemoryQuotaLimiter) (minute refund : ℕ) (key j : Text)
    → (current (give_back l key refund) minute j).generated_tokens_reserved ≡ (
        if text_eq.beq key j
        then (current l minute j).generated_tokens_reserved - refund
        else (current l minute j).generated_tokens_reserved)
unfolding give_back
generated-give_back l minute refund key j =
    generated-refund_counters l (lookup key l.state) minute refund key j refl

-- A call for one key leaves the usage of the others alone.
pub current-reserve_ne :
    (l : InMemoryQuotaLimiter) (minute id now : ℕ) (check : QuotaCheck) (j : Text)
    → text_eq.beq check.api_key j ≡ false
    → current (reserve l minute id check).0 now j ≡ current l now j
unfolding current
current-reserve_ne l minute id now check j h =
    elim (Option-cases (check_limits l.limits (current l minute check.api_key) check)) [
      | inl fits ↦ rw (reserve-eq-ok l minute id check fits) (
          current-insert_ne
            (record l { reservations = insert id (made l minute id check) l.reservations }) now
            check.api_key j (spent l minute id check) h)
      | inr (e, refused) ↦
          rw (reserve-eq-err l minute id check e refused)
            (current-insert_ne l now check.api_key j (current l minute check.api_key) h)
    ]

reservations-refund_counters :
    (l : InMemoryQuotaLimiter) (o : Option WindowCounters) (key : Text) (refund : ℕ)
    → (refund_counters o key refund l).reservations ≡ l.reservations
unfolding refund_counters
reservations-refund_counters l none key refund = refl
reservations-refund_counters l (some c) key refund = refl

pub reservations-give_back :
    (l : InMemoryQuotaLimiter) (key : Text) (refund : ℕ)
    → (give_back l key refund).reservations ≡ l.reservations
unfolding give_back
reservations-give_back l key refund = reservations-refund_counters l (lookup key l.state) key refund

module _ (l : InMemoryQuotaLimiter) (id actual : ℕ) (r : QuotaReservation)
    (found : lookup id l.reservations ≡ some r) where
  abbrev pub taken : InMemoryQuotaLimiter
  taken = record l { reservations = remove id l.reservations }

  abbrev pub refund : ℕ
  refund = r.reserved_generated_tokens - actual

  pub reconcile-eq :
      reconcile l id actual
      ≡ (if eqb refund 0 then (taken, ok 0) else (give_back taken r.api_key refund, ok refund))
  unfolding reconcile settle
  reconcile-eq = rw found

  generated-taken :
      (minute : ℕ) (j : Text)
      → (current taken minute j).generated_tokens_reserved
        ≡ (current l minute j).generated_tokens_reserved
  unfolding current
  generated-taken minute j = refl

  generated-reconcile :
      (minute : ℕ) (j : Text)
      → (current (reconcile l id actual).0 minute j).generated_tokens_reserved ≡ (
          if text_eq.beq r.api_key j
          then (current l minute j).generated_tokens_reserved - refund
          else (current l minute j).generated_tokens_reserved)
  generated-reconcile minute j = rw reconcile-eq (
      ground (arith, generated-taken minute j, generated-give_back taken minute refund r.api_key j))

  reservations-reconcile : (reconcile l id actual).0.reservations ≡ remove id l.reservations
  reservations-reconcile =
      rw reconcile-eq (ground (arith, reservations-give_back taken r.api_key refund))

reconcile_missing :
    (l : InMemoryQuotaLimiter) (id actual : ℕ)
    → lookup id l.reservations ≡ none
    → reconcile l id actual ≡ (l, err reservation_not_found)
unfolding reconcile settle
reconcile_missing l id actual h = rw h

-- A reservation that is there is taken out, whatever it gives back: the amount that is returned
-- is what it held less what was used, that much is taken off the usage of its key, and
-- reconciling it once more fails.
pub reconcile_outcome :
    (l : InMemoryQuotaLimiter) (id actual minute : ℕ) (r : QuotaReservation)
    → lookup id l.reservations ≡ some r
    → let after = (reconcile l id actual).0 in
      ((reconcile l id actual).1 ≡ ok (r.reserved_generated_tokens - actual))
      × (after.reservations ≡ remove id l.reservations)
      × ((j : Text)
          → (current after minute j).generated_tokens_reserved ≡ (
              if text_eq.beq r.api_key j
              then (current l minute j).generated_tokens_reserved
                - (r.reserved_generated_tokens - actual)
              else (current l minute j).generated_tokens_reserved))
      × ((again : ℕ) → (reconcile after id again).1 ≡ err reservation_not_found)
reconcile_outcome l id actual minute r h = (
  rw (reconcile-eq l id actual r h) (ground arith),
  reservations-reconcile l id actual r h,
  generated-reconcile l id actual r h minute,
  λ again.
      ap (λ (x : InMemoryQuotaLimiter × Result QuotaError ℕ). x.1)
        (reconcile_missing _ id again (
          rw (
            reservations-reconcile l id actual r h,
            lookup-remove id id l.reservations,
            ==_self id,
          ))),
)
