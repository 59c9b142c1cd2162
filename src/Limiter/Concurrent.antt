-- ===== src/Limiter/Concurrent.antt =====
-- The critical sections of crates/generation-quota-limiter/src/lib.rs as turns of concurrent
-- callers. `reserve` holds both locks; `reconcile` takes the reservation out under one lock and
-- refunds under the other, and other callers may run in between. `pending` are the refunds that
-- callers still owe.
use inference_data_plane.Prelude.{
  ℕ, ◌+◌, ◌-◌, ◌≤◌, ◌<◌, ◌≡◌, refl, ap, ◌∙◌, inl, inr, some, List, [], ◌∷◌, ◌++◌, arith, lookup,
  remove, nat_eq, eqb, Bool-cases, if◌then◌else◌,
}
use inference_data_plane.Text.{Text, text_eq, text_beq_iff}
use inference_data_plane.Limiter.{
  QuotaLimits, QuotaCheck, QuotaReservation, InMemoryQuotaLimiter, new, current, reserve, reconcile,
  give_back, Call, step,
}
use inference_data_plane.Limiter.Bounds.{
  AreWords, IsWithin, current-Within, reserve-IsWithin, give_back-IsWithin, with_reservations,
  new-IsWithin, limits-step, limits-give_back,
}
use inference_data_plane.Limiter.Reserve.{Accepted, Refused, reserve_outcome}
use inference_data_plane.Limiter.Refunds.{
  outstanding, outstanding-remove-le, outstanding-insert-le, outstanding_taken, generated-give_back,
  reservations-give_back, current-reserve_ne, reconcile-eq, refund,
}

pub record System : Type 0 where
  pub limiter : InMemoryQuotaLimiter
  pub pending : List (Text × ℕ)

-- One critical section of some caller in the given minute.
pub data Turn (minute : ℕ) : System → System → Type 0 where
  reserves :
      (s : System) (id : ℕ) (check : QuotaCheck)
      → Turn minute s (record s { limiter = (reserve s.limiter minute id check).0 })
  takes_all :
      (s : System) (id actual : ℕ) (r : QuotaReservation)
      → lookup id s.limiter.reservations ≡ some r
      → r.reserved_generated_tokens - actual ≡ 0
      → Turn minute s (record s {
        limiter = record (s.limiter) { reservations = remove id s.limiter.reservations };
      })
  takes :
      (s : System) (id actual : ℕ) (r : QuotaReservation)
      → lookup id s.limiter.reservations ≡ some r
      → 0 < r.reserved_generated_tokens - actual
      → Turn minute s (record {
        limiter = record (s.limiter) { reservations = remove id s.limiter.reservations };
        pending = (r.api_key, r.reserved_generated_tokens - actual) ∷ s.pending;
      })
  gives :
      (s : System) (before after : List (Text × ℕ)) (key : Text) (refund : ℕ)
      → s.pending ≡ before ++ ((key, refund) ∷ after)
      → Turn minute s
          (record { limiter = give_back s.limiter key refund; pending = before ++ after })

pub data Reach (minute : ℕ) (s : System) : System → Type 0 where
  here : Reach minute s s
  next : {t u : System} → Reach minute s t → Turn minute t u → Reach minute s u

-- What the open refunds of a key come to.
unfoldable pub owed : Text → List (Text × ℕ) → ℕ
owed key [] = 0
owed key ((k, n) ∷ rest) = (if text_eq.beq k key then n else 0) + owed key rest

owed-middle :
    (key k : Text) (n : ℕ) (before after : List (Text × ℕ))
    → owed key (before ++ ((k, n) ∷ after))
      ≡ (if text_eq.beq k key then n else 0) + owed key (before ++ after)
unfolding owed
owed-middle key k n [] after = refl
owed-middle key k n ((j, m) ∷ before) after = omega (arith, owed-middle key k n before after)

-- The usage covers the open reservations and the refunds that are owed.
pub record Covers (minute : ℕ) (s : System) : Type 0 where
  pub within : IsWithin s.limiter
  pub covered :
      (key : Text)
      → outstanding key s.limiter.reservations + owed key s.pending
        ≤ (current s.limiter minute key).generated_tokens_reserved

module _ (minute : ℕ) (s : System) (id : ℕ) (check : QuotaCheck) (key : Text)
    (v : Covers minute s) where
  abbrev reserved : InMemoryQuotaLimiter
  reserved = (reserve s.limiter minute id check).0

  abbrev StillCovered : Type 0
  StillCovered =
      outstanding key reserved.reservations + owed key s.pending
      ≤ (current reserved minute key).generated_tokens_reserved

  accepted-covered : (r : QuotaReservation) → Accepted s.limiter minute id check r → StillCovered
  accepted-covered r a = elim (Bool-cases (text_eq.beq check.api_key key)) [
    | inl same ↦ ground (
      arith,
      v.covered key,
      a.grew.generated,
      a.held,
      a.named,
      (text_beq_iff check.api_key key).0 same,
      ap (outstanding key) a.stored,
      outstanding-insert-le key id r s.limiter.reservations,
    )
    | inr other ↦ ground (
      arith,
      v.covered key,
      a.named,
      current-reserve_ne s.limiter minute id minute check key other,
      ap (outstanding key) a.stored,
      outstanding-insert-le key id r s.limiter.reservations,
    )
  ]

  refused-covered : Refused s.limiter minute id check → StillCovered
  refused-covered a = elim (Bool-cases (text_eq.beq check.api_key key)) [
    | inl same ↦ ground (
      arith,
      v.covered key,
      a.same,
      (text_beq_iff check.api_key key).0 same,
      ap (outstanding key) a.stored,
    )
    | inr other ↦ ground (
      arith,
      v.covered key,
      current-reserve_ne s.limiter minute id minute check key other,
      ap (outstanding key) a.stored,
    )
  ]

  reserves-covered : StillCovered
  reserves-covered = elim (reserve_outcome s.limiter minute id check v.within) [
    | inl (r, e, a) ↦ accepted-covered r a
    | inr (e, p, a) ↦ refused-covered a
  ]

give_back-covered :
    (minute : ℕ) (s : System) (before after : List (Text × ℕ)) (k key : Text) (refund : ℕ)
    → s.pending ≡ before ++ ((k, refund) ∷ after)
    → Covers minute s
    → outstanding key (give_back s.limiter k refund).reservations + owed key (before ++ after)
      ≤ (current (give_back s.limiter k refund) minute key).generated_tokens_reserved
give_back-covered minute s before after k key refund e v = ground (
  arith,
  v.covered key,
  ap (owed key) e,
  owed-middle key k refund before after,
  generated-give_back s.limiter minute refund k key,
  ap (outstanding key) (reservations-give_back s.limiter k refund),
)

Turn-Covers : {minute : ℕ} {s t : System} → Turn minute s t → Covers minute s → Covers minute t
unfolding owed current
Turn-Covers {minute} (reserves s id check) v = record {
  within = reserve-IsWithin s.limiter minute id check v.within;
  covered = λ key. reserves-covered minute s id check key v;
}
Turn-Covers {minute} (takes_all s id actual r h z) v = record {
  within = with_reservations s.limiter _ v.within;
  covered =
      λ key. omega (arith, v.covered key, outstanding-remove-le key id s.limiter.reservations);
}
Turn-Covers {minute} (takes s id actual r h p) v = record {
  within = with_reservations s.limiter _ v.within;
  covered =
      λ key. ground (arith, v.covered key, outstanding_taken key id s.limiter.reservations r h);
}
Turn-Covers {minute} (gives s before after k refund e) v = record {
  within = give_back-IsWithin s.limiter k refund v.within;
  covered = λ key. give_back-covered minute s before after k key refund e v;
}

Reach-Covers : {minute : ℕ} {s t : System} → Reach minute s t → Covers minute s → Covers minute t
Reach-Covers here v = v
Reach-Covers (next r t) v = Turn-Covers t (Reach-Covers r v)

abbrev pub start : QuotaLimits → System
start limits = record { limiter = new limits; pending = [] }

start-Covers : (minute : ℕ) (limits : QuotaLimits) → AreWords limits → Covers minute (start limits)
unfolding outstanding owed
start-Covers minute limits w = record {
  within = new-IsWithin limits w;
  covered = λ key. omega arith;
}

limits-Turn : {minute : ℕ} {s t : System} → Turn minute s t → t.limiter.limits ≡ s.limiter.limits
unfolding step
limits-Turn {minute} (reserves s id check) = limits-step s.limiter (Call.reserves minute id check)
limits-Turn (takes_all s id actual r h z) = refl
limits-Turn (takes s id actual r h p) = refl
limits-Turn (gives s before after k n e) = limits-give_back s.limiter k n

limits-Reach : {minute : ℕ} {s t : System} → Reach minute s t → t.limiter.limits ≡ s.limiter.limits
limits-Reach here = refl
limits-Reach (next r t) = limits-Turn t ∙ limits-Reach r

-- A `reconcile` that no other caller interrupts is one of these runs.
pub reconcile-Reach :
    (minute : ℕ) (s : System) (id actual : ℕ) (r : QuotaReservation)
    → lookup id s.limiter.reservations ≡ some r
    → Reach minute s (record s { limiter = (reconcile s.limiter id actual).0 })
reconcile-Reach minute s id actual r h =
    let amount : ℕ = r.reserved_generated_tokens - actual in
    elim (Bool-cases (eqb amount 0)) [
      | inl zero_refund ↦
          rw (reconcile-eq s.limiter id actual r h, zero_refund)
            (next here (takes_all s id actual r h (ground arith)))
      | inr some_refund ↦
          rw (reconcile-eq s.limiter id actual r h, some_refund)
            (next (next here (takes s id actual r h (ground arith)))
              (gives _ [] s.pending r.api_key amount refl))
    ]

-- Within one minute, in every interleaving of the critical sections, the open reservations of a
-- key and the refunds that are on their way hold together at most the limit on generated tokens.
pub Reach-outstanding-le :
    (limits : QuotaLimits) {minute : ℕ} {s : System} (key : Text)
    → AreWords limits
    → Reach minute (start limits) s
    → outstanding key s.limiter.reservations + owed key s.pending
      ≤ limits.generated_tokens_per_minute
Reach-outstanding-le limits {minute} {s} key w r =
    let v = Reach-Covers r (start-Covers minute limits w) in
    let b = current-Within s.limiter minute key v.within in
    omega (
      arith,
      v.covered key,
      b.generated,
      ap (λ (l : QuotaLimits). l.generated_tokens_per_minute) (limits-Reach r),
    )
