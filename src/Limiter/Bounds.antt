-- ===== src/Limiter/Bounds.antt =====
-- The usage of a window in crates/generation-quota-limiter/src/lib.rs against the limits.
use inference_data_plane.Prelude.{
  ℕ, ◌-◌, ◌≤◌, ◌<◌, ◌≡◌, refl, subst, ◌∙◌, inl, inr, Option, none, some, List, [], ◌∷◌, arith,
  Option-cases, unwrap_or, u64_mod, lookup, insert, remove, lookup-insert, nat_eq,
}
use inference_data_plane.Text.{Text, text_eq, text_beq_iff}
use inference_data_plane.Limiter.{
  QuotaLimits, QuotaCheck, QuotaReservation, WindowCounters, no_counters, InMemoryQuotaLimiter,
  in_window, current, charged, check_limits, reserve, give_back, refund_counters, settle, reconcile,
  cancel, Call, reserves, reconciles, cancels, new, step, run,
}

pub record Within (limits : QuotaLimits) (c : WindowCounters) : Type 0 where
  pub requests : c.requests ≤ limits.requests_per_minute
  pub prompt : c.prompt_tokens ≤ limits.prompt_tokens_per_minute
  pub generated : c.generated_tokens_reserved ≤ limits.generated_tokens_per_minute

-- The limits are `u64` values.
pub record AreWords (limits : QuotaLimits) : Type 0 where
  pub requests : limits.requests_per_minute < u64_mod
  pub prompt : limits.prompt_tokens_per_minute < u64_mod
  pub generated : limits.generated_tokens_per_minute < u64_mod

pub record IsWithin (l : InMemoryQuotaLimiter) : Type 0 where
  pub words : AreWords l.limits
  pub bounded : (key : Text) (c : WindowCounters) → lookup key l.state ≡ some c → Within l.limits c

in_window-Within :
    (limits : QuotaLimits) (minute : ℕ) (o : Option WindowCounters)
    → ((c : WindowCounters) → o ≡ some c → Within limits c)
    → Within limits (in_window minute (unwrap_or o no_counters))
unfolding in_window
in_window-Within limits minute none h = ground arith
in_window-Within limits minute (some c) h = ground (arith, h c refl)

pub current-Within :
    (l : InMemoryQuotaLimiter) (minute : ℕ) (key : Text)
    → IsWithin l
    → Within l.limits (current l minute key)
unfolding current
current-Within l minute key v =
    in_window-Within l.limits minute (lookup key l.state) (v.bounded key)

pub charged-Within :
    (limits : QuotaLimits) (c : WindowCounters) (check : QuotaCheck)
    → AreWords limits
    → Within limits c
    → check_limits limits c check ≡ none
    → Within limits (charged c check)
unfolding charged check_limits
charged-Within limits c check w b h = ground arith

insert-bounded :
    (l : InMemoryQuotaLimiter) (key : Text) (c : WindowCounters)
    → IsWithin l
    → Within l.limits c
    → IsWithin (record l { state = insert key c l.state })
insert-bounded l key c v b = record {
  words = v.words;
  bounded =
      λ j d e. ground (arith, lookup-insert key j c l.state, text_beq_iff key j, v.bounded j d);
}

pub with_reservations :
    (l : InMemoryQuotaLimiter) (rs : List (ℕ × QuotaReservation))
    → IsWithin l
    → IsWithin (record l { reservations = rs })
with_reservations l rs v = record { words = v.words; bounded = v.bounded }

pub reserve-IsWithin :
    (l : InMemoryQuotaLimiter) (minute id : ℕ) (check : QuotaCheck)
    → IsWithin l
    → IsWithin (reserve l minute id check).0
unfolding reserve
reserve-IsWithin l minute id check v =
    let counters = current l minute check.api_key in
    let b = current-Within l minute check.api_key v in
    elim (Option-cases (check_limits l.limits counters check)) [
      | inl fits ↦
          rw (fits, reserve)
            (with_reservations _ _ (
              insert-bounded l check.api_key (charged counters check) v
                (charged-Within l.limits counters check v.words b fits)))
      | inr (e, refused) ↦ rw (refused, reserve) (insert-bounded l check.api_key counters v b)
    ]

refund_counters-IsWithin :
    (l : InMemoryQuotaLimiter) (o : Option WindowCounters) (key : Text) (refund : ℕ)
    → lookup key l.state ≡ o
    → IsWithin l
    → IsWithin (refund_counters o key refund l)
unfolding refund_counters
refund_counters-IsWithin l none key refund e v = v
refund_counters-IsWithin l (some c) key refund e v =
    insert-bounded l key _ v (ground (arith, v.bounded key c))

pub give_back-IsWithin :
    (l : InMemoryQuotaLimiter) (key : Text) (refund : ℕ)
    → IsWithin l
    → IsWithin (give_back l key refund)
unfolding give_back
give_back-IsWithin l key refund v =
    refund_counters-IsWithin l (lookup key l.state) key refund refl v

settle-IsWithin :
    (l : InMemoryQuotaLimiter) (o : Option QuotaReservation) (id actual : ℕ)
    → IsWithin l
    → IsWithin (settle o l id actual).0
unfolding settle
settle-IsWithin l none id actual v = v
settle-IsWithin l (some r) id actual v =
    let rest = with_reservations l (remove id l.reservations) v in
    ground (
      arith,
      rest,
      give_back-IsWithin (record l { reservations = remove id l.reservations }) r.api_key
          (r.reserved_generated_tokens - actual) rest,
    )

step-IsWithin : (l : InMemoryQuotaLimiter) (c : Call) → IsWithin l → IsWithin (step l c)
unfolding step reconcile cancel
step-IsWithin l (reserves minute id check) v = reserve-IsWithin l minute id check v
step-IsWithin l (reconciles id actual) v = settle-IsWithin l (lookup id l.reservations) id actual v
step-IsWithin l (cancels id) v = settle-IsWithin l (lookup id l.reservations) id 0 v

run-IsWithin : (l : InMemoryQuotaLimiter) (cs : List Call) → IsWithin l → IsWithin (run l cs)
unfolding run
run-IsWithin l [] v = v
run-IsWithin l (c ∷ cs) v = run-IsWithin (step l c) cs (step-IsWithin l c v)

pub new-IsWithin : (limits : QuotaLimits) → AreWords limits → IsWithin (new limits)
unfolding lookup
new-IsWithin limits w = record { words = w; bounded = λ key c e. cc }

limits-refund_counters :
    (l : InMemoryQuotaLimiter) (o : Option WindowCounters) (key : Text) (refund : ℕ)
    → (refund_counters o key refund l).limits ≡ l.limits
unfolding refund_counters
limits-refund_counters l none key refund = refl
limits-refund_counters l (some c) key refund = refl

pub limits-give_back :
    (l : InMemoryQuotaLimiter) (key : Text) (refund : ℕ)
    → (give_back l key refund).limits ≡ l.limits
unfolding give_back
limits-give_back l key refund = limits-refund_counters l (lookup key l.state) key refund

limits-settle :
    (l : InMemoryQuotaLimiter) (o : Option QuotaReservation) (id actual : ℕ)
    → (settle o l id actual).0.limits ≡ l.limits
unfolding settle
limits-settle l none id actual = refl
limits-settle l (some r) id actual = ground (
  arith,
  limits-give_back (record l { reservations = remove id l.reservations }) r.api_key
      (r.reserved_generated_tokens - actual),
)

pub limits-step : (l : InMemoryQuotaLimiter) (c : Call) → (step l c).limits ≡ l.limits
unfolding step reserve reconcile cancel
limits-step l (reserves minute id check) = ground arith
limits-step l (reconciles id actual) = limits-settle l (lookup id l.reservations) id actual
limits-step l (cancels id) = limits-settle l (lookup id l.reservations) id 0

pub limits-run : (l : InMemoryQuotaLimiter) (cs : List Call) → (run l cs).limits ≡ l.limits
unfolding run
limits-run l [] = refl
limits-run l (c ∷ cs) = limits-run (step l c) cs ∙ limits-step l c

-- After any history of calls, at whatever times, the usage that the next call sees is within the
-- limits for every key, if the limits are `u64` values. So no addition has wrapped around.
pub run-Within :
    (limits : QuotaLimits) (cs : List Call) (minute : ℕ) (key : Text)
    → AreWords limits
    → Within limits (current (run (new limits) cs) minute key)
run-Within limits cs minute key w =
    subst (λ m. Within m (current (run (new limits) cs) minute key)) (limits-run (new limits) cs)
      (current-Within _ minute key (run-IsWithin (new limits) cs (new-IsWithin limits w)))
