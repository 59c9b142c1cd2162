-- ===== src/Limiter/Stale.antt =====
-- A refund that comes in a later minute than its reservation, in
-- crates/generation-quota-limiter/src/lib.rs.
use inference_data_plane.Prelude.{
  ℕ, ◌-◌, ◌≡◌, ◌≢◌, inl, inr, sym, ap, some, arith, lookup, insert, lookup-insert, lookup-remove,
  ==_self, ==_ne, nat_eq, ok, Option-cases,
}
use inference_data_plane.Text.{Text, text_eq, text_beq_iff}
use inference_data_plane.Limiter.{
  QuotaCheck, QuotaReservation, WindowCounters, InMemoryQuotaLimiter, in_window, current,
  check_limits, reserve, reconcile,
}
use inference_data_plane.Limiter.Bounds.{IsWithin, reserve-IsWithin}
use inference_data_plane.Limiter.Windows.{window-current}
use inference_data_plane.Limiter.Reserve.{
  spent, made, window-spent, reserve-eq-ok, reserve-eq-err, Accepted, reserve-Accepted,
}
use inference_data_plane.Limiter.Refunds.{reconcile_outcome}

in_window_later :
    (minute later : ℕ) (c : WindowCounters)
    → c.window_start_epoch_minute ≡ minute
    → minute ≢ later
    → (in_window later c).generated_tokens_reserved ≡ 0
unfolding in_window
in_window_later minute later c h ne = ground arith

current-insert_later :
    (l : InMemoryQuotaLimiter) (minute later : ℕ) (key : Text) (c : WindowCounters)
    → c.window_start_epoch_minute ≡ minute
    → minute ≢ later
    → (current (record l { state = insert key c l.state }) later key).generated_tokens_reserved ≡ 0
unfolding current
current-insert_later l minute later key c h ne =
    rw (lookup-insert key key c l.state, ==_self key) (in_window_later minute later c h ne)

-- Another minute starts from nothing.
current-reserve_later :
    (l : InMemoryQuotaLimiter) (minute later id : ℕ) (check : QuotaCheck)
    → minute ≢ later
    → (current (reserve l minute id check).0 later check.api_key).generated_tokens_reserved ≡ 0
current-reserve_later l minute later id check ne =
    elim (Option-cases (check_limits l.limits (current l minute check.api_key) check)) [
      | inl fits ↦ rw (reserve-eq-ok l minute id check fits) (
          current-insert_later
            (record l { reservations = insert id (made l minute id check) l.reservations }) minute
            later check.api_key (spent l minute id check) (window-spent l minute id check) ne)
      | inr (e, refused) ↦ rw (reserve-eq-err l minute id check e refused) (
          current-insert_later l minute later check.api_key (current l minute check.api_key)
            (window-current l minute check.api_key) ne)
    ]

module _ (l : InMemoryQuotaLimiter) (minute later id next : ℕ) (check second : QuotaCheck)
    (r s : QuotaReservation) where
  abbrev pub first_step : InMemoryQuotaLimiter
  first_step = (reserve l minute id check).0

  abbrev pub second_step : InMemoryQuotaLimiter
  second_step = (reserve first_step later next second).0

  module _ (v : IsWithin l) (same_key : second.api_key ≡ check.api_key) (other_id : id ≢ next)
      (passed : minute ≢ later) (first_ok : (reserve l minute id check).1 ≡ ok r)
      (second_ok : (reserve first_step later next second).1 ≡ ok s) where
    first_facts : Accepted l minute id check r
    first_facts = reserve-Accepted l minute id check r v first_ok

    second_facts : Accepted first_step later next second s
    second_facts =
        reserve-Accepted first_step later next second s (reserve-IsWithin l minute id check v)
          second_ok

    second_usage :
        (current second_step later second.api_key).generated_tokens_reserved
        ≡ second.reserved_generated_tokens
    second_usage = omega (
      arith,
      second_facts.grew.generated,
      current-reserve_later l minute later id check passed,
      ap (λ k. (current first_step later k).generated_tokens_reserved) same_key,
    )

    first_there : lookup id second_step.reservations ≡ some r
    first_there = rw (
      second_facts.stored,
      lookup-insert next id s first_step.reservations,
      first_facts.stored,
      lookup-insert id id r l.reservations,
      ==_self id,
      ==_ne next id (λ e. other_id (sym e)),
    )

    second_there : lookup next second_step.reservations ≡ some s
    second_there =
        rw (second_facts.stored, lookup-insert next next s first_step.reservations, ==_self next)

    -- A key reserves in one minute and again in another, both times with success. When the first
    -- reservation is then reconciled, its refund is taken off the usage of the second minute:
    -- the counter falls below what the open reservation of that minute holds, by the refund.
    pub stale_refund :
        (actual : ℕ)
        → let after = (reconcile second_step id actual).0 in
          ((current after later second.api_key).generated_tokens_reserved
            ≡ second.reserved_generated_tokens - (check.reserved_generated_tokens - actual))
          × (lookup next after.reservations ≡ some s)
          × (s.reserved_generated_tokens ≡ second.reserved_generated_tokens)
    stale_refund actual =
        let (returned, rest, usage, again) =
          reconcile_outcome second_step id actual later r first_there in
        (
          ground (
            arith,
            usage second.api_key,
            second_usage,
            first_facts.held,
            first_facts.named,
            text_beq_iff r.api_key second.api_key,
          ),
          rw (rest, lookup-remove id next second_step.reservations, ==_ne id next other_id)
              second_there,
          second_facts.held,
        )
