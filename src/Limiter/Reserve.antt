-- ===== src/Limiter/Reserve.antt =====
-- `reserve` of crates/generation-quota-limiter/src/lib.rs on every branch.
use inference_data_plane.Prelude.{
  ℕ, ◌+◌, ◌≤◌, ◌≡◌, refl, sym, subst, ap, ◌∙◌, ◌↔◌, ◌⊎◌, inl, inr, none, some, arith, Option-cases,
  insert, nat_eq, Result, ok, err, ok-injective, ok-ne-err,
}
use inference_data_plane.Text.{text_eq}
use inference_data_plane.Limiter.{
  QuotaLimits, QuotaCheck, QuotaReservation, QuotaError, WindowCounters, InMemoryQuotaLimiter,
  current, charged, reservation_of, check_limits, reserve,
}
use inference_data_plane.Limiter.Windows.{window-current, current-insert}
use inference_data_plane.Limiter.Bounds.{Within, AreWords, IsWithin, charged-Within, current-Within}

-- One more request with its tokens fits the window.
pub record HasRoom (limits : QuotaLimits) (c : WindowCounters) (check : QuotaCheck) : Type 0 where
  pub request : c.requests + 1 ≤ limits.requests_per_minute
  pub prompt : c.prompt_tokens + check.prompt_tokens ≤ limits.prompt_tokens_per_minute
  pub generated :
      c.generated_tokens_reserved + check.reserved_generated_tokens
      ≤ limits.generated_tokens_per_minute

-- The usage grew by one request and its tokens.
pub record Grew (before after : WindowCounters) (check : QuotaCheck) : Type 0 where
  pub request : after.requests ≡ before.requests + 1
  pub prompt : after.prompt_tokens ≡ before.prompt_tokens + check.prompt_tokens
  pub generated :
      after.generated_tokens_reserved
      ≡ before.generated_tokens_reserved + check.reserved_generated_tokens

-- What is reported as remaining is the limits less the usage.
pub record Remains (limits : QuotaLimits) (c : WindowCounters) (r : QuotaReservation) : Type 0 where
  pub request : r.remaining_requests + c.requests ≡ limits.requests_per_minute
  pub prompt : r.remaining_prompt_tokens + c.prompt_tokens ≡ limits.prompt_tokens_per_minute
  pub generated :
      r.remaining_generated_tokens + c.generated_tokens_reserved
      ≡ limits.generated_tokens_per_minute

check_limits_iff :
    (limits : QuotaLimits) (c : WindowCounters) (check : QuotaCheck)
    → Within limits c
    → (check_limits limits c check ≡ none) ↔ HasRoom limits c check
unfolding check_limits
check_limits_iff limits c check b = (λ h. ground arith, λ h. ground arith)

charged-Grew :
    (limits : QuotaLimits) (c : WindowCounters) (check : QuotaCheck)
    → AreWords limits
    → HasRoom limits c check
    → Grew c (charged c check) check
unfolding charged
charged-Grew limits c check w h = omega arith

reservation_of-Remains :
    (limits : QuotaLimits) (c : WindowCounters) (id : ℕ) (check : QuotaCheck)
    → Within limits c
    → Remains limits c (reservation_of limits c id check)
unfolding reservation_of
reservation_of-Remains limits c id check b = omega arith

window-charged :
    (c : WindowCounters) (check : QuotaCheck)
    → (charged c check).window_start_epoch_minute ≡ c.window_start_epoch_minute
unfolding charged
window-charged c check = refl

module _ (l : InMemoryQuotaLimiter) (minute id : ℕ) (check : QuotaCheck) where
  pub record Accepted (r : QuotaReservation) : Type 0 where
    pub room : HasRoom l.limits (current l minute check.api_key) check
    pub grew :
        Grew
          (current l minute check.api_key)
          (current (reserve l minute id check).0 minute check.api_key)
          check
    pub remains : Remains l.limits (current (reserve l minute id check).0 minute check.api_key) r
    pub named : r.api_key ≡ check.api_key
    pub held : r.reserved_generated_tokens ≡ check.reserved_generated_tokens
    pub stored : (reserve l minute id check).0.reservations ≡ insert id r l.reservations

  pub record Refused : Type 0 where
    pub no_room : ¬ HasRoom l.limits (current l minute check.api_key) check
    pub same :
        current (reserve l minute id check).0 minute check.api_key ≡ current l minute check.api_key
    pub stored : (reserve l minute id check).0.reservations ≡ l.reservations

  pub spent : WindowCounters
  spent = charged (current l minute check.api_key) check

  pub made : QuotaReservation
  unfolding spent
  made = reservation_of l.limits spent id check

  pub reserve-eq-ok :
      check_limits l.limits (current l minute check.api_key) check ≡ none
      → reserve l minute id check ≡ (
        record l {
          state = insert check.api_key spent l.state;
          reservations = insert id made l.reservations;
        },
        ok made,
      )
  unfolding reserve made
  reserve-eq-ok fits = rw (fits, reserve)

  pub reserve-eq-err :
      (e : QuotaError)
      → check_limits l.limits (current l minute check.api_key) check ≡ some e
      → reserve l minute id check ≡ (
        record l { state = insert check.api_key (current l minute check.api_key) l.state },
        err e,
      )
  unfolding reserve
  reserve-eq-err e refused = rw (refused, reserve)

  pub window-spent : spent.window_start_epoch_minute ≡ minute
  unfolding spent
  window-spent =
      window-charged (current l minute check.api_key) check ∙ window-current l minute check.api_key

  current-accepted :
      check_limits l.limits (current l minute check.api_key) check ≡ none
      → current (reserve l minute id check).0 minute check.api_key ≡ spent
  current-accepted fits =
      ap
        (λ (x : InMemoryQuotaLimiter × Result QuotaError QuotaReservation).
          current x.0 minute check.api_key)
        (reserve-eq-ok fits)
      ∙ current-insert (record l { reservations = insert id made l.reservations }) minute
          check.api_key spent window-spent

  accepts :
      IsWithin l
      → check_limits l.limits (current l minute check.api_key) check ≡ none
      → (r : QuotaReservation) × ((reserve l minute id check).1 ≡ ok r) × Accepted r
  unfolding made
  accepts v fits =
      let used = current l minute check.api_key in
      let b = current-Within l minute check.api_key v in
      let room = (check_limits_iff l.limits used check b).0 fits in
      (
        made,
        rw (reserve-eq-ok fits),
        record {
          room = room;
          grew =
              rw (current-accepted fits)
                (unfold spent in charged-Grew l.limits used check v.words room);
          remains = rw (current-accepted fits) (
              unfold spent in
              reservation_of-Remains l.limits (charged used check) id check
                (charged-Within l.limits used check v.words b fits));
          named = unfold reservation_of in refl;
          held = unfold reservation_of in refl;
          stored = rw (reserve-eq-ok fits);
        },
      )

  refuses :
      (e : QuotaError)
      → IsWithin l
      → check_limits l.limits (current l minute check.api_key) check ≡ some e
      → ((reserve l minute id check).1 ≡ err e) × Refused
  refuses e v refused =
      let used = current l minute check.api_key in
      let iff = check_limits_iff l.limits used check (current-Within l minute check.api_key v) in
      (
        rw (reserve-eq-err e refused),
        record {
          no_room = λ room. cc (refused, iff.1 room);
          same =
              rw (reserve-eq-err e refused) (
                current-insert l minute check.api_key used (window-current l minute check.api_key));
          stored = rw (reserve-eq-err e refused);
        },
      )

  -- From a limiter within its limits, `reserve` succeeds exactly when the request and both kinds
  -- of tokens fit the window of the minute. The usage then has grown by exactly them, what is
  -- reported as remaining is the limits less the new usage, and the reservation is stored. When
  -- it fails, the usage and the reservations stay as they were.
  pub reserve_outcome :
      IsWithin l
      → ((r : QuotaReservation) × ((reserve l minute id check).1 ≡ ok r) × Accepted r)
        ⊎ ((e : QuotaError) × ((reserve l minute id check).1 ≡ err e) × Refused)
  reserve_outcome v =
      elim (Option-cases (check_limits l.limits (current l minute check.api_key) check)) [
        | inl fits ↦ inl (accepts v fits)
        | inr (e, refused) ↦ let (p, q) = refuses e v refused in inr (e, p, q)
      ]

  -- The facts of a success, from its result.
  pub reserve-Accepted :
      (r : QuotaReservation) → IsWithin l → (reserve l minute id check).1 ≡ ok r → Accepted r
  reserve-Accepted r v h = elim (reserve_outcome v) [
    | inl (x, e, a) ↦ subst Accepted (ok-injective (sym e ∙ h)) a
    | inr (x, e, a) ↦ absurd (ok-ne-err (sym h ∙ e))
  ]
