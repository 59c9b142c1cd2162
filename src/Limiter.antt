-- ===== src/Limiter.antt =====
-- crates/generation-quota-limiter/src/lib.rs: quota windows of one minute, kept in memory. The
-- clock (`epoch_minute`) and the fresh `Uuid` are arguments of the calls; a `Uuid` is a number.
pub mod Windows
pub mod Bounds
pub mod Reserve
pub mod Refunds
pub mod Stale
pub mod Concurrent
pub mod Examples
use inference_data_plane.Prelude.{
  ℕ, ◌-◌, Option, none, some, List, [], ◌∷◌, eqb, ltb, unwrap_or, add_u64, lookup, insert, remove,
  nat_eq, Result, ok, err, if◌then◌else◌,
}
use inference_data_plane.Text.{Text, text_eq}

pub record QuotaLimits : Type 0 where
  pub requests_per_minute : ℕ
  pub prompt_tokens_per_minute : ℕ
  pub generated_tokens_per_minute : ℕ

abbrev pub default_limits : QuotaLimits
default_limits = record {
  requests_per_minute = 60;
  prompt_tokens_per_minute = 120_000;
  generated_tokens_per_minute = 60_000;
}

pub record QuotaCheck : Type 0 where
  pub api_key : Text
  pub prompt_tokens : ℕ
  pub reserved_generated_tokens : ℕ

pub record QuotaReservation : Type 0 where
  pub id : ℕ
  pub api_key : Text
  pub prompt_tokens : ℕ
  pub reserved_generated_tokens : ℕ
  pub remaining_requests : ℕ
  pub remaining_prompt_tokens : ℕ
  pub remaining_generated_tokens : ℕ

pub data QuotaError : Type 0 where
  requests_exceeded : ℕ → QuotaError
  prompt_tokens_exceeded : ℕ → ℕ → QuotaError
  generated_tokens_exceeded : ℕ → ℕ → QuotaError
  reservation_not_found : QuotaError

pub record WindowCounters : Type 0 where
  pub window_start_epoch_minute : ℕ
  pub requests : ℕ
  pub prompt_tokens : ℕ
  pub generated_tokens_reserved : ℕ

abbrev pub no_counters : WindowCounters
no_counters = record {
  window_start_epoch_minute = 0;
  requests = 0;
  prompt_tokens = 0;
  generated_tokens_reserved = 0;
}

pub record InMemoryQuotaLimiter : Type 0 where
  pub limits : QuotaLimits
  pub state : List (Text × WindowCounters)
  pub reservations : List (ℕ × QuotaReservation)

abbrev pub new : QuotaLimits → InMemoryQuotaLimiter
new limits = record { limits = limits; state = []; reservations = [] }

-- The counters of another minute start again.
pub in_window : ℕ → WindowCounters → WindowCounters
in_window minute counters =
    if eqb counters.window_start_epoch_minute minute
    then counters
    else record no_counters { window_start_epoch_minute = minute }

-- `entry(..).or_default()` and the reset of the window
pub current : InMemoryQuotaLimiter → ℕ → Text → WindowCounters
unfolding in_window
current l minute key = in_window minute (unwrap_or (lookup key l.state) no_counters)

pub charged : WindowCounters → QuotaCheck → WindowCounters
charged counters check = record counters {
  requests = add_u64 counters.requests 1;
  prompt_tokens = add_u64 counters.prompt_tokens check.prompt_tokens;
  generated_tokens_reserved =
      add_u64 counters.generated_tokens_reserved check.reserved_generated_tokens;
}

pub reservation_of : QuotaLimits → WindowCounters → ℕ → QuotaCheck → QuotaReservation
reservation_of limits counters id check = record {
  id = id;
  api_key = check.api_key;
  prompt_tokens = check.prompt_tokens;
  reserved_generated_tokens = check.reserved_generated_tokens;
  remaining_requests = limits.requests_per_minute - counters.requests;
  remaining_prompt_tokens = limits.prompt_tokens_per_minute - counters.prompt_tokens;
  remaining_generated_tokens =
      limits.generated_tokens_per_minute - counters.generated_tokens_reserved;
}

-- The three tests, in the order of the source.
pub check_limits : QuotaLimits → WindowCounters → QuotaCheck → Option QuotaError
check_limits limits counters check =
    let remaining_requests = limits.requests_per_minute - counters.requests in
    let remaining_prompt = limits.prompt_tokens_per_minute - counters.prompt_tokens in
    let remaining_generated =
      limits.generated_tokens_per_minute - counters.generated_tokens_reserved in
    if ltb remaining_requests 1
    then some (requests_exceeded remaining_requests)
    else if ltb remaining_prompt check.prompt_tokens
    then some (prompt_tokens_exceeded remaining_prompt check.prompt_tokens)
    else if ltb remaining_generated check.reserved_generated_tokens
    then some (generated_tokens_exceeded remaining_generated check.reserved_generated_tokens)
    else none

-- What a test left in the map stays there, also when the reservation is refused.
pub reserve :
    InMemoryQuotaLimiter
    → ℕ
    → ℕ
    → QuotaCheck
    → InMemoryQuotaLimiter × Result QuotaError QuotaReservation
reserve l minute id check =
    let counters = current l minute check.api_key in
    let spent = charged counters check in
    let reservation = reservation_of l.limits spent id check in
    elim (check_limits l.limits counters check) [
      | some e ↦ (record l { state = insert check.api_key counters l.state }, err e)
      | none ↦ (
        record l {
          state = insert check.api_key spent l.state;
          reservations = insert id reservation l.reservations;
        },
        ok reservation,
      )
    ]

-- `state.get_mut`: a key without counters is left alone.
refund_counters : Option WindowCounters → Text → ℕ → InMemoryQuotaLimiter → InMemoryQuotaLimiter
refund_counters none key refund l = l
refund_counters (some counters) key refund l = record l {
  state =
      insert key
        (record counters {
          generated_tokens_reserved = counters.generated_tokens_reserved - refund;
        })
        l.state;
}

-- The second critical section of `reconcile`.
pub give_back : InMemoryQuotaLimiter → Text → ℕ → InMemoryQuotaLimiter
unfolding refund_counters
give_back l key refund = refund_counters (lookup key l.state) key refund l

-- `none` when nothing is taken out: the first critical section of `reconcile`.
settle :
    Option QuotaReservation
    → InMemoryQuotaLimiter
    → ℕ
    → ℕ
    → InMemoryQuotaLimiter × Result QuotaError ℕ
settle none l id actual = (l, err reservation_not_found)
settle (some reservation) l id actual =
    let refund = reservation.reserved_generated_tokens - actual in
    let taken = record l { reservations = remove id l.reservations } in
    if eqb refund 0 then (taken, ok 0) else (give_back taken reservation.api_key refund, ok refund)

pub reconcile : InMemoryQuotaLimiter → ℕ → ℕ → InMemoryQuotaLimiter × Result QuotaError ℕ
unfolding settle
reconcile l id actual = settle (lookup id l.reservations) l id actual

pub cancel : InMemoryQuotaLimiter → ℕ → InMemoryQuotaLimiter × Result QuotaError ℕ
cancel l id = reconcile l id 0

pub data Call : Type 0 where
  reserves : ℕ → ℕ → QuotaCheck → Call
  reconciles : ℕ → ℕ → Call
  cancels : ℕ → Call

pub step : InMemoryQuotaLimiter → Call → InMemoryQuotaLimiter
step l (reserves minute id check) = (reserve l minute id check).0
step l (reconciles id actual) = (reconcile l id actual).0
step l (cancels id) = (cancel l id).0

pub run : InMemoryQuotaLimiter → List Call → InMemoryQuotaLimiter
run l [] = l
run l (c ∷ cs) = run (step l c) cs
