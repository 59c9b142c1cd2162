-- ===== src/Limiter/Windows.antt =====
-- The minute windows of crates/generation-quota-limiter/src/lib.rs: which counters a call sees.
use inference_data_plane.Prelude.{
  ℕ, ◌≡◌, false, arith, unwrap_or, lookup, insert, lookup-insert, ==_self,
}
use inference_data_plane.Text.{Text, text_eq}
use inference_data_plane.Limiter.{
  WindowCounters, no_counters, InMemoryQuotaLimiter, in_window, current,
}

pub window-in_window :
    (minute : ℕ) (c : WindowCounters) → (in_window minute c).window_start_epoch_minute ≡ minute
unfolding in_window
window-in_window minute c = ground arith

pub in_window_same :
    (minute : ℕ) (c : WindowCounters)
    → c.window_start_epoch_minute ≡ minute
    → in_window minute c ≡ c
unfolding in_window
in_window_same minute c h = ground arith

pub window-current :
    (l : InMemoryQuotaLimiter) (minute : ℕ) (key : Text)
    → (current l minute key).window_start_epoch_minute ≡ minute
unfolding current
window-current l minute key = window-in_window minute (unwrap_or (lookup key l.state) no_counters)

-- Counters that were stored for a minute are what a call in that minute sees.
pub current-insert :
    (l : InMemoryQuotaLimiter) (minute : ℕ) (key : Text) (c : WindowCounters)
    → c.window_start_epoch_minute ≡ minute
    → current (record l { state = insert key c l.state }) minute key ≡ c
unfolding current
current-insert l minute key c h =
    rw (lookup-insert key key c l.state, ==_self key) (in_window_same minute c h)

-- Other keys are not touched.
pub current-insert_ne :
    (l : InMemoryQuotaLimiter) (minute : ℕ) (key j : Text) (c : WindowCounters)
    → (text_eq.beq key j) ≡ false
    → current (record l { state = insert key c l.state }) minute j ≡ current l minute j
unfolding current
current-insert_ne l minute key j c h = rw (lookup-insert key j c l.state, h)
