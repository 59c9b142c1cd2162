-- ===== src/Limiter/Examples.antt =====
-- Runs of crates/generation-quota-limiter/src/lib.rs, its tests among them.
use inference_data_plane.Prelude.{
  ℕ, ◌+◌, ◌-◌, ◌≤◌, ◌≡◌, ◌⊎◌, refl, some, [], ◌∷◌, arith, lookup, insert, remove, nat_eq, ok, err,
  if◌then◌else◌,
}
use inference_data_plane.Text.{Text, codes, text_eq, text_beq}
use inference_data_plane.Limiter.{
  QuotaLimits, QuotaCheck, QuotaReservation, QuotaError, generated_tokens_exceeded,
  reservation_not_found, InMemoryQuotaLimiter, new, in_window, current, charged, reservation_of,
  check_limits, reserve, reconcile, cancel, reserves, reconciles, run,
}
use inference_data_plane.Limiter.Bounds.{AreWords, Within, new-IsWithin, run-Within}
use inference_data_plane.Limiter.Reserve.{Accepted, Refused, reserve_outcome}
use inference_data_plane.Limiter.Refunds.{outstanding, reconcile_outcome}
use inference_data_plane.Limiter.Stale.{stale_refund}
use inference_data_plane.Limiter.Concurrent.{Reach, Turn, start, owed, Reach-outstanding-le}

abbrev two_a_minute : QuotaLimits
two_a_minute = record {
  requests_per_minute = 2;
  prompt_tokens_per_minute = 100;
  generated_tokens_per_minute = 50;
}

words : AreWords two_a_minute
words = record { requests = omega arith; prompt = omega arith; generated = omega arith }

abbrev forty : QuotaCheck
forty = record { api_key = codes "key"; prompt_tokens = 10; reserved_generated_tokens = 40 }

abbrev twenty : QuotaCheck
twenty = record forty { reserved_generated_tokens = 20 }

abbrev empty : InMemoryQuotaLimiter
empty = new two_a_minute

abbrev held_forty : InMemoryQuotaLimiter
held_forty = (reserve empty 7 1 forty).0

abbrev first : QuotaReservation
first = record {
  id = 1;
  api_key = codes "key";
  prompt_tokens = 10;
  reserved_generated_tokens = 40;
  remaining_requests = 1;
  remaining_prompt_tokens = 90;
  remaining_generated_tokens = 10;
}

reserves_forty : (reserve empty 7 1 forty).1 ≡ ok first
unfolding reserve check_limits current in_window charged reservation_of codes lookup insert
reserves_forty = refl

rejects_when_generated_quota_would_be_exceeded :
    (reserve held_forty 7 2 twenty).1 ≡ err (generated_tokens_exceeded 10 20)
unfolding reserve check_limits current in_window charged reservation_of codes lookup insert text_beq
rejects_when_generated_quota_would_be_exceeded = refl

refunds_unused_generation_tokens : (reconcile held_forty 1 12).1 ≡ ok 28
unfolding reserve check_limits current in_window charged reservation_of codes lookup insert
    reconcile
refunds_unused_generation_tokens = refl

cancellation_refunds_reserved_generation_tokens : (cancel held_forty 1).1 ≡ ok 40
unfolding reserve check_limits current in_window charged reservation_of codes lookup insert
    reconcile cancel
cancellation_refunds_reserved_generation_tokens = refl

run-Within_example : Within two_a_minute (
    current
      (run empty (reserves 7 1 forty ∷ reserves 7 2 twenty ∷ reconciles 1 12 ∷ []))
      7
      (codes "key"))
run-Within_example =
    run-Within two_a_minute (reserves 7 1 forty ∷ reserves 7 2 twenty ∷ reconciles 1 12 ∷ []) 7
      (codes "key") words

reserve_outcome_example :
    ((r : QuotaReservation) × ((reserve empty 7 1 forty).1 ≡ ok r) × Accepted empty 7 1 forty r)
    ⊎ ((e : QuotaError) × ((reserve empty 7 1 forty).1 ≡ err e) × Refused empty 7 1 forty)
reserve_outcome_example = reserve_outcome empty 7 1 forty (new-IsWithin two_a_minute words)

first_there : lookup 1 held_forty.reservations ≡ some first
unfolding reserve check_limits current in_window charged reservation_of codes lookup insert
first_there = refl

abbrev after_forty : InMemoryQuotaLimiter
after_forty = (reconcile held_forty 1 12).0

reconcile_outcome_example :
    ((reconcile held_forty 1 12).1 ≡ ok 28)
    × (after_forty.reservations ≡ remove 1 held_forty.reservations)
    × ((j : Text)
        → (current after_forty 7 j).generated_tokens_reserved ≡ (
            if text_eq.beq (codes "key") j
            then (current held_forty 7 j).generated_tokens_reserved - 28
            else (current held_forty 7 j).generated_tokens_reserved))
    × ((again : ℕ) → (reconcile after_forty 1 again).1 ≡ err reservation_not_found)
reconcile_outcome_example = reconcile_outcome held_forty 1 12 7 first first_there

Reach-outstanding-le_example :
    outstanding (codes "key") held_forty.reservations + owed (codes "key") []
    ≤ two_a_minute.generated_tokens_per_minute
Reach-outstanding-le_example =
    Reach-outstanding-le two_a_minute (codes "key") words
      (Reach.next Reach.here (Turn.reserves (start two_a_minute) 1 forty))

abbrev next_minute : QuotaReservation
next_minute = record {
  id = 2;
  api_key = codes "key";
  prompt_tokens = 10;
  reserved_generated_tokens = 20;
  remaining_requests = 1;
  remaining_prompt_tokens = 90;
  remaining_generated_tokens = 30;
}

reserves_next_minute : (reserve held_forty 8 2 twenty).1 ≡ ok next_minute
unfolding reserve check_limits current in_window charged reservation_of codes lookup insert text_beq
reserves_next_minute = refl

abbrev both_held : InMemoryQuotaLimiter
both_held = (reserve held_forty 8 2 twenty).0

-- 20 tokens are open in the new minute, and its counter is at 0.
stale_refund_example :
    let after = (reconcile both_held 1 12).0 in
    ((current after 8 (codes "key")).generated_tokens_reserved ≡ 20 - (40 - 12))
    × (lookup 2 after.reservations ≡ some next_minute)
    × (next_minute.reserved_generated_tokens ≡ 20)
stale_refund_example =
    stale_refund empty 7 8 1 2 forty twenty first next_minute (new-IsWithin two_a_minute words) refl
      (λ h. omega arith) (λ h. omega arith) reserves_forty reserves_next_minute 12
