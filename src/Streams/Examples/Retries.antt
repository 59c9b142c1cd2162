-- ===== src/Streams/Examples/Retries.antt =====
-- The subscriptions and the consumers of crates/inference-streams/src/lib.rs at concrete replies.
use inference_data_plane.Prelude.{
  ℕ, ◌+◌, ◌*◌, ◌^◌, ◌≤◌, ◌<◌, ◌≡◌, ◌≢◌, refl, ap, sym, arith, Bool, true, false, ◌&&◌, ◌||◌, Option,
  none, some, List, [], ◌∷◌, ◌++◌, is_empty, not, filter_option, lookup, Result, ok, err,
  if◌then◌else◌,
}
use inference_data_plane.Text.{Text, codes, text_eq, text_beq}
use inference_data_plane.Streams.{default_config}
use inference_data_plane.Streams.Reply.{Value, other}
use inference_data_plane.Streams.Transport.{failed}
use inference_data_plane.Streams.Wire.{ResultEntry}
use inference_data_plane.Streams.Jobs.{
  Entry, JobStore, result_ttl, is_terminal, queued_writes, result_writes, set_state, set_terminal,
  cell, status_of, status_values, call, publish_generation, publish_result, status,
}
use inference_data_plane.Streams.Jobs.Subscription.{
  ResultSubscription, Connection, advance, next, exists_count, subscribe, subscription,
}
use inference_data_plane.Streams.Jobs.Subscription.Retries.{Meter, next-terminates}
use inference_data_plane.Streams.Jobs.Consumer.{contains_text}
use inference_data_plane.Streams.Examples.Board.{last_result, redis_text}

-- A connection whose first reads fail.
record Line : Type 0 where
  failing : ℕ
  sent : ℕ
  napped : ℕ

abbrev line : Connection Line
line = record {
  xread = λ stream last block w. (
    if inference_data_plane.Prelude.ltb w.sent w.failing
        then err (failed (codes "io"))
        else ok other,
    record w { sent = w.sent + 1 },
  );
  reconnect = λ w. (ok tt, w);
  sleep = λ ms w. record w { napped = w.napped + ms };
}

line-Meter : Meter line
line-Meter = record {
  reads = λ w. w.sent;
  slept = λ w. w.napped;
  reads-xread = λ stream last block w. refl;
  slept-xread = λ stream last block w. refl;
  reads-reconnect = λ w. refl;
  slept-reconnect = λ w. refl;
  reads-sleep = λ ms w. refl;
  slept-sleep = λ ms w. refl;
}

abbrev watched : ResultSubscription
watched = record { stream = codes "results"; last_event_id = codes "0-0" }

abbrev two_failures : Line
two_failures = record { failing = 2; sent = 0; napped = 0 }

abbrev found : Value → Result Text (Option ResultEntry)
found value = ok (some (record { event_id = codes "1-0"; result = last_result }))

-- Two reads fail, and the third gives the entry, after 50 and 100 milliseconds.
third_read : next line redis_text found 25_000 watched two_failures ≡ (
  some (found other, record watched { last_event_id = codes "1-0" }),
  record two_failures { sent = 3; napped = 150 },
)
unfolding next inference_data_plane.Streams.Jobs.Subscription.read_attempts advance codes
third_read = refl

next-terminates_example :
    let (answer, v) = next line redis_text found 25_000 watched two_failures in
    ((result : Result Text (Option ResultEntry)) × (answer
        ≡ some (result, advance line redis_text found 25_000 watched result)))
    × (1 ≤ v.sent)
    × (v.sent ≤ 4)
    × (v.napped ≤ 350)
unfolding line-Meter next
next-terminates_example =
    next-terminates line line-Meter redis_text found 25_000 watched two_failures

busy : contains_text (codes "BUSY") (codes "a BUSYGROUP") ≡ true
unfolding contains_text inference_data_plane.Text.Split.strip_prefix codes
busy = refl

not_busy : contains_text (codes "BUSY") (codes "a BUS") ≡ false
unfolding contains_text inference_data_plane.Text.Split.strip_prefix codes
not_busy = refl
