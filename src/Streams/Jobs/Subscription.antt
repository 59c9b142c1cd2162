-- ===== src/Streams/Jobs/Subscription.antt =====
-- `subscribe` and `ResultSubscription::next` of crates/inference-streams/src/lib.rs. The connection
-- of a subscription is an interface: XREAD, the making of a new connection, and sleeping.
pub mod Retries
use inference_data_plane.Prelude.{
  ℕ, zero, suc, ◌+◌, ◌*◌, Bool, true, false, Option, none, some, List, unwrap_or, eqb, Result, ok,
  err, if◌then◌else◌,
}
use inference_data_plane.Prelude.Action.{Action, pure, ◌>>=◌, ◌>>◌, continue}
use inference_data_plane.Text.{Text, codes}
use inference_data_plane.Streams.{StreamsConfig}
use inference_data_plane.Streams.Keys.{result_stream, status_key}
use inference_data_plane.Streams.Reply.{Value}
use inference_data_plane.Streams.Transport.{Transport, RedisError}
use inference_data_plane.Streams.Wire.{ResultEntry}
use inference_data_plane.Streams.Jobs.{JobStore, call}

-- The stream and the cursor; the connection is part of the world.
pub record ResultSubscription : Type 0 where
  pub stream : Text
  pub last_event_id : Text

-- Durations in milliseconds.
pub record Connection (World : Type 0) : Type 0 where
  pub xread : Text → Text → ℕ → World → Result RedisError Value × World
  pub reconnect : Action World Text (Unit {0})
  pub sleep : ℕ → World → World

abbrev pub one_if : Bool → ℕ
one_if true = 1
one_if false = 0

module _ (S : JobStore) (config : StreamsConfig) (T : Transport S.Db)
    (redis_text : RedisError → Text) (N : Connection T.World) where
  open T use {World}

  -- EXISTS of two keys
  unfoldable pub exists_count : Text → S.Db → ℕ
  unfolding result_stream status_key
  exists_count request_id db =
      one_if (S.exists db (result_stream request_id)) + one_if (S.exists db (status_key request_id))

  unfoldable pub subscription : Text → Option Text → ResultSubscription
  unfolding codes result_stream
  subscription request_id after_event_id = record {
    stream = result_stream request_id;
    last_event_id = unwrap_or after_event_id (codes "0-0");
  }

  unfoldable pub subscribe : Text → Option Text → Action World Text (Option ResultSubscription)
  unfolding call exists_count subscription
  subscribe request_id after_event_id = do
    exists ← call S config T redis_text λ db. (exists_count request_id db, db)
    if eqb exists 0
        then pure none
        else (N.reconnect >> pure (some (subscription request_id after_event_id)))

module _ {World : Type 0} (N : Connection World) (redis_text : RedisError → Text)
    (parse : Value → Result Text (Option ResultEntry)) (block : ℕ) where
  open N use {xread, reconnect, sleep}

  -- What `next` returns, with the subscription after it.
  abbrev pub Next : Type 0
  Next = Result Text (Option ResultEntry) × ResultSubscription

  unfoldable pub advance :
      ResultSubscription → Result Text (Option ResultEntry) → ResultSubscription
  advance sub (ok (some entry)) = record sub { last_event_id = entry.event_id }
  advance sub (ok none) = sub
  advance sub (err e) = sub

  -- The rounds that are left of `for attempt in 0..4`; the branch on `is_timeout` goes on like the
  -- other. `none` is the `unreachable!()` behind the loop.
  unfoldable pub read_attempts : ℕ → ℕ → ResultSubscription → World → Option Next × World
  unfolding advance
  read_attempts zero backoff sub w = (none, w)
  read_attempts (suc left) backoff sub w =
      let (reply, v) = xread sub.stream sub.last_event_id block w in
      elim reply [
        | ok value ↦ (some (parse value, advance sub (parse value)), v)
        | err e ↦ elim left [
          | zero ↦ (some (err (redis_text e), sub), v)
          | suc more ↦
              let (made, u) = reconnect (sleep backoff v) in
              elim made [
                | ok done ↦ read_attempts left (backoff * 2) sub u
                | err x ↦ (some (err x, sub), u)
              ]
        ]
      ]

  unfoldable pub next : ResultSubscription → World → Option Next × World
  unfolding read_attempts
  next sub w = read_attempts 4 50 sub w
