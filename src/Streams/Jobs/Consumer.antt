-- ===== src/Streams/Jobs/Consumer.antt =====
-- `consumer` and the operations of `JobConsumer` in crates/inference-streams/src/lib.rs. The commands
-- on the consumer group, with their replies, are an interface.
use inference_data_plane.Prelude.{
  ℕ, Bool, ◌||◌, Option, List, [], ◌∷◌, is_some, eqb, Result, ok, err, if◌then◌else◌,
}
use inference_data_plane.Prelude.Action.{Action, pure, lift, ◌>>◌}
use inference_data_plane.Text.{Text, codes}
use inference_data_plane.Text.Split.{strip_prefix}
use inference_data_plane.Streams.Reply.{Value, ConsumedJob, parse_job_reply, parse_autoclaim_reply}
use inference_data_plane.Streams.Transport.{RedisError}
use inference_data_plane.Streams.Wire.{GenerationJob}

-- XGROUP CREATE, XREADGROUP, XAUTOCLAIM and XACK on the request stream and its group, the making of a
-- connection, and the text of an error. Durations are in milliseconds.
pub record Groups (World : Type 0) : Type 0 where
  pub xgroup_create : World → Result RedisError Value × World
  pub xreadgroup : Text → ℕ → World → Result RedisError Value × World
  pub xautoclaim : Text → ℕ → World → Result RedisError Value × World
  pub xack : Text → World → Result RedisError ℕ × World
  pub connect : Action World Text (Unit {0})
  pub redis_text : RedisError → Text

-- `str::contains`
unfoldable pub contains_text : Text → Text → Bool
unfolding strip_prefix
contains_text part [] = is_some (strip_prefix part [])
contains_text part (c ∷ s) = is_some (strip_prefix part (c ∷ s)) || contains_text part s

module _ {World : Type 0} (G : Groups World) where
  open G use {redis_text}

  -- The group is there, made now or before.
  unfoldable pub group_made : Result RedisError Value → Result Text (Unit {0})
  unfolding codes contains_text
  group_made (ok reply) = ok tt
  group_made (err e) =
      if contains_text (codes "BUSYGROUP") (redis_text e) then ok tt else err (redis_text e)

  -- The consumer is its name; its connection is part of the world.
  unfoldable pub consumer : Text → Action World Text Text
  unfolding group_made
  consumer name w =
      let (reply, v) = G.xgroup_create w in (lift (group_made reply) >> G.connect >> pure name) v

  -- A reply with `?`, then its parser.
  unfoldable pub parsed :
      {A : Type 0} → (Value → Result Text A) → Result RedisError Value → Result Text A
  parsed parse (ok value) = parse value
  parsed parse (err e) = err (redis_text e)

  module _ (from_utf8 : List ℕ → Result Text Text)
      (decode : List ℕ → Result Text GenerationJob) where
    unfoldable pub next : Text → ℕ → Action World Text (Option ConsumedJob)
    unfolding parsed parse_job_reply
    next name block w =
        let (reply, v) = G.xreadgroup name block w in
        (parsed (parse_job_reply from_utf8 decode) reply, v)

    unfoldable pub reclaim_stale : Text → ℕ → Action World Text (Option ConsumedJob)
    unfolding parsed parse_autoclaim_reply
    reclaim_stale name idle w =
        let (reply, v) = G.xautoclaim name idle w in
        (parsed (parse_autoclaim_reply from_utf8 decode) reply, v)

  unfoldable pub acknowledge : Text → Action World Text Bool
  acknowledge entry_id w =
      let (reply, v) = G.xack entry_id w in
      elim reply [ ok count ↦ (ok (eqb count 1), v) | err e ↦ (err (redis_text e), v) ]
