-- ===== src/Streams/Quota.antt =====
-- The quota scripts of crates/inference-streams/src/lib.rs, and the calls that send them. Valkey
-- runs a script as one step, so a script is a function on the keyspace.
pub mod Effects
pub mod Settle
pub mod Accounts
pub mod Grants
pub mod Expiry
pub mod Columns
pub mod Limits
pub mod Client
pub mod Outcomes
use inference_data_plane.Prelude.{
  ℕ, ◌+◌, ◌/◌, ◌≡◌, Bool, true, false, Option, none, some, List, [], ◌∷◌, ◌++◌, eqb, ltb, unwrap_or,
  Result, ok, err, String, if◌then◌else◌,
}
use inference_data_plane.Prelude.Int.{ℤ, pos, negsuc, pos_part, ◌+ℤ◌, ◌-ℤ◌, ltb_ℤ}
use inference_data_plane.Text.{Text, codes, text_eq}
use inference_data_plane.Streams.Keys.{
  requests_key, prompt_key, generated_key, quota_prefix, reservation_key,
}
use inference_data_plane.Streams.Keyspace.{Keyspace, Datum, number, word}

pub record QuotaLimits : Type 0 where
  pub requests_per_minute : ℕ
  pub prompt_tokens_per_minute : ℕ
  pub generated_tokens_per_minute : ℕ

pub record QuotaReservation : Type 0 where
  pub id : Text
  pub remaining_requests : ℕ
  pub remaining_prompt_tokens : ℕ
  pub remaining_generated_tokens : ℕ

-- The keys and the amounts of one reservation: KEYS[1..4], ARGV[1], ARGV[2].
pub record Charge : Type 0 where
  pub requests_at : Text
  pub prompt_at : Text
  pub generated_at : Text
  pub reservation_at : Text
  pub prompt_add : ℕ
  pub generated_add : ℕ

unfoldable pub charge_of : Text → Text → ℕ → ℕ → Charge
charge_of prefix id prompt_add generated_add = record {
  requests_at = requests_key prefix;
  prompt_at = prompt_key prefix;
  generated_at = generated_key prefix;
  reservation_at = reservation_key id;
  prompt_add = prompt_add;
  generated_add = generated_add;
}

-- The names of the fields of a reservation, and its states.
unfoldable pub status : Text
unfolding codes
status = codes "status"

unfoldable pub reserved : Text
unfolding codes
reserved = codes "reserved"

unfoldable pub reconciled : Text
unfolding codes
reconciled = codes "reconciled"

unfoldable pub cancelled : Text
unfolding codes
cancelled = codes "cancelled"

unfoldable pub requests_field : Text
unfolding codes
requests_field = codes "requests_key"

unfoldable pub prompt_field : Text
unfolding codes
prompt_field = codes "prompt_key"

unfoldable pub generated_field : Text
unfolding codes
generated_field = codes "generated_key"

unfoldable pub prompt : Text
unfolding codes
prompt = codes "prompt"

unfoldable pub generated : Text
unfolding codes
generated = codes "generated"

unfoldable pub actual_generated : Text
unfolding codes
actual_generated = codes "actual_generated"

unfoldable pub refunded : Text
unfolding codes
refunded = codes "refunded"

-- `tonumber(redis.call('HGET', ..) or '0')` of a field that holds a number
abbrev pub to_number : Option Datum → ℤ
to_number none = pos 0
to_number (some (number n)) = n
to_number (some (word t)) = pos 0

abbrev pub is_word : Text → Option Datum → Bool
is_word t none = false
is_word t (some (number n)) = false
is_word t (some (word s)) = text_eq.beq s t

module _ (K : Keyspace) where
  open K use {Db, get, hget, incr_by, hset, expire}

  unfoldable pub count : Db → Text → ℤ
  count db k = unwrap_or (get db k) (pos 0)

  -- The writes of `RESERVE_QUOTA_LUA`, in order.
  unfoldable pub reserve_writes : Charge → ℕ → Db → Db
  reserve_writes c ttl db =
      let charged =
        incr_by c.generated_at (pos c.generated_add)
          (incr_by c.prompt_at (pos c.prompt_add) (incr_by c.requests_at (pos 1) db)) in
      let timed =
        expire c.generated_at ttl (expire c.prompt_at ttl (expire c.requests_at ttl charged)) in
      expire c.reservation_at ttl (
        hset c.reservation_at
          ((status, word reserved)
            ∷ (requests_field, word c.requests_at)
            ∷ (prompt_field, word c.prompt_at)
            ∷ (generated_field, word c.generated_at)
            ∷ (prompt, number (pos c.prompt_add))
            ∷ (generated, number (pos c.generated_add))
            ∷ [])
          timed)

  -- RESERVE_QUOTA_LUA
  unfoldable pub reserve_script : Charge → QuotaLimits → ℕ → Db → List ℤ × Db
  unfolding count
  reserve_script c limits ttl db =
      let requests = count db c.requests_at in
      let prompts = count db c.prompt_at in
      let generations = count db c.generated_at in
      if ltb_ℤ (pos limits.requests_per_minute) (requests +ℤ pos 1)
      then (pos 0 ∷ pos 1 ∷ [], db)
      else if ltb_ℤ (pos limits.prompt_tokens_per_minute) (prompts +ℤ pos c.prompt_add)
      then (pos 0 ∷ pos 2 ∷ [], db)
      else if ltb_ℤ (pos limits.generated_tokens_per_minute) (generations +ℤ pos c.generated_add)
      then (pos 0 ∷ pos 3 ∷ [], db)
      else (
        pos 1
            ∷ (pos limits.requests_per_minute -ℤ requests -ℤ pos 1)
            ∷ (pos limits.prompt_tokens_per_minute -ℤ prompts -ℤ pos c.prompt_add)
            ∷ (pos limits.generated_tokens_per_minute -ℤ generations -ℤ pos c.generated_add)
            ∷ [],
        reserve_writes c ttl db,
      )

  -- `math.max(reserved - actual, 0)`
  unfoldable pub refund_of : ℤ → ℕ → ℤ
  refund_of held actual =
      let rest = held -ℤ pos actual in if ltb_ℤ rest (pos 0) then pos 0 else rest

  -- `if refund > 0 and generated_key then DECRBY`
  unfoldable pub decr_some : Option Datum → ℤ → Db → Db
  decr_some (some (word k)) n db = incr_by k (pos 0 -ℤ n) db
  decr_some _ n db = db

  -- RECONCILE_QUOTA_LUA
  unfoldable pub reconcile_script : Text → ℕ → Db → ℤ × Db
  unfolding refund_of decr_some
  reconcile_script key actual db =
      let refund = refund_of (to_number (hget db key generated)) actual in
      let paid =
        if ltb_ℤ (pos 0) refund then decr_some (hget db key generated_field) refund db else db in
      if is_word reserved (hget db key status)
      then (
        refund,
        hset key
            ((status, word reconciled)
              ∷ (actual_generated, number (pos actual))
              ∷ (refunded, number refund)
              ∷ [])
            paid,
      )
      else (pos 0, db)

  -- CANCEL_QUOTA_LUA
  unfoldable pub cancel_script : Text → Db → ℤ × Db
  unfolding decr_some
  cancel_script key db =
      let prompts = to_number (hget db key prompt) in
      let generations = to_number (hget db key generated) in
      let paid = decr_some (hget db key generated_field) generations (
        decr_some (hget db key prompt_field) prompts
          (decr_some (hget db key requests_field) (pos 1) db)) in
      if is_word reserved (hget db key status)
      then (pos 1, hset key ((status, word cancelled) ∷ []) paid)
      else (pos 0, db)
