-- ===== src/Streams/Quota/Client.antt =====
-- `reserve_quota`, `reconcile_quota` and `cancel_quota` of crates/inference-streams/src/lib.rs: the
-- calls around the scripts. The digest of the API key, the clock and the fresh identifier are
-- arguments.
use inference_data_plane.Prelude.{
  ℕ, ◌/◌, Bool, false, List, [], ◌∷◌, eqb, Result, ok, err, if◌then◌else◌,
}
use inference_data_plane.Prelude.Int.{ℤ, pos, negsuc, pos_part}
use inference_data_plane.Text.{Text, codes}
use inference_data_plane.Streams.Keys.{quota_prefix, reservation_key}
use inference_data_plane.Streams.Keyspace.{Keyspace}
use inference_data_plane.Streams.Transport.{Transport, RedisError, response_error}
use inference_data_plane.Streams.Quota.{
  Charge, QuotaLimits, QuotaReservation, charge_of, reserve_script, reconcile_script, cancel_script,
}
use inference_data_plane.Streams.Quota.Accounts.{quota_ttl}

pub data QuotaError : Type 0 where
  requests prompt_tokens generated_tokens : QuotaError
  broker : RedisError → QuotaError

pub is_int : ℕ → ℤ → Bool
is_int n (pos m) = eqb m n
is_int n (negsuc m) = false

invalid_response : QuotaError
unfolding codes
invalid_response = broker (response_error (codes "invalid quota script response"))

-- The arms `[0, 1, ..]`, `[0, 2, ..]`, `[0, 3, ..]` and `_` of the match.
read_refusal : List ℤ → QuotaError
unfolding is_int invalid_response
read_refusal (a ∷ b ∷ rest) =
    if is_int 0 a
    then if is_int 1 b
      then requests
      else if is_int 2 b
      then prompt_tokens
      else if is_int 3 b
      then generated_tokens
      else invalid_response
    else invalid_response
read_refusal _ = invalid_response

-- The arm `[1, requests, prompt, generated]` comes first; `max(0) as u64` is `pos_part`.
unfoldable pub read_reply : Text → List ℤ → Result QuotaError QuotaReservation
unfolding read_refusal is_int
read_reply id (a ∷ r ∷ p ∷ g ∷ []) =
    if is_int 1 a
    then ok (record {
      id = id;
      remaining_requests = pos_part r;
      remaining_prompt_tokens = pos_part p;
      remaining_generated_tokens = pos_part g;
    })
    else err (read_refusal (a ∷ r ∷ p ∷ g ∷ []))
read_reply id reply = err (read_refusal reply)

unfoldable pub read_sent : Text → Result RedisError (List ℤ) → Result QuotaError QuotaReservation
read_sent id (ok reply) = read_reply id reply
read_sent id (err e) = err (broker e)

unfoldable pub refund_read : Result RedisError ℤ → Result RedisError ℕ
refund_read (ok n) = ok (pos_part n)
refund_read (err e) = err e

unfoldable pub cancel_read : Result RedisError ℤ → Result RedisError (Unit {0})
cancel_read (ok n) = ok tt
cancel_read (err e) = err e

module _ (K : Keyspace) (T : Transport K.Db) (digest : Text → Text) where
  open T use {World, db, send}

  unfoldable pub charge : ℕ → Text → Text → ℕ → ℕ → Charge
  charge unix_ms id api_key p g =
      charge_of (quota_prefix (digest api_key) (unix_ms / 60_000)) id p g

  unfoldable pub reserve_quota :
      ℕ → Text → Text → ℕ → ℕ → QuotaLimits → World → Result QuotaError QuotaReservation × World
  unfolding charge read_sent
  reserve_quota unix_ms id api_key p g limits w =
      let (reply, w') =
        send (reserve_script K (charge unix_ms id api_key p g) limits quota_ttl) w in
      (read_sent id reply, w')

  unfoldable pub reconcile_quota : Text → ℕ → World → Result RedisError ℕ × World
  unfolding refund_read
  reconcile_quota id actual w =
      let (reply, w') = send (reconcile_script K (reservation_key id) actual) w in
      (refund_read reply, w')

  unfoldable pub cancel_quota : Text → World → Result RedisError (Unit {0}) × World
  unfolding cancel_read
  cancel_quota id w =
      let (reply, w') = send (cancel_script K (reservation_key id)) w in (cancel_read reply, w')
