-- ===== src/Streams/Lease.antt =====
-- The leases of crates/inference-streams/src/lib.rs: `acquire_lease`, `renew_lease`,
-- `release_lease` and their scripts. The broker's string keys are an interface, as in Keyspace.
pub mod Exclusion
pub mod Outcomes
use inference_data_plane.Prelude.{
  ℕ, ◌+◌, ◌<◌, ◌≡◌, Bool, true, false, Option, none, some, eqb, is_some, Result, ok, err,
  if◌then◌else◌,
}
use inference_data_plane.Text.{Text, text_eq}
use inference_data_plane.Streams.{StreamsConfig}
use inference_data_plane.Streams.Keys.{Kind, lease, key_kind, lease_key}
use inference_data_plane.Streams.Keyspace.{is_past}
use inference_data_plane.Streams.Transport.{Transport, RedisError}

pub record LeaseStore : Type 1 where
  pub Db : Type 0
  -- GET of a text, PEXPIRETIME, TIME in milliseconds
  pub get : Db → Text → Option Text
  pub deadline : Db → Text → Option ℕ
  pub now : Db → ℕ
  -- SET key value PX milliseconds; DEL; PEXPIRE; the passage of milliseconds
  pub set_px : Text → Text → ℕ → Db → Db
  pub del : Text → Db → Db
  pub pexpire : Text → ℕ → Db → Db
  pub elapse : ℕ → Db → Db
  pub get-set_px :
      (k j v : Text) (ms : ℕ) (db : Db)
      → 0 < ms
      → get (set_px k v ms db) j ≡ (if text_eq.beq k j then some v else get db j)
  pub deadline-set_px :
      (k j v : Text) (ms : ℕ) (db : Db)
      → 0 < ms
      → deadline (set_px k v ms db) j
        ≡ (if text_eq.beq k j then some (now db + ms) else deadline db j)
  pub now-set_px : (k v : Text) (ms : ℕ) (db : Db) → now (set_px k v ms db) ≡ now db
  pub get-del :
      (k j : Text) (db : Db) → get (del k db) j ≡ (if text_eq.beq k j then none else get db j)
  pub deadline-del :
      (k j : Text) (db : Db)
      → deadline (del k db) j ≡ (if text_eq.beq k j then none else deadline db j)
  pub now-del : (k : Text) (db : Db) → now (del k db) ≡ now db
  pub get-pexpire : (k j : Text) (ms : ℕ) (db : Db) → 0 < ms → get (pexpire k ms db) j ≡ get db j
  pub deadline-pexpire :
      (k j v : Text) (ms : ℕ) (db : Db)
      → 0 < ms
      → get db k ≡ some v
      → deadline (pexpire k ms db) j
        ≡ (if text_eq.beq k j then some (now db + ms) else deadline db j)
  pub now-pexpire : (k : Text) (ms : ℕ) (db : Db) → now (pexpire k ms db) ≡ now db
  pub get-elapse :
      (n : ℕ) (k : Text) (db : Db)
      → get (elapse n db) k ≡ (if is_past (deadline db k) (now db + n) then none else get db k)
  pub deadline-elapse :
      (n : ℕ) (k : Text) (db : Db)
      → deadline (elapse n db) k
        ≡ (if is_past (deadline db k) (now db + n) then none else deadline db k)
  pub now-elapse : (n : ℕ) (db : Db) → now (elapse n db) ≡ now db + n

-- `redis.call('GET', KEYS[1]) == ARGV[1]`
abbrev pub holds : Option Text → Text → Bool
holds none owner = false
holds (some v) owner = text_eq.beq v owner

module _ (L : LeaseStore) (config : StreamsConfig) where
  open L use {Db, get, set_px, del, pexpire}

  -- SET key owner NX PX lease_duration: nothing is written over a value that is there.
  unfoldable pub acquire_command : Text → Text → Db → Option (Unit {0}) × Db
  acquire_command request_id owner db =
      if is_some (get db (lease_key request_id))
      then (none, db)
      else (some tt, set_px (lease_key request_id) owner config.lease_duration db)

  unfoldable pub release_script : Text → Text → Db → ℕ × Db
  release_script request_id owner db =
      if holds (get db (lease_key request_id)) owner
      then (1, del (lease_key request_id) db)
      else (0, db)

  unfoldable pub renew_script : Text → Text → Db → ℕ × Db
  renew_script request_id owner db =
      if holds (get db (lease_key request_id)) owner
      then (1, pexpire (lease_key request_id) config.lease_duration db)
      else (0, db)

unfoldable pub acquire_read : Result RedisError (Option (Unit {0})) → Result RedisError Bool
acquire_read (ok value) = ok (is_some value)
acquire_read (err e) = err e

unfoldable pub release_read : Result RedisError ℕ → Result RedisError (Unit {0})
release_read (ok n) = ok tt
release_read (err e) = err e

unfoldable pub renew_read : Result RedisError ℕ → Result RedisError Bool
renew_read (ok n) = ok (eqb n 1)
renew_read (err e) = err e

module _ (L : LeaseStore) (config : StreamsConfig) (T : Transport L.Db) where
  open T use {World, send}

  unfoldable pub acquire_lease : Text → Text → World → Result RedisError Bool × World
  unfolding acquire_read
  acquire_lease request_id owner w =
      let (reply, w') = send (acquire_command L config request_id owner) w in
      (acquire_read reply, w')

  unfoldable pub release_lease : Text → Text → World → Result RedisError (Unit {0}) × World
  unfolding release_read
  release_lease request_id owner w =
      let (reply, w') = send (release_script L config request_id owner) w in
      (release_read reply, w')

  unfoldable pub renew_lease : Text → Text → World → Result RedisError Bool × World
  unfolding renew_read
  renew_lease request_id owner w =
      let (reply, w') = send (renew_script L config request_id owner) w in (renew_read reply, w')
