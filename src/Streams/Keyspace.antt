-- ===== src/Streams/Keyspace.antt =====
-- What the quota scripts of crates/inference-streams/src/lib.rs use of the broker: integers under
-- string keys, hashes, deadlines and the clock. Valkey is not part of the repository, so this is
-- an interface: its commands, with what its documentation says of them. A law about a key asks
-- that the key holds the type of value that the clients keep there (`key_kind`), since Valkey
-- answers WRONGTYPE otherwise. Numbers are exact, as Lua's are below 2 ^ 53.
use inference_data_plane.Prelude.{
  ℕ, ◌+◌, ◌*◌, ◌<◌, ◌≡◌, ◌≢◌, Bool, false, ◌&&◌, ◌||◌, Option, none, some, List, [], leb, unwrap_or,
  lookup, if◌then◌else◌,
}
use inference_data_plane.Prelude.Int.{ℤ, pos, ◌+ℤ◌}
use inference_data_plane.Text.{Text, text_eq}
use inference_data_plane.Streams.Keys.{counter, hash, key_kind}

-- The value of a hash field: a number or a text. Both are strings to the broker.
pub data Datum : Type 0 where
  number : ℤ → Datum
  word : Text → Datum

-- A key with a deadline is gone once the clock has reached it.
abbrev pub is_past : Option ℕ → ℕ → Bool
is_past none now = false
is_past (some t) now = leb t now

-- The value that a hash field has after HSET.
abbrev pub or_old {ℓ} : {A : Type ℓ} → Option A → Option A → Option A
or_old (some a) old = some a
or_old none old = old

pub record Keyspace : Type 1 where
  pub Db : Type 0
  -- GET of a number, HGET, EXISTS, PEXPIRETIME, TIME in milliseconds
  pub get : Db → Text → Option ℤ
  pub hget : Db → Text → Text → Option Datum
  pub exists : Db → Text → Bool
  pub deadline : Db → Text → Option ℕ
  pub now : Db → ℕ
  -- INCR, INCRBY, DECR and DECRBY; HSET; EXPIRE in seconds
  pub incr_by : Text → ℤ → Db → Db
  pub hset : Text → List (Text × Datum) → Db → Db
  pub expire : Text → ℕ → Db → Db
  -- the passage of milliseconds
  pub elapse : ℕ → Db → Db
  pub get-incr_by :
      (k j : Text) (n : ℤ) (db : Db)
      → key_kind k ≡ counter
      → get (incr_by k n db) j
        ≡ (if text_eq.beq k j then some (unwrap_or (get db k) (pos 0) +ℤ n) else get db j)
  pub hget-incr_by :
      (k j f : Text) (n : ℤ) (db : Db)
      → key_kind k ≡ counter
      → hget (incr_by k n db) j f ≡ hget db j f
  pub deadline-incr_by :
      (k j : Text) (n : ℤ) (db : Db)
      → key_kind k ≡ counter
      → deadline (incr_by k n db) j ≡ deadline db j
  pub now-incr_by : (k : Text) (n : ℤ) (db : Db) → now (incr_by k n db) ≡ now db
  pub get-hset :
      (k j : Text) (fs : List (Text × Datum)) (db : Db)
      → key_kind k ≡ hash
      → get (hset k fs db) j ≡ get db j
  pub hget-hset :
      (k j f : Text) (fs : List (Text × Datum)) (db : Db)
      → key_kind k ≡ hash
      → hget (hset k fs db) j f
        ≡ (if text_eq.beq k j then or_old (lookup f fs) (hget db j f) else hget db j f)
  pub deadline-hset :
      (k j : Text) (fs : List (Text × Datum)) (db : Db)
      → key_kind k ≡ hash
      → deadline (hset k fs db) j ≡ deadline db j
  pub now-hset : (k : Text) (fs : List (Text × Datum)) (db : Db) → now (hset k fs db) ≡ now db
  pub get-expire : (k j : Text) (s : ℕ) (db : Db) → 0 < s → get (expire k s db) j ≡ get db j
  pub hget-expire :
      (k j f : Text) (s : ℕ) (db : Db) → 0 < s → hget (expire k s db) j f ≡ hget db j f
  pub deadline-expire :
      (k j : Text) (s : ℕ) (db : Db)
      → 0 < s
      → deadline (expire k s db) j
        ≡ (if text_eq.beq k j && exists db k then some (now db + s * 1000) else deadline db j)
  pub exists-incr_by :
      (k j : Text) (n : ℤ) (db : Db)
      → key_kind k ≡ counter
      → exists (incr_by k n db) j ≡ (text_eq.beq k j || exists db j)
  pub exists-hset :
      (k j : Text) (fs : List (Text × Datum)) (db : Db)
      → key_kind k ≡ hash
      → fs ≢ []
      → exists (hset k fs db) j ≡ (text_eq.beq k j || exists db j)
  pub exists-expire :
      (k j : Text) (s : ℕ) (db : Db) → 0 < s → exists (expire k s db) j ≡ exists db j
  pub now-expire : (k : Text) (s : ℕ) (db : Db) → now (expire k s db) ≡ now db
  pub get-elapse :
      (n : ℕ) (k : Text) (db : Db)
      → get (elapse n db) k ≡ (if is_past (deadline db k) (now db + n) then none else get db k)
  pub hget-elapse :
      (n : ℕ) (k f : Text) (db : Db)
      → hget (elapse n db) k f
        ≡ (if is_past (deadline db k) (now db + n) then none else hget db k f)
  pub deadline-elapse :
      (n : ℕ) (k : Text) (db : Db)
      → deadline (elapse n db) k
        ≡ (if is_past (deadline db k) (now db + n) then none else deadline db k)
  pub now-elapse : (n : ℕ) (db : Db) → now (elapse n db) ≡ now db + n
