-- ===== src/Streams/Transport.antt =====
-- How the calls of crates/inference-streams/src/lib.rs reach the broker: a command or a script runs
-- as one step on the database, and the client library returns its reply or an error. The library
-- and the network are parameters. What is relied on: a reply that arrives is that of one run.
use inference_data_plane.Prelude.{◌≡◌, Result, ok}
use inference_data_plane.Text.{Text}

-- `redis::RedisError`: the response error that the crate itself makes, and all others.
pub data RedisError : Type 0 where
  response_error : Text → RedisError
  failed : Text → RedisError

pub record Transport (Db : Type 0) : Type 1 where
  pub World : Type 0
  pub db : World → Db
  pub send : {A : Type 0} → (Db → A × Db) → World → Result RedisError A × World
  pub delivered :
      {A : Type 0} (run : Db → A × Db) (w w' : World) (a : A)
      → send run w ≡ (ok a, w')
      → run (db w) ≡ (a, db w')
