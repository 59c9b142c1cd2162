-- ===== src/Streams/Jobs/Subscription/Retries.antt =====
-- The retries of `ResultSubscription::next` in crates/inference-streams/src/lib.rs.
use inference_data_plane.Prelude.{
  ℕ, zero, suc, ◌+◌, ◌*◌, ◌≤◌, ◌≡◌, refl, ◌∙◌, arith, Option, some, Result, err, Result-cases, inl,
  inr,
}
use inference_data_plane.Text.{Text}
use inference_data_plane.Streams.Reply.{Value}
use inference_data_plane.Streams.Transport.{RedisError}
use inference_data_plane.Streams.Wire.{ResultEntry}
use inference_data_plane.Streams.Jobs.Subscription.{
  ResultSubscription, Connection, Next, advance, read_attempts, next,
}

-- What a world tells of its connection: the XREAD commands that were sent, and the time slept.
pub record Meter {World : Type 0} (N : Connection World) : Type 0 where
  pub reads : World → ℕ
  pub slept : World → ℕ
  pub reads-xread :
      (stream last : Text) (block : ℕ) (w : World)
      → reads (N.xread stream last block w).1 ≡ reads w + 1
  pub slept-xread :
      (stream last : Text) (block : ℕ) (w : World) → slept (N.xread stream last block w).1 ≡ slept w
  pub reads-reconnect : (w : World) → reads (N.reconnect w).1 ≡ reads w
  pub slept-reconnect : (w : World) → slept (N.reconnect w).1 ≡ slept w
  pub reads-sleep : (ms : ℕ) (w : World) → reads (N.sleep ms w) ≡ reads w
  pub slept-sleep : (ms : ℕ) (w : World) → slept (N.sleep ms w) ≡ slept w + ms

module _ {World : Type 0} (N : Connection World) (Q : Meter N) (redis_text : RedisError → Text)
    (parse : Value → Result Text (Option ResultEntry)) (block : ℕ) where
  open Q use {reads, slept}

  -- The time slept over the rounds that are left, doubling from one to the next.
  unfoldable pub naps : ℕ → ℕ → ℕ
  naps zero backoff = 0
  naps (suc zero) backoff = 0
  naps (suc (suc left)) backoff = backoff + naps (suc left) (backoff * 2)

  -- The loop has returned, moved the cursor to the entry that it returns and nowhere else, and
  -- stayed within its rounds and its naps.
  pub record Returned (left backoff : ℕ) (sub : ResultSubscription) (w : World)
      (s : Option (Next N redis_text parse block) × World) : Type 0 where
    pub result : Result Text (Option ResultEntry)
    pub returns : s.0 ≡ some (result, advance N redis_text parse block sub result)
    pub reads_some : reads w + 1 ≤ reads s.1
    pub reads_few : reads s.1 ≤ reads w + left
    pub slept_little : slept s.1 ≤ slept w + naps left backoff

  read_attempts-Returned :
      (left backoff : ℕ) (sub : ResultSubscription) (w : World)
      → Returned
          (suc left)
          backoff
          sub
          w
          (read_attempts N redis_text parse block (suc left) backoff sub w)
  unfolding read_attempts advance naps
  read_attempts-Returned zero backoff sub w =
      let reading = Q.reads-xread sub.stream sub.last_event_id block w in
      let sleeping = Q.slept-xread sub.stream sub.last_event_id block w in
      elim (Result-cases (N.xread sub.stream sub.last_event_id block w).0) [
        | inl (value, h) ↦
            rw (read_attempts, h)
              (record {
                result = parse value;
                returns = refl;
                reads_some = omega (arith, reading);
                reads_few = omega (arith, reading);
                slept_little = omega (arith, sleeping);
              })
        | inr (e, h) ↦
            rw (read_attempts, h)
              (record {
                result = err (redis_text e);
                returns = refl;
                reads_some = omega (arith, reading);
                reads_few = omega (arith, reading);
                slept_little = omega (arith, sleeping);
              })
      ]
  read_attempts-Returned (suc left) backoff sub w =
      let v = (N.xread sub.stream sub.last_event_id block w).1 in
      let u = (N.reconnect (N.sleep backoff v)).1 in
      let reading = Q.reads-xread sub.stream sub.last_event_id block w in
      let sleeping = Q.slept-xread sub.stream sub.last_event_id block w in
      let reads_u : reads u ≡ reads w + 1 =
        Q.reads-reconnect (N.sleep backoff v) ∙ Q.reads-sleep backoff v ∙ reading in
      let slept_u : slept u ≡ slept w + backoff =
        omega (arith, Q.slept-reconnect (N.sleep backoff v), Q.slept-sleep backoff v, sleeping) in
      elim (Result-cases (N.xread sub.stream sub.last_event_id block w).0) [
        | inl (value, h) ↦
            rw (read_attempts, h)
              (record {
                result = parse value;
                returns = refl;
                reads_some = omega (arith, reading);
                reads_few = omega (arith, reading);
                slept_little = omega (arith, sleeping);
              })
        | inr (e, h) ↦ elim (Result-cases (N.reconnect (N.sleep backoff v)).0) [
          | inl (done, k) ↦
              let later = read_attempts-Returned left (backoff * 2) sub u in
              rw (read_attempts, h, k)
                (record {
                  result = later.result;
                  returns = later.returns;
                  reads_some = omega (arith, later.reads_some, reads_u);
                  reads_few = omega (arith, later.reads_few, reads_u);
                  slept_little = omega (arith, later.slept_little, slept_u);
                })
          | inr (x, k) ↦
              rw (read_attempts, h, k)
                (record {
                  result = err x;
                  returns = refl;
                  reads_some = omega (arith, reads_u);
                  reads_few = omega (arith, reads_u);
                  slept_little = omega (arith, slept_u);
                })
        ]
      ]

  -- Waiting for the next result always returns, whatever the connection does: the place behind the
  -- loop is never reached. It has sent one to four reads and slept for at most 350 milliseconds,
  -- and the cursor is at the entry that it returns, or where it was when it returns none.
  pub next-terminates :
      (sub : ResultSubscription) (w : World)
      → let (answer, v) = next N redis_text parse block sub w in
        ((result : Result Text (Option ResultEntry)) × (answer
            ≡ some (result, advance N redis_text parse block sub result)))
        × (reads w + 1 ≤ reads v)
        × (reads v ≤ reads w + 4)
        × (slept v ≤ slept w + 350)
  unfolding next naps
  next-terminates sub w =
      let r = read_attempts-Returned 3 50 sub w in
      ((r.result, r.returns), r.reads_some, r.reads_few, r.slept_little)
