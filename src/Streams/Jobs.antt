-- ===== src/Streams/Jobs.antt =====
-- The jobs and results of crates/inference-streams/src/lib.rs: `publish_generation`,
-- `publish_result`, `status`, and their commands on the streams and on the status hashes of the
-- broker, which are an interface as in Keyspace.
pub mod Subscription
pub mod Consumer
pub mod Effects
pub mod Board
pub mod Outcomes
use inference_data_plane.Prelude.{
  ℕ, ◌+◌, ◌*◌, ◌/◌, ◌<◌, ◌≡◌, ◌≢◌, Bool, true, false, ◌&&◌, ◌||◌, not, Option, none, some, List, [],
  ◌∷◌, ◌++◌, get_elem?, head?, is_empty, and_then, unwrap_or, filter_option, lookup, Result, ok,
  err, map_err, if◌then◌else◌,
}
use inference_data_plane.Prelude.Action.{Action, pure, lift, ◌>>=◌, ◌>>◌, continue}
use inference_data_plane.Text.{Text, codes, text_eq}
use inference_data_plane.Streams.{StreamsConfig}
use inference_data_plane.Streams.Keys.{
  hash, stream, key_kind, request_stream, result_stream, status_key,
}
use inference_data_plane.Streams.Keyspace.{is_past, or_old}
use inference_data_plane.Streams.Reply.{validate_schema}
use inference_data_plane.Streams.Transport.{Transport, RedisError}
use inference_data_plane.Streams.Wire.{
  GenerationJob, GenerationResult, GenerationStatus, ResultEvent, completed, failed,
}

-- An entry of a stream: its identifier and its payload.
abbrev pub Entry : Type 0
Entry = Text × List ℕ

pub record JobStore : Type 1 where
  pub Db : Type 0
  -- XRANGE, HGET, EXISTS, PEXPIRETIME, TIME in milliseconds
  pub entries : Db → Text → List Entry
  pub hget : Db → Text → Text → Option Text
  pub exists : Db → Text → Bool
  pub deadline : Db → Text → Option ℕ
  pub now : Db → ℕ
  -- XADD key * payload ..; HSET; EXPIRE in seconds; the passage of milliseconds
  pub xadd : Text → List ℕ → Db → Text × Db
  pub hset : Text → List (Text × Text) → Db → Db
  pub expire : Text → ℕ → Db → Db
  pub elapse : ℕ → Db → Db
  pub entries-xadd :
      (k j : Text) (payload : List ℕ) (db : Db)
      → key_kind k ≡ stream
      → let (id, after) = xadd k payload db in
        entries after j
        ≡ (if text_eq.beq k j then entries db j ++ (id, payload) ∷ [] else entries db j)
  pub xadd-ne-nil :
      (k : Text) (payload : List ℕ) (db : Db) → key_kind k ≡ stream → (xadd k payload db).0 ≢ []
  pub hget-xadd :
      (k j f : Text) (payload : List ℕ) (db : Db)
      → key_kind k ≡ stream
      → hget (xadd k payload db).1 j f ≡ hget db j f
  pub deadline-xadd :
      (k j : Text) (payload : List ℕ) (db : Db)
      → key_kind k ≡ stream
      → deadline (xadd k payload db).1 j ≡ deadline db j
  pub exists-xadd :
      (k j : Text) (payload : List ℕ) (db : Db)
      → key_kind k ≡ stream
      → exists (xadd k payload db).1 j ≡ (text_eq.beq k j || exists db j)
  pub now-xadd :
      (k : Text) (payload : List ℕ) (db : Db)
      → key_kind k ≡ stream
      → now (xadd k payload db).1 ≡ now db
  pub entries-hset :
      (k j : Text) (fs : List (Text × Text)) (db : Db)
      → key_kind k ≡ hash
      → entries (hset k fs db) j ≡ entries db j
  pub hget-hset :
      (k j f : Text) (fs : List (Text × Text)) (db : Db)
      → key_kind k ≡ hash
      → hget (hset k fs db) j f
        ≡ (if text_eq.beq k j then or_old (lookup f fs) (hget db j f) else hget db j f)
  pub deadline-hset :
      (k j : Text) (fs : List (Text × Text)) (db : Db)
      → key_kind k ≡ hash
      → deadline (hset k fs db) j ≡ deadline db j
  pub exists-hset :
      (k j : Text) (fs : List (Text × Text)) (db : Db)
      → key_kind k ≡ hash
      → fs ≢ []
      → exists (hset k fs db) j ≡ (text_eq.beq k j || exists db j)
  pub now-hset :
      (k : Text) (fs : List (Text × Text)) (db : Db)
      → key_kind k ≡ hash
      → now (hset k fs db) ≡ now db
  pub entries-expire :
      (k j : Text) (s : ℕ) (db : Db) → 0 < s → entries (expire k s db) j ≡ entries db j
  pub hget-expire :
      (k j f : Text) (s : ℕ) (db : Db) → 0 < s → hget (expire k s db) j f ≡ hget db j f
  pub deadline-expire :
      (k j : Text) (s : ℕ) (db : Db)
      → 0 < s
      → deadline (expire k s db) j
        ≡ (if text_eq.beq k j && exists db k then some (now db + s * 1000) else deadline db j)
  pub exists-expire :
      (k j : Text) (s : ℕ) (db : Db) → 0 < s → exists (expire k s db) j ≡ exists db j
  pub now-expire : (k : Text) (s : ℕ) (db : Db) → 0 < s → now (expire k s db) ≡ now db
  pub entries-elapse :
      (n : ℕ) (k : Text) (db : Db)
      → entries (elapse n db) k
        ≡ (if is_past (deadline db k) (now db + n) then [] else entries db k)
  pub hget-elapse :
      (n : ℕ) (k f : Text) (db : Db)
      → hget (elapse n db) k f
        ≡ (if is_past (deadline db k) (now db + n) then none else hget db k f)
  pub deadline-elapse :
      (n : ℕ) (k : Text) (db : Db)
      → deadline (elapse n db) k
        ≡ (if is_past (deadline db k) (now db + n) then none else deadline db k)
  pub exists-elapse :
      (n : ℕ) (k : Text) (db : Db)
      → exists (elapse n db) k
        ≡ (if is_past (deadline db k) (now db + n) then false else exists db k)
  pub now-elapse : (n : ℕ) (db : Db) → now (elapse n db) ≡ now db + n

unfoldable pub is_terminal : Option ResultEvent → Bool
is_terminal (some (completed done)) = true
is_terminal (some (failed failure)) = true
is_terminal event = false

-- `values.get(i).cloned().flatten()`
unfoldable pub cell : List (Option Text) → ℕ → Option Text
cell values i = and_then (get_elem? values i) λ value. value

unfoldable pub status_of : List (Option Text) → Option GenerationStatus
unfolding cell
status_of values =
    if is_empty (unwrap_or (cell values 0) [])
    then none
    else some (record {
      state = unwrap_or (cell values 0) [];
      model_id = unwrap_or (cell values 1) [];
      active_attempt_id = filter_option (λ value. not (is_empty value)) (cell values 2);
      terminal_event_id = filter_option (λ value. not (is_empty value)) (cell values 3);
    })

module _ (S : JobStore) (config : StreamsConfig) where
  open S use {Db, hget, xadd, hset, expire}

  -- The transaction of `publish_generation`; `as_secs` drops the rest of a second.
  unfoldable pub queued_writes : GenerationJob → Text → Db → Db
  unfolding codes status_key
  queued_writes job entry_id db = expire (status_key job.request_id) (config.active_ttl / 1000) (
      hset (status_key job.request_id)
        ((codes "state", codes "queued")
          ∷ ((codes "model_id", job.model_id) ∷ ((codes "request_entry_id", entry_id) ∷ [])))
        db)

  unfoldable pub result_ttl : GenerationResult → ℕ
  unfolding is_terminal
  result_ttl result =
      (if is_terminal result.event then config.result_retention else config.active_ttl) / 1000

  -- The fields that the transaction of `publish_result` sets; those of a last event stand in a
  -- second HSET.
  unfoldable pub set_state : GenerationResult → Db → Db
  unfolding codes status_key is_terminal
  set_state result db =
      hset (status_key result.request_id)
        ((codes "state", if is_terminal result.event then codes "completed" else codes "running")
          ∷ ((codes "active_attempt_id", result.attempt_id) ∷ []))
        db

  unfoldable pub set_terminal : GenerationResult → Text → Db → Db
  unfolding codes status_key is_terminal
  set_terminal result event_id db =
      if is_terminal result.event
      then hset (status_key result.request_id) ((codes "terminal_event_id", event_id) ∷ []) db
      else db

  unfoldable pub result_writes : GenerationResult → Text → Db → Db
  unfolding set_state set_terminal result_ttl status_key result_stream
  result_writes result event_id db = expire (status_key result.request_id) (result_ttl result) (
      expire (result_stream result.request_id) (result_ttl result)
        (set_terminal result event_id (set_state result db)))

  -- HMGET
  unfoldable pub status_values : Text → Db → List (Option Text)
  unfolding codes status_key
  status_values request_id db =
      hget db (status_key request_id) (codes "state")
      ∷ (hget db (status_key request_id) (codes "model_id")
          ∷ (hget db (status_key request_id) (codes "active_attempt_id")
              ∷ (hget db (status_key request_id) (codes "terminal_event_id") ∷ [])))

  module _ (T : Transport Db) (redis_text : RedisError → Text) where
    open T use {World, send}

    -- A command, with the text of its error: `?` into `anyhow::Result`.
    unfoldable pub call : {A : Type 0} → (Db → A × Db) → Action World Text A
    call run w = let (reply, after) = send run w in (map_err redis_text reply, after)

    unfoldable pub publish_generation :
        (GenerationJob → List ℕ) → GenerationJob → Action World Text Text
    unfolding call queued_writes validate_schema request_stream
    publish_generation encode job = do
      lift (validate_schema job.schema_version)
      entry_id ← call (xadd request_stream (encode job))
      call λ db. (tt, queued_writes job entry_id db)
      pure entry_id

    unfoldable pub publish_result :
        (GenerationResult → List ℕ) → GenerationResult → Action World Text Text
    unfolding call result_writes validate_schema result_stream
    publish_result encode result = do
      lift (validate_schema result.schema_version)
      event_id ← call (xadd (result_stream result.request_id) (encode result))
      call λ db. (tt, result_writes result event_id db)
      pure event_id

    unfoldable pub status : Text → Action World Text (Option GenerationStatus)
    unfolding call status_values status_of
    status request_id = do
      values ← call λ db. (status_values request_id db, db)
      pure (status_of values)
