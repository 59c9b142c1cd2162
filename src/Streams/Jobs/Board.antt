-- ===== src/Streams/Jobs/Board.antt =====
-- The status hashes and the result streams of crates/inference-streams/src/lib.rs while any number of
-- clients run `publish_generation` and `publish_result`. Each of the two is an XADD and, later and on
-- another connection, a transaction: other commands and the passage of time may come between them,
-- and the transaction may never run, as when its client dies or its connection fails.
pub mod Steps
pub mod Waiting
pub mod Results
pub mod Safety
pub mod Runs
use inference_data_plane.Prelude.{
  ℕ, ◌+◌, ◌/◌, ◌<◌, ◌≡◌, ◌≢◌, refl, sym, ap, subst, ◌∙◌, true, false, not, is_empty, filter_option,
  Option, none, some, List, [], ◌∷◌, ◌++◌, map, ◌⊎◌, Bool, ◌||◌, Bool-cases, inl, inr, unwrap_or,
  lookup, ==_ne, Has, Has-last, if◌then◌else◌,
}
use inference_data_plane.Text.{Text, codes, text_eq, text_beq, text_beq_iff}
use inference_data_plane.Streams.{StreamsConfig}
use inference_data_plane.Streams.Keys.{
  request_stream, result_stream, status_key, kind-status, kind-result, kind_request_stream,
  status_key-injective, result_stream-injective, request_stream-beq-result_stream,
}
use inference_data_plane.Streams.Keyspace.{is_past, or_old}
use inference_data_plane.Streams.Wire.{GenerationJob, GenerationResult, GenerationStatus}
use inference_data_plane.Streams.Jobs.{
  JobStore, Entry, is_terminal, result_ttl, queued_writes, result_writes, status_of, status_values,
}
use inference_data_plane.Streams.Jobs.Effects.{
  kinds_apart, kinds_apart_back, hget-other, deadline-other, entries-result_writes,
}

-- The states that are not the last one.
running-ne-completed : some (codes "running") ≢ some (codes "completed")
unfolding codes text_beq
running-ne-completed h =
    let e : false ≡ true =
      (text_beq_iff (codes "running") (codes "completed")).1 (ap (λ o. unwrap_or o []) h) in
    cc e

queued-ne-completed : some (codes "queued") ≢ some (codes "completed")
unfolding codes text_beq
queued-ne-completed h =
    let e : false ≡ true =
      (text_beq_iff (codes "queued") (codes "completed")).1 (ap (λ o. unwrap_or o []) h) in
    cc e

not_empty : (t : Text) → t ≢ [] → is_empty t ≡ false
not_empty [] h = absurd (h refl)
not_empty (c ∷ t) h = refl

-- What the four values of HMGET make of the status.
pub status_of-known :
    (s m a t : Option Text) (known : GenerationStatus)
    → status_of (s ∷ (m ∷ (a ∷ (t ∷ [])))) ≡ some known
    → (s ≡ some known.state)
      × (known.terminal_event_id ≡ filter_option (λ value. not (is_empty value)) t)
unfolding status_of
status_of-known none m a t known h = cc
status_of-known (some []) m a t known h = cc
status_of-known (some (c ∷ s)) m a t known h =
    let same = ap (λ o. unwrap_or o known) (sym h) in
    (ap (λ k. some k.state) (sym same), ap (λ k. k.terminal_event_id) same)

module _ (S : JobStore) (config : StreamsConfig) (encode_job : GenerationJob → List ℕ)
    (encode_result : GenerationResult → List ℕ) where
  open S use {Db, entries, hget, exists, deadline, now, xadd, elapse}

  -- A result whose XADD has run and whose transaction has not; and whether its stream has expired
  -- since then, which no client knows.
  pub record PendingResult : Type 0 where
    pub result : GenerationResult
    pub id : Text
    pub expired : Bool

  -- The broker, the calls that are between their two commands, and the requests whose transactions
  -- found their stream expired, each with the identifier of the event.
  pub record BoardState : Type 0 where
    pub db : Db
    pub jobs : List (GenerationJob × Text)
    pub results : List PendingResult
    pub late : List (Text × Text)

  unfoldable pub add_job : GenerationJob → BoardState → BoardState
  add_job job b =
      let (id, added) = xadd request_stream (encode_job job) b.db in
      record b { db = added; jobs = (job, id) ∷ b.jobs }

  unfoldable pub write_job :
      List (GenerationJob × Text) → GenerationJob × Text → BoardState → BoardState
  unfolding queued_writes
  write_job others (job, id) b = record b { db = queued_writes S config job id b.db; jobs = others }

  unfoldable pub add_result : GenerationResult → BoardState → BoardState
  add_result result b =
      let (id, added) = xadd (result_stream result.request_id) (encode_result result) b.db in
      record b {
        db = added;
        results = record { result = result; id = id; expired = false } ∷ b.results;
      }

  unfoldable pub write_result : List PendingResult → PendingResult → BoardState → BoardState
  unfolding result_writes
  write_result others p b = record b {
    db = result_writes S config p.result p.id b.db;
    results = others;
    late = if p.expired then (p.result.request_id, p.id) ∷ b.late else b.late;
  }

  -- A pending result after some milliseconds.
  unfoldable pub age : ℕ → Db → PendingResult → PendingResult
  age n db p = record p {
    expired = p.expired || is_past (deadline db (result_stream p.result.request_id)) (now db + n);
  }

  unfoldable pub wait : ℕ → BoardState → BoardState
  unfolding age
  wait n b = record b { db = elapse n b.db; results = map (age n b.db) b.results }

  -- One command or one transaction of any client, or the passage of milliseconds.
  pub data Change : BoardState → BoardState → Type 0 where
    adds_job : (job : GenerationJob) (b : BoardState) → Change b (add_job job b)
    writes_job :
        (before after : List (GenerationJob × Text)) (pending : GenerationJob × Text)
        (b : BoardState)
        → b.jobs ≡ before ++ pending ∷ after
        → Change b (write_job (before ++ after) pending b)
    adds_result : (result : GenerationResult) (b : BoardState) → Change b (add_result result b)
    writes_result :
        (before after : List PendingResult) (pending : PendingResult) (b : BoardState)
        → b.results ≡ before ++ pending ∷ after
        → Change b (write_result (before ++ after) pending b)
    passes : (n : ℕ) (b : BoardState) → Change b (wait n b)

  pub data History (first : BoardState) : BoardState → Type 0 where
    nothing : History first first
    then_change : {b after : BoardState} → History first b → Change b after → History first after

  -- The event with this identifier ends the generation, is in the stream, and the status and the
  -- stream go at the same time.
  pub record LastEvent (db : Db) (request_id id : Text) : Type 0 where
    pub result : GenerationResult
    pub is_last : is_terminal result.event ≡ true
    pub of_request : result.request_id ≡ request_id
    pub there : Has (id, encode_result result) (entries db (result_stream request_id))
    pub together : deadline db (status_key request_id) ≡ deadline db (result_stream request_id)

  -- The status of a completed generation names an event, which is there unless it was late.
  pub record Finished (b : BoardState) (request_id : Text) : Type 0 where
    pub id : Text
    pub is_named : is_empty id ≡ false
    pub named : hget b.db (status_key request_id) (codes "terminal_event_id") ≡ some id
    pub outcome : LastEvent b.db request_id id ⊎ Has (request_id, id) b.late

  abbrev pub Inv : BoardState → Text → Type 0
  Inv b request_id =
      hget b.db (status_key request_id) (codes "state") ≡ some (codes "completed")
      → Finished b request_id

  -- A pending result is in its stream unless that has expired.
  pub record Sound (db : Db) (p : PendingResult) : Type 0 where
    pub is_named : is_empty p.id ≡ false
    pub there :
        p.expired ≡ false
        → Has (p.id, encode_result p.result) (entries db (result_stream p.result.request_id))
    pub alive : p.expired ≡ false → exists db (result_stream p.result.request_id) ≡ true

  -- The status of a request is as it was, and its results are still there.
  pub record Same (db after : Db) (request_id : Text) : Type 0 where
    pub fields :
        (f : Text) → hget after (status_key request_id) f ≡ hget db (status_key request_id) f
    pub results :
        (e : Entry)
        → Has e (entries db (result_stream request_id))
        → Has e (entries after (result_stream request_id))
    pub status_ends : deadline after (status_key request_id) ≡ deadline db (status_key request_id)
    pub results_end :
        deadline after (result_stream request_id) ≡ deadline db (result_stream request_id)

  -- The results of all requests are still there.
  pub record Keeps (db after : Db) : Type 0 where
    pub results :
        (request_id : Text) (e : Entry)
        → Has e (entries db (result_stream request_id))
        → Has e (entries after (result_stream request_id))
    pub alive :
        (request_id : Text)
        → exists db (result_stream request_id) ≡ true
        → exists after (result_stream request_id) ≡ true

  -- No generation is completed yet, and no call is under way.
  pub record IsFirst (b : BoardState) : Type 0 where
    pub no_results : b.results ≡ []
    pub not_completed :
        (request_id : Text)
        → hget b.db (status_key request_id) (codes "state") ≢ some (codes "completed")
