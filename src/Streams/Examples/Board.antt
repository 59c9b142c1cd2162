-- ===== src/Streams/Examples/Board.antt =====
-- The jobs and results of crates/inference-streams/src/lib.rs on a broker kept in memory.
use inference_data_plane.Prelude.{
  ℕ, ◌+◌, ◌*◌, ◌<◌, ◌≡◌, ◌≢◌, refl, arith, Bool, false, ◌&&◌, ◌||◌, Option, none, some, List, [],
  ◌∷◌, ◌++◌, ◌⊎◌, Has, true, lookup, ok, if◌then◌else◌,
}
use inference_data_plane.Text.{Text, codes, text_eq, text_beq}
use inference_data_plane.Streams.{default_config}
use inference_data_plane.Streams.Keys.{status_key, request_stream, result_stream}
use inference_data_plane.Streams.Keyspace.{is_past, or_old}
use inference_data_plane.Streams.Reply.{validate_schema}
use inference_data_plane.Streams.Transport.{RedisError, response_error, failed}
use inference_data_plane.Streams.Wire.{GenerationJob, GenerationResult, GenerationStatus, completed}
use inference_data_plane.Streams.Examples.{direct}
use inference_data_plane.Streams.Jobs.{
  Entry, JobStore, result_ttl, is_terminal, queued_writes, result_writes, set_state, set_terminal,
  cell, status_of, status_values, call, publish_result, status,
}
use inference_data_plane.Streams.Jobs.Board.{
  BoardState, PendingResult, add_job, add_result, write_job, write_result, wait, History, nothing,
  then_change, adds_job, adds_result, writes_job, writes_result, passes, LastEvent, IsFirst,
}
use inference_data_plane.Streams.Jobs.Board.Safety.{History-LastEvent}
use inference_data_plane.Streams.Jobs.Outcomes.{status_after, publish_result-status}

pub record Shelf : Type 0 where
  streams : Text → List Entry
  fields : Text → Text → Option Text
  present : Text → Bool
  ends : Text → Option ℕ
  clock : ℕ

pub some_id : codes "1-0" ≢ []
unfolding codes
some_id h = cc

abbrev pub shelf : JobStore
shelf = record {
  Db = Shelf;
  entries = λ db k. db.streams k;
  hget = λ db k f. db.fields k f;
  exists = λ db k. db.present k;
  deadline = λ db k. db.ends k;
  now = λ db. db.clock;
  xadd = λ k payload db. (
    codes "1-0",
    record db {
      streams = λ j.
          if text_eq.beq k j then db.streams j ++ (codes "1-0", payload) ∷ [] else db.streams j;
      present = λ j. text_eq.beq k j || db.present j;
    },
  );
  hset = λ k fs db. record db {
    fields = λ j f. if text_eq.beq k j then or_old (lookup f fs) (db.fields j f) else db.fields j f;
    present = λ j. text_eq.beq k j || db.present j;
  };
  expire = λ k s db. record db {
    ends = λ j. if text_eq.beq k j && db.present k then some (db.clock + s * 1000) else db.ends j;
  };
  elapse = λ n db. record {
    streams = λ j. if is_past (db.ends j) (db.clock + n) then [] else db.streams j;
    fields = λ j f. if is_past (db.ends j) (db.clock + n) then none else db.fields j f;
    present = λ j. if is_past (db.ends j) (db.clock + n) then false else db.present j;
    ends = λ j. if is_past (db.ends j) (db.clock + n) then none else db.ends j;
    clock = db.clock + n;
  };
  entries-xadd = λ k j payload db h. refl;
  xadd-ne-nil = λ k payload db h e. some_id e;
  hget-xadd = λ k j f payload db h. refl;
  deadline-xadd = λ k j payload db h. refl;
  exists-xadd = λ k j payload db h. refl;
  now-xadd = λ k payload db h. refl;
  entries-hset = λ k j fs db h. refl;
  hget-hset = λ k j f fs db h. refl;
  deadline-hset = λ k j fs db h. refl;
  exists-hset = λ k j fs db h e. refl;
  now-hset = λ k fs db h. refl;
  entries-expire = λ k j s db h. refl;
  hget-expire = λ k j f s db h. refl;
  deadline-expire = λ k j s db h. refl;
  exists-expire = λ k j s db h. refl;
  now-expire = λ k s db h. refl;
  entries-elapse = λ n k db. refl;
  hget-elapse = λ n k f db. refl;
  deadline-elapse = λ n k db. refl;
  exists-elapse = λ n k db. refl;
  now-elapse = λ n db. refl;
}

abbrev pub empty_shelf : Shelf
empty_shelf = record {
  streams = λ k. [];
  fields = λ k f. none;
  present = λ k. false;
  ends = λ k. none;
  clock = 0;
}

abbrev job : GenerationJob
job = record {
  schema_version = 1;
  request_id = codes "r";
  model_id = codes "m";
  model_revision = codes "main";
  model_endpoint = [];
  request_json = [];
  deadline_unix_ms = 0;
  reservation_id = codes "res";
  cache = none;
}

abbrev pub last_result : GenerationResult
last_result = record {
  schema_version = 1;
  request_id = codes "r";
  attempt_id = codes "w1";
  event = some (
      completed (record { prompt_tokens = 1; generated_tokens = 2; finish_reason = codes "stop" }));
}

abbrev pub encode_result : GenerationResult → List ℕ
encode_result result = result.attempt_id

retained : 0 < result_ttl shelf default_config last_result
unfolding result_ttl is_terminal
retained = omega arith

abbrev encode_job : GenerationJob → List ℕ
encode_job j = j.model_id

abbrev State : Type 0
State = BoardState shelf default_config encode_job encode_result

abbrev start : State
start = record { db = empty_shelf; jobs = []; results = []; late = [] }

-- The transaction of the job comes after the append of the result.
abbrev job_added : State
job_added = add_job shelf default_config encode_job encode_result job start

abbrev result_added : State
result_added = add_result shelf default_config encode_job encode_result last_result job_added

abbrev job_written : State
job_written =
    write_job shelf default_config encode_job encode_result [] (job, codes "1-0") result_added

abbrev pending : PendingResult shelf default_config encode_job encode_result
pending = record { result = last_result; id = codes "1-0"; expired = false }

abbrev result_written : State
result_written = write_result shelf default_config encode_job encode_result [] pending job_written

abbrev later : State
later = wait shelf default_config encode_job encode_result 1000 result_written

one_job : result_added.jobs ≡ [] ++ (job, codes "1-0") ∷ []
unfolding add_result add_job
one_job = refl

one_result : job_written.results ≡ [] ++ pending ∷ []
unfolding write_job add_result add_job
one_result = refl

later-History : History shelf default_config encode_job encode_result start later
later-History =
    then_change
      (then_change
        (then_change
          (then_change (then_change nothing (adds_job job start))
            (adds_result last_result job_added))
          (writes_job [] [] (job, codes "1-0") result_added one_job))
        (writes_result [] [] pending job_written one_result))
      (passes 1000 result_written)

start-IsFirst : IsFirst shelf default_config encode_job encode_result start
start-IsFirst = record { no_results = refl; not_completed = λ request_id h. cc }

abbrev known : GenerationStatus
known = record {
  state = codes "completed";
  model_id = codes "m";
  active_attempt_id = some (codes "w1");
  terminal_event_id = some (codes "1-0");
}

later-known : status_of (status_values shelf default_config (codes "r") later.db) ≡ some known
unfolding status_of status_values cell add_job write_job add_result write_result wait queued_writes
    result_writes result_ttl set_state set_terminal is_terminal status_key request_stream
    result_stream text_beq codes lookup
later-known = refl

History-LastEvent_example :
    (id : Text) × (some (codes "1-0") ≡ some id)
    × (LastEvent shelf default_config encode_job encode_result later.db (codes "r") id
        ⊎ Has (codes "r", id) later.late)
History-LastEvent_example =
    History-LastEvent shelf default_config encode_job encode_result (omega arith) (omega arith)
      start later (codes "r") known start-IsFirst later-History later-known refl

-- When the stream expires between the append and the transaction of the last event, the generation
-- is completed and the event is gone.
abbrev waited : State
waited =
    wait shelf default_config encode_job encode_result 1000
      (record result_added { db = shelf.expire (result_stream (codes "r")) 1 result_added.db })

abbrev expired : State
expired =
    write_result shelf default_config encode_job encode_result []
      (record pending { expired = true }) waited

expired_late :
    (waited.results ≡ record pending { expired = true } ∷ [])
    × (expired.late ≡ (codes "r", codes "1-0") ∷ [])
    × (expired.db.streams (result_stream (codes "r")) ≡ [])
    × (expired.db.fields (status_key (codes "r")) (codes "state") ≡ some (codes "completed"))
unfolding add_job add_result write_result wait inference_data_plane.Streams.Jobs.Board.age
    result_writes result_ttl set_state set_terminal is_terminal status_key request_stream
    result_stream text_beq codes lookup
expired_late = (refl, refl, refl, refl)

abbrev after_job : Shelf
after_job =
    (write_job shelf default_config encode_job encode_result [] (job, codes "1-0") job_added).db

abbrev after_result : Shelf
after_result =
    result_writes shelf default_config last_result (codes "1-0")
      (shelf.xadd (result_stream (codes "r")) (encode_result last_result) after_job).1

abbrev on_shelf : inference_data_plane.Streams.Transport.Transport Shelf
on_shelf = direct Shelf

abbrev pub redis_text : RedisError → Text
redis_text (response_error e) = e
redis_text (failed e) = e

published :
    publish_result shelf default_config on_shelf redis_text encode_result last_result after_job
    ≡ (ok (codes "1-0"), after_result)
unfolding publish_result call validate_schema result_writes set_state set_terminal result_ttl
    is_terminal codes text_beq status_key result_stream add_job write_job queued_writes
    request_stream
published = refl

read_status :
    status shelf default_config on_shelf redis_text (codes "r") after_result
    ≡ (ok (some known), after_result)
unfolding status call status_of status_values cell queued_writes result_writes result_ttl set_state
    set_terminal is_terminal status_key request_stream result_stream text_beq codes lookup add_job
    write_job
read_status = refl

publish_result-status_example :
    some known
    ≡ some (
        status_after shelf default_config on_shelf redis_text encode_result last_result retained
          after_job
          (codes "1-0"))
publish_result-status_example =
    publish_result-status shelf default_config on_shelf redis_text encode_result last_result
      retained after_job after_result after_result (codes "1-0") (some known) published read_status
