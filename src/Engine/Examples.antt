-- ===== src/Engine/Examples.antt =====
-- crates/inference-engine/src/main.rs at concrete runs: a small JSON, a client that logs its calls
-- and is always answered, a model server with fixed chunks, and the source's own test.
pub mod Runs
use inference_data_plane.Prelude.{
  ℕ, ◌+◌, ◌≡◌, refl, Bool, true, false, Option, none, some, List, [], ◌∷◌, ◌++◌, map, length,
  if◌then◌else◌, Result, ok, err,
}
use inference_data_plane.Text.{Text, codes, text_beq}
use inference_data_plane.Text.Space.{words_from, is_whitespace}
use inference_data_plane.Text.Split.{join}
use inference_data_plane.Streams.Wire.{GenerationJob}
use inference_data_plane.Engine.{
  synthetic, open_ai_compatible, EngineConfig, RuntimeRequest, Json, Client, ModelServer, Backend,
}
use inference_data_plane.Engine.Request.{extract_prompt, keep_some, contents}
use inference_data_plane.Engine.Calls.{
  published, asked, acquired, renewed, released, reconciled, cancelled, Call, CallLog, Apart,
}
use inference_data_plane.Engine.Reliable.{Answers}

-- The values that the examples need: a message, and an event with one choice.
pub data Toy : Type 0 where
  word : Text → Toy
  message event choices choice delta : Text → Toy
  other : Toy

abbrev toy_get : Text → Toy → Option Toy
toy_get key (message t) = some (word t)
toy_get key (event t) = if text_beq key (codes "choices") then some (choices t) else none
toy_get key (choice t) = if text_beq key (codes "delta") then some (delta t) else none
toy_get key (delta t) = some (word t)
toy_get key value = none

abbrev toy_str : Toy → Option Text
toy_str (word t) = some t
toy_str value = none

abbrev toy_array : Toy → Option (List Toy)
toy_array (choices t) = some (choice t ∷ [])
toy_array value = none

-- A body of a request is its prompt, and the data of an event is its text.
abbrev pub toy_json : Json
toy_json = record {
  Value = Toy;
  get = toy_get;
  as_u64 = λ value. none;
  as_str = toy_str;
  as_array = toy_array;
  object = λ fields. other;
  string = word;
  from_str = λ body. ok (event body);
  from_slice = λ bytes. ok (record {
    model = codes "m";
    messages = none;
    prompt = some bytes;
    max_tokens = 2;
    temperature = 0;
  });
}

-- A log in memory; identifiers are the length of the log.
abbrev pub logging : Client
logging = record {
  World = List Call;
  publish_result =
      λ result w. (ok (length w ∷ []), w ++ published result (ok (length w ∷ [])) ∷ []);
  status = λ id w. (ok none, w ++ asked id (ok none) ∷ []);
  acquire_lease = λ id owner w. (ok true, w ++ acquired id owner (ok true) ∷ []);
  renew_lease = λ id owner w. (ok false, w ++ renewed id owner (ok false) ∷ []);
  release_lease = λ id owner w. (ok tt, w ++ released id owner (ok tt) ∷ []);
  reconcile_quota = λ id n w. (ok 0, w ++ reconciled id n (ok 0) ∷ []);
  cancel_quota = λ id w. (ok tt, w ++ cancelled id (ok tt) ∷ []);
  sleep = λ ms w. w;
}

abbrev pub log : CallLog logging
log = record {
  calls = λ w. w;
  calls-publish_result = λ result w. refl;
  calls-status = λ id w. refl;
  calls-acquire_lease = λ id owner w. refl;
  calls-renew_lease = λ id owner w. refl;
  calls-release_lease = λ id owner w. refl;
  calls-reconcile_quota = λ id n w. refl;
  calls-cancel_quota = λ id w. refl;
  calls-sleep = λ ms w. refl;
}

abbrev pub answering : Answers logging
answering = record {
  publishes = λ result h w. (_, refl);
  tells_status = λ id w. (none, refl);
  releases = λ id owner w. (tt, refl);
  reconciles = λ id n w. (0, refl);
  cancels = λ id w. (tt, refl);
}

-- Two chunks that cut a line; the last line has no end.
abbrev pub chunks : List (List ℕ)
chunks = codes "data: hel" ∷ codes "lo there\ndata: [DONE]\ndata: lost" ∷ []

abbrev pub server : ModelServer Toy (List Call)
server = record { post = λ url body w. (ok (map ok chunks), w); from_utf8_lossy = λ bytes. bytes }

abbrev pub apart : Apart logging log server
apart = record { calls-post = λ url body w. refl }

abbrev pub config : Backend → EngineConfig
config backend = record {
  backend = backend;
  model = codes "m";
  endpoint = codes "http://h/";
  synthetic_token_delay = 0;
}

abbrev pub some_job : GenerationJob
some_job = record {
  schema_version = 1;
  request_id = codes "r";
  model_id = codes "m";
  model_revision = [];
  model_endpoint = [];
  request_json = codes "hi";
  deadline_unix_ms = 100;
  reservation_id = codes "q";
  cache = none;
}

prompt_is_assembled_from_messages :
    extract_prompt toy_json (record {
      model = codes "model";
      messages = some (message (codes "hello") ∷ (message (codes "world") ∷ []));
      prompt = none;
      max_tokens = 10;
      temperature = 0;
    })
    ≡ codes "hello\nworld"
unfolding extract_prompt codes join keep_some contents
prompt_is_assembled_from_messages = refl
