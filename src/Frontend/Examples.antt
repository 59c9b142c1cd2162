-- ===== src/Frontend/Examples.antt =====
-- Runs of crates/inference-frontend/src/main.rs and of the reader of its streams, with a codec that puts
-- each text after its length.
pub mod Results
pub mod Admission
pub mod Serving
use inference_data_plane.Prelude.{
  ℕ, ◌≡◌, ◌↔◌, refl, sym, ap, ok-injective, ok-ne-err, Bool, true, false, some, List, [], ◌∷◌, ◌++◌,
  map, arith, All, lookup, get_elem?, unwrap_or, take, drop, take-append, drop-append, append-nil,
  eqb, String, length, Result, ok, err, if◌then◌else◌,
}
use inference_data_plane.Text.{Text, codes, text_eq, text_beq, text_beq_iff}
use inference_data_plane.Text.Decimal.{show}
use inference_data_plane.Text.Split.{strip_prefix}
use inference_data_plane.Budget.{
  ChatMessage, chat, BudgetDecision, strict_decision, approx_token_counter, count_text,
}
use inference_data_plane.Streams.Wire.{
  GenerateRequest, GenerationEvent, GenerationJob, attempt_started, token, completed, TokenChunk,
  GenerationCompleted, ResultEntry,
}
use inference_data_plane.Frontend.{
  AppState, ModelConfig, HeaderMap, authenticate, header_text, contains, bearer_token,
  valid_stream_id,
}
use inference_data_plane.Frontend.Envelope.{Codec, put_u32, connect_envelope, read_stream}
use inference_data_plane.Frontend.Envelope.Framing.{Fits, written}
use inference_data_plane.Frontend.Envelope.Reading.{concat, read_stream-connect_envelope}
use inference_data_plane.Frontend.Requests.{valid_stream_id-show, authenticate-ok_iff}
use inference_data_plane.Frontend.Admit.{
  Services, Checked, budget_request, check, admit_and_dispatch,
}
use inference_data_plane.Frontend.Admit.Dispatch.{
  Reliable, Outcome, IsChecked, check-IsChecked, admit_and_dispatch-Outcome,
}
use inference_data_plane.Frontend.Generate.{collect_loop, stream_loop, event_of}
use inference_data_plane.Frontend.Generate.Collect.{
  reply, last_started, entry_of, token_entries, texts, collect_loop-retry,
}
use inference_data_plane.Frontend.Generate.Stream.{
  sent, deltas, read_stream-stream_loop, collect_loop-eq-stream_loop,
}

-- A codec: the numbers first, then each text after its length.
abbrev put_text : Text → List ℕ → List ℕ
put_text t rest = length t ∷ (t ++ rest)

abbrev take_text : List ℕ → Text × List ℕ
take_text [] = ([], [])
take_text (n ∷ s) = (take n s, drop n s)

take_text-put_text : (t : Text) (rest : List ℕ) → take_text (put_text t rest) ≡ (t, rest)
take_text-put_text t rest = rw (take-append t rest, drop-append t rest) refl

encode_event : GenerationEvent → List ℕ
encode_event e =
    e.generated_tokens
    ∷ e.prompt_tokens
    ∷ (if e.terminal then 1 else 0)
    ∷ put_text e.request_id (
        put_text e.model (
          put_text e.delta
            (put_text e.finish_reason (put_text e.event_id (put_text e.attempt_id [])))))

decode_event : List ℕ → Result Text GenerationEvent
decode_event (g ∷ p ∷ b ∷ s) =
    let (request_id, s1) = take_text s in
    let (model, s2) = take_text s1 in
    let (delta, s3) = take_text s2 in
    let (finish_reason, s4) = take_text s3 in
    let (event_id, s5) = take_text s4 in
    let (attempt_id, s6) = take_text s5 in
    ok (record {
      request_id = request_id;
      model = model;
      delta = delta;
      generated_tokens = g;
      finish_reason = finish_reason;
      event_id = event_id;
      attempt_id = attempt_id;
      prompt_tokens = p;
      terminal = eqb b 1;
    })
decode_event _ = err []

flag_read : (b : Bool) → eqb (if b then 1 else 0) 1 ≡ b
flag_read true = refl
flag_read false = refl

decode-encode_event : (e : GenerationEvent) → decode_event (encode_event e) ≡ ok e
unfolding decode_event encode_event
decode-encode_event e = simp (take-append, drop-append, flag_read)

abbrev plain_codec : Codec GenerationEvent
plain_codec = record {
  encode = encode_event;
  decode = decode_event;
  decode-encode = decode-encode_event;
}

abbrev hi : GenerationEvent
hi = record {
  request_id = codes "r";
  model = codes "m";
  delta = codes "hi";
  generated_tokens = 1;
  finish_reason = [];
  event_id = codes "1-0";
  attempt_id = codes "w1";
  prompt_tokens = 0;
  terminal = false;
}

hi-Fits : Fits plain_codec hi
unfolding Fits encode_event codes
hi-Fits = omega arith

-- The envelope arrives in two pieces.
read_stream-connect_envelope_example :
    read_stream plain_codec (
      map ok (take 3 (written plain_codec (hi ∷ [])) ∷ drop 3 (written plain_codec (hi ∷ [])) ∷ []))
    ≡ ok (record { buffered = []; events = hi ∷ [] })
unfolding concat written connect_envelope put_u32 take drop encode_event codes
read_stream-connect_envelope_example =
    read_stream-connect_envelope plain_codec (hi ∷ [])
      (take 3 (written plain_codec (hi ∷ [])) ∷ drop 3 (written plain_codec (hi ∷ [])) ∷ [])
      (hi-Fits, tt) refl

valid_stream_id-show_example : valid_stream_id (show 123 ++ b'-' ∷ show 0) ≡ true
valid_stream_id-show_example = valid_stream_id-show 123 0 (omega arith) (omega arith)

abbrev served : AppState
served = record {
  model = record {
    id = codes "m";
    revision = codes "main";
    endpoint = codes "http://localhost";
    tokenizer_id = codes "t";
    tokenizer_revision = codes "main";
    context_limit = 4096;
    default_max_tokens = 256;
    max_output_tokens = 1024;
  };
  api_keys = codes "key" ∷ [];
  quota = record {
    requests_per_minute = 60;
    prompt_tokens_per_minute = 1000;
    generated_tokens_per_minute = 1000;
  };
  generation_timeout = 300_000;
}

abbrev bearer : HeaderMap
bearer = (codes "authorization", codes "Bearer key") ∷ []

authenticate-ok_iff_example : (authenticate some served bearer ≡ ok (codes "key")) ↔ (
    (header_text some (lookup (codes "authorization") bearer)
      ≡ some (codes "Bearer " ++ codes "key"))
    × (contains served.api_keys (codes "key") ≡ true))
authenticate-ok_iff_example = authenticate-ok_iff some served bearer (codes "key")
