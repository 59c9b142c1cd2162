-- ===== src/Frontend/Examples/Results.antt =====
-- The answers and the streams of crates/inference-frontend/src/main.rs at concrete results.
use inference_data_plane.Prelude.{
  ℕ, ◌≡◌, refl, ap, true, some, List, [], ◌∷◌, ◌++◌, map, arith, All, get_elem?, unwrap_or,
  append-nil, String, ok,
}
use inference_data_plane.Text.{Text, codes, text_eq}
use inference_data_plane.Streams.Wire.{
  GenerationEvent, attempt_started, token, completed, TokenChunk, GenerationCompleted, ResultEntry,
}
use inference_data_plane.Frontend.Envelope.{read_stream}
use inference_data_plane.Frontend.Envelope.Framing.{Fits, written}
use inference_data_plane.Frontend.Envelope.Reading.{concat}
use inference_data_plane.Frontend.Generate.{collect_loop, stream_loop, event_of}
use inference_data_plane.Frontend.Generate.Collect.{
  reply, last_started, entry_of, token_entries, texts, collect_loop-retry,
}
use inference_data_plane.Frontend.Generate.Stream.{
  sent, deltas, read_stream-stream_loop, collect_loop-eq-stream_loop,
}
use inference_data_plane.Frontend.Examples.{encode_event, plain_codec, served}
use inference_data_plane.Streams.Wire.{SubscribeGenerationRequest}
use inference_data_plane.Frontend.Generate.Subscribe.{Streams}

abbrev chunk : String → ℕ → TokenChunk
chunk s n = record { text = codes s; cumulative_generated_tokens = n }

abbrev done : GenerationCompleted
done = record { prompt_tokens = 5; generated_tokens = 1; finish_reason = codes "stop" }

-- The worker `w1` started and sent one token before `w2` took over.
abbrev before_retry : List ResultEntry
before_retry =
    entry_of (codes "1-0") (codes "w1") (some attempt_started)
    ∷ entry_of (codes "2-0") (codes "w1") (some (token (chunk "lost" 1)))
    ∷ []

collect_loop-retry_example :
    collect_loop [] [] (
      map reply before_retry
      ++ reply (entry_of (codes "3-0") (codes "w2") (some attempt_started))
        ∷ (map reply (token_entries (codes "w2") ((codes "4-0", chunk "kept" 1) ∷ []))
            ++ reply (entry_of (codes "5-0") (codes "w2") (some (completed done))) ∷ []))
    ≡ some (
        ok (record {
          text = texts ((codes "4-0", chunk "kept" 1) ∷ []);
          generated_tokens = 1;
          finish_reason = codes "stop";
        }))
unfolding entry_of last_started codes
collect_loop-retry_example =
    collect_loop-retry before_retry (codes "3-0") (codes "w2") (codes "5-0")
      ((codes "4-0", chunk "kept" 1) ∷ []) done [] (tt, (tt, tt)) (λ h. cc)
      (λ h. omega (arith, ap (λ id. unwrap_or (get_elem? id 1) 0) h))

abbrev one_attempt : List ResultEntry
one_attempt =
    entry_of (codes "1-0") (codes "w1") (some attempt_started)
    ∷ entry_of (codes "2-0") (codes "w1") (some (token (chunk "hi" 1)))
    ∷ []

abbrev last_entry : ResultEntry
last_entry = entry_of (codes "3-0") (codes "w1") (some (completed done))

abbrev final : GenerationEvent
final = record {
  request_id = codes "r";
  model = codes "m";
  delta = [];
  generated_tokens = 1;
  finish_reason = codes "stop";
  event_id = codes "3-0";
  attempt_id = codes "w1";
  prompt_tokens = 5;
  terminal = true;
}

final-sent : event_of plain_codec served (codes "r") last_entry ≡ some final
unfolding event_of entry_of
final-sent = refl

all-Fits : All (Fits plain_codec) (sent plain_codec served (codes "r") one_attempt ++ final ∷ [])
unfolding Fits sent event_of entry_of encode_event codes
all-Fits = omega arith

read_stream-stream_loop_example :
    read_stream plain_codec (
      map ok (
        concat (
          stream_loop plain_codec served
            (codes "r")
            (map reply one_attempt ++ reply last_entry ∷ []))
        ∷ []))
    ≡ ok (record {
      buffered = [];
      events = sent plain_codec served (codes "r") one_attempt ++ final ∷ [];
    })
unfolding entry_of concat
read_stream-stream_loop_example =
    read_stream-stream_loop plain_codec served (codes "r") one_attempt last_entry final []
      (concat (
          stream_loop plain_codec served (codes "r")
            (map reply one_attempt ++ reply last_entry ∷ []))
        ∷ [])
      (tt, (tt, tt)) final-sent refl all-Fits (append-nil _)

collect_loop-eq-stream_loop_example :
    (event : GenerationEvent) × (concat (
        stream_loop plain_codec served (codes "r") (map reply one_attempt ++ reply last_entry ∷ []))
      ≡ written plain_codec (sent plain_codec served (codes "r") one_attempt ++ event ∷ []))
    × (event.terminal ≡ true)
    × (collect_loop [] [] (map reply one_attempt ++ reply last_entry ∷ [])
        ≡ some (
            ok (record {
              text = deltas (sent plain_codec served (codes "r") one_attempt);
              generated_tokens = event.generated_tokens;
              finish_reason = event.finish_reason;
            })))
unfolding entry_of
collect_loop-eq-stream_loop_example =
    collect_loop-eq-stream_loop plain_codec served (codes "r") one_attempt (codes "w1") last_entry
      done [] ((tt, refl), ((tt, refl), tt)) refl

abbrev from_start : SubscribeGenerationRequest
from_start = record { request_id = codes "r"; after_event_id = some [] }
