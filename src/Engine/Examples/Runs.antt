-- ===== src/Engine/Examples/Runs.antt =====
-- The theorems about crates/inference-engine/src/main.rs at concrete runs.
use inference_data_plane.Prelude.{
  ◌≤◌, ◌≡◌, refl, arith, Bool, none, some, List, [], ◌∷◌, ◌++◌, map, length, All, Result, ok,
}
use inference_data_plane.Prelude.Action.{◌>>=◌}
use inference_data_plane.Text.{Text, codes, text_beq}
use inference_data_plane.Text.Lines.{split_lines}
use inference_data_plane.Text.Split.{strip_prefix}
use inference_data_plane.Text.Trim.{trim_end_matches}
use inference_data_plane.Streams.Wire.{TokenChunk}
use inference_data_plane.Engine.{
  synthetic, open_ai_compatible, RuntimeRequest, GenerationUsage, default_usage,
}
use inference_data_plane.Engine.Sse.{decode_event, drain_lines, stream_openai_compatible}
use inference_data_plane.Engine.Sse.Lines.{
  run_lines, decoded, drain_lines-terminates, LeavesNoNewline, answer_at,
  stream_openai_compatible-run_lines,
}
use inference_data_plane.Engine.Job.{run_job, heartbeat, elapsed, stop}
use inference_data_plane.Engine.Start.{
  ServiceConfig, default_settings, engine_config, endpoint, backend_of,
}
use inference_data_plane.Engine.Calls.{Call, renewed}
use inference_data_plane.Engine.Protocol.{token_calls, Protocol}
use inference_data_plane.Engine.Protocol.Job.{run_job-Protocol}
use inference_data_plane.Engine.Counts.{chunks_of, Counted}
use inference_data_plane.Engine.Counts.Events.{NoCount, stream_openai_compatible-Counted}
use inference_data_plane.Engine.Heartbeat.{intervals, LostLast, heartbeat-renewals}
use inference_data_plane.Engine.Examples.{
  toy_json, logging, log, chunks, server, apart, config, some_job,
}

run_job-Protocol_example :
    let (r, v) =
      run_job toy_json logging server
        (config open_ai_compatible)
        (codes "e")
        some_job
        50
        (codes "a")
        [] in
    (cs : List Call) × (log.calls v ≡ log.calls [] ++ cs)
    × Protocol some_job (codes "e") 50 (codes "a") r cs
run_job-Protocol_example =
    run_job-Protocol log some_job toy_json server apart (config open_ai_compatible) (codes "e") 50
      (codes "a") []

-- A round of the loop takes the line up to the first newline.
drain_lines-terminates_example :
    (drain_lines toy_json logging some_job
        (codes "a")
        30
        default_usage
        (codes "data: x\ndata: y")
        []
      ≡ drain_lines toy_json logging some_job
          (codes "a")
          (length (codes "data: x\ndata: y"))
          default_usage
          (codes "data: x\ndata: y")
          [])
    × LeavesNoNewline toy_json logging some_job
        (codes "a")
        (drain_lines toy_json logging some_job
          (codes "a")
          30
          default_usage
          (codes "data: x\ndata: y")
          []).0
unfolding codes
drain_lines-terminates_example =
    drain_lines-terminates toy_json logging some_job (codes "a") 30 default_usage
      (codes "data: x\ndata: y") [] (omega arith)

abbrev request : RuntimeRequest toy_json.Value
request = record {
  model = codes "m";
  messages = none;
  prompt = some (codes "hi");
  max_tokens = 2;
  temperature = 0;
}

stream_openai_compatible-run_lines_example :
    stream_openai_compatible toy_json logging some_job
      (codes "a")
      server
      (config open_ai_compatible)
      request
      []
    ≡ (run_lines toy_json logging some_job
            (codes "a")
            default_usage
            (split_lines b'\n'
              (decoded toy_json logging some_job (codes "a") (λ bytes. bytes) chunks)).0
          >>= answer_at toy_json logging some_job
              (codes "a")
              server
              (config open_ai_compatible)
              request
              none)
        []
stream_openai_compatible-run_lines_example =
    stream_openai_compatible-run_lines toy_json logging some_job (codes "a") server
      (config open_ai_compatible) request chunks none [] [] [] refl

events_run :
    (usage : GenerationUsage) × (v : List Call) × (stream_openai_compatible toy_json logging
        some_job
        (codes "a")
        server
        (config open_ai_compatible)
        request
        []
      ≡ (ok usage, v))
unfolding stream_openai_compatible codes
events_run = (_, _, refl)

-- Two words are counted; the event without a newline is not.
events_run-count : events_run.0.generated_tokens ≡ 2
unfolding events_run stream_openai_compatible codes
events_run-count = refl

no_counts :
    All
      (NoCount toy_json)
      (split_lines b'\n' (decoded toy_json logging some_job (codes "a") (λ bytes. bytes) chunks)).0
unfolding split_lines decoded codes strip_prefix trim_end_matches decode_event text_beq
no_counts = (refl, (refl, tt))

stream_openai_compatible-Counted_example :
    (entries : List (Text × TokenChunk)) × (log.calls events_run.1
      ≡ log.calls [] ++ token_calls some_job (codes "a") entries)
    × Counted 0 (chunks_of entries) events_run.0.generated_tokens
stream_openai_compatible-Counted_example =
    stream_openai_compatible-Counted toy_json log some_job (codes "a") server
      (config open_ai_compatible) request chunks events_run.0 [] [] events_run.1 refl no_counts
      events_run.2

heartbeat-renewals_example :
    let (returned, v) =
      heartbeat logging (codes "r") (codes "e:a") (elapsed ∷ (elapsed ∷ (stop ∷ []))) [] in
    (replies : List (Result Text Bool)) × (log.calls v
      ≡ log.calls [] ++ map (renewed (codes "r") (codes "e:a")) replies)
    × (length replies ≤ intervals (elapsed ∷ (elapsed ∷ (stop ∷ []))))
    × LostLast replies
heartbeat-renewals_example =
    heartbeat-renewals log (codes "r") (codes "e:a") (elapsed ∷ (elapsed ∷ (stop ∷ []))) []

abbrev file : ServiceConfig
file = record {
  model = record { id = codes "m"; endpoint = codes "http://model" };
  backend = record {
    kind = codes "synthetic";
    mlx_base_url = some (codes "http://mlx");
    openai_base_url = none;
    synthetic_token_delay_ms = none;
  };
  streams = default_settings;
}

-- An empty MODEL_ENDPOINT counts as none, and the model's own endpoint comes next.
model_endpoint_used :
    engine_config
      (record { engine_id = none; backend = none; model_endpoint = some []; model_id = none })
      file
    ≡ record {
      backend = synthetic;
      model = codes "m";
      endpoint = codes "http://model";
      synthetic_token_delay = 0;
    }
unfolding engine_config endpoint backend_of codes text_beq
model_endpoint_used = refl
