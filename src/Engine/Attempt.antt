-- ===== src/Engine/Attempt.antt =====
-- `execute_attempt` and `stream_synthetic` of crates/inference-engine/src/main.rs.
use inference_data_plane.Prelude.{
  ℕ, ◌+◌, List, [], ◌∷◌, ◌++◌, eqb, length, is_empty, take, if◌then◌else◌, ok,
}
use inference_data_plane.Prelude.Action.{Action, pure, raise, lift, ◌>>=◌, ◌>>◌}
use inference_data_plane.Text.{Text, codes, text_beq}
use inference_data_plane.Text.Space.{split_whitespace}
use inference_data_plane.Streams.Wire.{GenerationJob}
use inference_data_plane.Engine.{
  Backend, synthetic, open_ai_compatible, EngineConfig, RuntimeRequest, GenerationUsage, Json,
  Client, ModelServer,
}
use inference_data_plane.Engine.Request.{estimate_tokens, extract_prompt}
use inference_data_plane.Engine.Results.{publish_started, publish_token}
use inference_data_plane.Engine.Sse.{stream_openai_compatible}

unfoldable pub with_stop : GenerationUsage → GenerationUsage
unfolding codes
with_stop usage =
    if is_empty usage.finish_reason then record usage { finish_reason = codes "stop" } else usage

module _ (Js : Json) (C : Client) (config : EngineConfig) (job : GenerationJob)
    (attempt_id : Text) where
  open C use {World, sleep}
  open Js use {Value, from_slice}

  unfoldable pub synthetic_words : RuntimeRequest Value → List Text
  unfolding codes split_whitespace take extract_prompt
  synthetic_words request =
      take request.max_tokens
        (split_whitespace (codes "Generated response for: " ++ extract_prompt Js request))

  unfoldable pub pause : Action World Text (Unit {0})
  pause w = (
    ok tt,
    if eqb config.synthetic_token_delay 0 then w else sleep config.synthetic_token_delay w,
  )

  -- The loop over the words; `index` stays below the length of a vector, far below 2 ^ 64.
  unfoldable pub publish_words : ℕ → List Text → Action World Text (Unit {0})
  unfolding publish_token pause
  publish_words index [] = pure tt
  publish_words index (word ∷ words) = do
    publish_token C job attempt_id (word ++ b' ' ∷ []) (index + 1)
    pause
    publish_words (index + 1) words

  unfoldable pub stream_synthetic : RuntimeRequest Value → Action World Text GenerationUsage
  unfolding publish_words synthetic_words estimate_tokens extract_prompt codes
  stream_synthetic request = do
    publish_words 0 (synthetic_words request)
    pure (record {
      prompt_tokens = estimate_tokens (extract_prompt Js request);
      generated_tokens = length (synthetic_words request);
      finish_reason = codes "stop";
    })

  module _ (M : ModelServer Value World) where
    unfoldable pub stream_backend :
        Backend → RuntimeRequest Value → Action World Text GenerationUsage
    unfolding stream_synthetic stream_openai_compatible
    stream_backend synthetic request = stream_synthetic request
    stream_backend open_ai_compatible request =
        stream_openai_compatible Js C job attempt_id M config request

    unfoldable pub attempt_request : RuntimeRequest Value → Action World Text GenerationUsage
    unfolding publish_started stream_backend with_stop
    attempt_request request = do
      publish_started C job attempt_id
      usage ← stream_backend config.backend request
      pure (with_stop usage)

    unfoldable pub execute_attempt : Action World Text GenerationUsage
    unfolding codes text_beq attempt_request
    execute_attempt =
        if text_beq job.model_id config.model
        then (lift (from_slice job.request_json) >>= attempt_request)
        else raise (codes "model " ++ (job.model_id ++ codes " is not loaded by this engine"))
