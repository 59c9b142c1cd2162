-- ===== src/Engine/Results.antt =====
-- The results that crates/inference-engine/src/main.rs publishes.
use inference_data_plane.Prelude.{ℕ, Bool, some}
use inference_data_plane.Prelude.Action.{Action, pure, ◌>>=◌}
use inference_data_plane.Text.{Text}
use inference_data_plane.Streams.Wire.{
  GenerationJob, GenerationResult, ResultEvent, attempt_started, token, completed, failed,
}
use inference_data_plane.Streams.Reply.{schema_version}
use inference_data_plane.Engine.{Client, GenerationUsage}

unfoldable pub result_of : GenerationJob → Text → ResultEvent → GenerationResult
result_of job attempt_id event = record {
  schema_version = schema_version;
  request_id = job.request_id;
  attempt_id = attempt_id;
  event = some event;
}

-- The events of `publish_token`, `publish_completion` and `publish_failure`.
abbrev pub token_event : Text → ℕ → ResultEvent
token_event text generated_tokens =
    token (record { text = text; cumulative_generated_tokens = generated_tokens })

abbrev pub completion_event : GenerationUsage → ResultEvent
completion_event usage = completed (record {
  prompt_tokens = usage.prompt_tokens;
  generated_tokens = usage.generated_tokens;
  finish_reason = usage.finish_reason;
})

abbrev pub failure_event : Text → Text → Bool → ResultEvent
failure_event code message retryable =
    failed (record { code = code; message = message; retryable = retryable })

module _ (C : Client) (job : GenerationJob) (attempt_id : Text) where
  open C use {World, publish_result}

  -- A call of `publish_result` whose identifier is dropped.
  unfoldable pub publish_event : ResultEvent → Action World Text (Unit {0})
  unfolding result_of
  publish_event event = do event_id ← publish_result (result_of job attempt_id event); pure tt

  unfoldable pub publish_started : Action World Text (Unit {0})
  unfolding publish_event
  publish_started = publish_event attempt_started

  unfoldable pub publish_token : Text → ℕ → Action World Text (Unit {0})
  unfolding publish_event
  publish_token text generated_tokens = publish_event (token_event text generated_tokens)

  unfoldable pub publish_completion : GenerationUsage → Action World Text (Unit {0})
  unfolding publish_event
  publish_completion usage = publish_event (completion_event usage)

  unfoldable pub publish_failure : Text → Text → Bool → Action World Text (Unit {0})
  unfolding publish_event
  publish_failure code message retryable = publish_event (failure_event code message retryable)
