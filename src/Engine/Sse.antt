-- ===== src/Engine/Sse.antt =====
-- `stream_openai_compatible` of crates/inference-engine/src/main.rs: the server-sent events of the
-- model server. Each round of the inner loop takes a line off the buffer, so the characters of the
-- buffer are fuel enough.
pub mod Lines
use inference_data_plane.Prelude.{
  ℕ, zero, suc, max, Bool, ◌||◌, Option, none, some, List, [], ◌∷◌, ◌++◌, eqb, length, is_empty,
  head?, and_then, or_option, unwrap_or, add_u64, Result, ok, err, map_err, if◌then◌else◌,
}
use inference_data_plane.Prelude.Action.{Action, pure, raise, lift, ◌>>=◌, ◌>>◌, continue}
use inference_data_plane.Text.{Text, codes, text_beq}
use inference_data_plane.Text.Split.{split_once, strip_prefix}
use inference_data_plane.Text.Trim.{trim, trim_end_matches}
use inference_data_plane.Streams.Wire.{GenerationJob}
use inference_data_plane.Engine.{
  EngineConfig, RuntimeRequest, GenerationUsage, default_usage, Json, Client, ModelServer,
}
use inference_data_plane.Engine.Request.{
  estimate_tokens, extract_prompt, model_endpoint, completions_url, payload,
}
use inference_data_plane.Engine.Results.{publish_token}

module _ (Js : Json) where
  open Js use {Value, get, as_u64, as_str, as_array, from_str}

  -- `value.get("usage")`, and the counts in it that are numbers
  unfoldable pub with_usage : GenerationUsage → Option Value → GenerationUsage
  unfolding codes
  with_usage usage none = usage
  with_usage usage (some runtime_usage) = record usage {
    prompt_tokens =
        unwrap_or (and_then (get (codes "prompt_tokens") runtime_usage) as_u64) usage.prompt_tokens;
    generated_tokens =
        unwrap_or (and_then (get (codes "completion_tokens") runtime_usage) as_u64)
          usage.generated_tokens;
  }

  unfoldable pub first_choice : Value → Option Value
  unfolding codes
  first_choice value = and_then (and_then (get (codes "choices") value) as_array) head?

  unfoldable pub with_reason : GenerationUsage → Option Value → GenerationUsage
  unfolding codes
  with_reason usage choice = record usage {
    finish_reason =
        unwrap_or (and_then (and_then choice (get (codes "finish_reason"))) as_str)
          usage.finish_reason;
  }

  unfoldable pub delta_text : Option Value → Text
  unfolding codes
  delta_text choice =
      unwrap_or
        (and_then
          (or_option (and_then (and_then choice (get (codes "delta"))) (get (codes "content")))
            (and_then choice (get (codes "text"))))
          as_str)
        []

  unfoldable pub decode_event : Text → Result Text Value
  unfolding codes
  decode_event event =
      map_err (λ e. codes "decode model SSE event: " ++ (event ++ (codes ": " ++ e)))
        (from_str event)

  unfoldable pub count_text : GenerationUsage → Text → GenerationUsage
  unfolding estimate_tokens
  count_text usage text = record usage {
    generated_tokens = add_u64 usage.generated_tokens (max (estimate_tokens text) 1);
  }

  -- What a value makes of the usage before its text is counted.
  unfoldable pub observe : GenerationUsage → Value → GenerationUsage
  unfolding codes with_usage with_reason first_choice
  observe usage value =
      with_reason (with_usage usage (get (codes "usage") value)) (first_choice value)

  unfoldable pub with_prompt_tokens : RuntimeRequest Value → GenerationUsage → GenerationUsage
  unfolding estimate_tokens extract_prompt
  with_prompt_tokens request usage =
      if eqb usage.prompt_tokens 0
      then record usage { prompt_tokens = estimate_tokens (extract_prompt Js request) }
      else usage

  module _ (C : Client) (job : GenerationJob) (attempt_id : Text) where
    open C use {World}

    unfoldable pub handle_text : GenerationUsage → Text → Action World Text GenerationUsage
    unfolding count_text publish_token
    handle_text usage text =
        if is_empty text
        then pure usage
        else (publish_token C job attempt_id text (count_text usage text).generated_tokens
            >> pure (count_text usage text))

    unfoldable pub handle_value : GenerationUsage → Value → Action World Text GenerationUsage
    unfolding observe handle_text delta_text first_choice
    handle_value usage value = handle_text (observe usage value) (delta_text (first_choice value))

    unfoldable pub handle_data : GenerationUsage → Option Text → Action World Text GenerationUsage
    unfolding codes handle_value decode_event trim text_beq
    handle_data usage none = pure usage
    handle_data usage (some after) =
        if text_beq (trim after) (codes "[DONE]") || is_empty (trim after)
        then pure usage
        else (lift (decode_event (trim after)) >>= λ value. handle_value usage value)

    unfoldable pub handle_line : GenerationUsage → Text → Action World Text GenerationUsage
    unfolding codes handle_data strip_prefix trim_end_matches
    handle_line usage line =
        handle_data usage (strip_prefix (codes "data:") (trim_end_matches b'\r' line))

    -- The inner loop: the usage and what is left in the buffer.
    unfoldable pub drain_lines :
        ℕ → GenerationUsage → Text → Action World Text (GenerationUsage × Text)
    unfolding handle_line split_once
    drain_lines zero usage buffer = pure (usage, buffer)
    drain_lines (suc fuel) usage buffer = elim (split_once b'\n' buffer) [
      | none ↦ pure (usage, buffer)
      | some (line, rest) ↦ handle_line usage line >>= λ after. drain_lines fuel after rest
    ]

    module _ (from_utf8_lossy : List ℕ → Text) where
      -- The outer loop. What is in the buffer at the end is dropped.
      unfoldable pub read_chunks :
          GenerationUsage → Text → List (Result Text (List ℕ)) → Action World Text GenerationUsage
      unfolding drain_lines
      read_chunks usage buffer [] = pure usage
      read_chunks usage buffer (err e ∷ chunks) = raise e
      read_chunks usage buffer (ok bytes ∷ chunks) =
          let text = buffer ++ from_utf8_lossy bytes in
          drain_lines (length text) usage text >>= λ (after, left). read_chunks after left chunks

    unfoldable pub stream_openai_compatible :
        ModelServer Value World
        → EngineConfig
        → RuntimeRequest Value
        → Action World Text GenerationUsage
    unfolding read_chunks with_prompt_tokens payload completions_url model_endpoint
    stream_openai_compatible M config request = do
      chunks ←
          M.post (completions_url (model_endpoint config job.model_endpoint)) (payload Js request)
      usage ← read_chunks M.from_utf8_lossy default_usage [] chunks
      pure (with_prompt_tokens request usage)
