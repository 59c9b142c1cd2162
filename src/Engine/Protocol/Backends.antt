-- ===== src/Engine/Protocol/Backends.antt =====
-- The calls of both backends in crates/inference-engine/src/main.rs.
use inference_data_plane.Prelude.{
  ℕ, zero, suc, ◌+◌, ◌||◌, Option, none, some, List, [], ◌∷◌, ◌++◌, eqb, length, is_empty,
  Bool-cases, Option-cases, inl, inr, Result, ok, err,
}
use inference_data_plane.Prelude.Action.{Action, pure, lift, ◌>>=◌, ◌>>◌}
use inference_data_plane.Text.{Text, codes, text_beq}
use inference_data_plane.Text.Split.{split_once, strip_prefix}
use inference_data_plane.Text.Trim.{trim, trim_end_matches}
use inference_data_plane.Streams.Wire.{GenerationJob}
use inference_data_plane.Engine.{
  Backend, synthetic, open_ai_compatible, EngineConfig, RuntimeRequest, GenerationUsage,
  default_usage, Json, Client, ModelServer, ChatPayload,
}
use inference_data_plane.Engine.Request.{
  estimate_tokens, extract_prompt, model_endpoint, completions_url, payload,
}
use inference_data_plane.Engine.Results.{publish_token}
use inference_data_plane.Engine.Sse.{
  count_text, observe, delta_text, first_choice, decode_event, handle_text, handle_value,
  handle_data, handle_line, drain_lines, read_chunks, with_prompt_tokens, stream_openai_compatible,
}
use inference_data_plane.Engine.Attempt.{
  synthetic_words, pause, publish_words, stream_synthetic, stream_backend,
}
use inference_data_plane.Engine.Calls.{CallLog, Apart, Does}
use inference_data_plane.Engine.Protocol.{token_calls}
use inference_data_plane.Engine.Protocol.Tokens.{
  Tokens, Made-Tokens, Tokens-pure, Tokens-lift, Tokens-bind, Tokens-publish_token,
}

module _ {C : Client} (L : CallLog C) (job : GenerationJob) (attempt_id : Text) where
  open C use {World}

  module _ (Js : Json) where
    open Js use {Value}

    Tokens-handle_text :
        (usage : GenerationUsage) (text : Text)
        → Does L (handle_text Js C job attempt_id usage text) (Tokens L job attempt_id)
    unfolding handle_text
    Tokens-handle_text usage text = elim (Bool-cases (is_empty text)) [
      | inl h ↦ rw h (Tokens-pure L job attempt_id usage)
      | inr h ↦
          let counted = count_text Js usage text in
          rw h (
            Tokens-bind L job attempt_id
              (publish_token C job attempt_id text counted.generated_tokens) (λ done. pure counted)
              (Tokens-publish_token L job attempt_id text counted.generated_tokens)
              (λ done. Tokens-pure L job attempt_id counted))
    ]

    Tokens-handle_data :
        (usage : GenerationUsage) (after : Option Text)
        → Does L (handle_data Js C job attempt_id usage after) (Tokens L job attempt_id)
    unfolding handle_data handle_value
    Tokens-handle_data usage none = Tokens-pure L job attempt_id usage
    Tokens-handle_data usage (some after) =
        elim (Bool-cases (text_beq (trim after) (codes "[DONE]") || is_empty (trim after))) [
          | inl h ↦ rw h (Tokens-pure L job attempt_id usage)
          | inr h ↦ rw h (
              Tokens-bind L job attempt_id (lift (decode_event Js (trim after)))
                (handle_value Js C job attempt_id usage)
                (Tokens-lift L job attempt_id (decode_event Js (trim after)))
                (λ value.
                  Tokens-handle_text (observe Js usage value)
                    (delta_text Js (first_choice Js value))))
        ]

    Tokens-handle_line :
        (usage : GenerationUsage) (line : Text)
        → Does L (handle_line Js C job attempt_id usage line) (Tokens L job attempt_id)
    unfolding handle_line
    Tokens-handle_line usage line =
        Tokens-handle_data usage (strip_prefix (codes "data:") (trim_end_matches b'\r' line))

    Tokens-drain_lines :
        (fuel : ℕ) (usage : GenerationUsage) (buffer : Text)
        → Does L (drain_lines Js C job attempt_id fuel usage buffer) (Tokens L job attempt_id)
    unfolding drain_lines
    Tokens-drain_lines zero usage buffer = Tokens-pure L job attempt_id (usage, buffer)
    Tokens-drain_lines (suc fuel) usage buffer = elim (Option-cases (split_once b'\n' buffer)) [
      | inl h ↦ rw (drain_lines, h) (Tokens-pure L job attempt_id (usage, buffer))
      | inr ((line, rest), h) ↦
          rw (drain_lines, h)
            (Tokens-bind L job attempt_id (handle_line Js C job attempt_id usage line)
              (λ after. drain_lines Js C job attempt_id fuel after rest)
              (Tokens-handle_line usage line) (λ after. Tokens-drain_lines fuel after rest))
    ]

    Tokens-read_chunks :
        (from_utf8_lossy : List ℕ → Text) (chunks : List (Result Text (List ℕ)))
        (usage : GenerationUsage) (buffer : Text)
        → Does L
            (read_chunks Js C job attempt_id from_utf8_lossy usage buffer chunks)
            (Tokens L job attempt_id)
    unfolding read_chunks
    Tokens-read_chunks from_utf8_lossy [] usage buffer = Tokens-pure L job attempt_id usage
    Tokens-read_chunks from_utf8_lossy (err e ∷ chunks) usage buffer =
        Tokens-lift L job attempt_id (err e)
    Tokens-read_chunks from_utf8_lossy (ok bytes ∷ chunks) usage buffer =
        let text = buffer ++ from_utf8_lossy bytes in
        Tokens-bind L job attempt_id (drain_lines Js C job attempt_id (length text) usage text)
          (λ (after, left). read_chunks Js C job attempt_id from_utf8_lossy after left chunks)
          (Tokens-drain_lines (length text) usage text)
          (λ (after, left). Tokens-read_chunks from_utf8_lossy chunks after left)

    module _ (config : EngineConfig) where
      Tokens-pause : Does L (pause Js C config job attempt_id) (Tokens L job attempt_id)
      unfolding pause token_calls
      Tokens-pause w = elim (Bool-cases (eqb config.synthetic_token_delay 0)) [
        | inl h ↦ rw h (Tokens-pure L job attempt_id tt w)
        | inr h ↦ rw h (
            Made-Tokens L job attempt_id (ok tt, C.sleep config.synthetic_token_delay w) w
              (L.calls-sleep config.synthetic_token_delay w))
      ]

      Tokens-publish_words :
          (words : List Text) (index : ℕ)
          → Does L (publish_words Js C config job attempt_id index words) (Tokens L job attempt_id)
      unfolding publish_words
      Tokens-publish_words [] index = Tokens-pure L job attempt_id tt
      Tokens-publish_words (word ∷ words) index =
          let later = publish_words Js C config job attempt_id (index + 1) words in
          Tokens-bind L job attempt_id
            (publish_token C job attempt_id (word ++ b' ' ∷ []) (index + 1))
            (λ done. pause Js C config job attempt_id >> later)
            (Tokens-publish_token L job attempt_id (word ++ b' ' ∷ []) (index + 1))
            (λ done.
              Tokens-bind L job attempt_id (pause Js C config job attempt_id) (λ paused. later)
                Tokens-pause (λ paused. Tokens-publish_words words (index + 1)))

      Tokens-stream_synthetic :
          (request : RuntimeRequest Value)
          → Does L (stream_synthetic Js C config job attempt_id request) (Tokens L job attempt_id)
      unfolding stream_synthetic
      Tokens-stream_synthetic request =
          let words = synthetic_words Js C config job attempt_id request in
          let usage : GenerationUsage = record {
            prompt_tokens = estimate_tokens (extract_prompt Js request);
            generated_tokens = length words;
            finish_reason = codes "stop";
          } in
          Tokens-bind L job attempt_id (publish_words Js C config job attempt_id 0 words)
            (λ done. pure usage) (Tokens-publish_words words 0)
            (λ done. Tokens-pure L job attempt_id usage)

      module _ (M : ModelServer Value World) (A : Apart C L M) where
        Tokens-post :
            (url : Text) (body : ChatPayload Value)
            → Does L (M.post url body) (Tokens L job attempt_id)
        Tokens-post url body w =
            let same = A.calls-post url body w in
            Made-Tokens L job attempt_id (M.post url body w) w same

        Tokens-stream_openai_compatible :
            (request : RuntimeRequest Value)
            → Does L
                (stream_openai_compatible Js C job attempt_id M config request)
                (Tokens L job attempt_id)
        unfolding stream_openai_compatible
        Tokens-stream_openai_compatible request =
            let url = completions_url (model_endpoint config job.model_endpoint) in
            let read = read_chunks Js C job attempt_id M.from_utf8_lossy default_usage [] in
            let end : GenerationUsage → Action World Text GenerationUsage =
              λ usage. pure (with_prompt_tokens Js request usage) in
            Tokens-bind L job attempt_id (M.post url (payload Js request))
              (λ chunks. read chunks >>= end) (Tokens-post url (payload Js request))
              (λ chunks.
                Tokens-bind L job attempt_id (read chunks) end
                  (Tokens-read_chunks M.from_utf8_lossy chunks default_usage [])
                  (λ usage. Tokens-pure L job attempt_id (with_prompt_tokens Js request usage)))

        pub Tokens-stream_backend :
            (backend : Backend) (request : RuntimeRequest Value)
            → Does L
                (stream_backend Js C config job attempt_id M backend request)
                (Tokens L job attempt_id)
        unfolding stream_backend
        Tokens-stream_backend synthetic request = Tokens-stream_synthetic request
        Tokens-stream_backend open_ai_compatible request = Tokens-stream_openai_compatible request
