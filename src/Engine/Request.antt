-- ===== src/Engine/Request.antt =====
-- `extract_prompt`, `estimate_tokens` and the request to the model server in
-- crates/inference-engine/src/main.rs.
use inference_data_plane.Prelude.{
  ℕ, true, Option, none, some, List, [], ◌∷◌, ◌++◌, length, is_empty, and_then, unwrap_or,
  if◌then◌else◌,
}
use inference_data_plane.Text.{Text, codes}
use inference_data_plane.Text.Space.{split_whitespace}
use inference_data_plane.Text.Split.{join}
use inference_data_plane.Text.Trim.{trim_end_matches}
use inference_data_plane.Engine.{EngineConfig, RuntimeRequest, Json, ChatPayload}

unfoldable pub estimate_tokens : Text → ℕ
unfolding split_whitespace
estimate_tokens text = length (split_whitespace text)

-- `Iterator::filter_map` with the identity
unfoldable pub keep_some {ℓ} : {A : Type ℓ} → List (Option A) → List A
keep_some [] = []
keep_some (none ∷ rest) = keep_some rest
keep_some (some a ∷ rest) = a ∷ keep_some rest

unfoldable pub model_endpoint : EngineConfig → Text → Text
model_endpoint config job_endpoint = if is_empty job_endpoint then config.endpoint else job_endpoint

-- `format!("{}/v1/chat/completions", endpoint.trim_end_matches('/'))`
unfoldable pub completions_url : Text → Text
unfolding codes trim_end_matches
completions_url endpoint = trim_end_matches b'/' endpoint ++ codes "/v1/chat/completions"

module _ (Js : Json) where
  open Js use {Value, get, as_str, object, string}

  unfoldable pub contents : List Value → List (Option Text)
  unfolding codes
  contents [] = []
  contents (message ∷ rest) = and_then (get (codes "content") message) as_str ∷ contents rest

  unfoldable pub extract_prompt : RuntimeRequest Value → Text
  unfolding join keep_some contents
  extract_prompt request = elim request.messages [
    | some messages ↦ join (10 ∷ []) (keep_some (contents messages))
    | none ↦ unwrap_or request.prompt []
  ]

  -- `json!([{"role": "user", "content": ..}])`
  unfoldable pub prompt_message : RuntimeRequest Value → List Value
  unfolding codes
  prompt_message request =
      object (
        (codes "role", string (codes "user"))
        ∷ ((codes "content", string (unwrap_or request.prompt [])) ∷ []))
      ∷ []

  -- An empty array of messages is replaced by the prompt too.
  unfoldable pub payload : RuntimeRequest Value → ChatPayload Value
  unfolding prompt_message
  payload request =
      let messages = unwrap_or request.messages (prompt_message request) in
      record {
        model = request.model;
        messages = if is_empty messages then prompt_message request else messages;
        max_tokens = request.max_tokens;
        temperature = request.temperature;
        stream = true;
        include_usage = true;
      }
