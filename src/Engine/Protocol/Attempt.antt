-- ===== src/Engine/Protocol/Attempt.antt =====
-- The calls of `execute_attempt` in crates/inference-engine/src/main.rs.
use inference_data_plane.Prelude.{
  ◌≡◌, refl, ◌∙◌, false, List, [], ◌∷◌, ◌++◌, append-nil, is_empty, Bool-cases, inl, inr, All,
  Result, ok, err,
}
use inference_data_plane.Prelude.Action.{pure, lift, ◌>>=◌}
use inference_data_plane.Text.{Text, codes, text_beq}
use inference_data_plane.Streams.Wire.{GenerationJob, attempt_started, TokenChunk}
use inference_data_plane.Engine.{
  EngineConfig, RuntimeRequest, GenerationUsage, Json, Client, ModelServer,
}
use inference_data_plane.Engine.Results.{publish_event, publish_started}
use inference_data_plane.Engine.Attempt.{
  with_stop, stream_backend, attempt_request, execute_attempt,
}
use inference_data_plane.Engine.Calls.{
  Call, CallLog, Apart, Does, Does-lift, Does-weaken, Does-bind,
}
use inference_data_plane.Engine.Protocol.{sent, token_calls, IsOpening, opening}
use inference_data_plane.Engine.Protocol.Tokens.{Does-publish_event}
use inference_data_plane.Engine.Protocol.Backends.{Tokens-stream_backend}

module _ {C : Client} (L : CallLog C) (job : GenerationJob) (attempt_id : Text) where
  -- A start, then tokens, and a reason to finish; or an error after part of them.
  abbrev pub Attempted : Result Text GenerationUsage → List Call → Type 0
  Attempted (ok usage) cs =
      (start_id : Text) × (chunks : List (Text × TokenChunk)) × (cs
        ≡ sent job attempt_id attempt_started start_id ∷ token_calls job attempt_id chunks)
      × (is_empty usage.finish_reason ≡ false)
  Attempted (err e) cs = All (IsOpening job attempt_id) cs

  -- The same after the start.
  abbrev Continued : Result Text GenerationUsage → List Call → Type 0
  Continued (ok usage) cs =
      (chunks : List (Text × TokenChunk)) × (cs ≡ token_calls job attempt_id chunks)
      × (is_empty usage.finish_reason ≡ false)
  Continued (err e) cs = All (IsOpening job attempt_id) cs

  with_stop-named : (usage : GenerationUsage) → is_empty (with_stop usage).finish_reason ≡ false
  unfolding with_stop codes
  with_stop-named usage = elim (Bool-cases (is_empty usage.finish_reason)) [
    | inl h ↦ rw h refl
    | inr h ↦ rw h h
  ]

  Attempted-start :
      (start_id : Text) (r : Result Text GenerationUsage) (cs ds : List Call)
      → cs ≡ sent job attempt_id attempt_started start_id ∷ []
      → Continued r ds
      → Attempted r (cs ++ ds)
  unfolding sent
  Attempted-start start_id (ok usage) cs ds h (chunks, k, l) = (start_id, chunks, rw (h, k) refl, l)
  Attempted-start start_id (err e) cs ds h k = rw h (opening attempt_started (ok start_id) tt, k)

  module _ (Js : Json) (config : EngineConfig) (M : ModelServer Js.Value C.World)
      (A : Apart C L M) where
    open Js use {Value}

    Continued-stop :
        (request : RuntimeRequest Value)
        → Does L
            (stream_backend Js C config job attempt_id M config.backend request >>= λ usage.
              pure (with_stop usage))
            Continued
    Continued-stop request =
        Does-bind L (stream_backend Js C config job attempt_id M config.backend request)
          (λ usage. pure (with_stop usage))
          (Tokens-stream_backend L job attempt_id Js config M A config.backend request)
          (λ usage cs (chunks, k).
            Does-lift L (ok (with_stop usage)) (chunks, append-nil cs ∙ k, with_stop-named usage))
          (λ e cs k. k)

    Attempted-attempt_request :
        (request : RuntimeRequest Value)
        → Does L (attempt_request Js C config job attempt_id M request) Attempted
    unfolding attempt_request publish_started
    Attempted-attempt_request request =
        Does-bind L (publish_event C job attempt_id attempt_started)
          (λ done. stream_backend Js C config job attempt_id M config.backend request >>= λ usage.
            pure (with_stop usage))
          (Does-publish_event L job attempt_id attempt_started tt)
          (λ done cs (start_id, k).
            Does-weaken L
              (stream_backend Js C config job attempt_id M config.backend request >>= λ usage.
                pure (with_stop usage))
              (λ r ds h. Attempted-start start_id r cs ds k h) (Continued-stop request))
          (λ e cs k. k)

    -- An attempt at the job publishes its start and then tokens, and nothing else.
    pub execute_attempt-Attempted : Does L (execute_attempt Js C config job attempt_id M) Attempted
    unfolding execute_attempt
    execute_attempt-Attempted = elim (Bool-cases (text_beq job.model_id config.model)) [
      | inl h ↦ rw h (
          Does-bind L {P = λ r cs. cs ≡ []} (lift (Js.from_slice job.request_json))
            (attempt_request Js C config job attempt_id M)
            (Does-lift L (Js.from_slice job.request_json) refl)
            (λ request cs k.
              Does-weaken L (attempt_request Js C config job attempt_id M request)
                (λ r ds p. rw k p) (Attempted-attempt_request request))
            (λ e cs k. rw k tt))
      | inr h ↦ rw h (
          Does-lift L
            (err (codes "model " ++ (job.model_id ++ codes " is not loaded by this engine"))) tt)
    ]
