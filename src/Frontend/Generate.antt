-- ===== src/Frontend/Generate.antt =====
-- `collect_generation`, `stream_generation` and `rpc_subscribe_generation` of
-- crates/inference-frontend/src/main.rs. What a subscription returns, call after call, is a list: a
-- parameter, since the broker is. A loop that has used it up is still waiting.
pub mod Collect
pub mod Stream
pub mod Subscribe
use inference_data_plane.Prelude.{
  ℕ, String, ◌≡◌, Bool, true, false, not, ◌&&◌, Option, none, some, List, [], ◌∷◌, ◌++◌, is_empty,
  filter_option, Result, ok, err, if◌then◌else◌,
}
use inference_data_plane.Text.{Text, codes, text_beq}
use inference_data_plane.Streams.Wire.{
  GenerateResponse, GenerationEvent, SubscribeGenerationRequest, ResultEvent, attempt_started,
  token, completed, failed, ResultEntry,
}
use inference_data_plane.Frontend.{
  AppState, Response, success, proto, envelopes, error_response, bad_request, unauthorized,
  not_found, bad_gateway, gateway_timeout, HeaderMap, authenticate, valid_stream_id,
}
use inference_data_plane.Frontend.Envelope.{Codec, connect_envelope, connect_error_envelope}
use inference_data_plane.Frontend.Admit.{Admission}

-- What `ResultSubscription::next` returns; `none` when the wait has run out.
abbrev pub Reply : Type 0
Reply = Result Text (Option ResultEntry)

pub record Collected : Type 0 where
  pub text : Text
  pub generated_tokens : ℕ
  pub finish_reason : Text

-- An attempt that takes over from another one discards what that one wrote.
unfoldable pub restarts : Text → Text → Bool
unfolding text_beq
restarts current attempt_id = not (is_empty current) && not (text_beq current attempt_id)

-- The loop of `collect_generation`.
unfoldable pub collect_loop : Text → Text → List Reply → Option (Result Response Collected)
unfolding restarts error_response codes
collect_loop written current [] = none
collect_loop written current (err e ∷ rest) =
    some (err (error_response bad_gateway (codes "result stream failed")))
collect_loop written current (ok none ∷ rest) =
    some (err (error_response gateway_timeout (codes "generation timed out")))
collect_loop written current (ok (some entry) ∷ rest) = elim entry.result.event [
  | none ↦ collect_loop written current rest
  | some attempt_started ↦
      collect_loop (if restarts current entry.result.attempt_id then [] else written)
        entry.result.attempt_id rest
  | some (token chunk) ↦ collect_loop (written ++ chunk.text) current rest
  | some (completed done) ↦ some (
      ok (record {
        text = written;
        generated_tokens = done.generated_tokens;
        finish_reason = done.finish_reason;
      }))
  | some (failed failure) ↦ some (err (error_response bad_gateway failure.message))
]

module _ (encode_response : GenerateResponse → List ℕ) (state : AppState) where
  -- The `unwrap` of `HeaderValue::from_str` is left out: the two values are identifiers that the
  -- broker and the client make, a stream entry and a UUID, which are valid header values.
  unfoldable pub collected_response :
      Admission → Option (Result Response Collected) → Option Response
  unfolding codes
  collected_response admission none = none
  collected_response admission (some (err response)) = some response
  collected_response admission (some (ok c)) = some (record {
    status = success;
    headers =
        (codes "content-type", codes "application/proto")
        ∷ (codes "x-request-entry-id", admission.request_entry_id)
        ∷ (codes "x-reservation-id", admission.reservation_id)
        ∷ [];
    body = proto (
        encode_response (record {
          request_id = admission.request_id;
          model = state.model.id;
          text = c.text;
          prompt_tokens = admission.prompt_tokens;
          generated_tokens = c.generated_tokens;
          finish_reason = c.finish_reason;
        }));
  })

  unfoldable pub collect_generation :
      Result Text (Option (List Reply)) → Admission → Option Response
  unfolding collected_response collect_loop error_response codes
  collect_generation (ok (some replies)) admission =
      collected_response admission (collect_loop [] [] replies)
  collect_generation _ admission =
      some (error_response bad_gateway (codes "result stream unavailable"))

module _ (P : Codec GenerationEvent) (state : AppState) (request_id : Text) where
  event_from : Text → Text → Option ResultEvent → Option GenerationEvent
  event_from event_id attempt_id (some (token chunk)) = some (record {
    request_id = request_id;
    model = state.model.id;
    delta = chunk.text;
    generated_tokens = chunk.cumulative_generated_tokens;
    finish_reason = [];
    event_id = event_id;
    attempt_id = attempt_id;
    prompt_tokens = 0;
    terminal = false;
  })
  event_from event_id attempt_id (some (completed done)) = some (record {
    request_id = request_id;
    model = state.model.id;
    delta = [];
    generated_tokens = done.generated_tokens;
    finish_reason = done.finish_reason;
    event_id = event_id;
    attempt_id = attempt_id;
    prompt_tokens = done.prompt_tokens;
    terminal = true;
  })
  event_from event_id attempt_id (some (failed failure)) = some (record {
    request_id = request_id;
    model = state.model.id;
    delta = failure.message;
    generated_tokens = 0;
    finish_reason = failure.code;
    event_id = event_id;
    attempt_id = attempt_id;
    prompt_tokens = 0;
    terminal = true;
  })
  event_from event_id attempt_id _ = none

  -- The event that an entry is sent as, if any.
  unfoldable pub event_of : ResultEntry → Option GenerationEvent
  unfolding event_from
  event_of entry = event_from entry.event_id entry.result.attempt_id entry.result.event

  -- What the loop of `stream_generation` yields: nothing after an event that is terminal.
  unfoldable pub stream_loop : List Reply → List (List ℕ)
  unfolding event_of connect_envelope connect_error_envelope codes
  stream_loop [] = []
  stream_loop (err e ∷ rest) =
      connect_error_envelope P request_id (codes "failed reading generation") ∷ []
  stream_loop (ok none ∷ rest) =
      connect_error_envelope P request_id (codes "generation timed out") ∷ []
  stream_loop (ok (some entry) ∷ rest) = elim (event_of entry) [
    | none ↦ stream_loop rest
    | some event ↦
        connect_envelope P event false
        ∷ (let later = stream_loop rest in if event.terminal then [] else later)
  ]

  unfoldable pub stream_generation : Result Text (Option (List Reply)) → Response
  unfolding stream_loop connect_error_envelope codes
  stream_generation subscription = record {
    status = success;
    headers = (codes "content-type", codes "application/connect+proto") ∷ [];
    body = envelopes (elim subscription [
      | ok (some replies) ↦ stream_loop replies
      | ok none ↦
          connect_error_envelope P request_id (codes "generation is unknown or expired") ∷ []
      | err e ↦ connect_error_envelope P request_id (codes "failed to subscribe to generation") ∷ []
    ]);
  }

pub cursor_is_valid : Option Text → Bool
unfolding valid_stream_id
cursor_is_valid none = true
cursor_is_valid (some value) = valid_stream_id value

-- `rpc_subscribe_generation`. `status` and `subscribe` are those of the Streams client, `decoded` the
-- body as the codec reads it.
module _ (P : Codec GenerationEvent) (to_str : List ℕ → Option Text) (state : AppState)
    (status : Text → Result Text Bool)
    (subscribe : Text → Option Text → Result Text (Option (List Reply))) where
  unfoldable pub subscribe_known :
      SubscribeGenerationRequest → Option Text → Result Text Bool → Response
  unfolding stream_generation error_response codes
  subscribe_known request cursor (ok true) =
      stream_generation P state request.request_id (subscribe request.request_id cursor)
  subscribe_known request cursor (ok false) =
      error_response not_found (codes "generation is unknown or expired")
  subscribe_known request cursor (err e) =
      error_response bad_gateway (codes "failed to inspect generation")

  subscribe_decoded : Result Text SubscribeGenerationRequest → Response
  unfolding subscribe_known cursor_is_valid error_response codes
  subscribe_decoded (err e) = error_response bad_request e
  subscribe_decoded (ok request) =
      let cursor = filter_option (λ value. not (is_empty value)) request.after_event_id in
      if is_empty request.request_id
      then error_response bad_request (codes "request_id is required")
      else if not (cursor_is_valid cursor)
      then error_response bad_request (codes "invalid after_event_id")
      else subscribe_known request cursor (status request.request_id)

  unfoldable pub rpc_subscribe_generation :
      HeaderMap → Result Text SubscribeGenerationRequest → Response
  unfolding subscribe_decoded authenticate
  rpc_subscribe_generation headers decoded = elim (authenticate to_str state headers) [
    | err response ↦ response
    | ok api_key ↦ subscribe_decoded decoded
  ]
