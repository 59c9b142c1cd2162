-- ===== src/Frontend.antt =====
-- crates/inference-frontend/src/main.rs: who is let in, and what a request asks for. The HTTP
-- library's decoding of a header value is a parameter.
pub mod Envelope
pub mod Requests
pub mod Admit
pub mod Generate
pub mod Handlers
pub mod Examples
use inference_data_plane.Prelude.{
  ℕ, String, ◌≡◌, Bool, true, false, ◌&&◌, ◌||◌, Option, none, some, List, [], ◌∷◌, ◌++◌, map, take,
  is_empty, is_some, lookup, Result, ok, err, ok_or, ◌>>=◌, if◌then◌else◌,
}
use inference_data_plane.Text.{Text, codes, text_beq, text_eq}
use inference_data_plane.Text.Split.{split_once, strip_prefix, join}
use inference_data_plane.Text.Decimal.{parse_u64}
use inference_data_plane.Budget.{ChatMessage, Prompt, text, chat}
use inference_data_plane.Streams.Wire.{GenerateRequest}
use inference_data_plane.Streams.Quota.{QuotaLimits}

pub record ModelConfig : Type 0 where
  pub id : Text
  pub revision : Text
  pub endpoint : Text
  pub tokenizer_id : Text
  pub tokenizer_revision : Text
  pub context_limit : ℕ
  pub default_max_tokens : ℕ
  pub max_output_tokens : ℕ

-- `AppState`, without the client of the broker; the timeout is in milliseconds.
pub record AppState : Type 0 where
  pub model : ModelConfig
  pub api_keys : List Text
  pub quota : QuotaLimits
  pub generation_timeout : ℕ

pub data StatusCode : Type 0 where
  success bad_request unauthorized forbidden not_found too_many_requests bad_gateway
        gateway_timeout :
      StatusCode

-- `ErrorBody` and the `ErrorMessage` in it.
pub record ErrorMessage : Type 0 where
  pub message : Text
  pub kind : Text

-- A JSON error, one protobuf message, or the envelopes of a stream.
pub data Body : Type 0 where
  json : ErrorMessage → Body
  proto : List ℕ → Body
  envelopes : List (List ℕ) → Body

pub record Response : Type 0 where
  pub status : StatusCode
  pub headers : List (Text × Text)
  pub body : Body

unfoldable pub error_response : StatusCode → Text → Response
unfolding codes
error_response status message = record {
  status = status;
  headers = [];
  body = json (record { message = message; kind = codes "inference_error" });
}

abbrev pub HeaderMap : Type 0
HeaderMap = List (Text × List ℕ)

-- `HashSet::contains`
unfoldable pub contains : List Text → Text → Bool
unfolding text_beq
contains [] t = false
contains (k ∷ keys) t = text_beq k t || contains keys t

module _ (to_str : List ℕ → Option Text) where
  pub strip_bearer : Option Text → Option Text
  unfolding codes strip_prefix
  strip_bearer none = none
  strip_bearer (some value) = strip_prefix (codes "Bearer ") value

  pub header_text : Option (List ℕ) → Option Text
  header_text none = none
  header_text (some bytes) = to_str bytes

  unfoldable pub bearer_token : HeaderMap → Option Text
  unfolding strip_bearer header_text codes
  bearer_token headers = strip_bearer (header_text (lookup (codes "authorization") headers))

  unfoldable pub authenticate : AppState → HeaderMap → Result Response Text
  unfolding bearer_token error_response contains codes
  authenticate state headers =
      ok_or (bearer_token headers) (error_response unauthorized (codes "missing bearer token"))
      >>= λ token.
          if contains state.api_keys token
          then ok token
          else err (error_response forbidden (codes "invalid API key"))

unfoldable pub request_prompt : GenerateRequest → Result Text Prompt
unfolding codes
request_prompt request =
    if is_empty request.messages
    then if is_empty request.prompt
      then err (codes "either messages or prompt is required")
      else ok (text request.prompt)
    else ok (chat request.messages)

-- `format!("{}\n{}", message.role, message.content)`
unfoldable pub message_lines : ChatMessage → Text
message_lines m = m.role ++ 10 ∷ m.content

unfoldable pub prompt_prefix : GenerateRequest → Text
unfolding join message_lines take
prompt_prefix request = take 4096 (
    if is_empty request.messages
    then request.prompt
    else join (10 ∷ []) (map message_lines request.messages))

both_parse : Option (Text × Text) → Bool
unfolding parse_u64
both_parse none = false
both_parse (some (milliseconds, sequence)) =
    is_some (parse_u64 milliseconds) && is_some (parse_u64 sequence)

unfoldable pub valid_stream_id : Text → Bool
unfolding both_parse split_once
valid_stream_id value = both_parse (split_once b'-' value)
