-- ===== src/Frontend/Admit.antt =====
-- `admit_and_dispatch` of crates/inference-frontend/src/main.rs. The calls of the Streams client, the
-- hash and the JSON encoding are an interface; the clock and the fresh identifier are arguments.
pub mod Dispatch
use inference_data_plane.Prelude.{
  ℕ, ◌+◌, ◌<◌, ◌≡◌, Bool, true, false, ◌&&◌, Option, none, some, List, [], ◌∷◌, ◌++◌, map, is_empty,
  ltb, then_some, unwrap_or, add_u64, Result, ok, err, map_err, ◌>>=◌, if◌then◌else◌,
}
use inference_data_plane.Text.{Text, codes, text_beq}
use inference_data_plane.Budget.{
  ChatMessage, ModelBudget, strict_reject, BudgetRequest, BudgetDecision, BudgetError,
  invalid_context_limit, invalid_max_output_tokens, approx_token_counter, decide_budget, Prompt,
}
use inference_data_plane.Streams.Wire.{GenerateRequest, GenerationJob, CacheMetadata}
use inference_data_plane.Streams.Transport.{RedisError}
use inference_data_plane.Streams.Quota.{QuotaLimits, QuotaReservation}
use inference_data_plane.Streams.Quota.Client.{
  QuotaError, requests, prompt_tokens, generated_tokens, broker,
}
use inference_data_plane.Frontend.{
  AppState, Response, error_response, bad_request, not_found, too_many_requests, bad_gateway,
  HeaderMap, authenticate, request_prompt, prompt_prefix,
}

pub record RuntimeRequest : Type 0 where
  pub model : Text
  pub messages : Option (List ChatMessage)
  pub prompt : Option Text
  pub max_tokens : ℕ
  pub temperature : ℕ
  pub stream : Bool

pub record Admission : Type 0 where
  pub request_id : Text
  pub request_entry_id : Text
  pub reservation_id : Text
  pub prompt_tokens : ℕ

pub record Services : Type 1 where
  pub World : Type 0
  pub reserve_quota :
      Text → ℕ → ℕ → QuotaLimits → World → Result QuotaError QuotaReservation × World
  pub cancel_quota : Text → World → Result RedisError (Unit {0}) × World
  pub publish_generation : GenerationJob → World → Result Text Text × World
  pub redis_text : RedisError → Text
  pub to_json : RuntimeRequest → List ℕ
  pub sha256_hex : Text → Text
  pub to_str : List ℕ → Option Text

-- `impl Display for BudgetError`
unfoldable pub budget_error_text : BudgetError → Text
unfolding codes
budget_error_text invalid_context_limit = codes "model context limit must be greater than zero"
budget_error_text invalid_max_output_tokens =
    codes "model max output tokens must be greater than zero"

abbrev pub schema_version : ℕ
schema_version = 1

-- `(request.max_tokens > 0).then_some(..)`, the policy of the frontend and its model.
unfoldable pub budget_request : AppState → GenerateRequest → Text → Prompt → BudgetRequest
budget_request state request model prompt = record {
  prompt = prompt;
  requested_max_tokens = then_some (ltb 0 request.max_tokens) request.max_tokens;
  policy = strict_reject;
  model = record {
    model = model;
    context_limit = state.model.context_limit;
    default_max_tokens = state.model.default_max_tokens;
    max_output_tokens = state.model.max_output_tokens;
  };
}

-- What the checks before the first call to the broker decide.
pub record Checked : Type 0 where
  pub api_key : Text
  pub model : Text
  pub budget : BudgetDecision

module _ (S : Services) (state : AppState) where
  open S use {World}

  unfoldable pub check_model : GenerateRequest → Result Response Text
  unfolding codes error_response
  check_model request =
      let model = if is_empty request.model then state.model.id else request.model in
      if text_beq model state.model.id
      then ok model
      else err (error_response not_found (codes "model is not registered"))

  unfoldable pub check_budget : BudgetDecision → Result Response BudgetDecision
  unfolding error_response
  check_budget budget =
      if budget.admitted then ok budget else err (error_response bad_request budget.reason)

  unfoldable pub check : HeaderMap → GenerateRequest → Result Response Checked
  unfolding authenticate request_prompt check_model budget_request check_budget error_response
      budget_error_text
  check headers request = do
    api_key ← authenticate S.to_str state headers
    prompt ← map_err (error_response bad_request) (request_prompt request)
    model ← check_model request
    decision ←
        map_err (λ e. error_response bad_request (budget_error_text e))
          (decide_budget approx_token_counter (budget_request state request model prompt))
    budget ← check_budget decision
    ok (record { api_key = api_key; model = model; budget = budget })

  -- `impl Display for QuotaError`
  unfoldable pub quota_error_text : QuotaError → Text
  unfolding codes
  quota_error_text requests = codes "request quota exceeded"
  quota_error_text prompt_tokens = codes "prompt-token quota exceeded"
  quota_error_text generated_tokens = codes "generated-token quota exceeded"
  quota_error_text (broker e) = S.redis_text e

  unfoldable pub cache_key : Text → Text → Text
  unfolding codes
  cache_key model prefix = codes "sha256:" ++ S.sha256_hex (model ++ 0 ∷ prefix)

  unfoldable pub runtime_request : GenerateRequest → Checked → RuntimeRequest
  runtime_request request c = record {
    model = c.model;
    messages = if is_empty request.messages then none else some request.messages;
    prompt = if is_empty request.prompt then none else some request.prompt;
    max_tokens = c.budget.admitted_max_tokens;
    temperature = request.temperature;
    stream = true;
  }

  unfoldable pub job : GenerateRequest → Checked → ℕ → Text → Text → GenerationJob
  unfolding runtime_request cache_key prompt_prefix
  job request c unix_ms request_id reservation_id = record {
    schema_version = schema_version;
    request_id = request_id;
    model_id = c.model;
    model_revision = state.model.revision;
    model_endpoint = state.model.endpoint;
    request_json = S.to_json (runtime_request request c);
    deadline_unix_ms = add_u64 unix_ms state.generation_timeout;
    reservation_id = reservation_id;
    cache = some (record {
      cache_key = cache_key c.model (prompt_prefix request);
      prefix_tokens_estimate = c.budget.prompt_tokens;
    });
  }

  -- The result of `publish_generation`: on an error the reservation is cancelled, and what the
  -- cancellation says is dropped.
  unfoldable pub after_publish :
      Checked → Text → Text → Result Text Text × World → Result Response Admission × World
  unfolding error_response codes
  after_publish c request_id reservation_id (ok entry_id, w) = (
    ok (record {
      request_id = request_id;
      request_entry_id = entry_id;
      reservation_id = reservation_id;
      prompt_tokens = c.budget.prompt_tokens;
    }),
    w,
  )
  after_publish c request_id reservation_id (err e, w) = (
    err (error_response bad_gateway (codes "failed to dispatch generation")),
    (S.cancel_quota reservation_id w).1,
  )

  unfoldable pub after_reserve :
      GenerateRequest
      → Checked
      → ℕ
      → Text
      → Result QuotaError QuotaReservation × World
      → Result Response Admission × World
  unfolding after_publish job error_response quota_error_text
  after_reserve request c unix_ms request_id (ok r, w) =
      after_publish c request_id r.id
        (S.publish_generation (job request c unix_ms request_id r.id) w)
  after_reserve request c unix_ms request_id (err e, w) =
      (err (error_response too_many_requests (quota_error_text e)), w)

  unfoldable pub after_check :
      GenerateRequest
      → ℕ
      → Text
      → Result Response Checked
      → World
      → Result Response Admission × World
  unfolding after_reserve
  after_check request unix_ms request_id (ok c) w =
      after_reserve request c unix_ms request_id (
        S.reserve_quota c.api_key c.budget.prompt_tokens c.budget.admitted_max_tokens state.quota w)
  after_check request unix_ms request_id (err response) w = (err response, w)

  unfoldable pub admit_and_dispatch :
      HeaderMap → GenerateRequest → ℕ → Text → World → Result Response Admission × World
  unfolding after_check check
  admit_and_dispatch headers request unix_ms request_id w =
      after_check request unix_ms request_id (check headers request) w
