-- ===== src/Frontend/Handlers/Refusals.antt =====
-- That the errors of crates/inference-frontend/src/main.rs are answered with no success, from the
-- checks of a request to the collection of its results.
use inference_data_plane.Prelude.{
  ℕ, ◌≢◌, Option, none, some, List, [], ◌∷◌, ◌++◌, Bool-cases, Option-cases, inl, inr, arith,
  Result, ok, err, ◌>>=◌, map_err, if◌then◌else◌,
}
use inference_data_plane.Text.{Text}
use inference_data_plane.Streams.Wire.{GenerateRequest, attempt_started, token, completed, failed}
use inference_data_plane.Budget.{BudgetDecision, approx_token_counter, decide_budget}
use inference_data_plane.Streams.Quota.{QuotaReservation}
use inference_data_plane.Streams.Quota.Client.{QuotaError}
use inference_data_plane.Frontend.{
  AppState, Response, success, bad_request, bad_gateway, HeaderMap, error_response, contains,
  bearer_token, authenticate, request_prompt,
}
use inference_data_plane.Frontend.Admit.{
  Services, Checked, check, check_model, check_budget, budget_request, budget_error_text,
  after_publish, after_reserve, after_check, admit_and_dispatch,
}
use inference_data_plane.Frontend.Generate.{Reply, Collected, restarts, collect_loop}
use inference_data_plane.Frontend.Handlers.{admitted}

-- The error, if there is one, is no success.
abbrev pub Refuses : {A : Type 0} → Result Response A → Type 0
Refuses (ok a) = Unit {0}
Refuses (err response) = response.status ≢ success

Refuses-bind :
    {A B : Type 0} (m : Result Response A) (f : A → Result Response B)
    → Refuses m
    → ((a : A) → Refuses (f a))
    → Refuses (m >>= f)
Refuses-bind (ok a) f h k = k a
Refuses-bind (err response) f h k = h

Refuses-map_err :
    {E A : Type 0} (m : Result E A) (f : E → Response)
    → ((e : E) → (f e).status ≢ success)
    → Refuses (map_err f m)
Refuses-map_err (ok a) f h = tt
Refuses-map_err (err e) f h = h e

module _ (S : Services) (state : AppState) where
  check_model-Refuses : (request : GenerateRequest) → Refuses (check_model S state request)
  unfolding check_model error_response
  check_model-Refuses request = ground arith

  authenticate-Refuses : (headers : HeaderMap) → Refuses (authenticate S.to_str state headers)
  unfolding authenticate error_response
  authenticate-Refuses headers = elim (Option-cases (bearer_token S.to_str headers)) [
    | inl missing ↦ rw missing (λ h. cc)
    | inr (t, given) ↦
        rw given (elim (Bool-cases (contains state.api_keys t)) [
          | inl h ↦ rw h tt
          | inr h ↦ rw h (λ e. cc)
        ])
  ]

  check_budget-Refuses : (decision : BudgetDecision) → Refuses (check_budget S state decision)
  unfolding check_budget error_response
  check_budget-Refuses decision = elim (Bool-cases decision.admitted) [
    | inl h ↦ rw h tt
    | inr h ↦ rw h (λ e. cc)
  ]

  check-Refuses :
      (headers : HeaderMap) (request : GenerateRequest) → Refuses (check S state headers request)
  unfolding check error_response
  check-Refuses headers request =
      Refuses-bind (authenticate S.to_str state headers) _ (authenticate-Refuses headers) λ key.
        Refuses-bind (map_err (error_response bad_request) (request_prompt request)) _
          (Refuses-map_err (request_prompt request) (error_response bad_request) (λ e h. cc))
          λ prompt.
            Refuses-bind (check_model S state request) _ (check_model-Refuses request) λ model.
              Refuses-bind
                (map_err (λ e. error_response bad_request (budget_error_text e))
                  (decide_budget approx_token_counter (budget_request state request model prompt)))
                _
                (Refuses-map_err
                  (decide_budget approx_token_counter (budget_request state request model prompt))
                  (λ e. error_response bad_request (budget_error_text e)) (λ e h. cc))
                λ decision.
                  Refuses-bind (check_budget S state decision) _ (check_budget-Refuses decision)
                    λ budget. tt

  publish-Refuses :
      (c : Checked) (id reservation : Text) (s : Result Text Text × S.World)
      → Refuses (after_publish S state c id reservation s).0
  unfolding after_publish error_response
  publish-Refuses c id reservation (ok entry_id, w) = tt
  publish-Refuses c id reservation (err e, w) = λ h. cc

  reserve-Refuses :
      (request : GenerateRequest) (c : Checked) (unix_ms : ℕ) (id : Text)
      (s : Result QuotaError QuotaReservation × S.World)
      → Refuses (after_reserve S state request c unix_ms id s).0
  unfolding after_reserve error_response
  reserve-Refuses request c unix_ms id (ok r, w) = publish-Refuses c id r.id _
  reserve-Refuses request c unix_ms id (err e, w) = λ h. cc

  admit-Refuses :
      (headers : HeaderMap) (request : GenerateRequest) (unix_ms : ℕ) (id : Text) (w : S.World)
      → Refuses (admit_and_dispatch S state headers request unix_ms id w).0
  unfolding admit_and_dispatch
  admit-Refuses headers request unix_ms id w =
      checked (check S state headers request) (check-Refuses headers request)
    where
      checked :
          (r : Result Response Checked)
          → Refuses r
          → Refuses (after_check S state request unix_ms id r w).0
      checked (ok c) h = reserve-Refuses request c unix_ms id _
      checked (err response) h = h

  pub admitted-Refuses :
      (headers : HeaderMap) (unix_ms : ℕ) (id : Text) (decoded : Result Text GenerateRequest)
      (w : S.World)
      → Refuses (admitted S state headers unix_ms id decoded w).0
  unfolding admitted error_response
  admitted-Refuses headers unix_ms id (ok request) w = admit-Refuses headers request unix_ms id w
  admitted-Refuses headers unix_ms id (err e) w = λ h. cc

-- The answer of the loop, if it is an error, is no success.
abbrev pub LoopRefuses : Option (Result Response Collected) → Type 0
LoopRefuses none = Unit {0}
LoopRefuses (some r) = Refuses r

pub collect_loop-Refuses :
    (replies : List Reply) (text current : Text) → LoopRefuses (collect_loop text current replies)
unfolding collect_loop error_response
collect_loop-Refuses [] text current = tt
collect_loop-Refuses (err e ∷ rest) text current = λ h. cc
collect_loop-Refuses (ok none ∷ rest) text current = λ h. cc
collect_loop-Refuses (ok (some entry) ∷ rest) text current =
    elim entry.result.event
      as (λ event. LoopRefuses (elim event [
        | none ↦ collect_loop text current rest
        | some attempt_started ↦
            collect_loop (if restarts current entry.result.attempt_id then [] else text)
              entry.result.attempt_id rest
        | some (token chunk) ↦ collect_loop (text ++ chunk.text) current rest
        | some (completed done) ↦ some (
            ok (record {
              text = text;
              generated_tokens = done.generated_tokens;
              finish_reason = done.finish_reason;
            }))
        | some (failed failure) ↦ some (err (error_response bad_gateway failure.message))
      ])) [
        | none ↦ collect_loop-Refuses rest text current
        | some attempt_started ↦ collect_loop-Refuses rest _ entry.result.attempt_id
        | some (token chunk) ↦ collect_loop-Refuses rest (text ++ chunk.text) current
        | some (completed done) ↦ tt
        | some (failed failure) ↦ λ h. cc
      ]
