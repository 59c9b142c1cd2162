-- ===== src/Frontend/Admit/Dispatch.antt =====
-- What `admit_and_dispatch` of crates/inference-frontend/src/main.rs leaves behind: the reservations
-- that are held and the jobs that are queued, when the broker's calls do what they say.
use inference_data_plane.Prelude.{
  ℕ, zero, suc, min, unwrap_or, then_some, ltb, add_u64, Option, none, some, ◌+◌, ◌≤◌, ◌≡◌, refl,
  sym, ap, ◌∙◌, true, List, ◌∷◌, arith, Result, ok, err, map_err, Result-cases, Bool-cases, subst,
  bind-eq-ok, map_err-eq-ok, ok-injective, inl, inr,
}
use inference_data_plane.Text.{Text, text_beq_iff}
use inference_data_plane.Budget.{
  BudgetDecision, BudgetRequest, Prompt, strict_reject, approx_token_counter, count_prompt,
  by_policy, strict_decision, requested_tokens, decide_budget,
}
use inference_data_plane.Budget.Policies.{InRange, decide_budget-IsSound}
use inference_data_plane.Streams.Wire.{GenerateRequest, GenerationJob}
use inference_data_plane.Streams.Quota.{QuotaLimits, QuotaReservation}
use inference_data_plane.Streams.Quota.Client.{QuotaError}
use inference_data_plane.Frontend.{
  AppState, Response, error_response, bad_request, HeaderMap, contains, authenticate,
  request_prompt,
}
use inference_data_plane.Frontend.Requests.{authenticate-ok_iff}
use inference_data_plane.Frontend.Admit.{
  Admission, Services, Checked, check, check_model, check_budget, budget_request, budget_error_text,
  job, after_publish, after_reserve, after_check, admit_and_dispatch,
}

-- A broker whose failing calls change nothing, but for a publication, which may have been queued
-- before it failed; and whose cancellation of a reservation that is held succeeds.
pub record Reliable (S : Services) : Type 0 where
  pub held : S.World → List Text
  pub queued : S.World → List GenerationJob
  pub reserve-granted :
      (key : Text) (p g : ℕ) (limits : QuotaLimits) (w w' : S.World) (r : QuotaReservation)
      → S.reserve_quota key p g limits w ≡ (ok r, w')
      → (held w' ≡ r.id ∷ held w) × (queued w' ≡ queued w)
  pub reserve-refused :
      (key : Text) (p g : ℕ) (limits : QuotaLimits) (w w' : S.World) (e : QuotaError)
      → S.reserve_quota key p g limits w ≡ (err e, w')
      → held w' ≡ held w
  pub publish-queued :
      (j : GenerationJob) (w w' : S.World) (entry_id : Text)
      → S.publish_generation j w ≡ (ok entry_id, w')
      → (queued w' ≡ j ∷ queued w) × (held w' ≡ held w)
  pub publish-failed :
      (j : GenerationJob) (w w' : S.World) (e : Text)
      → S.publish_generation j w ≡ (err e, w')
      → held w' ≡ held w
  pub cancel-released :
      (id : Text) (rest : List Text) (w : S.World)
      → held w ≡ id ∷ rest
      → held ((S.cancel_quota id w).1) ≡ rest

-- No output is asked for by a zero.
abbrev pub asked_output : ℕ → Option ℕ
asked_output zero = none
asked_output (suc n) = some (suc n)

abbrev pub output_or : ℕ → ℕ → ℕ
output_or zero default = default
output_or (suc n) default = suc n

asked_output-or : (n default : ℕ) → unwrap_or (asked_output n) default ≡ output_or n default
asked_output-or zero default = refl
asked_output-or (suc n) default = refl

then_some-asked : (n : ℕ) → then_some (ltb 0 n) n ≡ asked_output n
then_some-asked zero = refl
then_some-asked (suc n) = ground arith

-- An admitted decision under the strict policy.
strict-admitted :
    (r : BudgetRequest) (d : BudgetDecision)
    → r.policy ≡ strict_reject
    → decide_budget approx_token_counter r ≡ ok d
    → d.admitted ≡ true
    → (d.prompt ≡ r.prompt)
      × (d.prompt_tokens ≡ count_prompt r.prompt)
      × (d.requested_max_tokens
          ≡ min
              (unwrap_or r.requested_max_tokens r.model.default_max_tokens)
              r.model.max_output_tokens)
      × (d.admitted_max_tokens ≡ d.requested_max_tokens)
      × (add_u64 (count_prompt r.prompt) d.requested_max_tokens ≤ r.model.context_limit)
unfolding decide_budget by_policy strict_decision requested_tokens
strict-admitted r d p h admitted = ground (arith, p, h, admitted)

module _ (S : Services) (state : AppState) where
  -- The request to the budget that the served model and the asked output make, under the strict
  -- policy.
  abbrev pub strict_request : GenerateRequest → Prompt → BudgetRequest
  strict_request request prompt = record {
    prompt = prompt;
    requested_max_tokens = asked_output request.max_tokens;
    policy = strict_reject;
    model = record {
      model = state.model.id;
      context_limit = state.model.context_limit;
      default_max_tokens = state.model.default_max_tokens;
      max_output_tokens = state.model.max_output_tokens;
    };
  }

  -- What the checks promise of a request that passes them.
  pub record IsChecked (request : GenerateRequest) (c : Checked) : Type 0 where
    pub allowed : contains state.api_keys c.api_key ≡ true
    pub registered : c.model ≡ state.model.id
    pub admitted : c.budget.admitted ≡ true
    pub prompt : Prompt
    pub asked : request_prompt request ≡ ok prompt
    pub decided : decide_budget approx_token_counter (strict_request request prompt) ≡ ok c.budget
    pub whole : c.budget.prompt ≡ prompt
    pub counted : c.budget.prompt_tokens ≡ count_prompt prompt
    pub requested :
        c.budget.requested_max_tokens
        ≡ min
            (output_or request.max_tokens state.model.default_max_tokens)
            state.model.max_output_tokens
    pub granted : c.budget.admitted_max_tokens ≡ c.budget.requested_max_tokens
    pub has_room :
        add_u64 (count_prompt prompt) c.budget.requested_max_tokens ≤ state.model.context_limit

  budget_request-eq-strict :
      (request : GenerateRequest) (model : Text) (prompt : Prompt)
      → model ≡ state.model.id
      → budget_request state request model prompt ≡ strict_request request prompt
  unfolding budget_request
  budget_request-eq-strict request model prompt h = rw (h, then_some-asked request.max_tokens) refl

  check_model_ok :
      (request : GenerateRequest) (model : Text)
      → check_model S state request ≡ ok model
      → model ≡ state.model.id
  unfolding check_model
  check_model_ok request model h =
      ground (
        arith,
        text_beq_iff request.model state.model.id,
        text_beq_iff state.model.id state.model.id,
      )

  check_budget_ok :
      (b c : BudgetDecision) → check_budget S state b ≡ ok c → (b ≡ c) × (c.admitted ≡ true)
  unfolding check_budget
  check_budget_ok b c h = elim (Bool-cases b.admitted) [
    | inl admitted ↦
        let passes : check_budget S state b ≡ ok b = ground (arith, admitted) in
        let same = ok-injective (sym passes ∙ h) in
        (same, subst (λ x. x.admitted ≡ true) same admitted)
    | inr refused ↦ ground (arith, refused)
  ]

  pub check-IsChecked :
      (headers : HeaderMap) (request : GenerateRequest) (c : Checked)
      → check S state headers request ≡ ok c
      → IsChecked request c
  unfolding check
  check-IsChecked headers request c h =
      let (api_key, known, h1) = bind-eq-ok (authenticate S.to_str state headers) _ c h in
      let (prompt, has_prompt, h2) =
        bind-eq-ok (map_err (error_response bad_request) (request_prompt request)) _ c h1 in
      let (model, registered, h3) = bind-eq-ok (check_model S state request) _ c h2 in
      let (decision, decided, h4) =
        bind-eq-ok
          (map_err (λ e. error_response bad_request (budget_error_text e))
            (decide_budget approx_token_counter (budget_request state request model prompt)))
          _ c h3 in
      let (budget, admitted, h5) = bind-eq-ok (check_budget S state decision) _ c h4 in
      let served = check_model_ok request model registered in
      let (same, admits) = check_budget_ok decision budget admitted in
      let strict : decide_budget approx_token_counter (strict_request request prompt) ≡ ok budget =
        ap (decide_budget approx_token_counter)
          (sym (budget_request-eq-strict request model prompt served))
        ∙ map_err-eq-ok _ _ _ decided
        ∙ ap ok same in
      let (whole, counted, requested, granted, has_room) =
        strict-admitted (strict_request request prompt) budget refl strict admits in
      subst (IsChecked request) (ok-injective h5) (record {
        allowed = ((authenticate-ok_iff S.to_str state headers api_key).0 known).1;
        registered = served;
        admitted = admits;
        prompt = prompt;
        asked = map_err-eq-ok _ _ _ has_prompt;
        decided = strict;
        whole = whole;
        counted = counted;
        requested =
            requested ∙ rw (asked_output-or request.max_tokens state.model.default_max_tokens) refl;
        granted = granted;
        has_room = has_room;
      })

  -- The prompt and the output that the frontend reserves and asks the model for fit its context,
  -- for a prompt whose count is positive and does not wrap around with the output.
  pub check-fits :
      (request : GenerateRequest) (c : Checked)
      → IsChecked request c
      → InRange approx_token_counter c.budget
      → c.budget.prompt_tokens + c.budget.admitted_max_tokens ≤ state.model.context_limit
  check-fits request c k r =
      (decide_budget-IsSound approx_token_counter (strict_request request k.prompt) c.budget
          k.decided r).fits
        k.admitted

  module _ (R : Reliable S) where
    -- A request that is admitted holds one more reservation, the one that it names, and queued one
    -- more job, its own; every other holds none.
    abbrev pub Outcome : S.World → Result Response Admission × S.World → Type 0
    Outcome w (ok a, after) =
        (R.held after ≡ a.reservation_id ∷ R.held w)
        × (j : GenerationJob) × (R.queued after ≡ j ∷ R.queued w)
        × (j.reservation_id ≡ a.reservation_id)
        × (j.request_id ≡ a.request_id)
        × (j.model_id ≡ state.model.id)
    Outcome w (err response, after) = R.held after ≡ R.held w

    after_publish-Outcome :
        (request : GenerateRequest) (c : Checked) (unix_ms : ℕ) (request_id rid : Text)
        (w0 w : S.World) (sent : Result Text Text × S.World)
        → IsChecked request c
        → (R.held w ≡ rid ∷ R.held w0) × (R.queued w ≡ R.queued w0)
        → S.publish_generation (job S state request c unix_ms request_id rid) w ≡ sent
        → Outcome w0 (after_publish S state c request_id rid sent)
    unfolding after_publish job
    after_publish-Outcome request c unix_ms request_id rid w0 w (ok entry_id, w') k h e =
        let (queued, held) = R.publish-queued _ w w' entry_id e in
        (
          held ∙ h.0,
          job S state request c unix_ms request_id rid,
          queued ∙ ap (◌∷◌ (job S state request c unix_ms request_id rid)) h.1,
          refl,
          refl,
          k.registered,
        )
    after_publish-Outcome request c unix_ms request_id rid w0 w (err x, w') k h e =
        R.cancel-released rid (R.held w0) w' (R.publish-failed _ w w' x e ∙ h.0)

    after_reserve-Outcome :
        (request : GenerateRequest) (c : Checked) (unix_ms : ℕ) (request_id : Text) (w : S.World)
        (sent : Result QuotaError QuotaReservation × S.World)
        → IsChecked request c
        → S.reserve_quota c.api_key c.budget.prompt_tokens c.budget.admitted_max_tokens state.quota
            w
          ≡ sent
        → Outcome w (after_reserve S state request c unix_ms request_id sent)
    unfolding after_reserve
    after_reserve-Outcome request c unix_ms request_id w (ok r, w') k e =
        after_publish-Outcome request c unix_ms request_id r.id w w' _ k
          (R.reserve-granted _ _ _ _ w w' r e) refl
    after_reserve-Outcome request c unix_ms request_id w (err x, w') k e =
        R.reserve-refused _ _ _ _ w w' x e

    -- With a reliable broker, an admitted request leaves exactly one more reservation held, the one
    -- that the admission names, and exactly one more job queued, with that reservation, that
    -- request and the served model; a request that gets an error response leaves no reservation
    -- held, also when its job could not be published.
    pub admit_and_dispatch-Outcome :
        (headers : HeaderMap) (request : GenerateRequest) (unix_ms : ℕ) (request_id : Text)
        (w : S.World)
        → Outcome w (admit_and_dispatch S state headers request unix_ms request_id w)
    unfolding admit_and_dispatch after_check
    admit_and_dispatch-Outcome headers request unix_ms request_id w =
        elim (Result-cases (check S state headers request)) [
          | inl (c, passes) ↦ rw passes (
              after_reserve-Outcome request c unix_ms request_id w _
                (check-IsChecked headers request c passes) refl)
          | inr (response, fails) ↦ rw fails refl
        ]
