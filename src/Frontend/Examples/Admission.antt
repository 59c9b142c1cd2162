-- ===== src/Frontend/Examples/Admission.antt =====
-- `admit_and_dispatch` of crates/inference-frontend/src/main.rs with a broker that remembers what it
-- was asked.
use inference_data_plane.Prelude.{
  ◌≡◌, refl, sym, ap, ok-injective, ok-ne-err, Bool, true, false, some, List, [], ◌∷◌, Result, ok,
  err, if◌then◌else◌,
}
use inference_data_plane.Text.{Text, codes, text_eq, text_beq, text_beq_iff}
use inference_data_plane.Budget.{
  ChatMessage, chat, BudgetDecision, strict_decision, approx_token_counter,
}
use inference_data_plane.Streams.Wire.{GenerateRequest, GenerationJob}
use inference_data_plane.Frontend.{AppState, ModelConfig, HeaderMap, header_text, valid_stream_id}
use inference_data_plane.Frontend.Admit.{Services, Checked, budget_request, admit_and_dispatch}
use inference_data_plane.Frontend.Admit.Dispatch.{Reliable, Outcome, admit_and_dispatch-Outcome}
use inference_data_plane.Frontend.Examples.{bearer, served}

pub record Ledger : Type 0 where
  held : List Text
  queued : List GenerationJob
  down : Bool

abbrev pub without : Text → List Text → List Text
without id [] = []
without id (k ∷ ks) = if text_beq id k then ks else k ∷ without id ks

unfoldable pub publish_when : GenerationJob → Ledger → Bool → Result Text Text × Ledger
publish_when j w true = (err (codes "down"), w)
publish_when j w false = (ok (codes "1-0"), record w { queued = j ∷ w.queued })

abbrev pub ledger_services : Services
ledger_services = record {
  World = Ledger;
  reserve_quota = λ key p g limits w. (
    ok (record {
      id = codes "res";
      remaining_requests = 0;
      remaining_prompt_tokens = 0;
      remaining_generated_tokens = 0;
    }),
    record w { held = codes "res" ∷ w.held },
  );
  cancel_quota = λ id w. (ok tt, record w { held = without id w.held });
  publish_generation = λ j w. publish_when j w w.down;
  redis_text = λ e. [];
  to_json = λ r. r.model;
  sha256_hex = λ t. t;
  to_str = some;
}

published :
    (j : GenerationJob) (w w' : Ledger) (entry_id : Text) (down : Bool)
    → publish_when j w down ≡ (ok entry_id, w')
    → (w'.queued ≡ j ∷ w.queued) × (w'.held ≡ w.held)
unfolding publish_when
published j w w' entry_id true h = absurd (ok-ne-err (sym (ap (λ x. x.0) h)))
published j w w' entry_id false h =
    let after : record w { queued = j ∷ w.queued } ≡ w' = ap (λ x. x.1) h in
    (rw (← after) refl, rw (← after) refl)

not_published :
    (j : GenerationJob) (w w' : Ledger) (e : Text) (down : Bool)
    → publish_when j w down ≡ (err e, w')
    → w'.held ≡ w.held
unfolding publish_when
not_published j w w' e true h = let after : w ≡ w' = ap (λ x. x.1) h in rw (← after) refl
not_published j w w' e false h = absurd (ok-ne-err (ap (λ x. x.0) h))

ledger-Reliable : Reliable ledger_services
ledger-Reliable = record {
  held = λ w. w.held;
  queued = λ w. w.queued;
  reserve-granted = λ key p g limits w w' r h.
      let reservation = ok-injective (ap (λ x. x.0) h) in
      let after : record w { held = codes "res" ∷ w.held } ≡ w' = ap (λ x. x.1) h in
      (rw (← after, ← reservation) refl, rw (← after) refl);
  reserve-refused = λ key p g limits w w' e h. absurd (ok-ne-err (ap (λ x. x.0) h));
  publish-queued = λ j w w' entry_id h. published j w w' entry_id w.down h;
  publish-failed = λ j w w' e h. not_published j w w' e w.down h;
  cancel-released = λ id rest w h. rw (h, (text_beq_iff id id).1 refl) refl;
}

abbrev pub hello : GenerateRequest
hello = record {
  model = [];
  messages = record { role = codes "user"; content = codes "hello" } ∷ [];
  prompt = [];
  max_tokens = 16;
  temperature = 0;
}

abbrev pub broker_down : Ledger
broker_down = record { held = []; queued = []; down = true }

admit_and_dispatch-Outcome_example :
    Outcome ledger_services served ledger-Reliable broker_down
      (admit_and_dispatch ledger_services served bearer hello 0 (codes "r") broker_down)
admit_and_dispatch-Outcome_example =
    admit_and_dispatch-Outcome ledger_services served ledger-Reliable bearer hello 0 (codes "r")
      broker_down

abbrev checked_budget : BudgetDecision
checked_budget =
    strict_decision approx_token_counter
      (budget_request served hello (codes "m") (chat hello.messages)) 16

abbrev hello_checked : Checked
hello_checked = record { api_key = codes "key"; model = codes "m"; budget = checked_budget }
