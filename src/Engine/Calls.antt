-- ===== src/Engine/Calls.antt =====
-- The calls of the Streams client that crates/inference-engine/src/main.rs makes, each with its
-- reply, as a log that grows with every call, and the rules by which an action is followed.
pub mod Logged
use inference_data_plane.Prelude.{
  ℕ, ◌≡◌, ap, subst, sym, ◌∙◌, Bool, Option, List, [], ◌∷◌, ◌++◌, append_assoc, append-nil, Result,
  ok, err,
}
use inference_data_plane.Prelude.Action.{Action, lift, ◌>>=◌, continue}
use inference_data_plane.Text.{Text}
use inference_data_plane.Streams.Wire.{GenerationResult, GenerationStatus}
use inference_data_plane.Engine.{Client, ModelServer, ChatPayload}

pub data Call : Type 0 where
  published : GenerationResult → Result Text Text → Call
  asked : Text → Result Text (Option GenerationStatus) → Call
  acquired renewed : Text → Text → Result Text Bool → Call
  released : Text → Text → Result Text (Unit {0}) → Call
  reconciled : Text → ℕ → Result Text ℕ → Call
  cancelled : Text → Result Text (Unit {0}) → Call

-- A log of the calls that one task of the engine makes.
pub record CallLog (C : Client) : Type 0 where
  pub calls : C.World → List Call
  pub calls-publish_result :
      (result : GenerationResult) (w : C.World)
      → let (reply, v) = C.publish_result result w in
        calls v ≡ calls w ++ published result reply ∷ []
  pub calls-status :
      (request_id : Text) (w : C.World)
      → let (reply, v) = C.status request_id w in calls v ≡ calls w ++ asked request_id reply ∷ []
  pub calls-acquire_lease :
      (request_id owner : Text) (w : C.World)
      → let (reply, v) = C.acquire_lease request_id owner w in
        calls v ≡ calls w ++ acquired request_id owner reply ∷ []
  pub calls-renew_lease :
      (request_id owner : Text) (w : C.World)
      → let (reply, v) = C.renew_lease request_id owner w in
        calls v ≡ calls w ++ renewed request_id owner reply ∷ []
  pub calls-release_lease :
      (request_id owner : Text) (w : C.World)
      → let (reply, v) = C.release_lease request_id owner w in
        calls v ≡ calls w ++ released request_id owner reply ∷ []
  pub calls-reconcile_quota :
      (id : Text) (n : ℕ) (w : C.World)
      → let (reply, v) = C.reconcile_quota id n w in calls v ≡ calls w ++ reconciled id n reply ∷ []
  pub calls-cancel_quota :
      (id : Text) (w : C.World)
      → let (reply, v) = C.cancel_quota id w in calls v ≡ calls w ++ cancelled id reply ∷ []
  pub calls-sleep : (ms : ℕ) (w : C.World) → calls (C.sleep ms w) ≡ calls w

-- The model server is not the broker.
pub record Apart (C : Client) (L : CallLog C) {Value : Type 0} (M : ModelServer Value C.World)
    : Type 0 where
  pub calls-post :
      (url : Text) (body : ChatPayload Value) (w : C.World)
      → L.calls (M.post url body w).1 ≡ L.calls w

module _ {C : Client} (L : CallLog C) where
  open C use {World}
  open L use {calls}

  -- The calls of one run of an action, and what holds of its result and of them.
  pub record Made {A : Type 0} (Q : Result Text A → List Call → Type 0) (w : World)
      (s : Result Text A × World) : Type 0 where
    pub made : List Call
    pub grows : calls s.1 ≡ calls w ++ made
    pub holds : Q s.0 made

  -- What holds of every run.
  abbrev pub Does :
      {A : Type 0} → Action World Text A → (Result Text A → List Call → Type 0) → Type 0
  Does m Q = (w : World) → Made Q w (m w)

  module _ {A : Type 0} {Q : Result Text A → List Call → Type 0} where
    pub Does-lift : (r : Result Text A) → Q r [] → Does (lift r) Q
    Does-lift r h w = record { made = []; grows = sym (append-nil (calls w)); holds = h }

    -- One call.
    pub Does-call :
        (m : Action World Text A) (call : Result Text A → Call)
        → ((w : World) → calls (m w).1 ≡ calls w ++ call (m w).0 ∷ [])
        → ((r : Result Text A) → Q r (call r ∷ []))
        → Does m Q
    Does-call m call log h w = record { made = call (m w).0 ∷ []; grows = log w; holds = h (m w).0 }

    pub Does-weaken :
        {P : Result Text A → List Call → Type 0} (m : Action World Text A)
        → ((r : Result Text A) (cs : List Call) → P r cs → Q r cs)
        → Does m P
        → Does m Q
    Does-weaken m h d w =
        let run = d w in
        record { made = run.made; grows = run.grows; holds = h (m w).0 run.made run.holds }

    -- What holds of one run.
    pub Does-at :
        (m : Action World Text A) (w v : World) (r : Result Text A)
        → Does m Q
        → m w ≡ (r, v)
        → (cs : List Call) × (calls v ≡ calls w ++ cs) × Q r cs
    Does-at m w v r d e =
        let run : Made Q w (r, v) = subst (Made Q w) e (d w) in (run.made, run.grows, run.holds)

  module _ {A B : Type 0} {P : Result Text A → List Call → Type 0}
      {Q : Result Text B → List Call → Type 0} where
    continue-Made :
        (f : A → Action World Text B) (s : Result Text A × World) (w : World)
        → Made P w s
        → ((a : A) (cs : List Call) → P (ok a) cs → Does (f a) (λ r ds. Q r (cs ++ ds)))
        → ((e : Text) (cs : List Call) → P (err e) cs → Q (err e) cs)
        → Made Q w (continue f s)
    continue-Made f (ok a, v) w d h k =
        let run = h a d.made d.holds v in
        record {
          made = d.made ++ run.made;
          grows =
              run.grows ∙ ap (λ l. l ++ run.made) d.grows ∙ append_assoc (calls w) d.made run.made;
          holds = run.holds;
        }
    continue-Made f (err e, v) w d h k = record {
      made = d.made;
      grows = d.grows;
      holds = k e d.made d.holds;
    }

    -- An action and what follows it on success, whose calls come after.
    pub Does-bind :
        (m : Action World Text A) (f : A → Action World Text B)
        → Does m P
        → ((a : A) (cs : List Call) → P (ok a) cs → Does (f a) (λ r ds. Q r (cs ++ ds)))
        → ((e : Text) (cs : List Call) → P (err e) cs → Q (err e) cs)
        → Does (m >>= f) Q
    Does-bind m f d h k w = continue-Made f (m w) w (d w) h k

    -- An action and what follows it on any result.
    pub Does-after :
        (m : Action World Text A) (f : Result Text A → Action World Text B)
        → Does m P
        → ((r : Result Text A) (cs : List Call) → P r cs → Does (f r) (λ s ds. Q s (cs ++ ds)))
        → Does (λ w. let (r, v) = m w in f r v) Q
    Does-after m f d h w =
        let run = d w in
        let after = h (m w).0 run.made run.holds (m w).1 in
        record {
          made = run.made ++ after.made;
          grows =
              after.grows
              ∙ ap (λ l. l ++ after.made) run.grows
              ∙ append_assoc (calls w) run.made after.made;
          holds = after.holds;
        }
