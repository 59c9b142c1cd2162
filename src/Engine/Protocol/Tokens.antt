-- ===== src/Engine/Protocol/Tokens.antt =====
-- Publishing tokens in crates/inference-engine/src/main.rs.
use inference_data_plane.Prelude.{
  ℕ, ◌≡◌, refl, ap, sym, ◌∙◌, some, List, [], ◌∷◌, ◌++◌, append-nil, All, All-append, Result, ok,
  err,
}
use inference_data_plane.Prelude.Action.{Action, pure, lift, ◌>>=◌}
use inference_data_plane.Text.{Text}
use inference_data_plane.Streams.Wire.{GenerationJob, ResultEvent, token, TokenChunk, IsOpenEvent}
use inference_data_plane.Engine.{Client}
use inference_data_plane.Engine.Results.{result_of, token_event, publish_event, publish_token}
use inference_data_plane.Engine.Calls.{
  Call, published, CallLog, Made, Does, Does-lift, Does-call, Does-weaken, Does-bind,
}
use inference_data_plane.Engine.Protocol.{sent, token_calls, IsOpening, opening}

module _ {C : Client} (L : CallLog C) (job : GenerationJob) (attempt_id : Text) where
  open C use {World}

  -- A call of `publish_event` for an event that does not end the generation.
  abbrev pub EventCalls : ResultEvent → Result Text (Unit {0}) → List Call → Type 0
  EventCalls event (ok done) cs = (event_id : Text) × (cs ≡ sent job attempt_id event event_id ∷ [])
  EventCalls event (err e) cs = All (IsOpening job attempt_id) cs

  pub Does-publish_event :
      (event : ResultEvent)
      → IsOpenEvent (some event)
      → Does L (publish_event C job attempt_id event) (EventCalls event)
  unfolding publish_event sent
  Does-publish_event event h =
      Does-bind L {P = λ r cs. cs ≡ published (result_of job attempt_id event) r ∷ []}
        (C.publish_result (result_of job attempt_id event)) (λ event_id. pure tt)
        (Does-call L (C.publish_result (result_of job attempt_id event))
          (published (result_of job attempt_id event))
          (L.calls-publish_result (result_of job attempt_id event)) (λ r. refl))
        (λ event_id cs e. Does-lift L (ok tt) (event_id, append-nil cs ∙ e))
        (λ e cs k. rw k (opening event (err e) h, tt))

  -- Tokens of the attempt only; all of them have arrived when the result is not an error.
  abbrev pub Tokens : {A : Type 0} → Result Text A → List Call → Type 0
  Tokens (ok a) cs = (chunks : List (Text × TokenChunk)) × (cs ≡ token_calls job attempt_id chunks)
  Tokens (err e) cs = All (IsOpening job attempt_id) cs

  pub token_calls-append :
      (a b : List (Text × TokenChunk))
      → token_calls job attempt_id (a ++ b)
        ≡ token_calls job attempt_id a ++ token_calls job attempt_id b
  unfolding token_calls
  token_calls-append [] b = refl
  token_calls-append ((event_id, chunk) ∷ a) b =
      ap (◌∷◌ (sent job attempt_id (token chunk) event_id)) (token_calls-append a b)

  pub token_calls-IsOpening :
      (chunks : List (Text × TokenChunk))
      → All (IsOpening job attempt_id) (token_calls job attempt_id chunks)
  unfolding token_calls sent
  token_calls-IsOpening [] = tt
  token_calls-IsOpening ((event_id, chunk) ∷ chunks) =
      (opening (token chunk) (ok event_id) tt, token_calls-IsOpening chunks)

  Tokens-append :
      {A : Type 0} (r : Result Text A) (chunks : List (Text × TokenChunk)) (cs ds : List Call)
      → cs ≡ token_calls job attempt_id chunks
      → Tokens r ds
      → Tokens r (cs ++ ds)
  Tokens-append (ok a) chunks cs ds h (more, k) =
      (chunks ++ more, rw (h, k) (sym (token_calls-append chunks more)))
  Tokens-append (err e) chunks cs ds h k = rw h (
      All-append (IsOpening job attempt_id) (token_calls job attempt_id chunks) ds
        (token_calls-IsOpening chunks) k)

  pub Tokens-pure : {A : Type 0} (a : A) → Does L (pure a) Tokens
  unfolding token_calls
  Tokens-pure a = Does-lift L (ok a) ([], refl)

  pub Made-Tokens :
      {A : Type 0} (s : Result Text A × World) (w : World)
      → L.calls s.1 ≡ L.calls w
      → Made L Tokens w s
  unfolding token_calls
  Made-Tokens (ok a, v) w h = record {
    made = [];
    grows = h ∙ sym (append-nil (L.calls w));
    holds = ([], refl);
  }
  Made-Tokens (err e, v) w h = record {
    made = [];
    grows = h ∙ sym (append-nil (L.calls w));
    holds = tt;
  }

  pub Tokens-lift : {A : Type 0} (r : Result Text A) → Does L (lift r) Tokens
  unfolding token_calls
  Tokens-lift (ok a) = Does-lift L (ok a) ([], refl)
  Tokens-lift (err e) = Does-lift L (err e) tt

  pub Tokens-bind :
      {A B : Type 0} (m : Action World Text A) (f : A → Action World Text B)
      → Does L m Tokens
      → ((a : A) → Does L (f a) Tokens)
      → Does L (m >>= f) Tokens
  Tokens-bind m f h k =
      Does-bind L m f h
        (λ a cs p. Does-weaken L (f a) (λ r ds q. Tokens-append r p.0 cs ds p.1 q) (k a))
        (λ e cs p. p)

  EventCalls-Tokens :
      (text : Text) (n : ℕ) (r : Result Text (Unit {0})) (cs : List Call)
      → EventCalls (token_event text n) r cs
      → Tokens r cs
  unfolding token_calls
  EventCalls-Tokens text n (ok done) cs (event_id, k) =
      ((event_id, record { text = text; cumulative_generated_tokens = n }) ∷ [], k)
  EventCalls-Tokens text n (err e) cs k = k

  pub Tokens-publish_token :
      (text : Text) (n : ℕ) → Does L (publish_token C job attempt_id text n) Tokens
  unfolding publish_token
  Tokens-publish_token text n =
      Does-weaken L (publish_event C job attempt_id (token_event text n)) (EventCalls-Tokens text n)
        (Does-publish_event (token_event text n) tt)
