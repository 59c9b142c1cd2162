-- ===== src/Engine/Counts.antt =====
-- How crates/inference-engine/src/main.rs counts the tokens that it publishes.
pub mod Synthetic
pub mod Events
use mathlib.Core.List.{map-append}
use inference_data_plane.Prelude.{
  sym, subst, ℕ, suc, ◌+◌, max, ◌≡◌, refl, List, [], ◌∷◌, ◌++◌, map, add_u64, Result, ok, err,
}
use inference_data_plane.Prelude.Action.{Action, pure, ◌>>=◌, continue}
use inference_data_plane.Text.{Text}
use inference_data_plane.Streams.Wire.{GenerationJob, TokenChunk}
use inference_data_plane.Engine.{Client}
use inference_data_plane.Engine.Request.{estimate_tokens}
use inference_data_plane.Engine.Results.{result_of, token_event, publish_event, publish_token}
use inference_data_plane.Engine.Calls.{
  Call, published, CallLog, Made, Does, Does-lift, Does-call, Does-weaken, Does-bind,
}
use inference_data_plane.Engine.Protocol.{sent, token_calls}
use inference_data_plane.Engine.Protocol.Tokens.{token_calls-append}

-- The chunks of the words from a number on.
unfoldable pub numbered : ℕ → List Text → List TokenChunk
numbered n [] = []
numbered n (word ∷ words) =
    record { text = word ++ b' ' ∷ []; cumulative_generated_tokens = n } ∷ numbered (n + 1) words

-- From one total to another: every chunk has the total with its own text, of which each word
-- counts, and the whole at least one.
unfoldable pub Counted : ℕ → List TokenChunk → ℕ → Type 0
Counted n [] m = n ≡ m
Counted n (chunk ∷ chunks) m =
    (chunk.cumulative_generated_tokens ≡ add_u64 n (max (estimate_tokens chunk.text) 1))
    × Counted chunk.cumulative_generated_tokens chunks m

pub Counted-append :
    (a b : List TokenChunk) (n m k : ℕ) → Counted n a m → Counted m b k → Counted n (a ++ b) k
unfolding Counted
Counted-append [] b n m k h l = rw h l
Counted-append (chunk ∷ a) b n m k h l =
    (h.0, Counted-append a b chunk.cumulative_generated_tokens m k h.1 l)

-- The chunks under their identifiers.
abbrev pub chunks_of : List (Text × TokenChunk) → List TokenChunk
chunks_of = map λ entry. entry.1

module _ {C : Client} (L : CallLog C) (job : GenerationJob) (attempt_id : Text) where
  open C use {World}

  -- The calls are tokens whose chunks are as `P` says; nothing is said of an error.
  abbrev pub Chunks :
      {A : Type 0} → (A → List TokenChunk → Type 0) → Result Text A → List Call → Type 0
  Chunks P (ok a) cs =
      (entries : List (Text × TokenChunk)) × (cs ≡ token_calls job attempt_id entries)
      × P a (chunks_of entries)
  Chunks P (err e) cs = Unit {0}

  pub Chunks-publish_token :
      (text : Text) (n : ℕ)
      → Does L (publish_token C job attempt_id text n) (
          Chunks
            λ done chunks. chunks ≡ record { text = text; cumulative_generated_tokens = n } ∷ [])
  unfolding publish_token publish_event token_calls sent
  Chunks-publish_token text n =
      let result = result_of job attempt_id (token_event text n) in
      Does-bind L {P = λ r cs. cs ≡ published result r ∷ []} (C.publish_result result)
        (λ event_id. pure tt)
        (Does-call L (C.publish_result result) (published result) (L.calls-publish_result result)
          (λ r. refl))
        (λ event_id cs h. Does-lift L (ok tt) (
          (event_id, record { text = text; cumulative_generated_tokens = n }) ∷ [],
          rw h refl,
          refl,
        ))
        (λ e cs h. tt)

  pub Chunks-pure :
      {A : Type 0} (P : A → List TokenChunk → Type 0) (a : A) → P a [] → Does L (pure a) (Chunks P)
  unfolding token_calls
  Chunks-pure P a h = Does-lift L (ok a) ([], refl, h)

  Chunks-append :
      {A : Type 0} (P : A → List TokenChunk → Type 0) (r : Result Text A) (cs ds : List Call)
      (before : List (Text × TokenChunk))
      → cs ≡ token_calls job attempt_id before
      → Chunks (λ a chunks. P a (chunks_of before ++ chunks)) r ds
      → Chunks P r (cs ++ ds)
  Chunks-append P (ok a) cs ds before h (after, k, l) = (
    before ++ after,
    rw (h, k) (sym (token_calls-append L job attempt_id before after)),
    subst (P a) (sym (map-append (λ entry. entry.1) before after)) l,
  )
  Chunks-append P (err e) cs ds before h k = tt

  pub Chunks-bind :
      {A B : Type 0} (P : A → List TokenChunk → Type 0) (Q : B → List TokenChunk → Type 0)
      (m : Action World Text A) (f : A → Action World Text B)
      → Does L m (Chunks P)
      → ((a : A) (xs : List TokenChunk) → P a xs → Does L (f a) (Chunks λ b ys. Q b (xs ++ ys)))
      → Does L (m >>= f) (Chunks Q)
  Chunks-bind P Q m f h k =
      Does-bind L {P = Chunks P} m f h
        (λ a cs (before, same, p).
          Does-weaken L (f a) (λ r ds q. Chunks-append Q r cs ds before same q)
            (k a (chunks_of before) p))
        (λ e cs p. tt)

  Chunks-map :
      {A : Type 0} (P Q : A → List TokenChunk → Type 0)
      → ((a : A) (xs : List TokenChunk) → P a xs → Q a xs)
      → (r : Result Text A) (cs : List Call) → Chunks P r cs
      → Chunks Q r cs
  Chunks-map P Q f (ok a) cs (entries, h, p) = (entries, h, f a (chunks_of entries) p)
  Chunks-map P Q f (err e) cs h = tt

  pub Chunks-weaken :
      {A : Type 0} (P Q : A → List TokenChunk → Type 0) (m : Action World Text A)
      → ((a : A) (xs : List TokenChunk) → P a xs → Q a xs)
      → Does L m (Chunks P)
      → Does L m (Chunks Q)
  Chunks-weaken P Q m f h = Does-weaken L m (Chunks-map P Q f) h
