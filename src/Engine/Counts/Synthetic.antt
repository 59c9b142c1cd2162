-- ===== src/Engine/Counts/Synthetic.antt =====
-- What `stream_synthetic` of crates/inference-engine/src/main.rs publishes.
use inference_data_plane.Prelude.{
  ℕ, ◌+◌, ◌≤◌, ◌≡◌, refl, ap, sym, ◌∙◌, arith, List, [], ◌∷◌, ◌++◌, append-nil, Bool-cases, inl,
  inr, eqb, length, length-take, take, ok,
}
use inference_data_plane.Prelude.Action.{pure, ◌>>◌}
use inference_data_plane.Text.{Text, codes}
use inference_data_plane.Streams.Wire.{GenerationJob, TokenChunk}
use inference_data_plane.Text.Space.{split_whitespace}
use inference_data_plane.Engine.{EngineConfig, RuntimeRequest, GenerationUsage, Json, Client}
use inference_data_plane.Engine.Request.{estimate_tokens, extract_prompt}
use inference_data_plane.Engine.Results.{publish_token}
use inference_data_plane.Engine.Attempt.{pause, publish_words, synthetic_words, stream_synthetic}
use inference_data_plane.Engine.Calls.{CallLog, Does, Does-at}
use inference_data_plane.Engine.Protocol.{token_calls}
use inference_data_plane.Engine.Counts.{
  numbered, chunks_of, Chunks, Chunks-publish_token, Chunks-pure, Chunks-bind, Chunks-weaken,
}

module _ {C : Client} (L : CallLog C) (job : GenerationJob) (attempt_id : Text) (Js : Json)
    (config : EngineConfig) where
  open C use {World}
  open Js use {Value}

  Chunks-pause :
      Does L (pause Js C config job attempt_id) (Chunks L job attempt_id λ done chunks. chunks ≡ [])
  unfolding pause token_calls
  Chunks-pause w = elim (Bool-cases (eqb config.synthetic_token_delay 0)) [
    | inl h ↦
        rw h (record { made = []; grows = sym (append-nil (L.calls w)); holds = ([], refl, refl) })
    | inr h ↦ rw h (record {
      made = [];
      grows = L.calls-sleep config.synthetic_token_delay w ∙ sym (append-nil (L.calls w));
      holds = ([], refl, refl);
    })
  ]

  Chunks-publish_words :
      (words : List Text) (index : ℕ)
      → Does L
          (publish_words Js C config job attempt_id index words)
          (Chunks L job attempt_id λ done chunks. chunks ≡ numbered (index + 1) words)
  unfolding publish_words numbered
  Chunks-publish_words [] index = Chunks-pure L job attempt_id (λ done chunks. chunks ≡ []) tt refl
  Chunks-publish_words (word ∷ words) index =
      let text = word ++ b' ' ∷ [] in
      let later = publish_words Js C config job attempt_id (index + 1) words in
      Chunks-bind L job attempt_id
        (λ done chunks.
          chunks ≡ record { text = text; cumulative_generated_tokens = index + 1 } ∷ [])
        (λ done chunks. chunks ≡ numbered (index + 1) (word ∷ words))
        (publish_token C job attempt_id text (index + 1))
        (λ done. pause Js C config job attempt_id >> later)
        (Chunks-publish_token L job attempt_id text (index + 1))
        (λ done xs h.
          Chunks-bind L job attempt_id (λ paused chunks. chunks ≡ [])
            (λ done chunks. xs ++ chunks ≡ numbered (index + 1) (word ∷ words))
            (pause Js C config job attempt_id) (λ paused. later) Chunks-pause
            (λ paused ys k.
              Chunks-weaken L job attempt_id
                (λ done chunks. chunks ≡ numbered (index + 1 + 1) words)
                (λ done chunks. xs ++ (ys ++ chunks) ≡ numbered (index + 1) (word ∷ words)) later
                (λ done chunks l. rw (h, k, l) refl) (Chunks-publish_words words (index + 1))))

  Chunks-stream_synthetic :
      (request : RuntimeRequest Value)
      → Does L (stream_synthetic Js C config job attempt_id request) (
          Chunks L job attempt_id λ usage chunks.
            let words = synthetic_words Js C config job attempt_id request in
            (chunks ≡ numbered 1 words) × (usage.generated_tokens ≡ length words))
  unfolding stream_synthetic
  Chunks-stream_synthetic request =
      let words = synthetic_words Js C config job attempt_id request in
      let usage : GenerationUsage = record {
        prompt_tokens = estimate_tokens (extract_prompt Js request);
        generated_tokens = length words;
        finish_reason = codes "stop";
      } in
      Chunks-bind L job attempt_id (λ done chunks. chunks ≡ numbered 1 words)
        (λ u chunks. (chunks ≡ numbered 1 words) × (u.generated_tokens ≡ length words))
        (publish_words Js C config job attempt_id 0 words) (λ done. pure usage)
        (Chunks-publish_words words 0)
        (λ done xs h.
          Chunks-pure L job attempt_id
            (λ u ys. (xs ++ ys ≡ numbered 1 words) × (u.generated_tokens ≡ length words)) usage
            (append-nil xs ∙ h, refl))

  -- A synthetic run that returns has published the words of its answer, one by one and each with
  -- its number, and counts them all; there are never more than the request allows.
  pub stream_synthetic-numbered :
      (request : RuntimeRequest Value) (usage : GenerationUsage) (w v : World)
      → stream_synthetic Js C config job attempt_id request w ≡ (ok usage, v)
      → let words =
          take request.max_tokens
            (split_whitespace (codes "Generated response for: " ++ extract_prompt Js request)) in
        (entries : List (Text × TokenChunk)) × (L.calls v
          ≡ L.calls w ++ token_calls job attempt_id entries)
        × (chunks_of entries ≡ numbered 1 words)
        × (usage.generated_tokens ≡ length words)
        × (usage.generated_tokens ≤ request.max_tokens)
  unfolding take synthetic_words
  stream_synthetic-numbered request usage w v e =
      let (cs, grows, (entries, same, (chunks, count))) =
        Does-at L (stream_synthetic Js C config job attempt_id request) w v (ok usage)
          (Chunks-stream_synthetic request) e in
      let answer = codes "Generated response for: " ++ extract_prompt Js request in
      (
        entries,
        grows ∙ ap (λ l. L.calls w ++ l) same,
        chunks,
        count,
        omega (arith, count, length-take request.max_tokens (split_whitespace answer)),
      )
