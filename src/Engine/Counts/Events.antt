-- ===== src/Engine/Counts/Events.antt =====
-- How `stream_openai_compatible` of crates/inference-engine/src/main.rs counts the tokens of the
-- events of the model server.
use inference_data_plane.Prelude.{
  ℕ, ◌≡◌, refl, ap, sym, ◌∙◌, ◌||◌, Option, none, some, List, [], ◌∷◌, ◌++◌, map, append-nil,
  is_empty, eqb, and_then, unwrap_or, Bool-cases, Option-cases, inl, inr, All, Result, ok, err,
}
use inference_data_plane.Prelude.Action.{Action, pure, lift, ◌>>=◌}
use inference_data_plane.Text.{Text, codes, text_beq}
use inference_data_plane.Text.Split.{strip_prefix}
use inference_data_plane.Text.Trim.{trim, trim_end_matches}
use inference_data_plane.Text.Lines.{split_lines}
use inference_data_plane.Streams.Wire.{GenerationJob, TokenChunk}
use inference_data_plane.Engine.{
  EngineConfig, RuntimeRequest, GenerationUsage, default_usage, Json, Client, ModelServer,
}
use inference_data_plane.Engine.Results.{publish_token}
use inference_data_plane.Engine.Sse.{
  with_usage, with_reason, first_choice, delta_text, decode_event, count_text, observe, handle_text,
  handle_value, handle_data, handle_line, with_prompt_tokens, stream_openai_compatible,
}
use inference_data_plane.Engine.Sse.Lines.{
  run_lines, decoded, posted, stream_openai_compatible-run_lines,
}
use inference_data_plane.Engine.Calls.{CallLog, Does, Does-lift, Does-at}
use inference_data_plane.Engine.Protocol.{token_calls}
use inference_data_plane.Engine.Counts.{
  Counted, Counted-append, chunks_of, Chunks, Chunks-publish_token, Chunks-pure, Chunks-bind,
  Chunks-weaken,
}

module _ (Js : Json) where
  open Js use {Value, get, as_u64, from_str}

  -- The count of generated tokens that a value carries.
  abbrev pub completion_tokens : Value → Option ℕ
  completion_tokens value =
      and_then (get (codes "usage") value)
        λ usage. and_then (get (codes "completion_tokens") usage) as_u64

  abbrev pub ok_value : Result Text Value → Option Value
  ok_value (ok value) = some value
  ok_value (err e) = none

  abbrev pub event_value : Option Text → Option Value
  event_value none = none
  event_value (some after) = ok_value (decode_event Js (trim after))

  -- The value of the event on a line, if there is one.
  abbrev pub line_value : Text → Option Value
  line_value line = event_value (strip_prefix (codes "data:") (trim_end_matches b'\r' line))

  -- The server sends no counts.
  abbrev pub NoCount : Text → Type 0
  NoCount line = and_then (line_value line) completion_tokens ≡ none

  observe-generated_tokens :
      (usage : GenerationUsage) (value : Value)
      → completion_tokens value ≡ none
      → (observe Js usage value).generated_tokens ≡ usage.generated_tokens
  unfolding observe with_usage with_reason
  observe-generated_tokens usage value h = elim (Option-cases (get (codes "usage") value)) [
    | inl k ↦ rw k refl
    | inr (u, k) ↦ rw k (ap (λ n. unwrap_or n usage.generated_tokens) (rw k at h))
  ]

  with_prompt_tokens-generated :
      (request : RuntimeRequest Value) (usage : GenerationUsage)
      → (with_prompt_tokens Js request usage).generated_tokens ≡ usage.generated_tokens
  unfolding with_prompt_tokens
  with_prompt_tokens-generated request usage = elim (Bool-cases (eqb usage.prompt_tokens 0)) [
    | inl h ↦ rw h refl
    | inr h ↦ rw h refl
  ]

  module _ {C : Client} (L : CallLog C) (job : GenerationJob) (attempt_id : Text) where
    open C use {World}

    -- The chunks lead from one total to the other.
    abbrev Totals : ℕ → GenerationUsage → List TokenChunk → Type 0
    Totals n usage chunks = Counted n chunks usage.generated_tokens

    Totals-handle_text :
        (n : ℕ) (usage : GenerationUsage) (text : Text)
        → usage.generated_tokens ≡ n
        → Does L (handle_text Js C job attempt_id usage text) (Chunks L job attempt_id (Totals n))
    unfolding handle_text Counted count_text
    Totals-handle_text n usage text h = elim (Bool-cases (is_empty text)) [
      | inl k ↦ rw k (Chunks-pure L job attempt_id (Totals n) usage (sym h))
      | inr k ↦
          let counted = count_text Js usage text in
          rw k (
            Chunks-bind L job attempt_id
              (λ done chunks.
                chunks
                ≡ record { text = text; cumulative_generated_tokens = counted.generated_tokens }
                  ∷ [])
              (Totals n) (publish_token C job attempt_id text counted.generated_tokens)
              (λ done. pure counted)
              (Chunks-publish_token L job attempt_id text counted.generated_tokens)
              (λ done xs e.
                Chunks-pure L job attempt_id (λ u ys. Totals n u (xs ++ ys)) counted
                  (rw (e, ← h) (refl, refl))))
    ]

    Totals-decoded :
        (n : ℕ) (usage : GenerationUsage) (r : Result Text Value)
        → usage.generated_tokens ≡ n
        → and_then (ok_value r) completion_tokens ≡ none
        → Does L
            (lift r >>= λ value. handle_value Js C job attempt_id usage value)
            (Chunks L job attempt_id (Totals n))
    unfolding handle_value
    Totals-decoded n usage (ok value) h k =
        Totals-handle_text n (observe Js usage value) (delta_text Js (first_choice Js value))
          (observe-generated_tokens usage value k ∙ h)
    Totals-decoded n usage (err e) h k = Does-lift L (err e) tt

    Totals-handle_data :
        (n : ℕ) (usage : GenerationUsage) (after : Option Text)
        → usage.generated_tokens ≡ n
        → and_then (event_value after) completion_tokens ≡ none
        → Does L (handle_data Js C job attempt_id usage after) (Chunks L job attempt_id (Totals n))
    unfolding handle_data Counted
    Totals-handle_data n usage none h k = Chunks-pure L job attempt_id (Totals n) usage (sym h)
    Totals-handle_data n usage (some after) h k =
        elim (Bool-cases (text_beq (trim after) (codes "[DONE]") || is_empty (trim after))) [
          | inl e ↦ rw e (Chunks-pure L job attempt_id (Totals n) usage (sym h))
          | inr e ↦ rw e (Totals-decoded n usage (decode_event Js (trim after)) h k)
        ]

    Totals-run_lines :
        (lines : List Text) (usage : GenerationUsage)
        → All NoCount lines
        → Does L
            (run_lines Js C job attempt_id usage lines)
            (Chunks L job attempt_id (Totals usage.generated_tokens))
    unfolding run_lines handle_line Counted
    Totals-run_lines [] usage h =
        Chunks-pure L job attempt_id (Totals usage.generated_tokens) usage refl
    Totals-run_lines (line ∷ lines) usage h =
        let data_of = strip_prefix (codes "data:") (trim_end_matches b'\r' line) in
        Chunks-bind L job attempt_id (Totals usage.generated_tokens) (Totals usage.generated_tokens)
          (handle_line Js C job attempt_id usage line)
          (λ after. run_lines Js C job attempt_id after lines)
          (Totals-handle_data usage.generated_tokens usage data_of refl h.0)
          (λ after xs k.
            Chunks-weaken L job attempt_id (Totals after.generated_tokens)
              (λ u ys. Totals usage.generated_tokens u (xs ++ ys))
              (run_lines Js C job attempt_id after lines)
              (λ u ys l.
                Counted-append xs ys usage.generated_tokens after.generated_tokens
                  u.generated_tokens k l)
              (Totals-run_lines lines after h.1))

    -- When the server answers in full and sends no counts of its own, the tokens that are published
    -- carry running totals from 0, in which a text counts its words and at least one, and the
    -- usage has the last total.
    pub stream_openai_compatible-Counted :
        (M : ModelServer Value World) (config : EngineConfig) (request : RuntimeRequest Value)
        (chunks : List (List ℕ)) (usage : GenerationUsage) (w u v : World)
        → posted Js C job attempt_id M config request w ≡ (ok (map ok chunks), u)
        → All NoCount (split_lines b'\n' (decoded Js C job attempt_id M.from_utf8_lossy chunks)).0
        → stream_openai_compatible Js C job attempt_id M config request w ≡ (ok usage, v)
        → (entries : List (Text × TokenChunk)) × (L.calls v
            ≡ L.calls u ++ token_calls job attempt_id entries)
          × Counted 0 (chunks_of entries) usage.generated_tokens
    stream_openai_compatible-Counted M config request chunks usage w u v h k e =
        let lines = (split_lines b'\n' (decoded Js C job attempt_id M.from_utf8_lossy chunks)).0 in
        let last : GenerationUsage → Action World Text GenerationUsage =
          λ after. pure (with_prompt_tokens Js request after) in
        let read : Does L (run_lines Js C job attempt_id default_usage lines >>= last)
            (Chunks L job attempt_id (Totals 0)) =
          Chunks-bind L job attempt_id (Totals 0) (Totals 0)
            (run_lines Js C job attempt_id default_usage lines) last
            (Totals-run_lines lines default_usage k)
            (λ after xs c.
              Chunks-pure L job attempt_id (λ u ys. Totals 0 u (xs ++ ys))
                (with_prompt_tokens Js request after)
                (rw (append-nil xs, with_prompt_tokens-generated request after) c)) in
        let same =
          stream_openai_compatible-run_lines Js C job attempt_id M config request chunks none [] w u
            (h ∙ ap (λ l. (ok l, u)) (sym (append-nil (map ok chunks)))) in
        let (cs, grows, (entries, calls, counts)) =
          Does-at L (run_lines Js C job attempt_id default_usage lines >>= last) u v (ok usage) read
            (sym same ∙ e) in
        (entries, grows ∙ ap (λ l. L.calls u ++ l) calls, counts)
