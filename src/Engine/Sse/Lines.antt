-- ===== src/Engine/Sse/Lines.antt =====
-- The loops of `stream_openai_compatible` in crates/inference-engine/src/main.rs, against the lines
-- of all that the model server sends.
use inference_data_plane.Prelude.{
  ℕ, zero, suc, ◌≤◌, ◌≡◌, ◌≢◌, refl, sym, ap, ◌∙◌, Option, none, some, List, [], ◌∷◌, ◌++◌, map,
  arith, length, All, Result, ok, err, append_assoc, append-nil,
}
use inference_data_plane.Prelude.Action.{
  Action, pure, raise, ◌>>=◌, continue, bind_assoc, continue-ext,
}
use inference_data_plane.Text.{Text}
use inference_data_plane.Text.Split.{split_once}
use inference_data_plane.Text.Lines.{
  split_lines, split_lines-left, Splits, split_once-Splits, split_lines-append,
  split_lines-unmarked,
}
use inference_data_plane.Streams.Wire.{GenerationJob}
use inference_data_plane.Engine.{
  EngineConfig, RuntimeRequest, GenerationUsage, default_usage, Json, Client, ModelServer,
}
use inference_data_plane.Engine.Request.{model_endpoint, completions_url, payload}
use inference_data_plane.Engine.Sse.{
  handle_line, drain_lines, read_chunks, with_prompt_tokens, stream_openai_compatible,
}

module _ (Js : Json) (C : Client) (job : GenerationJob) (attempt_id : Text) where
  open C use {World}

  -- The lines one after the other.
  unfoldable pub run_lines : GenerationUsage → List Text → Action World Text GenerationUsage
  run_lines usage [] = pure usage
  run_lines usage (line ∷ lines) =
      handle_line Js C job attempt_id usage line >>= λ after. run_lines after lines

  run_lines-append :
      (ls ms : List Text) (usage : GenerationUsage) (w : World)
      → run_lines usage (ls ++ ms) w ≡ (run_lines usage ls >>= λ after. run_lines after ms) w
  unfolding run_lines
  run_lines-append [] ms usage w = refl
  run_lines-append (line ∷ ls) ms usage w =
      continue-ext (λ after. run_lines after (ls ++ ms)) _
        (λ after v. run_lines-append ls ms after v) (handle_line Js C job attempt_id usage line w)
      ∙ sym (
          bind_assoc (λ after. run_lines after ls) (λ after. run_lines after ms)
            (handle_line Js C job attempt_id usage line) w)

  -- The lines of the buffer, and what is left.
  abbrev drained : GenerationUsage → Text → Action World Text (GenerationUsage × Text)
  drained usage buffer =
      let (ls, left) = split_lines b'\n' buffer in
      run_lines usage ls >>= λ after. pure (after, left)

  drain_lines-split :
      (fuel : ℕ) (usage : GenerationUsage) (buffer : Text) (w : World)
      → ((u : GenerationUsage) (b : Text) (v : World)
          → length b ≤ fuel
          → drain_lines Js C job attempt_id fuel u b v ≡ drained u b v)
      → length buffer ≤ suc fuel
      → (o : Option (Text × Text)) → split_once b'\n' buffer ≡ o
      → Splits b'\n' buffer o
      → drain_lines Js C job attempt_id (suc fuel) usage buffer w ≡ drained usage buffer w
  unfolding drain_lines run_lines
  drain_lines-split fuel usage buffer w ih h none e k = rw (drain_lines, e, k.0) refl
  drain_lines-split fuel usage buffer w ih h (some (line, rest)) e k =
      rw (drain_lines, e, k.0)
        (continue-ext (λ after. drain_lines Js C job attempt_id fuel after rest)
            (λ after. drained after rest) (λ u v. ih u rest v (omega (arith, k.1)))
            (handle_line Js C job attempt_id usage line w)
          ∙ sym (
              bind_assoc (λ after. run_lines after (split_lines b'\n' rest).0)
                (λ after. pure (after, (split_lines b'\n' rest).1))
                (handle_line Js C job attempt_id usage line) w))

  drain_lines-eq :
      (fuel : ℕ) (usage : GenerationUsage) (buffer : Text) (w : World)
      → length buffer ≤ fuel
      → drain_lines Js C job attempt_id fuel usage buffer w ≡ drained usage buffer w
  unfolding drain_lines run_lines split_lines
  drain_lines-eq zero usage [] w h = refl
  drain_lines-eq zero usage (c ∷ buffer) w h = absurd (omega arith)
  drain_lines-eq (suc fuel) usage buffer w h =
      drain_lines-split fuel usage buffer w (drain_lines-eq fuel) h (split_once b'\n' buffer) refl
        (split_once-Splits b'\n' buffer)

  after_drained :
      (left : Text) (s : Result Text GenerationUsage × World) (u : GenerationUsage) (b : Text)
      (v : World)
      → continue {B = GenerationUsage × Text} (λ after. pure (after, left)) s ≡ (ok (u, b), v)
      → b ≡ left
  after_drained left (ok after, w) u b v h = cc
  after_drained left (err e, w) u b v h = cc

  abbrev pub LeavesNoNewline : Result Text (GenerationUsage × Text) → Type 0
  LeavesNoNewline (ok (after, left)) = All (λ c. c ≢ b'\n') left
  LeavesNoNewline (err e) = Unit {0}

  left_unmarked :
      (s : Result Text (GenerationUsage × Text) × World)
      → ((after : GenerationUsage) (left : Text) (v : World)
          → s ≡ (ok (after, left), v)
          → All (λ c. c ≢ b'\n') left)
      → LeavesNoNewline s.0
  left_unmarked (ok (after, left), v) h = h after left v refl
  left_unmarked (err e, v) h = tt

  -- The inner loop has ended once it has had as many rounds as the buffer has characters: more
  -- rounds change nothing, and what it leaves in the buffer, when no call fails, has no newline.
  pub drain_lines-terminates :
      (fuel : ℕ) (usage : GenerationUsage) (buffer : Text) (w : World)
      → length buffer ≤ fuel
      → (drain_lines Js C job attempt_id fuel usage buffer w
          ≡ drain_lines Js C job attempt_id (length buffer) usage buffer w)
        × LeavesNoNewline (drain_lines Js C job attempt_id fuel usage buffer w).0
  drain_lines-terminates fuel usage buffer w h =
      let (ls, rest) = split_lines b'\n' buffer in
      (
        drain_lines-eq fuel usage buffer w h
            ∙ sym (drain_lines-eq (length buffer) usage buffer w (omega arith)),
        left_unmarked (drain_lines Js C job attempt_id fuel usage buffer w) λ after left v e.
            let same : left ≡ rest =
              after_drained rest (run_lines usage ls w) after left v
                (sym (drain_lines-eq fuel usage buffer w h) ∙ e) in
            rw same (split_lines-unmarked b'\n' buffer),
      )

  module _ (from_utf8_lossy : List ℕ → Text) where
    -- All that the chunks decode to.
    unfoldable pub decoded : List (List ℕ) → Text
    decoded [] = []
    decoded (bytes ∷ chunks) = from_utf8_lossy bytes ++ decoded chunks

    read_chunks-append :
        (chunks : List (List ℕ)) (rest : List (Result Text (List ℕ))) (usage : GenerationUsage)
        (buffer : Text) (w : World)
        → split_lines b'\n' buffer ≡ ([], buffer)
        → read_chunks Js C job attempt_id from_utf8_lossy usage buffer (map ok chunks ++ rest) w ≡ (
            let (ls, left) = split_lines b'\n' (buffer ++ decoded chunks) in
            (run_lines usage ls >>= λ after.
            read_chunks Js C job attempt_id from_utf8_lossy after left rest)
              w)
    unfolding read_chunks decoded run_lines
    read_chunks-append [] rest usage buffer w h = rw (append-nil buffer, h) refl
    read_chunks-append (bytes ∷ chunks) rest usage buffer w h =
        let text = buffer ++ from_utf8_lossy bytes in
        let (ls, left) = split_lines b'\n' text in
        let (ms, end) = split_lines b'\n' (left ++ decoded chunks) in
        let whole = split_lines b'\n' (buffer ++ (from_utf8_lossy bytes ++ decoded chunks)) in
        let joined : whole ≡ (ls ++ ms, end) =
          rw (← append_assoc buffer (from_utf8_lossy bytes) (decoded chunks))
            (split_lines-append b'\n' text (decoded chunks)) in
        let last : GenerationUsage → Action World Text GenerationUsage =
          λ after. read_chunks Js C job attempt_id from_utf8_lossy after end rest in
        ap
          (continue (λ (after, l).
            read_chunks Js C job attempt_id from_utf8_lossy after l (map ok chunks ++ rest)))
          (drain_lines-eq (length text) usage text w (omega arith))
        ∙ bind_assoc (λ after. pure (after, left))
            (λ (after, l).
              read_chunks Js C job attempt_id from_utf8_lossy after l (map ok chunks ++ rest))
            (run_lines usage ls) w
        ∙ continue-ext _ (λ after. run_lines after ms >>= last)
            (λ after v. read_chunks-append chunks rest after left v (split_lines-left b'\n' text))
            (run_lines usage ls w)
        ∙ sym (bind_assoc (λ after. run_lines after ms) last (run_lines usage ls) w)
        ∙ ap (continue last) (sym (run_lines-append ls ms usage w))
        ∙ rw joined refl

  module _ (M : ModelServer Js.Value World) (config : EngineConfig)
      (request : RuntimeRequest Js.Value) where
    -- The request that is posted.
    abbrev pub posted : Action World Text (List (Result Text (List ℕ)))
    posted =
        M.post (completions_url (model_endpoint config job.model_endpoint)) (payload Js request)

    after_post :
        (s t : Result Text (List (Result Text (List ℕ))) × World)
        → s ≡ t
        → continue
            (λ chunks.
              read_chunks Js C job attempt_id M.from_utf8_lossy default_usage [] chunks >>= λ usage.
              pure (with_prompt_tokens Js request usage))
            s
          ≡ continue
              (λ chunks.
                read_chunks Js C job attempt_id M.from_utf8_lossy default_usage [] chunks
                >>= λ usage. pure (with_prompt_tokens Js request usage))
              t
    after_post s t h = rw h refl

    finish : GenerationUsage → Action World Text GenerationUsage
    finish usage = pure (with_prompt_tokens Js request usage)

    -- The chunks up to some place, with what is left of their text there.
    read_chunks-finish :
        (chunks : List (List ℕ)) (rest : List (Result Text (List ℕ))) (w : World)
        → (read_chunks Js C job attempt_id M.from_utf8_lossy default_usage []
                (map ok chunks ++ rest)
              >>= finish)
            w
          ≡ (let (ls, left) = split_lines b'\n' (decoded M.from_utf8_lossy chunks) in
              (run_lines default_usage ls >>= λ after.
              read_chunks Js C job attempt_id M.from_utf8_lossy after left rest >>= finish)
                w)
    unfolding split_lines
    read_chunks-finish chunks rest w =
        let (ls, left) = split_lines b'\n' (decoded M.from_utf8_lossy chunks) in
        ap (continue finish)
          (read_chunks-append M.from_utf8_lossy chunks rest default_usage [] w refl)
        ∙ bind_assoc (λ after. read_chunks Js C job attempt_id M.from_utf8_lossy after left rest)
            finish (run_lines default_usage ls) w

    -- The answer of the server behind its chunks: an error, or its end.
    abbrev pub ended_by : Option Text → List (Result Text (List ℕ)) → List (Result Text (List ℕ))
    ended_by none more = []
    ended_by (some e) more = err e ∷ more

    abbrev pub answer_at : Option Text → GenerationUsage → Action World Text GenerationUsage
    answer_at none usage = pure (with_prompt_tokens Js request usage)
    answer_at (some e) usage = raise e

    finish_at :
        (cut : Option Text) (more : List (Result Text (List ℕ))) (left : Text)
        (after : GenerationUsage) (w : World)
        → (read_chunks Js C job attempt_id M.from_utf8_lossy after left (ended_by cut more)
              >>= finish)
            w
          ≡ answer_at cut after w
    unfolding read_chunks finish
    finish_at none more left after w = refl
    finish_at (some e) more left after w = refl

    -- Only what the chunks decode to together counts, not how it is cut: the attempt handles its
    -- lines one after the other and drops the rest, and with an error after the chunks it ends in
    -- that error when the lines have been handled.
    pub stream_openai_compatible-run_lines :
        (chunks : List (List ℕ)) (cut : Option Text) (more : List (Result Text (List ℕ)))
        (w v : World)
        → posted w ≡ (ok (map ok chunks ++ ended_by cut more), v)
        → stream_openai_compatible Js C job attempt_id M config request w
          ≡ (run_lines default_usage (split_lines b'\n' (decoded M.from_utf8_lossy chunks)).0
                >>= answer_at cut)
              v
    unfolding stream_openai_compatible finish
    stream_openai_compatible-run_lines chunks cut more w v h =
        let (ls, left) = split_lines b'\n' (decoded M.from_utf8_lossy chunks) in
        after_post (posted w) _ h
        ∙ read_chunks-finish chunks (ended_by cut more) v
        ∙ continue-ext _ (answer_at cut) (finish_at cut more left) (run_lines default_usage ls v)
