-- ===== src/Frontend/Generate/Collect.antt =====
-- The text of `collect_generation` of crates/inference-frontend/src/main.rs when an engine takes over.
use inference_data_plane.Prelude.{
  ◌⊎◌, false, ◌≡◌, ◌≢◌, refl, sym, ap, ◌∙◌, true, Option, none, some, List, [], ◌∷◌, ◌++◌, map,
  append_assoc, append-nil, All, arith, ok, if◌then◌else◌,
}
use inference_data_plane.Text.{Text, text_beq_iff}
use inference_data_plane.Streams.Wire.{
  ResultEvent, attempt_started, token, completed, failed, TokenChunk, GenerationCompleted,
  ResultEntry, IsOpenEvent,
}
use inference_data_plane.Frontend.Generate.{Reply, restarts, collect_loop}

-- The entry as a reply of the subscription.
abbrev pub reply : ResultEntry → Reply
reply entry = ok (some entry)

abbrev pub IsOpen : ResultEntry → Type 0
IsOpen entry = IsOpenEvent entry.result.event

-- The attempt that has started last, `current` if none has.
unfoldable pub last_started : Text → List ResultEntry → Text
last_started current [] = current
last_started current (entry ∷ rest) = elim entry.result.event [
  | some attempt_started ↦ last_started entry.result.attempt_id rest
  | _ ↦ last_started current rest
]

unfoldable pub texts : List (Text × TokenChunk) → Text
texts [] = []
texts ((event_id, chunk) ∷ chunks) = chunk.text ++ texts chunks

unfoldable pub entry_of : Text → Text → Option ResultEvent → ResultEntry
entry_of event_id attempt_id event = record {
  event_id = event_id;
  result = record { schema_version = 1; request_id = []; attempt_id = attempt_id; event = event };
}

-- What an entry that does not end the generation makes of the text and the attempt.
unfoldable pub absorb : Text → Text → Text → Option ResultEvent → Text × Text
absorb written current attempt_id (some attempt_started) =
    (if restarts current attempt_id then [] else written, attempt_id)
absorb written current attempt_id (some (token chunk)) = (written ++ chunk.text, current)
absorb written current attempt_id _ = (written, current)

pub collect_loop-absorb :
    (event : Option ResultEvent) (e : ResultEntry) (written current : Text) (rest : List Reply)
    → e.result.event ≡ event
    → IsOpenEvent event
    → collect_loop written current (reply e ∷ rest)
      ≡ (let (w, c) = absorb written current e.result.attempt_id event in collect_loop w c rest)
unfolding collect_loop absorb
collect_loop-absorb none e written current rest h k = ground (arith, h)
collect_loop-absorb (some attempt_started) e written current rest h k = ground (arith, h)
collect_loop-absorb (some (token chunk)) e written current rest h k = ground (arith, h)
collect_loop-absorb (some (completed done)) e written current rest h k = absurd k
collect_loop-absorb (some (failed failure)) e written current rest h k = absurd k

last_started-absorb :
    (event : Option ResultEvent) (e : ResultEntry) (written current : Text)
    (rest : List ResultEntry)
    → e.result.event ≡ event
    → IsOpenEvent event
    → last_started current (e ∷ rest)
      ≡ last_started (absorb written current e.result.attempt_id event).1 rest
unfolding last_started absorb
last_started-absorb none e written current rest h k = ground (arith, h)
last_started-absorb (some attempt_started) e written current rest h k = ground (arith, h)
last_started-absorb (some (token chunk)) e written current rest h k = ground (arith, h)
last_started-absorb (some (completed done)) e written current rest h k = absurd k
last_started-absorb (some (failed failure)) e written current rest h k = absurd k

-- The loop passes over the entries that do not end the generation, and remembers the attempt.
pub collect_loop-open :
    (before : List ResultEntry) (written current : Text)
    → All IsOpen before
    → (kept : Text) × ((rest : List Reply)
        → collect_loop written current (map reply before ++ rest)
          ≡ collect_loop kept (last_started current before) rest)
unfolding last_started
collect_loop-open [] written current h = (written, λ rest. refl)
collect_loop-open (e ∷ before) written current h =
    let (w, c) = absorb written current e.result.attempt_id e.result.event in
    let (kept, f) = collect_loop-open before w c h.1 in
    (
      kept,
      λ rest.
          collect_loop-absorb e.result.event e written current (map reply before ++ rest) refl h.0
          ∙ f rest
          ∙ ap (λ a. collect_loop kept a rest)
              (sym (last_started-absorb e.result.event e written current before refl h.0)),
    )

-- The entries of one attempt's tokens, under the identifiers that they have.
unfoldable pub token_entries : Text → List (Text × TokenChunk) → List ResultEntry
unfolding entry_of
token_entries attempt_id [] = []
token_entries attempt_id ((event_id, chunk) ∷ chunks) =
    entry_of event_id attempt_id (some (token chunk)) ∷ token_entries attempt_id chunks

collect_loop-tokens :
    (chunks : List (Text × TokenChunk)) (written current attempt_id : Text) (rest : List Reply)
    → collect_loop written current (map reply (token_entries attempt_id chunks) ++ rest)
      ≡ collect_loop (written ++ texts chunks) current rest
unfolding collect_loop texts token_entries
collect_loop-tokens [] written current attempt_id rest = rw (append-nil written) refl
collect_loop-tokens ((event_id, chunk) ∷ chunks) written current attempt_id rest =
    collect_loop-tokens chunks (written ++ chunk.text) current attempt_id rest
    ∙ rw (append_assoc written chunk.text (texts chunks)) refl

pub restarts_other :
    (current attempt_id : Text)
    → current ≢ []
    → current ≢ attempt_id
    → restarts current attempt_id ≡ true
unfolding restarts
restarts_other [] attempt_id h k = absurd (h refl)
restarts_other (c ∷ current) attempt_id h k = ground (arith, text_beq_iff (c ∷ current) attempt_id)

-- A worker took the generation over from another one: after any entries that did not end it, of
-- which the last start was of an attempt with another identifier than the new one's, the answer
-- has the text of the tokens of the new attempt, all of them and no others, and the count and the
-- reason of its completion, whatever follows.
pub collect_loop-retry :
    (before : List ResultEntry) (started_id attempt_id done_id : Text)
    (chunks : List (Text × TokenChunk)) (done : GenerationCompleted) (after : List Reply)
    → All IsOpen before
    → last_started [] before ≢ []
    → last_started [] before ≢ attempt_id
    → collect_loop [] [] (
        map reply before
        ++ reply (entry_of started_id attempt_id (some attempt_started))
          ∷ (map reply (token_entries attempt_id chunks)
              ++ reply (entry_of done_id attempt_id (some (completed done))) ∷ after))
      ≡ some (
          ok (record {
            text = texts chunks;
            generated_tokens = done.generated_tokens;
            finish_reason = done.finish_reason;
          }))
unfolding collect_loop entry_of
collect_loop-retry before started_id attempt_id done_id chunks done after h k l =
    let tail =
      map reply (token_entries attempt_id chunks)
      ++ reply (entry_of done_id attempt_id (some (completed done))) ∷ after in
    let (kept, f) = collect_loop-open before [] [] h in
    f (reply (entry_of started_id attempt_id (some attempt_started)) ∷ tail)
    ∙ ap (λ b. collect_loop (if b then [] else kept) attempt_id tail)
        (restarts_other (last_started [] before) attempt_id k l)
    ∙ collect_loop-tokens chunks [] attempt_id attempt_id _

pub restarts_same :
    (current attempt_id : Text)
    → (current ≡ []) ⊎ (current ≡ attempt_id)
    → restarts current attempt_id ≡ false
unfolding restarts
restarts_same [] attempt_id c = refl
restarts_same (x ∷ current) attempt_id c = ground (arith, text_beq_iff (x ∷ current) attempt_id)

pub collect_loop-completed :
    (last : ResultEntry) (done : GenerationCompleted) (kept current : Text) (rest : List Reply)
    → last.result.event ≡ some (completed done)
    → collect_loop kept current (reply last ∷ rest)
      ≡ some (
          ok (record {
            text = kept;
            generated_tokens = done.generated_tokens;
            finish_reason = done.finish_reason;
          }))
unfolding collect_loop
collect_loop-completed last done kept current rest h = ground (arith, h)
