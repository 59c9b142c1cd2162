-- ===== src/Frontend/Generate/Stream.antt =====
-- `stream_generation` and `collect_generation` of crates/inference-frontend/src/main.rs against each
-- other, and against the reader of crates/inference-frontend/src/bin/connect_smoke.rs.
use inference_data_plane.Prelude.{
  ℕ, ◌≡◌, refl, sym, ap, ◌∙◌, ◌⊎◌, inl, inr, Bool, true, false, Option, none, some, List, [], ◌∷◌,
  ◌++◌, map, append_assoc, append-nil, All, All-map, subst, arith, ok, if◌then◌else◌,
}
use inference_data_plane.Text.{Text}
use inference_data_plane.Streams.Wire.{
  GenerationEvent, ResultEvent, attempt_started, token, completed, failed, GenerationCompleted,
  ResultEntry, IsOpenEvent,
}
use inference_data_plane.Frontend.{AppState}
use inference_data_plane.Frontend.Envelope.{Codec, connect_envelope, read_stream}
use inference_data_plane.Frontend.Envelope.Framing.{Fits, written}
use inference_data_plane.Frontend.Envelope.Reading.{concat, read_stream-connect_envelope}
use inference_data_plane.Frontend.Generate.{Reply, event_from, collect_loop, event_of, stream_loop}
use inference_data_plane.Frontend.Generate.Collect.{
  reply, IsOpen, absorb, collect_loop-absorb, restarts_same, collect_loop-completed,
}

cons_some : Option GenerationEvent → List GenerationEvent → List GenerationEvent
cons_some none es = es
cons_some (some e) es = e ∷ es

unfoldable pub deltas : List GenerationEvent → Text
deltas [] = []
deltas (e ∷ es) = e.delta ++ deltas es

module _ (P : Codec GenerationEvent) (state : AppState) (request_id : Text) where
  -- The events of the entries, in their order.
  unfoldable pub sent : List ResultEntry → List GenerationEvent
  unfolding cons_some event_of
  sent [] = []
  sent (entry ∷ entries) = cons_some (event_of P state request_id entry) (sent entries)

  pub is_terminal : Option GenerationEvent → Bool
  is_terminal none = false
  is_terminal (some e) = e.terminal

  -- An entry that does not end the generation is sent as an event that does not, or not at all.
  event_from-open :
      (event : Option ResultEvent) (event_id attempt_id : Text)
      → IsOpenEvent event
      → is_terminal (event_from P state request_id event_id attempt_id event) ≡ false
  unfolding event_from is_terminal
  event_from-open none event_id attempt_id h = refl
  event_from-open (some attempt_started) event_id attempt_id h = refl
  event_from-open (some (token chunk)) event_id attempt_id h = refl
  event_from-open (some (completed done)) event_id attempt_id h = absurd h
  event_from-open (some (failed failure)) event_id attempt_id h = absurd h

  stream_loop-none :
      (e : ResultEntry) (rest : List Reply)
      → event_of P state request_id e ≡ none
      → stream_loop P state request_id (reply e ∷ rest) ≡ stream_loop P state request_id rest
  unfolding stream_loop
  stream_loop-none e rest h = ground (arith, h)

  stream_loop-some :
      (e : ResultEntry) (v : GenerationEvent) (rest : List Reply)
      → event_of P state request_id e ≡ some v
      → stream_loop P state request_id (reply e ∷ rest)
        ≡ connect_envelope P v false
          ∷ (if v.terminal then [] else stream_loop P state request_id rest)
  unfolding stream_loop
  stream_loop-some e v rest h = ground (arith, h)

  stream_loop-one :
      (event : Option GenerationEvent) (e : ResultEntry) (rest : List Reply)
      (es : List GenerationEvent)
      → event_of P state request_id e ≡ event
      → is_terminal event ≡ false
      → concat (stream_loop P state request_id rest) ≡ written P es
      → concat (stream_loop P state request_id (reply e ∷ rest)) ≡ written P (cons_some event es)
  unfolding cons_some is_terminal written concat
  stream_loop-one none e rest es h k same = ap concat (stream_loop-none e rest h) ∙ same
  stream_loop-one (some v) e rest es h k same =
      ap concat (
        stream_loop-some e v rest h
        ∙ ap
            (λ b.
              connect_envelope P v false ∷ (if b then [] else stream_loop P state request_id rest))
            k)
      ∙ ap (◌++◌ (connect_envelope P v false)) same

  cons_some-append :
      (event : Option GenerationEvent) (es fs : List GenerationEvent)
      → cons_some event es ++ fs ≡ cons_some event (es ++ fs)
  unfolding cons_some
  cons_some-append none es fs = refl
  cons_some-append (some e) es fs = refl

  -- The bytes of an open run, and of the entry that ends it, are those of their events.
  stream_loop-written :
      (before : List ResultEntry) (last : ResultEntry) (final : GenerationEvent) (rest : List Reply)
      → All IsOpen before
      → event_of P state request_id last ≡ some final
      → final.terminal ≡ true
      → concat (stream_loop P state request_id (map reply before ++ reply last ∷ rest))
        ≡ written P (sent before ++ final ∷ [])
  unfolding sent written concat event_of
  stream_loop-written [] last final rest f h k = ap concat (
      stream_loop-some last final rest h
      ∙ ap
          (λ b.
            connect_envelope P final false
            ∷ (if b then [] else stream_loop P state request_id rest))
          k)
  stream_loop-written (e ∷ before) last final rest f h k =
      stream_loop-one (event_of P state request_id e) e (map reply before ++ reply last ∷ rest)
        (sent before ++ final ∷ []) refl
        (event_from-open e.result.event e.event_id e.result.attempt_id f.0)
        (stream_loop-written before last final rest f.1 h k)
      ∙ ap (written P)
          (sym (cons_some-append (event_of P state request_id e) (sent before) (final ∷ [])))

  -- End to end: when entries that do not end the generation are followed by one that does, the
  -- client of the stream reads their events, in order and none after the last, from whatever
  -- chunks the bytes arrive in, when each event's encoding is shorter than 2 ^ 32 bytes.
  pub read_stream-stream_loop :
      (before : List ResultEntry) (last : ResultEntry) (final : GenerationEvent) (rest : List Reply)
      (chunks : List (List ℕ))
      → All IsOpen before
      → event_of P state request_id last ≡ some final
      → final.terminal ≡ true
      → All (Fits P) (sent before ++ final ∷ [])
      → concat chunks
        ≡ concat (stream_loop P state request_id (map reply before ++ reply last ∷ rest))
      → read_stream P (map ok chunks)
        ≡ ok (record { buffered = []; events = sent before ++ final ∷ [] })
  read_stream-stream_loop before last final rest chunks f h k fits same =
      read_stream-connect_envelope P (sent before ++ final ∷ []) chunks fits
        (same ∙ stream_loop-written before last final rest f h k)

  -- One open entry adds its event's delta to the text, when no other attempt was there before.
  absorb-delta :
      (event : Option ResultEvent) (event_id attempt_id kept current : Text)
      (es : List GenerationEvent)
      → IsOpenEvent event
      → (current ≡ []) ⊎ (current ≡ attempt_id)
      → ((absorb kept current attempt_id event).0 ++ deltas es
          ≡ kept ++ deltas (cons_some (event_from P state request_id event_id attempt_id event) es))
        × (((absorb kept current attempt_id event).1 ≡ [])
            ⊎ ((absorb kept current attempt_id event).1 ≡ attempt_id))
  unfolding absorb deltas cons_some event_from
  absorb-delta none event_id attempt_id kept current es h c = (refl, c)
  absorb-delta (some attempt_started) event_id attempt_id kept current es h c = (
    ap (λ b. (if b then [] else kept) ++ deltas es) (restarts_same current attempt_id c),
    inr refl,
  )
  absorb-delta (some (token chunk)) event_id attempt_id kept current es h c =
      (append_assoc kept chunk.text (deltas es), c)
  absorb-delta (some (completed done)) event_id attempt_id kept current es h c = absurd h
  absorb-delta (some (failed failure)) event_id attempt_id kept current es h c = absurd h

  -- An entry of the attempt that does not end the generation.
  abbrev pub Quiet : Text → ResultEntry → Type 0
  Quiet attempt_id e = IsOpen e × (e.result.attempt_id ≡ attempt_id)

  collect_loop-deltas :
      (before : List ResultEntry) (attempt_id kept current : Text) (last : ResultEntry)
      (done : GenerationCompleted) (rest : List Reply)
      → All (Quiet attempt_id) before
      → (current ≡ []) ⊎ (current ≡ attempt_id)
      → last.result.event ≡ some (completed done)
      → collect_loop kept current (map reply before ++ reply last ∷ rest)
        ≡ some (
            ok (record {
              text = kept ++ deltas (sent before);
              generated_tokens = done.generated_tokens;
              finish_reason = done.finish_reason;
            }))
  unfolding deltas sent event_of
  collect_loop-deltas [] attempt_id kept current last done rest f c h =
      collect_loop-completed last done kept current rest h
      ∙ ap
          (λ t. some (
            ok (record {
              text = t;
              generated_tokens = done.generated_tokens;
              finish_reason = done.finish_reason;
            })))
          (sym (append-nil kept))
  collect_loop-deltas (e ∷ before) attempt_id kept current last done rest f c h =
      let same = f.0.1 in
      let (w, a) = absorb kept current e.result.attempt_id e.result.event in
      let (grows, again) =
        absorb-delta e.result.event e.event_id e.result.attempt_id kept current (sent before) f.0.0
          (subst (λ x. (current ≡ []) ⊎ (current ≡ x)) (sym same) c) in
      collect_loop-absorb e.result.event e kept current (map reply before ++ reply last ∷ rest) refl
        f.0.0
      ∙ collect_loop-deltas before attempt_id w a last done rest f.1
          (subst (λ x. (a ≡ []) ⊎ (a ≡ x)) same again) h
      ∙ ap
          (λ t. some (
            ok (record {
              text = t;
              generated_tokens = done.generated_tokens;
              finish_reason = done.finish_reason;
            })))
          grows

  -- When one attempt completes the generation, the text of the unary call is the deltas of the
  -- events that the stream sends before the last one, and the last one is terminal and has the
  -- count and the reason of the unary call.
  pub collect_loop-eq-stream_loop :
      (before : List ResultEntry) (attempt_id : Text) (last : ResultEntry)
      (done : GenerationCompleted) (rest : List Reply)
      → All (Quiet attempt_id) before
      → last.result.event ≡ some (completed done)
      → (final : GenerationEvent) × (concat
            (stream_loop P state request_id (map reply before ++ reply last ∷ rest))
          ≡ written P (sent before ++ final ∷ []))
        × (final.terminal ≡ true)
        × (collect_loop [] [] (map reply before ++ reply last ∷ rest)
            ≡ some (
                ok (record {
                  text = deltas (sent before);
                  generated_tokens = final.generated_tokens;
                  finish_reason = final.finish_reason;
                })))
  unfolding event_of event_from
  collect_loop-eq-stream_loop before attempt_id last done rest f h =
      let final = ap (event_from P state request_id last.event_id last.result.attempt_id) h in
      (
        _,
        stream_loop-written before last _ rest (All-map (λ e q. q.0) before f) final refl,
        refl,
        collect_loop-deltas before attempt_id [] [] last done rest f (inl refl) h,
      )
