-- ===== src/Frontend/Envelope/Reading.antt =====
-- `read_stream` of crates/inference-frontend/src/bin/connect_smoke.rs on what `connect_envelope` of
-- crates/inference-frontend/src/main.rs wrote.
use inference_data_plane.Prelude.{
  ℕ, zero, suc, ◌≤◌, ◌≡◌, refl, sym, ap, ◌∙◌, none, some, List, [], ◌∷◌, ◌++◌, map, length,
  append_assoc, append-nil, All, arith, Result, ok, Option-cases, inl, inr,
}
use inference_data_plane.Text.{Text}
use inference_data_plane.Streams.Wire.{GenerationEvent}
use inference_data_plane.Frontend.Envelope.{
  Codec, StreamRead, take_envelope, is_end, drain, read_chunks, read_stream,
}
use inference_data_plane.Frontend.Envelope.Framing.{
  Fits, written, take_envelope-shorter, take_envelope-connect_envelope, take_envelope-written,
}

nil_of_length : (xs : List ℕ) → length xs ≤ 0 → xs ≡ []
nil_of_length [] h = refl
nil_of_length (x ∷ xs) h = ground arith

unfoldable pub concat : List (List ℕ) → List ℕ
concat [] = []
concat (c ∷ cs) = c ++ concat cs

module _ (P : Codec GenerationEvent) where
  -- From `r` to `r'`: some of the events `es` are read, and the bytes that are left, with those that
  -- come later, are the others'.
  record Progress (r r' : StreamRead) (later : List ℕ) (es : List GenerationEvent) : Type 0 where
    read : List GenerationEvent
    left : List GenerationEvent
    split : es ≡ read ++ left
    kept : r'.events ≡ r.events ++ read
    rest : r'.buffered ++ later ≡ written P left
    stuck : take_envelope r'.buffered ≡ none
    fits : All (Fits P) left

  stays :
      (r : StreamRead) (later : List ℕ) (es : List GenerationEvent)
      → All (Fits P) es
      → r.buffered ++ later ≡ written P es
      → take_envelope r.buffered ≡ none
      → Progress r r later es
  stays r later es f same nothing = record {
    read = [];
    left = es;
    split = refl;
    kept = sym (append-nil r.events);
    rest = same;
    stuck = nothing;
    fits = f;
  }

  empty_front : (xs ys : List ℕ) → xs ++ ys ≡ [] → xs ≡ []
  empty_front [] ys h = refl
  empty_front (x ∷ xs) ys h = cc

  drain_one :
      (n : ℕ) (r : StreamRead) (e : GenerationEvent) (rest : List ℕ)
      → take_envelope r.buffered ≡ some (0, P.encode e, rest)
      → drain P (suc n) r ≡ drain P n (record { buffered = rest; events = r.events ++ e ∷ [] })
  unfolding drain is_end
  drain_one n r e rest h = ground (arith, h, P.decode-encode e)

  nothing_left : (r : StreamRead) → length r.buffered ≤ 0 → take_envelope r.buffered ≡ none
  unfolding take_envelope
  nothing_left r h = ap take_envelope (nil_of_length r.buffered h)

  drain_stuck : (n : ℕ) (r : StreamRead) → take_envelope r.buffered ≡ none → drain P n r ≡ ok r
  unfolding drain
  drain_stuck zero r h = refl
  drain_stuck (suc n) r h = ground (arith, h)

  -- An event that is read before what `Progress` tells.
  one_more :
      (r r' : StreamRead) (e : GenerationEvent) (rest later : List ℕ) (es : List GenerationEvent)
      → Progress (record { buffered = rest; events = r.events ++ e ∷ [] }) r' later es
      → Progress r r' later (e ∷ es)
  one_more r r' e rest later es p = record {
    read = e ∷ p.read;
    left = p.left;
    split = ap (◌∷◌ e) p.split;
    kept = p.kept ∙ append_assoc r.events (e ∷ []) p.read;
    rest = p.rest;
    stuck = p.stuck;
    fits = p.fits;
  }

  drain-Progress :
      (n : ℕ) (r : StreamRead) (later : List ℕ) (es : List GenerationEvent)
      → All (Fits P) es
      → r.buffered ++ later ≡ written P es
      → length r.buffered ≤ n
      → (r' : StreamRead) × (drain P n r ≡ ok r') × Progress r r' later es
  unfolding written take_envelope
  drain-Progress zero r later es f same enough =
      let nothing = nothing_left r enough in
      (r, drain_stuck zero r nothing, stays r later es f same nothing)
  drain-Progress (suc n) r later [] f same enough =
      let nothing = ap take_envelope (empty_front r.buffered later same) in
      (r, drain_stuck (suc n) r nothing, stays r later [] f same nothing)
  drain-Progress (suc n) r later (e ∷ es) f same enough =
      elim (Option-cases (take_envelope r.buffered)) [
        | inl nothing ↦ (r, drain_stuck (suc n) r nothing, stays r later (e ∷ es) f same nothing)
        | inr ((flags, message, rest), taken) ↦
            let (no_flag, encoded, others) =
              take_envelope-written P e es r.buffered later message rest flags f.0 same taken in
            let shorter = take_envelope-shorter r.buffered message rest flags taken in
            let (r', done, p) =
              drain-Progress n (record { buffered = rest; events = r.events ++ e ∷ [] }) later es
                f.1 others (omega arith) in
            (r', drain_one n r e rest (taken ∙ cc) ∙ done, one_more r r' e rest later es p)
      ]

  -- When no byte comes later and no whole envelope is left, no event is.
  all_read :
      (r : StreamRead) (es : List GenerationEvent)
      → All (Fits P) es
      → r.buffered ≡ written P es
      → take_envelope r.buffered ≡ none
      → (es ≡ []) × (r.buffered ≡ [])
  unfolding written
  all_read r [] f same stuck = (refl, same)
  all_read r (e ∷ es) f same stuck =
      let first = take_envelope-connect_envelope P e (written P es) f.0 in
      let again : take_envelope r.buffered ≡ some (0, P.encode e, written P es) =
        ap take_envelope same ∙ first in
      cc

  ok_read :
      (r : StreamRead) (b : List ℕ) (es : List GenerationEvent)
      → r.buffered ≡ b
      → r.events ≡ es
      → ◌≡◌ {A = Result Text StreamRead} (ok r) (ok (record { buffered = b; events = es }))
  ok_read r b es h k = rw (← h, ← k) refl

  read_chunks_step :
      (c : List ℕ) (chunks : List (Result Text (List ℕ))) (r r' : StreamRead)
      → drain P (length (r.buffered ++ c)) (record r { buffered = r.buffered ++ c }) ≡ ok r'
      → read_chunks P (ok c ∷ chunks) r ≡ read_chunks P chunks r'
  unfolding read_chunks
  read_chunks_step c chunks r r' h = ground (arith, h)

  read_chunks-written :
      (chunks : List (List ℕ)) (r : StreamRead) (es : List GenerationEvent)
      → All (Fits P) es
      → r.buffered ++ concat chunks ≡ written P es
      → take_envelope r.buffered ≡ none
      → read_chunks P (map ok chunks) r ≡ ok (record { buffered = []; events = r.events ++ es })
  unfolding read_chunks concat
  read_chunks-written [] r es f same stuck =
      let (no_events, no_bytes) = all_read r es f (sym (append-nil r.buffered) ∙ same) stuck in
      ok_read r [] (r.events ++ es) no_bytes
        (sym (append-nil r.events) ∙ ap (◌++◌ r.events) (sym no_events))
  read_chunks-written (c ∷ chunks) r es f same stuck =
      let (r', drained, p) =
        drain-Progress (length (r.buffered ++ c)) (record r { buffered = r.buffered ++ c })
          (concat chunks) es f (append_assoc r.buffered c (concat chunks) ∙ same) (omega arith) in
      let rest = read_chunks-written chunks r' p.left p.fits p.rest p.stuck in
      let events : r'.events ++ p.left ≡ r.events ++ es =
        ap (λ x. x ++ p.left) p.kept
        ∙ append_assoc r.events p.read p.left
        ∙ ap (◌++◌ r.events) (sym p.split) in
      read_chunks_step c (map ok chunks) r r' drained
      ∙ rest
      ∙ ok_read _ [] (r.events ++ es) refl events

  -- The events that the frontend writes, none the end of the stream, are read back in their order
  -- with no byte left over, however the bytes are cut into chunks, when every encoding is shorter
  -- than 2 ^ 32 bytes.
  pub read_stream-connect_envelope :
      (es : List GenerationEvent) (chunks : List (List ℕ))
      → All (Fits P) es
      → concat chunks ≡ written P es
      → read_stream P (map ok chunks) ≡ ok (record { buffered = []; events = es })
  unfolding read_stream take_envelope
  read_stream-connect_envelope es chunks f same =
      read_chunks-written chunks (record { buffered = []; events = [] }) es f same refl
