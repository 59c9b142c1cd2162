-- ===== src/Frontend/Envelope/Framing.antt =====
-- One envelope of crates/inference-frontend/src/main.rs in the buffer of the reader.
use inference_data_plane.Prelude.{
  ℕ, zero, suc, ◌/◌, ◌%◌, ◌≤◌, ◌<◌, ◌≡◌, refl, sym, ap, ◌∙◌, false, Option, some, List, [], ◌∷◌,
  ◌++◌, take, drop, length, length-append, length-drop, take-append, drop-append, arith, u32_mod,
}
use inference_data_plane.Streams.Wire.{GenerationEvent}
use inference_data_plane.Frontend.Envelope.{
  Codec, put_u32, from_be_bytes, end_flag, take_envelope, connect_envelope,
}

pub from_be_bytes-put_u32 :
    (n : ℕ)
    → n < u32_mod
    → from_be_bytes (n / 16_777_216 % 256) (n / 65_536 % 256) (n / 256 % 256) (n % 256) ≡ n
unfolding from_be_bytes
from_be_bytes-put_u32 n h = omega arith

take-prefix : {A : Type 0} (n : ℕ) (xs ys : List A) → n ≤ length xs → take n (xs ++ ys) ≡ take n xs
unfolding take
take-prefix zero xs ys h = refl
take-prefix (suc n) [] ys h = ground arith
take-prefix (suc n) (x ∷ xs) ys h = ap (◌∷◌ x) (take-prefix n xs ys (omega arith))

drop-prefix :
    {A : Type 0} (n : ℕ) (xs ys : List A) → n ≤ length xs → drop n (xs ++ ys) ≡ drop n xs ++ ys
unfolding drop
drop-prefix zero xs ys h = refl
drop-prefix (suc n) [] ys h = ground arith
drop-prefix (suc n) (x ∷ xs) ys h = drop-prefix n xs ys (omega arith)

-- An envelope that is whole is the same one when more bytes have come.
take_envelope-append :
    (buf later message rest : List ℕ) (flags : ℕ)
    → take_envelope buf ≡ some (flags, message, rest)
    → take_envelope (buf ++ later) ≡ some (flags, message, rest ++ later)
unfolding take_envelope
take_envelope-append [] later message rest flags h = cc
take_envelope-append (f ∷ []) later message rest flags h = cc
take_envelope-append (f ∷ a ∷ []) later message rest flags h = cc
take_envelope-append (f ∷ a ∷ b ∷ []) later message rest flags h = cc
take_envelope-append (f ∷ a ∷ b ∷ c ∷ []) later message rest flags h = cc
take_envelope-append (f ∷ a ∷ b ∷ c ∷ d ∷ body) later message rest flags h = ground (
  arith,
  length-append body later,
  take-prefix (from_be_bytes a b c d) body later,
  drop-prefix (from_be_bytes a b c d) body later,
)

-- Five bytes or more are taken.
pub take_envelope-shorter :
    (buf message rest : List ℕ) (flags : ℕ)
    → take_envelope buf ≡ some (flags, message, rest)
    → length rest < length buf
unfolding take_envelope
take_envelope-shorter [] message rest flags h = cc
take_envelope-shorter (f ∷ []) message rest flags h = cc
take_envelope-shorter (f ∷ a ∷ []) message rest flags h = cc
take_envelope-shorter (f ∷ a ∷ b ∷ []) message rest flags h = cc
take_envelope-shorter (f ∷ a ∷ b ∷ c ∷ []) message rest flags h = cc
take_envelope-shorter (f ∷ a ∷ b ∷ c ∷ d ∷ body) message rest flags h =
    ground (arith, length-drop (from_be_bytes a b c d) body)

module _ (P : Codec GenerationEvent) where
  -- The length of the encoding fits the four bytes.
  unfoldable pub Fits : GenerationEvent → Type 0
  Fits e = length (P.encode e) < u32_mod

  unfoldable pub written : List GenerationEvent → List ℕ
  written [] = []
  written (e ∷ es) = connect_envelope P e false ++ written es

  pub take_envelope-connect_envelope :
      (e : GenerationEvent) (tail : List ℕ)
      → Fits e
      → take_envelope (connect_envelope P e false ++ tail) ≡ some (0, P.encode e, tail)
  unfolding Fits take_envelope connect_envelope put_u32 end_flag
  take_envelope-connect_envelope e tail h = ground (
    arith,
    from_be_bytes-put_u32 (length (P.encode e)) h,
    length-append (P.encode e) tail,
    take-append (P.encode e) tail,
    drop-append (P.encode e) tail,
  )

  -- What is taken from a part of the written bytes is the first event's envelope.
  pub take_envelope-written :
      (e : GenerationEvent) (es : List GenerationEvent) (buf later message rest : List ℕ)
      (flags : ℕ)
      → Fits e
      → buf ++ later ≡ written (e ∷ es)
      → take_envelope buf ≡ some (flags, message, rest)
      → (flags ≡ 0) × (message ≡ P.encode e) × (rest ++ later ≡ written es)
  unfolding written
  take_envelope-written e es buf later message rest flags h same taken =
      let whole = take_envelope-append buf later message rest flags taken in
      let first = take_envelope-connect_envelope e (written es) h in
      let again : take_envelope (buf ++ later) ≡ some (0, P.encode e, written es) =
        ap take_envelope same ∙ first in
      let both : ◌≡◌ {A = Option (ℕ × List ℕ × List ℕ)} (some (flags, message, rest ++ later))
          (some (0, P.encode e, written es)) =
        sym whole ∙ again in
      (cc, cc, cc)
