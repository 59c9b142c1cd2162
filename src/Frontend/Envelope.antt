-- ===== src/Frontend/Envelope.antt =====
-- The Connect envelopes of crates/inference-frontend/src/main.rs, and the client's reader of them in
-- crates/inference-frontend/src/bin/connect_smoke.rs. The protobuf codec is a parameter.
pub mod Framing
pub mod Reading
use inference_data_plane.Prelude.{
  ℕ, zero, suc, ◌+◌, ◌*◌, ◌/◌, ◌%◌, ◌≡◌, Bool, true, false, Option, none, some, List, [], ◌∷◌, ◌++◌,
  take, drop, length, ltb, eqb, u32_mod, Result, ok, err, if◌then◌else◌,
}
use inference_data_plane.Text.{Text, codes}
use inference_data_plane.Streams.Wire.{GenerationEvent}

-- What the program relies on of the generated code: a message that was encoded decodes.
pub record Codec (M : Type 0) : Type 0 where
  pub encode : M → List ℕ
  pub decode : List ℕ → Result Text M
  pub decode-encode : (m : M) → decode (encode m) ≡ ok m

-- `BufMut::put_u32`: four bytes, the highest first.
unfoldable pub put_u32 : ℕ → List ℕ
put_u32 n = n / 16_777_216 % 256 ∷ n / 65_536 % 256 ∷ n / 256 % 256 ∷ n % 256 ∷ []

-- `u32::from_be_bytes`
unfoldable pub from_be_bytes : ℕ → ℕ → ℕ → ℕ → ℕ
from_be_bytes a b c d = a * 16_777_216 + b * 65_536 + c * 256 + d

pub end_flag : Bool → ℕ
end_flag end_stream = if end_stream then 2 else 0

-- What the reader keeps of a stream: the events, and the bytes that are no whole envelope yet.
pub record StreamRead : Type 0 where
  pub buffered : List ℕ
  pub events : List GenerationEvent

-- The inner loop's guard and its `advance(5)` and `split_to`.
unfoldable pub take_envelope : List ℕ → Option (ℕ × List ℕ × List ℕ)
unfolding from_be_bytes
take_envelope (flags ∷ a ∷ b ∷ c ∷ d ∷ rest) =
    let len = from_be_bytes a b c d in
    if ltb (length rest) len then none else some (flags, take len rest, drop len rest)
take_envelope _ = none

unfoldable pub is_end : ℕ → Bool
is_end flags = eqb (flags / 2 % 2) 1

module _ (P : Codec GenerationEvent) where
  -- `payload.len() as u32`
  unfoldable pub connect_envelope : GenerationEvent → Bool → List ℕ
  unfolding put_u32 end_flag
  connect_envelope event end_stream =
      end_flag end_stream ∷ put_u32 (length (P.encode event) % u32_mod) ++ P.encode event

  unfoldable pub connect_error_envelope : Text → Text → List ℕ
  unfolding codes connect_envelope
  connect_error_envelope request_id message =
      connect_envelope
        (record {
          request_id = request_id;
          model = [];
          delta = message;
          generated_tokens = 0;
          finish_reason = codes "error";
          event_id = [];
          attempt_id = [];
          prompt_tokens = 0;
          terminal = true;
        })
        true

  -- The inner loop. Each turn takes five bytes or more, so that the length of the buffer is fuel
  -- enough.
  unfoldable pub drain : ℕ → StreamRead → Result Text StreamRead
  unfolding take_envelope is_end
  drain zero r = ok r
  drain (suc n) r = elim (take_envelope r.buffered) [
    | none ↦ ok r
    | some (flags, message, rest) ↦ elim (P.decode message) [
      | err e ↦ err e
      | ok event ↦
          if is_end flags
          then err (codes "stream error: " ++ event.delta)
          else drain n (record { buffered = rest; events = r.events ++ event ∷ [] })
    ]
  ]

  -- The outer loop, over the chunks as the network gives them.
  unfoldable pub read_chunks : List (Result Text (List ℕ)) → StreamRead → Result Text StreamRead
  unfolding drain
  read_chunks [] r = ok r
  read_chunks (err e ∷ chunks) r = err e
  read_chunks (ok chunk ∷ chunks) r =
      let buffered = r.buffered ++ chunk in
      elim (drain (length buffered) (record r { buffered = buffered })) [
        | err e ↦ err e
        | ok r' ↦ read_chunks chunks r'
      ]

  unfoldable pub read_stream : List (Result Text (List ℕ)) → Result Text StreamRead
  unfolding read_chunks
  read_stream chunks = read_chunks chunks (record { buffered = []; events = [] })
