-- ===== src/Streams/Keys.antt =====
-- The keys under which crates/inference-streams/src/lib.rs keeps its data, and the type of value
-- that each holds.
use inference_data_plane.Prelude.{
  ℕ, ◌≡◌, ◌≢◌, refl, ap, [], ◌∷◌, ◌++◌, arith, false, is_some, if◌then◌else◌,
}
use inference_data_plane.Text.{Text, codes, text_beq}
use inference_data_plane.Text.Split.{strip_prefix, strip_prefix-append}
use inference_data_plane.Text.Decimal.{show}

unfoldable pub request_stream : Text
unfolding codes
request_stream = codes "inference:requests"

unfoldable pub request_group : Text
unfolding codes
request_group = codes "inference-engines"

unfoldable pub result_stream : Text → Text
unfolding codes
result_stream request_id = codes "inference:results:" ++ request_id

unfoldable pub status_key : Text → Text
unfolding codes
status_key request_id = codes "inference:status:" ++ request_id

unfoldable pub lease_key : Text → Text
unfolding codes
lease_key request_id = codes "inference:lease:" ++ request_id

unfoldable pub reservation_key : Text → Text
unfolding codes
reservation_key id = codes "inference:reservation:" ++ id

-- The counters of one API key (by its digest) in one minute.
unfoldable pub quota_prefix : Text → ℕ → Text
unfolding codes
quota_prefix key_hash bucket = codes "inference:quota:" ++ (key_hash ++ (codes ":" ++ show bucket))

unfoldable pub requests_key : Text → Text
unfolding codes
requests_key prefix = prefix ++ codes ":requests"

unfoldable pub prompt_key : Text → Text
unfolding codes
prompt_key prefix = prefix ++ codes ":prompt"

unfoldable pub generated_key : Text → Text
unfolding codes
generated_key prefix = prefix ++ codes ":generated"

pub data Kind : Type 0 where
  counter lease hash stream unused : Kind

-- The type of value that the clients keep under a key.
unfoldable pub key_kind : Text → Kind
unfolding codes
key_kind key =
    if is_some (strip_prefix (codes "inference:quota:") key)
    then counter
    else if is_some (strip_prefix (codes "inference:lease:") key)
    then lease
    else if is_some (strip_prefix (codes "inference:reservation:") key)
    then hash
    else if is_some (strip_prefix (codes "inference:status:") key)
    then hash
    else if is_some (strip_prefix (codes "inference:results:") key)
    then stream
    else if is_some (strip_prefix (codes "inference:requests") key)
    then stream
    else unused

module _ (id : Text) where
  pub kind-lease : key_kind (lease_key id) ≡ lease
  unfolding key_kind lease_key strip_prefix
  kind-lease = refl

  pub kind-reservation : key_kind (reservation_key id) ≡ hash
  unfolding key_kind reservation_key strip_prefix
  kind-reservation = refl

  pub kind-status : key_kind (status_key id) ≡ hash
  unfolding key_kind status_key strip_prefix
  kind-status = refl

  pub kind-result : key_kind (result_stream id) ≡ stream
  unfolding key_kind result_stream strip_prefix
  kind-result = refl

module _ (key_hash : Text) (bucket : ℕ) where
  pub kind-requests : key_kind (requests_key (quota_prefix key_hash bucket)) ≡ counter
  unfolding key_kind requests_key quota_prefix strip_prefix
  kind-requests = refl

  pub kind-prompt : key_kind (prompt_key (quota_prefix key_hash bucket)) ≡ counter
  unfolding key_kind prompt_key quota_prefix strip_prefix
  kind-prompt = refl

  pub kind-generated : key_kind (generated_key (quota_prefix key_hash bucket)) ≡ counter
  unfolding key_kind generated_key quota_prefix strip_prefix
  kind-generated = refl

last_of : ℕ → Text → ℕ
last_of d [] = d
last_of d (c ∷ s) = last_of c s

last_of-append : (d e c : ℕ) (a b : Text) → last_of d (a ++ c ∷ b) ≡ last_of e (c ∷ b)
unfolding last_of
last_of-append d e c [] b = refl
last_of-append d e c (x ∷ a) b = last_of-append x e c a b

-- The three counters of a prefix are never those of another prefix under another name.
pub requests-ne-prompt : (p q : Text) → requests_key p ≢ prompt_key q
unfolding requests_key prompt_key last_of
requests-ne-prompt p q h =
    let e = ap (last_of 0) h in
    ground (
      arith,
      e,
      last_of-append 0 0 b':' p (codes "requests"),
      last_of-append 0 0 b':' q (codes "prompt"),
    )

pub requests-ne-generated : (p q : Text) → requests_key p ≢ generated_key q
unfolding requests_key generated_key last_of
requests-ne-generated p q h =
    let e = ap (last_of 0) h in
    ground (
      arith,
      e,
      last_of-append 0 0 b':' p (codes "requests"),
      last_of-append 0 0 b':' q (codes "generated"),
    )

pub prompt-ne-generated : (p q : Text) → prompt_key p ≢ generated_key q
unfolding prompt_key generated_key last_of
prompt-ne-generated p q h =
    let e = ap (last_of 0) h in
    ground (
      arith,
      e,
      last_of-append 0 0 b':' p (codes "prompt"),
      last_of-append 0 0 b':' q (codes "generated"),
    )

append_left_cancel : (p a b : Text) → p ++ a ≡ p ++ b → a ≡ b
append_left_cancel p a b h = cc (strip_prefix-append p a, strip_prefix-append p b, h)

pub reservation_key-injective : (a b : Text) → reservation_key a ≡ reservation_key b → a ≡ b
unfolding reservation_key
reservation_key-injective a b h = append_left_cancel (codes "inference:reservation:") a b h

pub lease_key-injective : (a b : Text) → lease_key a ≡ lease_key b → a ≡ b
unfolding lease_key
lease_key-injective a b h = append_left_cancel (codes "inference:lease:") a b h

pub status_key-injective : (a b : Text) → status_key a ≡ status_key b → a ≡ b
unfolding status_key
status_key-injective a b h = append_left_cancel (codes "inference:status:") a b h

pub result_stream-injective : (a b : Text) → result_stream a ≡ result_stream b → a ≡ b
unfolding result_stream
result_stream-injective a b h = append_left_cancel (codes "inference:results:") a b h

pub kind_request_stream : key_kind request_stream ≡ stream
unfolding key_kind request_stream strip_prefix
kind_request_stream = refl

pub request_stream-beq-result_stream :
    (a : Text) → text_beq request_stream (result_stream a) ≡ false
unfolding result_stream request_stream text_beq
request_stream-beq-result_stream a = refl
