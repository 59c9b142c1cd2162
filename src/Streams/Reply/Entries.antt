-- ===== src/Streams/Reply/Entries.antt =====
-- The parsers of crates/inference-streams/src/lib.rs on the replies that the broker makes of an entry.
use inference_data_plane.Prelude.{
  ℕ, ◌≡◌, refl, ap, false, Option, some, ◌++◌, err, eqb, Bool-cases, inl, inr, List, [], ◌∷◌, All,
  Result, ok, ◌>>=◌, if◌then◌else◌,
}
use inference_data_plane.Text.{Text, codes, text_beq, text_beq_iff}
use inference_data_plane.Text.Decimal.{show}
use inference_data_plane.Streams.Wire.{GenerationJob, GenerationResult}
use inference_data_plane.Streams.Reply.{
  Value, array, bulk_string, Values, no_values, item, validate_schema, find_payload, entry_payload,
  parse_entry, first, parse_xread_payload, result_entry, parse_result_reply, consumed_job,
  parse_job_reply, parse_autoclaim_reply,
}

-- The fields of an entry, key after value.
unfoldable pub field_values : List (List ℕ × List ℕ) → Values → Values
field_values [] rest = rest
field_values ((key, value) ∷ fields) rest =
    item (bulk_string key) (item (bulk_string value) (field_values fields rest))

-- An entry with its payload after other fields.
pub entry_value : List ℕ → List (List ℕ × List ℕ) → List ℕ → Values → Value
unfolding field_values codes
entry_value id fields payload rest = array (
    item (bulk_string id) (
      item
        (array (
          field_values fields
            (item (bulk_string (codes "payload")) (item (bulk_string payload) rest))))
        no_values))

-- XREAD and XREADGROUP: the streams, each its name and its entries. XAUTOCLAIM: a cursor, then the
-- entries.
abbrev pub xread_reply : Value → Value → Values → Values → Value
xread_reply name entry entries streams =
    array (item (array (item name (item (array (item entry entries)) no_values))) streams)

abbrev pub autoclaim_reply : Value → Value → Values → Values → Value
autoclaim_reply cursor entry entries rest =
    array (item cursor (item (array (item entry entries)) rest))

abbrev pub OtherKeys : List (List ℕ × List ℕ) → Type 0
OtherKeys = All (λ field. text_beq field.0 (codes "payload") ≡ false)

find_payload-field_values :
    (fields : List (List ℕ × List ℕ)) (payload : List ℕ) (rest : Values)
    → OtherKeys fields
    → find_payload (
        field_values fields
          (item (bulk_string (codes "payload")) (item (bulk_string payload) rest)))
      ≡ some payload
unfolding find_payload field_values
find_payload-field_values [] payload rest h =
    ap (λ b. if b then some payload else find_payload rest)
      ((text_beq_iff (codes "payload") (codes "payload")).1 refl)
find_payload-field_values ((key, value) ∷ fields) payload rest h =
    rw h.0 (find_payload-field_values fields payload rest h.1)

-- What becomes of a decoded message: version 1 is accepted, and every other one is refused by name.
abbrev pub if_supported : {A : Type 0} → ℕ → A → Result Text (Option A)
if_supported version a =
    if eqb version 1
    then ok (some a)
    else err (codes "unsupported inference Streams schema version " ++ show version)

validate_schema-if_supported :
    {A : Type 0} (version : ℕ) (a : A)
    → (validate_schema version >>= λ valid. ok (some a)) ≡ if_supported version a
unfolding validate_schema
validate_schema-if_supported version a = elim (Bool-cases (eqb version 1)) [
  | inl h ↦ rw h refl
  | inr h ↦ rw h refl
]

module _ (from_utf8 : List ℕ → Result Text Text) (id : List ℕ) (name : Text)
    (named : from_utf8 id ≡ ok name) where
  parse_entry-entry_value :
      (fields : List (List ℕ × List ℕ)) (payload : List ℕ) (rest : Values)
      → OtherKeys fields
      → parse_entry from_utf8 (some (entry_value id fields payload rest))
        ≡ ok (some (name, payload))
  unfolding parse_entry entry_payload entry_value
  parse_entry-entry_value fields payload rest h =
      rw (find_payload-field_values fields payload rest h, named) refl

  -- Every reply parser, on a reply whose first entry has its payload after any other fields: a
  -- result and a job of version 1 come back with the name of the entry, whatever follows in the
  -- reply; of another version, they are refused with the error that names it.
  pub parsers-entry_value :
      (decode_result : List ℕ → Result Text GenerationResult)
      (decode_job : List ℕ → Result Text GenerationJob) (fields : List (List ℕ × List ℕ))
      (payload job_payload : List ℕ) (rest entries more : Values) (head : Value)
      (result : GenerationResult) (job : GenerationJob)
      → OtherKeys fields
      → decode_result payload ≡ ok result
      → decode_job job_payload ≡ ok job
      → (parse_result_reply from_utf8 decode_result
            (xread_reply head (entry_value id fields payload rest) entries more)
          ≡ if_supported result.schema_version (record { event_id = name; result = result }))
        × (parse_job_reply from_utf8 decode_job
              (xread_reply head (entry_value id fields job_payload rest) entries more)
            ≡ if_supported job.schema_version (record { entry_id = name; job = job }))
        × (parse_autoclaim_reply from_utf8 decode_job
              (autoclaim_reply head (entry_value id fields job_payload rest) entries more)
            ≡ if_supported job.schema_version (record { entry_id = name; job = job }))
  unfolding parse_result_reply parse_job_reply parse_autoclaim_reply parse_xread_payload first
      result_entry consumed_job
  parsers-entry_value decode_result decode_job fields payload job_payload rest entries more head
        result job h r j =
      (
        rw (parse_entry-entry_value fields payload rest h, r)
            (validate_schema-if_supported result.schema_version
              (record { event_id = name; result = result })),
        rw (parse_entry-entry_value fields job_payload rest h, j)
            (validate_schema-if_supported job.schema_version
              (record { entry_id = name; job = job })),
        rw (parse_entry-entry_value fields job_payload rest h, j)
            (validate_schema-if_supported job.schema_version
              (record { entry_id = name; job = job })),
      )
