-- ===== src/Streams/Reply.antt =====
-- The replies of the streams commands and their parsers in crates/inference-streams/src/lib.rs. The
-- protobuf codecs and the decoding of UTF-8 are parameters.
pub mod Entries
use inference_data_plane.Prelude.{
  ℕ, String, ◌≡◌, Bool, true, false, Option, none, some, List, [], ◌∷◌, ◌++◌, eqb, Result, ok, err,
  ◌>>=◌, ◌>>◌, if◌then◌else◌,
}
use inference_data_plane.Text.{Text, codes, text_beq}
use inference_data_plane.Text.Decimal.{show}
use inference_data_plane.Streams.Wire.{GenerationJob, GenerationResult, ResultEntry}

-- `redis::Value`: what the parsers tell apart, and every other value.
mutual
  pub data Value : Type 0 where
    array : Values → Value
    bulk_string : List ℕ → Value
    other : Value

  pub data Values : Type 0 where
    no_values : Values
    item : Value → Values → Values

pub record ConsumedJob : Type 0 where
  pub entry_id : Text
  pub job : GenerationJob

abbrev pub schema_version : ℕ
schema_version = 1

unfoldable pub validate_schema : ℕ → Result Text (Unit {0})
unfolding codes
validate_schema version =
    if eqb version schema_version
    then ok tt
    else err (codes "unsupported inference Streams schema version " ++ show version)

-- The pairs of `fields.chunks(2)`, up to the first whose key is `payload`.
unfoldable pub find_payload : Values → Option (List ℕ)
unfolding text_beq codes
find_payload no_values = none
find_payload (item a no_values) = none
find_payload (item (bulk_string key) (item (bulk_string payload) rest)) =
    let later = find_payload rest in if text_beq key (codes "payload") then some payload else later
find_payload (item a (item b rest)) = find_payload rest

module _ (from_utf8 : List ℕ → Result Text Text) where
  entry_payload : List ℕ → Option (List ℕ) → Result Text (Option (Text × List ℕ))
  unfolding codes
  entry_payload id none = err (codes "Stream entry has no protobuf payload field")
  entry_payload id (some payload) = from_utf8 id >>= λ name. ok (some (name, payload))

  unfoldable pub parse_entry : Option Value → Result Text (Option (Text × List ℕ))
  unfolding entry_payload find_payload
  parse_entry (some (array (item (bulk_string id) (item (array fields) rest)))) =
      entry_payload id (find_payload fields)
  parse_entry _ = ok none

  first : Values → Option Value
  first no_values = none
  first (item v vs) = some v

  unfoldable pub parse_xread_payload : Value → Result Text (Option (Text × List ℕ))
  unfolding parse_entry first
  parse_xread_payload (array (item (array (item name (item (array entries) more))) others)) =
      parse_entry (first entries)
  parse_xread_payload _ = ok none

  module _ (decode : List ℕ → Result Text GenerationResult) where
    result_entry : Option (Text × List ℕ) → Result Text (Option ResultEntry)
    unfolding validate_schema
    result_entry none = ok none
    result_entry (some (event_id, payload)) = do
      result ← decode payload
      validate_schema result.schema_version
      ok (some (record { event_id = event_id; result = result }))

    unfoldable pub parse_result_reply : Value → Result Text (Option ResultEntry)
    unfolding parse_xread_payload result_entry
    parse_result_reply reply = parse_xread_payload reply >>= result_entry

  module _ (decode : List ℕ → Result Text GenerationJob) where
    consumed_job : Option (Text × List ℕ) → Result Text (Option ConsumedJob)
    unfolding validate_schema
    consumed_job none = ok none
    consumed_job (some (id, payload)) = do
      job ← decode payload
      validate_schema job.schema_version
      ok (some (record { entry_id = id; job = job }))

    unfoldable pub parse_job_reply : Value → Result Text (Option ConsumedJob)
    unfolding parse_xread_payload consumed_job
    parse_job_reply reply = parse_xread_payload reply >>= consumed_job

    unfoldable pub parse_autoclaim_reply : Value → Result Text (Option ConsumedJob)
    unfolding parse_entry first consumed_job
    parse_autoclaim_reply (array (item cursor (item (array entries) more))) =
        parse_entry (first entries) >>= consumed_job
    parse_autoclaim_reply _ = ok none
