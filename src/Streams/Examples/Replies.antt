-- ===== src/Streams/Examples/Replies.antt =====
-- The parsers of crates/inference-streams/src/lib.rs at a concrete entry.
use inference_data_plane.Prelude.{◌≡◌, refl, false, none, some, [], ◌∷◌, ok, err}
use inference_data_plane.Text.{codes, text_beq}
use inference_data_plane.Text.Decimal.{show}
use inference_data_plane.Streams.Wire.{GenerationJob, GenerationResult, attempt_started}
use inference_data_plane.Streams.Reply.{
  Value, array, bulk_string, other, no_values, item, find_payload, parse_result_reply,
  parse_job_reply, parse_autoclaim_reply,
}
use inference_data_plane.Streams.Reply.Entries.{
  entry_value, xread_reply, autoclaim_reply, parsers-entry_value,
}

abbrev started : GenerationResult
started = record {
  schema_version = 1;
  request_id = codes "r";
  attempt_id = codes "w1";
  event = some attempt_started;
}

-- A job of a version that is not supported.
abbrev old_job : GenerationJob
old_job = record {
  schema_version = 2;
  request_id = codes "r";
  model_id = codes "m";
  model_revision = codes "main";
  model_endpoint = [];
  request_json = [];
  deadline_unix_ms = 0;
  reservation_id = codes "res";
  cache = none;
}

abbrev one_entry : Value
one_entry = entry_value (codes "1-0") ((codes "trace", 7 ∷ []) ∷ []) (1 ∷ []) no_values

trace-ne-payload : text_beq (codes "trace") (codes "payload") ≡ false
unfolding text_beq codes
trace-ne-payload = refl

parsers-entry_value_example :
    (parse_result_reply ok (λ bytes. ok started) (xread_reply other one_entry no_values no_values)
      ≡ ok (some (record { event_id = codes "1-0"; result = started })))
    × (parse_job_reply ok (λ bytes. ok old_job) (xread_reply other one_entry no_values no_values)
        ≡ err (codes "unsupported inference Streams schema version 2"))
    × (parse_autoclaim_reply ok
          (λ bytes. ok old_job)
          (autoclaim_reply other one_entry no_values no_values)
        ≡ err (codes "unsupported inference Streams schema version 2"))
unfolding codes show
parsers-entry_value_example =
    parsers-entry_value ok (codes "1-0") (codes "1-0") refl (λ bytes. ok started)
      (λ bytes. ok old_job) ((codes "trace", 7 ∷ []) ∷ []) (1 ∷ []) (1 ∷ []) no_values no_values
      no_values other started old_job (trace-ne-payload, tt) refl refl

no_payload_field :
    parse_result_reply ok
      (λ bytes. ok started)
      (xread_reply other
        (array (
          item
            (bulk_string (codes "1-0"))
            (item (array (item other (item other no_values))) no_values)))
        no_values
        no_values)
    ≡ err (codes "Stream entry has no protobuf payload field")
unfolding parse_result_reply find_payload
no_payload_field = refl
