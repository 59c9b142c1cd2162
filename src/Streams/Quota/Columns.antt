-- ===== src/Streams/Quota/Columns.antt =====
-- The three counters of a minute, in one description: their keys, limits and amounts in
-- crates/inference-streams/src/lib.rs.
use inference_data_plane.Prelude.{ℕ, ◌≡◌, arith, if◌then◌else◌}
use inference_data_plane.Text.{Text, text_eq, text_beq_iff}
use inference_data_plane.Streams.Keys.{
  quota_prefix, requests_key, prompt_key, generated_key, kind-requests, kind-prompt, kind-generated,
  kind-reservation, requests-ne-prompt, requests-ne-generated, prompt-ne-generated,
}
use inference_data_plane.Streams.Quota.{QuotaLimits, charge_of}
use inference_data_plane.Streams.Quota.Effects.{IsCharge, charge_at}

pub data Column : Type 0 where
  requests prompts generations : Column

abbrev pub key_of : Column → Text → Text
key_of requests = requests_key
key_of prompts = prompt_key
key_of generations = generated_key

abbrev pub limit_of : Column → QuotaLimits → ℕ
limit_of requests limits = limits.requests_per_minute
limit_of prompts limits = limits.prompt_tokens_per_minute
limit_of generations limits = limits.generated_tokens_per_minute

abbrev pub amount_of : Column → ℕ → ℕ → ℕ
amount_of requests p g = 1
amount_of prompts p g = p
amount_of generations p g = g

pub charge_of-IsCharge :
    (key_hash : Text) (bucket : ℕ) (id : Text) (p g : ℕ)
    → IsCharge (charge_of (quota_prefix key_hash bucket) id p g)
unfolding charge_of
charge_of-IsCharge key_hash bucket id p g = record {
  requests = kind-requests key_hash bucket;
  prompts = kind-prompt key_hash bucket;
  generations = kind-generated key_hash bucket;
  reservation = kind-reservation id;
}

-- A reservation charges each counter of its own prefix, and no counter twice.
pub charge_at-charge_of :
    (col : Column) (prefix other id : Text) (p g : ℕ)
    → charge_at (charge_of prefix id p g) (key_of col other)
      ≡ (if text_eq.beq (key_of col prefix) (key_of col other) then amount_of col p g else 0)
unfolding charge_at charge_of
charge_at-charge_of requests prefix other id p g = ground (
  arith,
  text_beq_iff (prompt_key prefix) (requests_key other),
  text_beq_iff (generated_key prefix) (requests_key other),
  requests-ne-prompt other prefix,
  requests-ne-generated other prefix,
)
charge_at-charge_of prompts prefix other id p g = ground (
  arith,
  text_beq_iff (requests_key prefix) (prompt_key other),
  text_beq_iff (generated_key prefix) (prompt_key other),
  requests-ne-prompt prefix other,
  prompt-ne-generated other prefix,
)
charge_at-charge_of generations prefix other id p g = ground (
  arith,
  text_beq_iff (requests_key prefix) (generated_key other),
  text_beq_iff (prompt_key prefix) (generated_key other),
  requests-ne-generated prefix other,
  prompt-ne-generated prefix other,
)
