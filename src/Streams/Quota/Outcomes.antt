-- ===== src/Streams/Quota/Outcomes.antt =====
-- What the result of `reserve_quota` of crates/inference-streams/src/lib.rs says of the database.
use inference_data_plane.Prelude.{◌≡◌, Result, ok, err}
use inference_data_plane.Prelude.Int.{pos, ◌+ℤ◌, ◌≤ℤ◌}
use inference_data_plane.Text.{Text}
use inference_data_plane.Streams.Keyspace.{Keyspace}
use inference_data_plane.Streams.Transport.{Transport}
use inference_data_plane.Streams.Quota.{
  Charge, QuotaLimits, QuotaReservation, count, reserve_writes,
}
use inference_data_plane.Streams.Quota.Accounts.{quota_ttl}
use inference_data_plane.Streams.Quota.Client.{
  QuotaError, requests, prompt_tokens, generated_tokens, broker,
}

module _ (K : Keyspace) (limits : QuotaLimits) (c : Charge) where
  abbrev pub RequestFits : K.Db → Type 0
  RequestFits db = count K db c.requests_at +ℤ pos 1 ≤ℤ pos limits.requests_per_minute

  abbrev pub PromptFits : K.Db → Type 0
  PromptFits db = count K db c.prompt_at +ℤ pos c.prompt_add ≤ℤ pos limits.prompt_tokens_per_minute

  abbrev pub GeneratedFits : K.Db → Type 0
  GeneratedFits db =
      count K db c.generated_at +ℤ pos c.generated_add ≤ℤ pos limits.generated_tokens_per_minute

  -- What is left of each limit after the reservation.
  pub record Remains (db : K.Db) (r : QuotaReservation) : Type 0 where
    pub request :
        count K db c.requests_at +ℤ pos 1 +ℤ pos r.remaining_requests
        ≡ pos limits.requests_per_minute
    pub prompt :
        count K db c.prompt_at +ℤ pos c.prompt_add +ℤ pos r.remaining_prompt_tokens
        ≡ pos limits.prompt_tokens_per_minute
    pub generated :
        count K db c.generated_at +ℤ pos c.generated_add +ℤ pos r.remaining_generated_tokens
        ≡ pos limits.generated_tokens_per_minute

  abbrev pub Outcome : K.Db → K.Db → Result QuotaError QuotaReservation → Type 0
  Outcome db after (ok r) = Remains db r × (after ≡ reserve_writes K c quota_ttl db)
  Outcome db after (err requests) = (¬ RequestFits db) × (after ≡ db)
  Outcome db after (err prompt_tokens) = RequestFits db × (¬ PromptFits db) × (after ≡ db)
  Outcome db after (err generated_tokens) =
      RequestFits db × PromptFits db × (¬ GeneratedFits db) × (after ≡ db)
  Outcome db after (err (broker e)) = Unit {0}
