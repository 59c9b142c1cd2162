-- ===== src/Streams.antt =====
-- crates/inference-streams/src/lib.rs: the client of the broker. The broker (Valkey), its client
-- libraries and the protobuf codec are parameters.
pub mod Keys
pub mod Wire
pub mod Reply
pub mod Keyspace
pub mod Transport
pub mod Quota
pub mod Lease
pub mod Jobs
pub mod Examples
use inference_data_plane.Prelude.{ℕ}

-- Durations are in milliseconds.
pub record StreamsConfig : Type 0 where
  pub active_ttl : ℕ
  pub result_retention : ℕ
  pub lease_duration : ℕ

abbrev pub default_config : StreamsConfig
default_config = record {
  active_ttl = 3_600_000;
  result_retention = 600_000;
  lease_duration = 60_000;
}
