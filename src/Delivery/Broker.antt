-- ===== src/Delivery/Broker.antt =====
-- The Streams client of crates/inference-streams/src/lib.rs as the one that an engine of
-- crates/inference-engine/src/main.rs uses: its operations on jobs, leases and quota, on one broker
-- whose data are those of the three interfaces.
pub mod Completion
pub mod Reachable
use inference_data_plane.Prelude.{ℕ, ◌≡◌, refl, sym, ap, Bool, List, Result, ok, err, map_err}
use inference_data_plane.Prelude.Action.{Action}
use inference_data_plane.Text.{Text}
use inference_data_plane.Streams.{StreamsConfig}
use inference_data_plane.Streams.Keyspace.{Keyspace}
use inference_data_plane.Streams.Lease.{LeaseStore, acquire_lease, renew_lease, release_lease}
use inference_data_plane.Streams.Quota.Client.{reconcile_quota, cancel_quota}
use inference_data_plane.Streams.Transport.{Transport, RedisError}
use inference_data_plane.Streams.Wire.{GenerationJob, GenerationResult}
use inference_data_plane.Streams.Jobs.{JobStore, publish_result, status}
use inference_data_plane.Streams.Jobs.Consumer
use inference_data_plane.Streams.Jobs.Consumer.{Groups}
use inference_data_plane.Engine.{Client}
use inference_data_plane.Engine.Worker.{Consumers}

module _ (J : JobStore) (L : LeaseStore) (K : Keyspace) where
  -- What one broker holds: streams and status hashes, leases, and the counters of the quota.
  pub record Broker : Type 0 where
    pub jobs : J.Db
    pub leases : L.Db
    pub quota : K.Db

  module _ (T : Transport Broker) where
    -- A command of one of the three leaves the other two alone.
    abbrev pub on_jobs : Transport J.Db
    on_jobs = record {
      World = T.World;
      db = λ w. (T.db w).jobs;
      send = λ run w. T.send (λ b. let (reply, d) = run b.jobs in (reply, record b { jobs = d })) w;
      delivered = λ run w w' a h.
          let s =
            T.delivered (λ b. let (reply, d) = run b.jobs in (reply, record b { jobs = d })) w w' a
              h in
          ap (λ x. (x.0, x.1.jobs)) s;
    }

    abbrev pub on_leases : Transport L.Db
    on_leases = record {
      World = T.World;
      db = λ w. (T.db w).leases;
      send = λ run w.
          T.send (λ b. let (reply, d) = run b.leases in (reply, record b { leases = d })) w;
      delivered = λ run w w' a h.
          let s =
            T.delivered (λ b. let (reply, d) = run b.leases in (reply, record b { leases = d })) w
              w' a h in
          ap (λ x. (x.0, x.1.leases)) s;
    }

    abbrev pub on_quota : Transport K.Db
    on_quota = record {
      World = T.World;
      db = λ w. (T.db w).quota;
      send =
          λ run w. T.send (λ b. let (reply, d) = run b.quota in (reply, record b { quota = d })) w;
      delivered = λ run w w' a h.
          let s =
            T.delivered (λ b. let (reply, d) = run b.quota in (reply, record b { quota = d })) w w'
              a h in
          ap (λ x. (x.0, x.1.quota)) s;
    }

    module _ (config : StreamsConfig) (redis_text : RedisError → Text) (sha256_hex : Text → Text)
        (encode : GenerationResult → List ℕ) (sleep : ℕ → T.World → T.World) where
      -- `?` on an error of the broker.
      abbrev texted : {A : Type 0} → Result RedisError A × T.World → Result Text A × T.World
      texted (reply, w) = (map_err redis_text reply, w)

      abbrev pub streams_client : Client
      streams_client = record {
        World = T.World;
        publish_result = publish_result J config on_jobs redis_text encode;
        status = status J config on_jobs redis_text;
        acquire_lease = λ id owner w. texted (acquire_lease L config on_leases id owner w);
        renew_lease = λ id owner w. texted (renew_lease L config on_leases id owner w);
        release_lease = λ id owner w. texted (release_lease L config on_leases id owner w);
        reconcile_quota = λ id n w. texted (reconcile_quota K on_quota sha256_hex id n w);
        cancel_quota = λ id w. texted (cancel_quota K on_quota sha256_hex id w);
        sleep = sleep;
      }

-- The consumer of jobs that the loop of the engine reads from.
abbrev pub job_consumers :
    {World : Type 0}
    → Groups World
    → (List ℕ → Result Text Text)
    → (List ℕ → Result Text GenerationJob)
    → Consumers World
job_consumers G from_utf8 decode = record {
  JobConsumer = Text;
  consumer = Consumer.consumer G;
  next = Consumer.next G from_utf8 decode;
  reclaim_stale = Consumer.reclaim_stale G from_utf8 decode;
  acknowledge_entry = λ name entry_id. Consumer.acknowledge G entry_id;
}
