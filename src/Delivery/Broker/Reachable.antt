-- ===== src/Delivery/Broker/Reachable.antt =====
-- The Streams client of crates/inference-streams/src/lib.rs answers the calls of an engine while its
-- broker is reachable.
use inference_data_plane.Prelude.{◌≡◌, refl, ap, List, ℕ, ok, map_err}
use inference_data_plane.Prelude.Action.{Action, pure, lift, ◌>>=◌, ◌>>◌}
use inference_data_plane.Text.{Text}
use inference_data_plane.Streams.{StreamsConfig}
use inference_data_plane.Streams.Keyspace.{Keyspace}
use inference_data_plane.Streams.Keys.{result_stream, reservation_key}
use inference_data_plane.Streams.Lease.{LeaseStore, release_lease, release_read, release_script}
use inference_data_plane.Streams.Quota.{reconcile_script, cancel_script}
use inference_data_plane.Streams.Quota.Client.{
  reconcile_quota, cancel_quota, refund_read, cancel_read,
}
use inference_data_plane.Streams.Reply.{validate_schema, schema_version}
use inference_data_plane.Streams.Transport.{Transport, RedisError}
use inference_data_plane.Streams.Wire.{GenerationResult}
use inference_data_plane.Streams.Jobs.{
  JobStore, call, publish_result, status, status_of, status_values, result_writes,
}
use inference_data_plane.Engine.Reliable.{Returns, Returns-bind, Answers}
use inference_data_plane.Delivery.Broker.{Broker, on_jobs, streams_client}

-- Every command is sent, run and replied to.
abbrev pub IsReachable : {Db : Type 0} → Transport Db → Type 1
IsReachable {Db} T =
    (A : Type 0) (run : Db → A × Db) (w : T.World) → (a : A) × ((T.send run w).0 ≡ ok a)

module _ (J : JobStore) (L : LeaseStore) (K : Keyspace) (T : Transport (Broker J L K))
    (reaches : IsReachable T) (config : StreamsConfig) (redis_text : RedisError → Text)
    (sha256_hex : Text → Text) (encode : GenerationResult → List ℕ)
    (sleep : ℕ → T.World → T.World) where
  open T use {World}

  call-Returns :
      {A : Type 0} (run : J.Db → A × J.Db)
      → Returns (call J config (on_jobs J L K T) redis_text run)
  unfolding call
  call-Returns run w =
      let (a, h) =
        reaches _ (λ b. let (reply, d) = run b.jobs in (reply, record b { jobs = d })) w in
      (a, ap (map_err redis_text) h)

  valid : (version : ℕ) → version ≡ schema_version → validate_schema version ≡ ok tt
  unfolding validate_schema
  valid version h = rw h refl

  publishes :
      (result : GenerationResult)
      → result.schema_version ≡ schema_version
      → Returns (publish_result J config (on_jobs J L K T) redis_text encode result)
  unfolding publish_result
  publishes result h =
      let check : Action World Text (Unit {0}) = lift (validate_schema result.schema_version) in
      let write : Text → Action World Text Text = λ id.
        call J config (on_jobs J L K T) redis_text (λ d. (tt, result_writes J config result id d))
        >> pure id in
      Returns-bind check
        (λ done.
          call J config (on_jobs J L K T) redis_text
            (J.xadd (result_stream result.request_id) (encode result))
          >>= write)
        (λ w. (tt, valid result.schema_version h))
        (λ done.
          Returns-bind
            (call J config (on_jobs J L K T) redis_text
              (J.xadd (result_stream result.request_id) (encode result)))
            write (call-Returns (J.xadd (result_stream result.request_id) (encode result)))
            (λ id.
              Returns-bind
                (call J config (on_jobs J L K T) redis_text
                  (λ d. (tt, result_writes J config result id d)))
                (λ d. pure id) (call-Returns (λ d. (tt, result_writes J config result id d)))
                (λ d w. (id, refl))))

  pub streams_client-Answers :
      Answers (streams_client J L K T config redis_text sha256_hex encode sleep)
  unfolding status release_lease release_read reconcile_quota refund_read cancel_quota cancel_read
  streams_client-Answers = record {
    publishes = publishes;
    tells_status = λ request_id.
        Returns-bind
          (call J config (on_jobs J L K T) redis_text
            (λ d. (status_values J config request_id d, d)))
          (λ values. pure (status_of values))
          (call-Returns (λ d. (status_values J config request_id d, d)))
          (λ values w. (status_of values, refl));
    releases = λ request_id owner w.
        let (n, h) =
          reaches _
            (λ b.
              let (reply, d) = release_script L config request_id owner b.leases in
              (reply, record b { leases = d }))
            w in
        (tt, rw h refl);
    reconciles = λ id k w.
        let (n, h) =
          reaches _
            (λ b.
              let (reply, d) = reconcile_script K (reservation_key id) k b.quota in
              (reply, record b { quota = d }))
            w in
        (_, ap (λ s. map_err redis_text (refund_read s)) h);
    cancels = λ id w.
        let (n, h) =
          reaches _
            (λ b.
              let (reply, d) = cancel_script K (reservation_key id) b.quota in
              (reply, record b { quota = d }))
            w in
        (tt, ap (λ s. map_err redis_text (cancel_read s)) h);
  }
