-- ===== src/Delivery/Examples/OneBroker.antt =====
-- A job of crates/inference-engine/src/main.rs on a broker kept in memory.
use inference_data_plane.Prelude.{
  ◌≡◌, ◌⊎◌, refl, arith, List, [], ◌++◌, map, true, false, ok, lookup,
}
use inference_data_plane.Text.{codes, text_beq}
use inference_data_plane.Streams.{default_config}
use inference_data_plane.Streams.Keys.{status_key, result_stream, lease_key, reservation_key}
use inference_data_plane.Streams.Lease.{
  acquire_lease, release_lease, acquire_read, release_read, acquire_command, release_script,
}
use inference_data_plane.Streams.Quota.{reconcile_script}
use inference_data_plane.Streams.Quota.Client.{reconcile_quota, refund_read}
use inference_data_plane.Streams.Transport.{Transport}
use inference_data_plane.Streams.Reply.{validate_schema}
use inference_data_plane.Streams.Jobs.{
  publish_result, status, call, status_of, status_values, cell, result_writes, set_state,
  set_terminal, result_ttl, is_terminal,
}
use inference_data_plane.Streams.Examples.{memory, empty_memory, direct}
use inference_data_plane.Streams.Examples.Leases.{lease_memory, no_leases}
use inference_data_plane.Streams.Examples.Board.{shelf, empty_shelf, encode_result, redis_text}
use inference_data_plane.Engine.{Client, synthetic, acknowledge, ModelServer}
use inference_data_plane.Engine.Job.{
  run_job, run_known, run_leased, run_attempt, settle, is_overdue, is_completed, lease_owner,
}
use inference_data_plane.Engine.Attempt.{
  execute_attempt, attempt_request, stream_backend, stream_synthetic, synthetic_words,
  publish_words, pause, with_stop,
}
use inference_data_plane.Engine.Results.{
  publish_event, publish_started, publish_token, publish_completion, publish_failure, result_of,
}
use inference_data_plane.Engine.Request.{extract_prompt, estimate_tokens}
use inference_data_plane.Engine.Examples.{toy_json, config, some_job}
use inference_data_plane.Engine.Calls.{Call}
use inference_data_plane.Engine.Calls.Logged.{logged, log_of, logged-Answers}
use inference_data_plane.Engine.Reliable.{Answers}
use inference_data_plane.Frontend.Generate.{collect_loop}
use inference_data_plane.Frontend.Generate.Collect.{reply}
use inference_data_plane.Delivery.{entries, LeftAlone, Delivered}
use inference_data_plane.Delivery.Answer.{run_job-answers}
use inference_data_plane.Delivery.Broker.Reachable.{IsReachable, streams_client-Answers}
use inference_data_plane.Delivery.Examples.{before, opens, fresh}
use inference_data_plane.Delivery.Broker.{Broker, streams_client}
use inference_data_plane.Delivery.Broker.Completion.{IsDone, run_job-IsDone}

abbrev one_broker : Transport (Broker shelf lease_memory memory)
one_broker = direct (Broker shelf lease_memory memory)

abbrev empty_broker : Broker shelf lease_memory memory
empty_broker = record { jobs = empty_shelf; leases = no_leases; quota = empty_memory }

abbrev client : Client
client =
    streams_client shelf lease_memory memory one_broker default_config redis_text (λ key. key)
      encode_result (λ ms w. w)

abbrev idle_server : ModelServer toy_json.Value (Broker shelf lease_memory memory)
idle_server = record { post = λ url body w. (ok [], w); from_utf8_lossy = λ bytes. bytes }

abbrev after_run : Broker shelf lease_memory memory
after_run =
    (run_job toy_json client idle_server (config synthetic) (codes "e") some_job 50 (codes "a")
      empty_broker).1

runs :
    run_job toy_json client idle_server
      (config synthetic)
      (codes "e")
      some_job
      50
      (codes "a")
      empty_broker
    ≡ (ok acknowledge, after_run)
unfolding run_job run_known run_leased run_attempt settle is_overdue is_completed lease_owner
    execute_attempt attempt_request stream_backend stream_synthetic synthetic_words publish_words
    pause with_stop publish_event publish_started publish_token publish_completion publish_failure
    result_of extract_prompt estimate_tokens acquire_lease release_lease acquire_read release_read
    acquire_command release_script reconcile_script reconcile_quota refund_read publish_result
    status call status_of status_values cell result_writes set_state set_terminal result_ttl
    is_terminal status_key result_stream lease_key reservation_key validate_schema codes text_beq
    lookup
runs = refl

run_job-IsDone_example :
    IsDone shelf lease_memory memory one_broker default_config redis_text
      (λ key. key)
      encode_result
      (λ ms w. w)
      (omega arith)
      (codes "r")
      after_run
run_job-IsDone_example =
    run_job-IsDone shelf lease_memory memory one_broker default_config redis_text (λ key. key)
      encode_result (λ ms w. w) (omega arith) toy_json idle_server (config synthetic) (codes "e")
      some_job 50 (codes "a") empty_broker after_run runs

abbrev one_client : Client
one_client = logged client

abbrev one_server : ModelServer toy_json.Value one_client.World
one_server = record { post = λ url body w. (ok [], w); from_utf8_lossy = λ bytes. bytes }

abbrev at_start : one_client.World
at_start = record { world = empty_broker; calls = [] }

one_broker-IsReachable : IsReachable one_broker
one_broker-IsReachable A run w = ((run w).0, refl)

one_client-Answers : Answers one_client
one_client-Answers = logged-Answers client (
    streams_client-Answers shelf lease_memory memory one_broker one_broker-IsReachable
      default_config redis_text (λ key. key) encode_result (λ ms w. w))

-- Nobody has a lease in an empty broker.
granted :
    (one_client.acquire_lease some_job.request_id
      (lease_owner (codes "e") (codes "a"))
      (one_client.status some_job.request_id at_start).1).0
    ≡ ok true
unfolding status call acquire_lease acquire_read acquire_command
granted = refl

run_job-answers_example :
    let (r, v) =
      run_job toy_json one_client one_server
        (config synthetic)
        (codes "e")
        some_job
        50
        (codes "a")
        at_start in
    (r ≡ ok acknowledge)
    × (cs : List Call) × (v.calls ≡ [] ++ cs)
    × (LeftAlone some_job cs
        ⊎ Delivered some_job cs (collect_loop [] [] (map reply (before ++ entries cs) ++ [])))
run_job-answers_example =
    run_job-answers one_client-Answers (log_of client) toy_json one_server
      (record { calls-post = λ url body w. refl }) (config synthetic) (codes "e") some_job 50
      (codes "a") before [] at_start granted opens fresh

-- A second engine does not get the lease of a request while the first has it.
not_granted :
    (one_client.acquire_lease some_job.request_id
      (lease_owner (codes "f") (codes "b"))
      (one_client.acquire_lease some_job.request_id
        (lease_owner (codes "e") (codes "a"))
        at_start).1).0
    ≡ ok false
unfolding acquire_lease acquire_read acquire_command lease_key text_beq codes
not_granted = refl
