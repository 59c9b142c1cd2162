-- ===== src/Lib.antt =====
-- A model of the Rust data plane of this repository: an HTTP frontend that admits generation
-- requests and streams their results, the engines that run the jobs, the client of the broker
-- (Valkey) that the frontend and the engines share, a token budget and a quota limiter in memory.
--
-- How the parts interact: the frontend (`crates/inference-frontend/src/main.rs`) checks the bearer
-- token, asks the token budget (`crates/token-budget-engine/src/lib.rs`) whether prompt and output
-- fit the model, reserves quota through the Streams client (`crates/inference-streams/src/lib.rs`),
-- publishes a job, and then turns the entries of the job's result stream into one answer or into
-- Connect envelopes. An engine (`crates/inference-engine/src/main.rs`) takes jobs from the same
-- client, takes a lease on the request, publishes the results of an attempt against the model server,
-- and settles the reservation. The limiter of `crates/generation-quota-limiter/src/lib.rs` does in
-- memory what the quota scripts do in Valkey.
--
-- The files:
--   Prelude, Text      shared names, Boolean tests, lists, association lists, 64-bit words,
--                      `Result`, integers; `str` as a list of code points, `split_whitespace`,
--                      `split_once`, `strip_prefix`, `join`, printing and parsing of numbers.
--   Budget             `crates/token-budget-engine/src/lib.rs`: `ApproxTokenCounter`,
--                      `strict_decision`, `reserve_output_first`, `truncate_oldest`,
--                      `decide_budget`. Theorems in Count, Policies and Truncation. Cli has the
--                      command `crates/token-budget-engine/src/main.rs`.
--   Limiter            `crates/generation-quota-limiter/src/lib.rs`: `InMemoryQuotaLimiter` as a
--                      record with two association lists; `reserve`, `reconcile`, `cancel` as
--                      functions on it. Windows, Bounds, Reserve, Refunds and Stale are about
--                      single calls and histories, Concurrent about interleaved critical sections.
--   Streams.Keys       the keys of `crates/inference-streams/src/lib.rs`.
--   Streams.Keyspace   what the quota scripts use of Valkey, as an interface with laws.
--   Streams.Transport  the client library: a command runs as one step, and replies or fails.
--   Streams.Quota      `RESERVE_QUOTA_LUA`, `RECONCILE_QUOTA_LUA`, `CANCEL_QUOTA_LUA`; Client has
--                      `reserve_quota`, `reconcile_quota`, `cancel_quota`. Effects, Settle,
--                      Accounts, Grants, Expiry, Columns and Limits lead to the interleavings of
--                      Limits; Outcomes is about the replies.
--   Streams.Lease      `acquire_lease`, `renew_lease`, `release_lease`; Exclusion has the
--                      interleavings of the workers, Exclusion.Safety what they keep, Outcomes the
--                      replies.
--   Streams.Wire       the messages of `proto/inference`.
--   Streams.Reply      the parsers of the replies; theorems in Entries.
--   Streams.Jobs       `publish_generation`, `publish_result` and `status`, over an interface of the
--                      streams and hashes; Subscription has `subscribe` and
--                      `ResultSubscription::next`, Consumer has `consumer` and `JobConsumer`.
--                      Effects has what a transaction writes; Board has the interleavings of the
--                      two commands of each call, Board.Steps, Board.Results, Board.Waiting and
--                      Board.Safety what they keep, and Board.Runs a call that returns as one of
--                      them; Outcomes and Subscription.Retries are about the replies.
--   Engine             `crates/inference-engine/src/main.rs`: the types, and the interfaces of JSON,
--                      of the Streams client and of the model server. Request has the payload,
--                      Results the events that are published, Sse `stream_openai_compatible`,
--                      Attempt `stream_synthetic` and `execute_attempt`, Job `run_job` and the
--                      heartbeat, Worker the loop of `main`, Start the rest of it. Calls gives a
--                      client a log of its calls; Protocol, Counts, Heartbeat and Reliable are
--                      about that log.
--   Delivery           an engine and the caller of the frontend: what a run publishes is what
--                      `collect_generation` reads. Theorems in Collect and Answer. Broker fills the
--                      engine's interface with the Streams client on one broker; theorems in
--                      Broker.Completion and Broker.Reachable.
--   Frontend           `authenticate`, `bearer_token`, `request_prompt`, `prompt_prefix`,
--                      `valid_stream_id`; theorems in Requests.
--   Frontend.Admit     `admit_and_dispatch`; theorems in Dispatch.
--   Frontend.Handlers  `rpc_generate`, `rpc_stream_generate`, `api_keys_from_env` and the state that
--                      `main` makes; theorems in Keys, Refusals and Answers.
--   Frontend.Generate  `collect_generation`, `stream_generation`, `rpc_subscribe_generation`;
--                      theorems in Collect, Stream and Subscribe.
--   Frontend.Envelope  `connect_envelope`, and `read_stream` of
--                      `crates/inference-frontend/src/bin/connect_smoke.rs`; theorems in Framing
--                      and Reading.
--   Examples           (of each part) runs at concrete inputs, the source's tests among them, and
--                      concrete brokers, codecs and services that fill the interfaces.
--
-- Numbers are natural numbers. `u64` and `usize` are 64-bit words: a sum is taken modulo 2 ^ 64, as
-- in a release build, `saturating_sub` stops at 0, and `as u32` is taken modulo 2 ^ 32. The numbers
-- of the Lua scripts are exact integers, as Lua's are below 2 ^ 53. Durations are in milliseconds.
-- A text is the list of its code points; an encoding is a list of bytes.
--
-- Loops are recursive on their data, but for these on fuel: the printing of a number has as many
-- rounds as the number, which is at least its number of digits; the inner loop of `read_stream` as
-- many as there are bytes in the buffer, of which each round takes five or more; the loop over the
-- lines of a chunk as many as there are characters in the buffer, of which each round takes one or
-- more; and the retries of a subscription are the four of the source. The theorems on them are about
-- their results, so no fuel runs out. The endless loops, of the worker and of the heartbeat, are
-- runs over a list of the turns that the world gives them.
--
-- Interleavings of several clients are modelled for the scripts of Streams.Quota, for the leases of
-- Streams.Lease, and in Streams.Jobs.Board for `publish_generation` and `publish_result`, whose two
-- commands stand apart there. Elsewhere a call passes the state of the world on to the next one, and
-- what other tasks do meanwhile is left to the interface: a call may change the world in any way that
-- the laws which a theorem assumes allow. The heartbeat is a task of its own, and its calls are not in
-- the log of `run_job`.
--
-- The clock, fresh identifiers, SHA-256, the JSON and protobuf encodings, the decoding of a header
-- value, the broker, the model server and the network are parameters. Not modelled: the reading of
-- the configuration files and the start of the processes, the printing and the latencies of the
-- smoke client, logging, the Go control plane (`controlplane`), generated code, deployment files and
-- scripts.
pub mod Prelude
pub mod Text
pub mod Budget
pub mod Limiter
pub mod Streams
pub mod Engine
pub mod Frontend
pub mod Delivery
