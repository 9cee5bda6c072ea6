-- ===== src/Lib.antt =====
-- Redline is a gateway that ingests models, places them on GPU nodes through Nomad, and serves
-- requests to them. This library models the logic of the gateway, the Go code under internal/, and
-- proves what its parts promise.
--
-- The parts, and the files that model them:
--
--   Chat: internal/api/chat.go and handler.go, the validation of a completion request, its handler
--   and the stream of tokens.
--
--   Http: Keys is internal/db/api_keys.go with the handlers of internal/api/apikeys.go, Guards the
--   guards of internal/httpmw and internal/policy/middleware.go with the chains that
--   internal/app/app.go makes of them, and Login internal/api/auth.go with internal/db/users.go.
--
--   Auth: Sessions is internal/auth/session.go with internal/db/refresh_tokens.go, refresh tokens
--   and their rotation. Http/Login calls it.
--
--   Resilience: internal/resilience, requests that stop producing tokens and are put on a Queue.
--
--   Inference: internal/inference/vllm_args.go, vllm_kvcache.go, vllm_batching.go,
--   vllm_chunked_prefill.go, vllm_oom.go and prefix_router.go. Quant: internal/quant, which chooses
--   a precision and then a node by Scheduler/BinPacking.
--
--   Migrations: internal/db/migrate.go.
--
--   ObjectCache: internal/cache/upload.go, the client's side of an upload in parts, and in
--   ObjectCache/Pipeline internal/ingest/pipeline.go and retrying_download.go, which upload.
--
--   Scheduler: internal/scheduler. State is state.go, the deployment states, the table of legal
--   transitions and the store of states as an interface. StatusStream is statusstream.go, which
--   turns allocation events into states. GpuBinding is gpubinding.go, the exclusive use of a device
--   by one tenant, with its Lua scripts. Failures, Retry, BinPacking, Idle, Ceiling, Sweeps and
--   Degraded are failures.go, retry.go, binpacking.go, idle.go, oom_recovery.go, the three files
--   reaper.go, orphan.go and warmpool.go, and degraded.go with internal/nomadclient/idempotent.go.
--
--   LocalCache: internal/localcache/lru.go, the cache of artifacts on a node's disk. The doubly
--   linked list is the list of entries in its order, an element is a number that is used once, and
--   the map goes from a key to the number.
--
--   Deployments: internal/db/deployments.go and errors.go, the rows that fill the interface of
--   Scheduler/State.
--
--   Lora: internal/lora. pool.go and router.go are the adapters that an engine holds; Lora/Adapter is
--   adapter.go and engine_config.go, on the headers of Ingest/Header.
--
--   Ingest: internal/ingest. Quota is quota.go, Header is safetensors.go and header.go, Vram is
--   vram.go and architecture.go, and Jobs is orchestrator.go and dedup.go with the updates of
--   internal/db/ingestion_jobs.go. Jobs calls the other three as the source does. Reference is
--   reference.go, manifest.go and format.go.
--
--   Queue: internal/queue/queue.go and ops.go, a durable job queue, and in Queue/Workers
--   workerpool.go, the loop of a worker.
--
--   Ratelimit: internal/ratelimit/limiter.go, a sliding window of admitted requests.
--
--   Policy: internal/policy/escalation.go and suspension.go, the response to abuse.
--
--   Redis has the interfaces of the Redis commands that the scripts use, Base the shared types,
--   lists, integers and texts. Tests fills every interface with plain functions, which shows that
--   its laws can hold, and has the witnesses and the runs at fixed inputs.
--
-- How the code is rendered. A method is a function of the state before it to the state after it
-- and the result; a script of Redis is one step. A request to a service is served, refused, or
-- carried out with its reply lost (Call in Base/Remote), and each theorem says for which of these it
-- holds. Redis, Nomad, the database, the engine, the JSON decoder and the random draw are
-- arguments or interfaces with laws that state their documented effect. An int64 that sums or
-- products can overflow is an integer with the wrap-around written out (wrap64 in Base/Int), or, in
-- LocalCache, a bit pattern modulo 2^64; counts that cannot are native numbers. The time of a call is an argument.
--
-- Bounds. The eviction loop of LocalCache runs on fuel, one more than the entries of the list;
-- each round removes an entry, and the theorems on Put say what it returns, so that the fuel is
-- enough. The reads of an upload run on fuel, the number of bytes, and the theorem on what it sends
-- shows that it is enough; a worker's polls run on the number that come before its context ends. All
-- other loops go over lists. The backoff's doubling is structural recursion on the
-- attempt.
--
-- Not modelled: logging, metrics and the texts of most errors; floats (GPU-hours, reduced
-- footprints); locks, since each critical section is one step; a read of the database that another
-- process makes stale before the write that follows, except in the rotation of refresh tokens; the
-- handlers of models, benchmarks, policy and session costs, most SQL repositories, and the clients of
-- Nomad, the engines and the object store.
pub mod Base
pub mod Redis
pub mod Scheduler
pub mod LocalCache
pub mod Lora
pub mod Ingest
pub mod Queue
pub mod Ratelimit
pub mod Policy
pub mod Auth
pub mod Http
pub mod Resilience
pub mod Inference
pub mod Quant
pub mod Migrations
pub mod Chat
pub mod ObjectCache
pub mod Deployments
mod Tests
