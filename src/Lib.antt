-- ===== src/Lib.antt =====
-- A Synergia cluster: a manager accepts workers over WebSockets, hands work units to them, and keeps
-- their records in a database; a worker runs the units on a local model.
--
-- A caller registers a work unit in the queue (internal/manager/queue), the gateway
-- (internal/manager/gateway) writes it to a worker that the store (internal/manager/store) calls
-- consenting and ready, and the worker's answer comes back through the gateway's read loop to the
-- queue. The read loop also writes what workers report of themselves to the store, and sends them
-- models and binaries. The HTTP API (internal/manager/api) takes completions and batches, and the
-- workers' consents and farewells. The client (internal/client) answers units, watches its GPU, and
-- installs what it is sent.
--
-- - Prelude: the library's names, Boolean tests on numbers, lists over them, integers, and Outcome:
--   a Go function returns, panics, or never comes back.
-- - Table: the database tables, which the store reaches through gorm. A table is a parameter: an
--   interface of calls, each with the law that gorm documents of it; every call may fail. Lists,
--   Queries and Single hold lemmas; Order sorts, for the table in memory that meets the laws.
-- - Protocol: internal/protocol/messages.go and handshake.go.
-- - Store: Models is models.go. State is the struct of store.go over twelve tables; Settings is oidc.go
--   and workers_config.go; Workers, Versions, Sync, Consents, Roles, Units, Batches and Latency are its
--   operations, with their names in lower case (UpsertWorker is upsert_worker). Status, Verdict, Untouched, Withdrawal, Upsert and Pending hold
--   proofs.
-- - Queue: queue.go. PendingUnit pointers are handles into a heap, so that map and caller share
--   them; a channel is the list of what it holds, with capacity 1. Delivery and History hold proofs.
-- - Backend: internal/manager/backend/backend.go, the expansion of download URLs. Expansion holds
--   proofs.
-- - Gateway: State is the registry of websocket.go, Dispatch its choice of workers and its
--   broadcasts, Handshake is ServeHTTP and doChallenge of handshake.go, and Messages is readLoop, one
--   function for each message type, with its deferred function as `disconnect`. Manager is the state
--   that they share: registry, store, queue, the messages written and the connections closed.
--   Selection, Authentic, Keys, Reports and Reconnect hold proofs.
-- - Latency: internal/manager/latency/monitor.go. Buckets has the boundaries and percentiles,
--   Monitor the matrices and one run of the aggregation. Percentiles, Partition and
--   Bootstrap hold proofs.
-- - LogBuffer: internal/logbuffer/logbuffer.go. Ring holds proofs.
-- - Api: internal/manager/api. Http is what the handlers share; Units what completions.go and batch.go
--   do alike with a work unit; Completions, Batch, Consents, Roles and Goodbye are the handlers of the
--   files of those names. A handler that waits for a worker is two functions, before and after the
--   wait. Batch.Outcomes, Consents.Withdrawal and Goodbye.Signed hold proofs.
-- - Admin: Auth is internal/manager/admin/auth/auth.go; Workers, Oidc, Versions, Backends and Roles are
--   the handlers of internal/manager/admin/api (workers.go, oidc.go, version.go, backend.go, roles.go),
--   with what cmd/synergia-manager/main.go starts with of the first two. Auth.Granted, Workers.Applied,
--   Oidc.PutBack and Versions.Rollout hold proofs. A handler has the store as an argument of its own; the
--   pushes to the workers do not reach that of the gateway.
-- - Client: the worker, internal/client. Gpu is gpu/monitor.go, with the rolling window in Window and
--   the state in Monitor; State, Status and Persisted are state.go, status.go and workerstate/state.go;
--   Connection is websocket.go and handshake.go of connection; Worker is process of worker.go, with
--   `begin` before the local model and `finish` after it, and Updates its handlers of updates; Backend
--   is backend/manager.go; Consent is consent.go and workerconfig/config.go, Reporter
--   errorreporter/reporter.go, and Updater updater.go with replace_unix.go of updater. Gpu.Recent,
--   Gpu.Changes, Status.Changes, Connection.Challenges, Worker.Answers, Worker.Statuses,
--   Updates.Verified, Backend.Install, Reporter.Hourly and Updater.Replaced hold proofs.
--
-- Parameters: the tables; Go's hashes, base64, Ed25519 and the result of each write to a connection
-- (Gateway.State.Env); the upgrade, the nonce and the reply of one handshake (Request); fmt.Sprintf
-- of the unit ids; and the rounding of floats in the bucket boundaries (`scaled`). Locks are left
-- out: each operation is one step. The manager's log is left out, but for the slices that its lines
-- take, which may panic. Go's maps are association lists, and no theorem depends on their order.
-- The counter of the unit ids wraps at 2 ^ 64; other counts and times are natural numbers.
--
-- Only replace_all has fuel: `none` says that the loop has not ended within it. expand_url takes a
-- number of rounds, which the read loop and Admin.Backends have from Env, and gives each replacement so many and one more
-- than its text has `{`. Where the replacements hold no `{`, that is enough, whatever the number. Where
-- one holds its own placeholder, none is. In between, a read loop whose rounds do not suffice is taken
-- to hang, and a larger number of rounds may show that it does not.
--
-- Further parameters: encoding/json, hex and time.Parse (Api.Http.Codec, Api.Goodbye.Parsers); the
-- OAuth provider and the tokens of crypto/rand (Admin.Auth); downloads, processes, file contents and the
-- local model (Client.Worker.Outside, Client.Backend.Outside, Client.Updates.System,
-- Client.Updater.Outside). Links in the
-- directory of the backend are followed 40 deep, as the system does.
--
-- Not modelled: the pages and statistics of the admin interface, the downloads, caches and model files of
-- the manager, its certificates and configuration, the branding and key-value settings of the store, and
-- of the client its configuration, identity, dashboard and tray; they are files, HTTP and processes for
-- the most part. JSON is left to encoding/json: a message that does not decode is a constructor of its
-- own.
pub mod Prelude
pub mod Table
pub mod Protocol
pub mod Store
pub mod Queue
pub mod Backend
pub mod Gateway
pub mod Latency
pub mod LogBuffer
pub mod Admin
pub mod Api
pub mod Client
