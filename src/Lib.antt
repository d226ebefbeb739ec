-- ===== src/Lib.antt =====
-- A model of agent-gpu, a control plane that hands inference jobs to a fleet of GPU workers, with
-- the theorems that make its core correct.
--
-- The parts and how they interact. A request carries a token; the key service (internal/auth)
-- looks its key up in the store (internal/store) and checks it. The authorizer (internal/authz)
-- decides whether the key may use the model, and the quota engine (internal/quota) whether the
-- request fits the limits of the key and of the server. The job then waits in the queue
-- (internal/queue), at a priority that the roles of the key give, until the scheduler
-- (internal/scheduler) finds a worker of the fleet that can run it. The server (internal/server)
-- keeps the streams of the workers, hands jobs to them and brings their answers to the callers,
-- and binds sessions to workers. internal/types has the records that these parts exchange.
--
-- The files. A module has the name of the Go package; a function has the name of the Go function
-- in snake_case, with the receiver's state as an argument and as the first part of the result.
-- Prelude: names of the libraries, lists, texts, sorting, bytes in hex, maps as association lists
-- with one entry for each key, and signed integers over the native numbers.
-- Store: APIKey, Limits and the interface Store with its laws; Store/Memory: Memory of
-- internal/store/store.go; Store/File: File of internal/store/file.go.
-- Authz: internal/authz/authz.go; Authz/Ladder and Authz/Roles: its theorems.
-- Auth/Token: formatToken and parseToken, Auth/Service: Service, of internal/auth/auth.go.
-- Types: internal/types/types.go; Types/Wire and Types/Reports: its conversions to and from the
-- messages of proto/agentgpu/v1; Types/RoundTrip: their theorems.
-- Queue: internal/queue/queue.go; Queue/Pop and Queue/Lanes: the heap as one line for each
-- priority.
-- Queue/Calls: histories of calls; Queue/Wait: DequeueWait; Queue/Counts: Stats.
-- Scheduler: internal/scheduler/scheduler.go; Scheduler/Order, Index and Best: the loops of
-- PickPreferring; Scheduler/Affinity: the weights; Scheduler/Stable: what the pick does not depend
-- on; Scheduler/Roles: PriorityForRoles.
-- Quota: internal/quota/store.go and engine.go; Quota/Window: the windows of
-- internal/quota/quota.go over the Gregorian calendar; Quota/Roll, Admission, Rate, Minutes and
-- Retry: their theorems.
-- LogRing: the ring buffer of cmd/agentgpu/ringlog.go; LogRing/Reads and Newest: its theorem.
-- Session: the history store of internal/session/store.go; Session/Trim and Caps: its theorems;
-- Session/Manager: internal/session/manager.go; Session/Manager/Ownership, Counting, Slots, Sweep,
-- Cap and Binding: its theorems.
-- Server/Stream: worker of internal/server/server.go; Server/Stream/Answers, Output, Observers and
-- Watched: its theorems. Server/Fleet: the registry of workers; Server/Fleet/Valid, Evict, Gone
-- and Pick: its theorems.
-- Server/Affinity: sessions and keep-alive; Server/Wait: the time in the queue. Server/Submit:
-- submit, SubmitAuthorizedJob and placeItem; Server/Submit/Outcome, Gate and Late: its theorems.
-- Server/Live: SubmitAuthorizedJobStream; Server/Live/Opened: its theorem. Server/Control: the
-- run-time settings and PullModel with its kin; Server/Control/Gate: its theorem.
--
-- HttpApi/Page: internal/httpapi/pagination.go; HttpApi/Page/Walk: a client that follows the
-- cursors. HttpApi/Idempotency: internal/httpapi/idempotency.go, its recorder in
-- HttpApi/Idempotency/Response; HttpApi/Idempotency/Cases, History, Bounds, Keys, Origin and
-- Replay: its theorems. HttpApi/RateLimit: internal/httpapi/ratelimit.go; HttpApi/RateLimit/Retry:
-- its theorems. Usage: internal/usage/usage.go; Usage/Series: its theorem. Audit:
-- internal/audit/audit.go and the load of checkpoint.go; Audit/Window and Listing: its theorems.
-- Worker: internal/worker/worker.go, one connection, and the echoing executor of executor.go;
-- Worker/Ollama: OllamaExecutor, and ChatStream of internal/ollama/ollama.go; Worker/Steps, Moves,
-- Pipeline and Drain: its goroutines as steps, and its theorems. Delivery: a job from the executor
-- of a worker to the caller that waits at the server; Delivery/Ollama: what Ollama's stream makes
-- of it.
-- The modules named Examples have concrete runs.
--
-- What stands for what. A time is a number, the clock an argument: nanoseconds since Go's zero
-- time where the calendar matters. A uint64 counter wraps at 2 ^ 64 where the code adds to it, and
-- a theorem that needs the counter not to wrap says so. A method under a lock is one step; what
-- other callers do is an explicit list of calls. SHA-256, the entropy source and the reading and
-- writing of the key file are arguments. container/heap is kept by its contract. Every recursion
-- of the model is structural: loops go over their lists, the calendar over the days, DequeueWait
-- over the wakeups. Only the client that follows the cursors of a list has fuel: one more request
-- than there are items, which HttpApi/Page/Walk proves to be enough. A worker's object is a number
-- in a heap, a channel is a number, and what is sent on channels is a list of sends; a send on the
-- stream of a worker may fail, and the loop of its connection then returns; submit is one step up
-- to the channel that it waits on, and another from the answer on. The HTTP handlers behind the
-- middleware are arguments, and net/http is a writer in which the first status counts, and which
-- drops the body of a status that has none.
--
-- Not modelled: the server's timers and options; the interleavings of the session manager's calls,
-- the worker's reconnects, the HTTP requests of the Ollama client, configuration, the HTTP
-- handlers and most of their middleware, the web interface and the command line; Checkpoint and
-- LoadCheckpoint of the quota counters and of the histories; the files of the usage and audit
-- checkpoints; the handler that feeds the log ring; logging, except for the records of the
-- authorizer.
pub mod Prelude
pub mod Store
pub mod Authz
pub mod Auth
pub mod Types
pub mod Queue
pub mod Scheduler
pub mod Quota
pub mod LogRing
pub mod Session
pub mod Server
pub mod HttpApi
pub mod Usage
pub mod Audit
pub mod Worker
pub mod Delivery
