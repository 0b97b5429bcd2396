-- ===== src/Lib.antt =====
-- A verification library of golang-service-architect, the distributed calculator under backend/.
--
-- An expression is validated, scanned, parsed and planned into a graph of tasks (usecase/expression);
-- the graph is persisted and its ready tasks reach the broker through a transactional outbox
-- (repo/persistent, usecase/scheduler); agents compute single operations (usecase/worker) and their
-- results unlock the tasks that depend on them. Small packages under backend/pkg make the calls
-- between the services fault tolerant.
--
--   Apperrors          backend/pkg/apperrors: `Error`, `CodeOf`, `IsRetryable`
--   Float64            Go's float64 and strconv.ParseFloat, an interface without laws
--   Text               strings.TrimSpace and the UTF-8 bytes of a string
--   Worker             backend/internal/usecase/worker: `Compute`, `For`
--   WorkerPool         backend/pkg/workerpool: the pool and its goroutines as steps; Sound what a turn of
--                      a worker does to the counters, History any sequence of events, Draining the close
--   Expression.Ast     parser.go: `Node`, `token`, `precedence`, `shouldPop`
--   Expression.Builder parser.go: `astBuilder` and its methods; the children hold the grammar, the
--                      counts that the builder conserves and what it takes beyond the grammar
--   Expression.Scanner parser.go: `scanner`, `tokenize`, `Parse`; the children hold the placement of
--                      operators and the round trip through text
--   Expression.Task    backend/internal/entity/task.go
--   Expression.Planner planner.go: `Plan`; the children hold the closed form of its task list, the
--                      order of the graph and its execution
--   Expression.Service service.go: `Submit`; Submission its cases, Stored what it adds to the tables,
--                      Outcome what its expressions come to, Progress and Completion whether they go on,
--                      Reads the other methods, with Pages on the pages of `List`
--   Expression.Evaluation the value of a tree and of a task list, the specification
--   Messages           backend/internal/usecase/messages and backend/internal/entity
--   Persistent.Tables  backend/internal/repo/persistent/sqlcgen: the tables and the queries
--   Persistent.Enqueue repo.go: inserts, `inTx`, `enqueueTask`, `enqueueAudit`
--   Persistent.Repo    repo.go: `CreateExpression`, `FinalizeImmediate`, `ApplyStarted`, `ApplyResult`,
--                      `ApplyFailure`, `RelayOutbox`, each one step on the whole database
--   Persistent.Reads   repo.go: the operations that only read, and `PruneOutbox`; Persistent.Sorting on
--                      the order of a listing
--   Persistent.Evolution, Queries, Inserts, Operations, History, Settled
--                      how rows may change, that each query, insert and operation keeps to it, any
--                      sequence of operations, and what is settled once
--   Persistent.Values  which values of the tables are right; Rows, Transactions, Operations and History
--                      that every operation keeps them so, Planned and Evaluated on a planned tree
--   Persistent.Wakeups which rows wait for which; Changes, Filling, Marking and Unlocking on the queries,
--                      Creation, Inserts, Expressions, Results and Starts on the operations, Progress on
--                      what a waiting task leads to
--   Persistent.Unfinished the root task of an unfinished expression: Roots and Same on the queries,
--                      Operations and Creation on the operations
--   Scheduler          backend/internal/usecase/scheduler: `HandleResult`, `relayOnce` and the drain of one
--                      tick; FanIn on late messages, Relay and Refusal on a tick
--   Audit              backend/internal/usecase/audit/ingest.go; Durability what an answer means
--   Audit.Store        backend/internal/repo/auditstore: the insert and the page query on the rows, with
--                      the limits of query.go and the cursors of the server; Order, Paging, Inserts
--   Batcher            backend/pkg/batcher: the buffer and its loop as steps; Steps and History on any
--                      order of them
--   Bulkhead           backend/pkg/bulkhead: the steps of concurrent calls; Occupancy how many run
--   Consumers          backend/internal/controller/amqp/v1: the flows and the agent's `handle`; Agent what
--                      it leaves behind, Guarded the `GuardedPublisher` and the relay over it
--   CircuitBreaker     backend/pkg/circuitbreaker: the state machine; Trip on calls one after another
--   RabbitMq           backend/pkg/rabbitmq: messages and headers; Topology `DeclareFlow`, Publisher
--                      `Publish` and `PublishRetry`, Dispatch the policy of `dispatch`, DeadLetters
--                      `InspectDLQ` and `RequeueDLQ`; Journey and Confirms on a message's whole way
--   Grpc               backend/internal/controller/grpc: errors and interceptors; Server and Stream the server
--                      of expressions, Chain and Watch what a client is answered
--   RateLimiter        backend/pkg/ratelimit: `AllowN` and the sweep; Isolation on other keys and the shards,
--                      Level and Rate on what a key is granted, in whole numbers
--   Retry              backend/pkg/retry: `Do`, `Backoff`; Schedule the delays, Attempts the calls
--   Validator          backend/pkg/validator: `ValidateExpression`; Scan what it lets through
--   Samples            natural numbers in place of floats, for the runs in the Tests modules
--
-- Bounds. The scanner runs on fuel, the number of bytes of its text, which the round trip shows to
-- be enough: every step takes at least one byte. The drain of the outbox runs on a number of rounds,
-- of which one more than the pending rows is enough against a broker that takes every message. An
-- expression has at most 256 tasks. Float64 values are an interface without laws, so no theorem
-- depends on rounding, but the bound of the rate limiter, which is in whole numbers; durations are
-- int64 with their wrap-around where the code shifts them. Ids are numbers; `uuid.New` is a
-- parameter. A transaction is one step: the database runs it as if alone on the rows that it locks.
--
-- What the AMQP library does is a parameter, with the broker's promises as hypotheses: it holds what
-- it confirms where it routes that to a queue, as it does for the flows that are declared at the
-- start, and a queue gives out its messages in order.
--
-- Not modelled: the connection to RabbitMQ and its reconnect loop, a query that fails with its
-- connection (but for the second read of a watch), timestamps of rows and events, the wire form of
-- messages, logging, tracing, and the code of third-party libraries.
pub mod Audit
pub mod Batcher
pub mod Bulkhead
pub mod CircuitBreaker
pub mod Consumers
pub mod Common
pub mod Apperrors
pub mod Float64
pub mod Grpc
pub mod Text
pub mod Validator
pub mod Worker
pub mod WorkerPool
pub mod Expression
pub mod Messages
pub mod Persistent
pub mod RabbitMq
pub mod RateLimiter
pub mod Retry
pub mod Scheduler
pub mod Samples
