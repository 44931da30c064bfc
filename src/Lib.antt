-- ===== src/Lib.antt =====
-- Arbiter is a distributed scheduler of container tasks. Workers register as nodes and send
-- heartbeats; a job expands into tasks; the leader among the scheduler's replicas places pending
-- tasks on nodes, detects dead nodes and requeues their tasks. PostgreSQL holds the state; Redis
-- holds the time of each node's last heartbeat.
--
-- Store (internal/store): the tables as one record `Db`, and a transaction as a function from the
-- tables to an error or to a result and new tables; a failed transaction is rolled back.
-- Store.Jobs and Store.Tasks model jobs_tasks.go (CreateJob, GetJob,
-- ClaimPendingTasksForScheduling, ScheduleTask …), Store.Report its UpdateTaskStatus,
-- Store.Allocation its sums of requests, Store.Nodes nodes.go, Store.Events events.go, Store.Lease
-- lease.go. A query is written over the list of rows: `find` and `select` for WHERE, `update` for
-- UPDATE, a stable sort for ORDER BY. Constraints of the schema (migrations/) that a statement can
-- violate are tests that throw. Store.Valid states the invariant of the tables, Store.History
-- every history of transactions. Store.Report.Outcome lists the changes that a report can make,
-- Store.Lease.Terms the outcomes of an attempt on the lease.
-- Scheduler (internal/scheduler): filters, scorers and Place in Scheduler.Plugins, the tick in
-- Scheduler.Engine. float64 is a parameter, with the comparisons that Place makes; IsComparison in
-- Scheduler.Placement names what is assumed of them.
-- Cache (internal/cache), Detector (internal/failuredetector), Election (internal/election), and
-- Rpc (internal/grpcapi) with one child for each file of handlers. Election.Epochs runs several
-- replicas over one lease, Detector.Liveness and Detector.Fresh follow one node through a tick of
-- the detector, and Rpc.Survival joins the heartbeat handler, the cache and the detector.
-- Store.Lifecycle and Store.Refinement give an abstract life of a task, of which each transaction
-- is read as a move. Store.Fenced and Store.Counted follow a node that has died, and a task that
-- waits for a retry, over the transactions behind it.
-- Http (internal/httpapi): the handlers of the dashboard's API over the same tables; a number in a
-- query is an argument, as what strconv.Atoi makes of it.
-- Fanout (internal/eventfanout): the cursor over the log of events and its publication in Redis.
-- Redirects (internal/leaderclient): the refusal by which a follower names the leader, and how a
-- client reads it.
-- Worker (cmd/worker/main.go): Worker.Dialer is `schedulerDialer`, Worker.Retry the loops around a
-- call, Worker.Agent the tasks that a worker takes on, Worker.Rounds the rounds of its heartbeat
-- loop and its reports, Worker.Flags the reading of its flags.
-- Docker (internal/dockerutil) and Executor (internal/executor) call the Docker Engine, which is a
-- parameter: a state of its own, and what it answers to each request and makes of its state.
-- IsAnswering in Docker.Killing names what is assumed of it.
-- Autoscaler (internal/autoscaler) counts workers and tasks and calls Docker; the three readings
-- of the clock in a tick are arguments, and `digits` stands for the printing of a number.
-- Examples holds concrete tables and instances of the theorems.
--
-- Ids that the database draws, the time of each call, rows that other transactions have locked and
-- whether Redis or the database answers are arguments. A tick of the detector reads the clock once
-- for all nodes, and a tick of the autoscaler once for all tests of the cooldown, where the code
-- reads it at each. The foreign key of a task's node is a premise of the steps in Store.History. A
-- read on another connection takes the tables that it sees as an argument. Times are nanoseconds
-- since 1970 as natural numbers, and the database's rounding of times is not modelled. int64
-- values are integers, with the wrap-around of Go's arithmetic written out; a BIGINT that would
-- overflow throws. Epochs in requests are natural numbers: a negative one would be treated as any
-- other mismatch. Most loops run over a list. decodeDockerLogs runs on fuel, the number of its
-- bytes: each frame takes eight or more. The attempts of withLeaderRetry (8 and a last one),
-- registerWithRetry (15) and nextHostname (9,999) are counted as the code counts them.
--
-- Not modelled: logs, metrics, the network, the wire format of gRPC and SQL, the encoding of
-- Docker's requests and of the dashboard's answers as HTTP and JSON, the subscription to Redis in
-- the HTTP API, the command-line client and the wiring of the binaries. Goroutines are not
-- interleaved: each round, report or wait of a worker is one step, and what other goroutines have
-- done before it is in the state that it starts from.
pub mod Base
pub mod Store
pub mod Scheduler
pub mod Cache
pub mod Detector
pub mod Election
pub mod Rpc
pub mod Http
pub mod Fanout
pub mod Redirects
pub mod Worker
pub mod Docker
pub mod Executor
pub mod Autoscaler
pub mod Examples
