-- ===== src/Lib.antt =====
-- encodeswarmr: a controller hands the tasks of video jobs to agents, keeps both in a database, and
-- joins what they produce.
--
-- Parts and files (paths from the root of the repository):
-- - Db: the tables and the statements of internal/db/queries.go on them, under the constraints of
--   internal/db/migrations. Db/Types has the rows of internal/db/models.go, Db/Tasks and Db/Jobs one
--   function per query (CompleteTask is complete_task), Db/Claim is ClaimNextTask, and Db/Retry the two
--   queries that insert a retry; Db/Agents, Db/Sources and Db/Schedules are those on the other tables.
--   Db/IsValid is the invariant of the tables and Db/Valid shows that each
--   statement keeps it.
-- - Exec: the world of a handler (tables, clock, faults, events, goroutines) and its monad. The list of
--   faults says which of the coming calls of the store fail; a failed call changes nothing. Exec/Keeps
--   carries invariants of the tables through a handler, Exec/Quiet what events it sends.
-- - Engine: internal/controller/engine. Errors is errors.go, Chunks is computeAdaptiveChunks, Expand
--   is the expansion of jobs in expand.go and hdrdetect.go, Dispatch chooses the strategy of a job. Flow
--   is ValidateFlow in flowengine.go, Walk is ExecuteFlow, Condition its conditions, and FlowJob makes
--   the tasks of a flow in expand.go. Stale is stale.go, and Scaling is autoscaling.go.
-- - Grpc: internal/controller/grpc. Result is result.go, Hdr its search of the log, Poll is poll.go and
--   progress.go, Sync is sync.go, Register is register.go, and Heartbeat is heartbeat.go.
-- - Api: the handlers of internal/controller/api that change jobs (jobs.go), agents (agents.go) and
--   sources (sources.go).
-- - Watcher is internal/controller/watcher, Scheduler internal/controller/scheduler, Rules
--   internal/controller/rules, and Ha internal/controller/ha. Paths are the path mappings of
--   internal/controller/analysis/runner.go and internal/controller/api/batch.go.
-- - Webhooks: the attempts and the queue of internal/controller/webhooks.
-- - Agent: internal/agent/service. Journal is offline.go and the replay in runner.go, Runner is the poll
--   loop of runner.go.
-- - Reach: the handlers and loops of the controller as the steps of one transition system, in any order,
--   and the invariant of Db/IsValid along it.
-- - Tests: the theorems at concrete inputs, and runs of the code.
--
-- How the parts interact: an agent polls (Grpc/Poll claims a task by Db/Claim) and reports (Grpc/Result
-- completes or fails it, asks Engine/Errors about a retry, recounts, and looks whether the job is
-- finished); the expansion makes the tasks of queued jobs; the API, the watched folders and the
-- scheduler create jobs, and the API cancels and retries them. Agents register, and say by their
-- heartbeats that they are alive.
--
-- Conventions: an identifier is a number, drawn from a counter, in place of a UUID, and 0 is the empty
-- text; times are seconds; a Go int is an integer without bounds except in Db/Retry, where the shift of
-- the backoff wraps at 64 bits; a statement of the store is atomic, and handlers interleave as whole
-- steps. Loops are structural recursion on their list. Three are on fuel: the pages of a log, with one
-- more turn than there are log rows (each full page moves the cursor past 500 of them), and the search
-- and the walk of a flow graph, with one more turn than there are nodes (each node on the stack is
-- another one).
--
-- The constraints of the tables that the inserts meet are modelled where they are met: the unique
-- columns, CHECK and NOT NULL on jobs, the references of jobs to their source and dependency and of
-- tasks to their job, and the 32 bits of the port of an agent. The reference of a task to its agent is
-- not: an agent that polls is taken to be registered.
--
-- Parameters: floating-point numbers (the record Float, of which nothing is assumed), the script
-- generator, the text of an identifier, the tables of statistics and of variables and the database's
-- order of texts (the record Engine), the decoder of the HDR result (Server), the decoded graph of a
-- flow, strconv.ParseFloat and the comparisons of its numbers (Reals), the tables of flows,
-- templates and analysis results (Flows), the listing and the patterns of files (Files), the cron
-- library and the JSON of a job template (Cron), the advisory locks of PostgreSQL with the laws of
-- its manual (Locks), the files and the process of a task (Host), strings.ToLower on the bytes of a
-- path, the functions on texts of the rules (Texts), the HTTP answers and the cancellation of a
-- delivery and which of its rows are stored (Webhooks), which calls on the journal of an agent succeed
-- (Agent), the random jitter of a retry. A nil slice is sent to the database as NULL. Of
-- the database driver it is assumed that a row with fewer columns than destinations is refused after
-- the statement has run.
--
-- Not modelled: the script generator, the VMAF search, the archive, the reading handlers and the other
-- tables of the API, log streams, authentication, notifications, the analysis runner, the
-- processes of an agent, the desktop and web interfaces: they are files, network and views for the most
-- part. The output check by ffprobe is advisory in the source and only its reads are modelled; the table
-- of encoding statistics is written and never read by what is modelled; the thumbnails of an analysis
-- are files.
pub mod Prelude
pub mod Db
pub mod Exec
pub mod Engine
pub mod Grpc
pub mod Api
pub mod Watcher
pub mod Scheduler
pub mod Rules
pub mod Ha
pub mod Paths
pub mod Reach
pub mod Webhooks
pub mod Agent
pub mod Tests
