-- ===== src/Lib.antt =====
-- Verification of the CIO task orchestrator: an HTTP service that takes tasks, keeps them in
-- Redis, and has workers run them on the engine of CIO-Agent.
--
-- Parts. The API (src/api.py) reads a request, whose configuration src/models/config_schema.py
-- validates, and creates a task: it looks for an unfinished task of the project and
-- for one with the same requirement, and else saves the task (src/task_queue/store.py) and queues
-- it (src/task_queue/queue.py). A worker (src/worker.py) takes a task from the queue, takes the
-- lock of its project (src/worker_locks.py), has the scheduler (src/scheduler.py) choose a mode,
-- streams the engine's events into the event bus (src/event_bus.py), and ends the task, or marks it
-- INTERRUPTED and queues it again. At a start recovery (src/recovery.py) queues what a crash has
-- stranded. All of them reach Redis through the one client of src/redis_client.py.
--
-- Files.
--   Models          src/models/task.py, src/models/enums.py; events as the bus sees them
--   Redis           the server, the text forms and SHA-256: a parameter `Env` with laws, and a
--                   concrete one in Redis/Demo
--   RedisClient     src/redis_client.py; `World` is the process, its server and its clock
--   Effect          exceptions and the actions that may raise them
--   TaskQueue       src/task_queue: Keys, Store (`TaskStore`), Queue (`TaskQueue`), the keys of
--                   digests and projects in Digest; the lemmas on records in Store/Records and
--                   Store/Lookup, those on the queue in Queue/Fifo
--   Scheduler       src/scheduler.py, its table in Scheduler/Table
--   WorkerLocks     src/worker_locks.py, as an owner cell in Ownership, among workers in Mutex
--   EventBus        src/event_bus.py; `subscribe` in EventBus/Subscribe
--   ConfigSchema    src/models/config_schema.py: the values of JSON in Json, the classes in Classes,
--                   their check in Check; Conforms has the values that fit, Fields and Values what
--                   follows for one field and for the engine factory
--   EngineFactory   src/engine_factory.py: the configuration in Merge, the cache in Cache, the ids of
--                   its loggers in Correlation, the construction of engine and scheduler in Build,
--                   with what it gives in Directory and Assembled
--   Memory          src/models.py and src/task_queue.py, the modules of the first phase
--   Recovery        src/recovery.py; one record in Stranded and Fate, the loop in Loop, a second
--                   start in Again
--   Api             POST /tasks and GET /tasks/{task_id} of src/api.py; the request with its
--                   validation, src/models/api_schemas.py, in Api/Request; the stream of a task, with
--                   src/sse_utils.py, in Api/Stream; requests for two projects in Api/Apart
--   Worker          src/worker.py: State, Stream and Execute are its methods, the others proofs; Floor
--                   has the steps of several workers, Exclusive who is inside; Frame is the interface
--                   of what a round may touch, with Beside (the locks), Others (other tasks) and
--                   Recorded (the record of its own task) for it; Isolated and Kept have `_execute`
--                   among other tasks, Holding has it with the lock, and Blocked and Stranded have
--                   the updates that time out
--   Config          src/config.py; the interval of the heartbeat in Config/Heartbeat
--   Main            src/main.py; the worker pool in Main/Pool, its shutdown in Main/Stopping and
--                   Main/Shutdown, the client through the life of the process in Main/Connected, a
--                   request that is posted and taken up in Main/Served, an accepted task in the
--                   run of the process in Main/Accepted and Main/Sound, and behind the next start in
--                   Main/Restored and Main/Restart, a turn that fails and the next start in
--                   Main/Crash
--   Tests           runs at concrete inputs
--
-- An operation is an action: a function from a state to a result or an exception, and the state
-- behind it. Coroutines of a worker are run one at a time; asyncio enters by `Runtime`, which says
-- how each blocking wait ends, and by the updates that wait for the loop, which run when a
-- coroutine is suspended. Workers call `update` on the thread of the loop, where its wait times out;
-- a property that depends on it says so, and the others are for every `Runtime`. The heartbeat is run at the end of a round for as many beats as `Round`
-- says; it shares only the lock with the coroutine beside it. Workers interleave in
-- WorkerLocks/Mutex, one call of a helper at a time, and in Worker/Floor, one part of `_execute` at a
-- time; in Main they follow each other by whole turns.
--
-- Bounds. Numbers are natural and unbounded, times are in milliseconds, those of the lock in
-- seconds. `run` is given by its rounds, the scan of recovery by its pages, a subscriber by its
-- replies; there is no fuel. Texts are native strings; the quotes that `!r` puts round a text in a
-- message are plain.
--
-- Not modelled: the expiry of keys by time, what pydantic makes of a single value, the classes of
-- CIO-Agent, uvicorn with the moment at which a signal arrives, the place inside a turn at which a
-- cancellation strikes, and logging. The packages src/models and src/task_queue stand before the modules of
-- the first phase with the same names when Python imports.
pub mod Prelude
pub mod Effect
pub mod Models
pub mod Redis
pub mod RedisClient
pub mod TaskQueue
pub mod Scheduler
pub mod WorkerLocks
pub mod EventBus
pub mod ConfigSchema
pub mod Config
pub mod EngineFactory
pub mod Memory
pub mod Recovery
pub mod Api
pub mod Worker
pub mod Main
pub mod Tests
