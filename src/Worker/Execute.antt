-- ===== src/Worker/Execute.antt =====
-- src/worker.py: `_handle_retriable`, `_run_locked`, `_heartbeat`, `_execute` and `run`.
use cio_run_auto_orchestrato.Prelude.{
  String, ℕ, zero, suc, ◌+◌, Bool, true, false, List, [], ◌∷◌, Option, none, some, ltb, concat,
  decimal, is_truthy, if◌then◌else◌,
}
use cio_run_auto_orchestrato.Effect.{
  Exn, value_error, cancelled_error, fatal_error, retriable_error, lock_stolen_error, str, Result,
  ok, err, Action, pure, raise, catch, ◌>>=◌, ◌>>◌,
}
use cio_run_auto_orchestrato.Models.{
  Task, TaskMode, TaskStatus, running, success, failed, interrupted, mode_value,
}
use cio_run_auto_orchestrato.Redis.{Env}
use cio_run_auto_orchestrato.RedisClient.{World}
use cio_run_auto_orchestrato.TaskQueue.Queue.{enqueue, dequeue}
use cio_run_auto_orchestrato.EventBus.{close}
use cio_run_auto_orchestrato.Scheduler.{decide}
use cio_run_auto_orchestrato.WorkerLocks.{acquire_lock, refresh_lock, release_lock}
use cio_run_auto_orchestrato.Worker.State.{
  Runtime, Held, on_world, on_task, suspended, transition_to, update, yield_loop,
}
use cio_run_auto_orchestrato.Worker.Stream.{Session, stream}

-- The settings that a worker reads, times in milliseconds but the lock's, and what the round is
-- given: the token that `uuid4` makes, the engine factory's answers, asyncio's behaviour, and the
-- number of times that the heartbeat wakes up.
pub record Round : Type 0 where
  pub max_retries : ℕ
  pub poll_interval : ℕ
  pub lock_ttl : ℕ
  pub stream_timeout : ℕ
  pub lock_token : String
  pub factory : Option String → Option String → Result Session
  pub runtime : Runtime
  pub beats : ℕ

-- `except Exception`, which lets a cancellation through.
abbrev pub is_exception : Exn → Bool
is_exception (cancelled_error m) = false
is_exception _ = true

-- `s or None`.
abbrev pub or_none : String → Option String
or_none s = if is_truthy s then some s else none

abbrev pub retry_detail : ℕ → String → String
retry_detail n exc = concat "retry " (concat (decimal n) (concat ": " exc))

abbrev pub exhausted_detail : ℕ → String → String
exhausted_detail n exc = concat "max retries (" (concat (decimal n) (concat ") exceeded: " exc))

-- An exception in a `finally` block replaces what the block was left with.
abbrev pub released_or : Result (Unit {0}) → Result (Unit {0}) → Result (Unit {0})
released_or (ok u) res = res
released_or (err x) res = err x

module _ {e : Env} (r : Round) where
  abbrev pub close_bus : Action (Held e) (Unit {0})
  close_bus h = suspended (close e h.task.task_id) h

  abbrev pub requeue : Action (Held e) (Unit {0})
  requeue h = suspended (enqueue e h.task) h

  -- `task.transition(...)` and the update of its record.
  abbrev pub record_status : TaskStatus → String → Action (Held e) (Unit {0})
  record_status status detail = do transition_to status detail; update r.runtime

  abbrev pub count_retry : Action (Held e) (Unit {0})
  count_retry h =
      (ok tt, record h { task = record h.task { retry_count = h.task.retry_count + 1 } })

  unfoldable pub handle_retriable : String → Action (Held e) (Unit {0})
  handle_retriable exc h =
      if ltb h.task.retry_count r.max_retries
      then (do
        count_retry
        record_status interrupted (retry_detail (h.task.retry_count + 1) exc)
        requeue)
          h
      else (do record_status failed (exhausted_detail r.max_retries exc); close_bus) h

  -- The handlers of the `try` statement round the stream.
  abbrev pub on_stream_error : Exn → Action (Held e) (Unit {0})
  on_stream_error (fatal_error m) = do record_status failed m; close_bus
  on_stream_error (retriable_error m) = do close_bus; handle_retriable m
  on_stream_error (lock_stolen_error m) = raise (lock_stolen_error m)
  on_stream_error (cancelled_error m) = do
    record_status interrupted "worker cancelled"
    close_bus
    raise (cancelled_error m)
  on_stream_error x = do record_status failed (concat "unexpected: " (str x)); close_bus

  abbrev pub stream_and_finish : Session → TaskMode → Action (Held e) (Unit {0})
  stream_and_finish s mode = do stream r.runtime r.stream_timeout s mode; record_status success ""

  abbrev pub fail : String → Action (Held e) (Unit {0})
  fail detail = do record_status failed detail; close_bus

  -- What follows the `try` block: the end of the coroutine, or a handler.
  abbrev pub after_stream : Result (Unit {0}) → Action (Held e) (Unit {0})
  after_stream (ok u) h = close_bus h
  after_stream (err x) h = on_stream_error x h

  abbrev pub run_mode : Session → Result TaskMode → Action (Held e) (Unit {0})
  run_mode s (ok mode) = do
    record_status running (concat "mode=" (mode_value mode))
    λ h. let (res, h') = stream_and_finish s mode h in after_stream res h'
  run_mode s (err (value_error m)) = fail m
  run_mode s (err x) = raise x

  abbrev pub run_session : Result Session → Action (Held e) (Unit {0})
  run_session (ok s) h =
      let (res, h') = on_task (decide s.scheduler h.world.clock) h in run_mode s res h'
  run_session (err x) h =
      if is_exception x then fail (concat "engine initialisation failed: " (str x)) h else raise x h

  unfoldable pub run_locked : Action (Held e) (Unit {0})
  run_locked h = run_session (r.factory (or_none h.task.work_dir) (or_none h.task.config_json)) h

  abbrev pub beat : Bool → Action (World e) (Unit {0})
  beat true = pure tt
  beat false = raise (lock_stolen_error "lock stolen")

  -- `_heartbeat`, up to the beat after which it is cancelled.
  unfoldable pub heartbeat : ℕ → String → Action (World e) (Unit {0})
  heartbeat zero project_name = pure tt
  heartbeat (suc n) project_name = do
    still_held ← refresh_lock e project_name r.lock_token r.lock_ttl
    beat still_held
    heartbeat n project_name

  abbrev pub on_stolen : Exn → Action (Held e) (Unit {0})
  on_stolen (lock_stolen_error m) = handle_retriable "distributed lock was stolen during execution"
  on_stolen x = raise x

  -- The `finally` block. The heartbeat ran in a coroutine of its own, in the pauses of the stream;
  -- what it raised is dropped here.
  abbrev pub finish : Result (Unit {0}) → Action (Held e) (Unit {0})
  finish res h =
      let (dropped, w) = heartbeat r.beats h.task.project_name h.world in
      let h' = yield_loop (record h { world = w }) in
      let (released, h'') = on_world (release_lock e h.task.project_name r.lock_token) h' in
      (released_or released res, h'')

  abbrev pub with_lock : Bool → Action (Held e) (Unit {0})
  with_lock false h = requeue h
  with_lock true h = let (res, h') = catch run_locked on_stolen h in finish res h'

  unfoldable pub execute : Action (Held e) (Unit {0})
  execute h =
      (do
        acquired ← on_world (acquire_lock e h.task.project_name r.lock_token r.lock_ttl)
        with_lock acquired)
        h

  -- One turn of the loop of `run`: what `_execute` raises ends the worker.
  abbrev pub execute_found : Option Task → Action (World e) (Unit {0})
  execute_found none w = pure tt w
  execute_found (some t) w =
      let (res, h) = execute (record { world = w; task = t; updates = 0; waiting = 0 }) in
      (res, h.world)

  unfoldable pub turn : Action (World e) (Unit {0})
  turn = do task ← dequeue e r.poll_interval; execute_found task

-- `run`, until the worker is stopped behind the last of these rounds.
unfoldable pub run : {e : Env} → List Round → Action (World e) (Unit {0})
run [] = pure tt
run (r ∷ rounds) = do turn r; run rounds
