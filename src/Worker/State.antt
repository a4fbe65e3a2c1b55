-- ===== src/Worker/State.antt =====
-- What a worker holds while it works on a task: the process, the task object, which every method
-- changes in place, and the updates whose coroutines wait for the event loop. `TaskStore.update` of
-- src/task_queue/store.py stands here, since it is called only by workers.
use cio_run_auto_orchestrato.Prelude.{String, ℕ, zero, suc, ◌+◌, Bool}
use cio_run_auto_orchestrato.Effect.{runtime_error, timeout_error, ok, err, Action}
use cio_run_auto_orchestrato.Models.{Task, TaskStatus, transition}
use cio_run_auto_orchestrato.Redis.{Env}
use cio_run_auto_orchestrato.RedisClient.{World}
use cio_run_auto_orchestrato.TaskQueue.Store.{async_update}

-- How the call of `future.result(timeout=5)` in `update` ends: the coroutine has run, the wait ends
-- first, or there was no running loop to begin with. asyncio runs no coroutine of a loop while a
-- callback of the loop blocks.
pub data Wait : Type 0 where
  completed timed_out no_loop : Wait

-- What asyncio and the clock do in one round: the end of each wait of `update` and of `publish`,
-- whether the executor's thread has a running loop, whether the two TimeoutErrors of the standard
-- library are one class (as from Python 3.11 on), and whether the stream outlasts its timeout.
pub record Runtime : Type 0 where
  pub update_wait : ℕ → Wait
  pub publish_wait : ℕ → Bool
  pub executor_loop : Bool
  pub one_timeout_error : Bool
  pub stream_late : Bool

pub record Held (e : Env) : Type 0 where
  pub world : World e
  pub task : Task
  -- The calls of `update` so far, and the coroutines of those that wait.
  pub updates : ℕ
  pub waiting : ℕ

module _ {e : Env} where
  abbrev pub on_world : {A : Type 0} → Action (World e) A → Action (Held e) A
  on_world m h = let (r, w) = m h.world in (r, record h { world = w })

  abbrev pub on_task : {A : Type 0} → Action Task A → Action (Held e) A
  on_task m h = let (r, t) = m h.task in (r, record h { task = t })

  -- `task.transition(...)`.
  unfoldable pub transition_to : TaskStatus → String → Action (Held e) (Unit {0})
  transition_to new_status detail h =
      (ok tt, record h { task = transition h.world.clock new_status detail h.task })

  -- A coroutine that waits reads the task object when it runs; nobody reads its result.
  abbrev pub run_waiting : ℕ → Task → World e → World e
  run_waiting zero t w = w
  run_waiting (suc n) t w = run_waiting n t (async_update e t w).1

  -- A suspension gives the event loop its turn.
  unfoldable pub yield_loop : Held e → Held e
  yield_loop h = record h { world = run_waiting h.waiting h.task h.world; waiting = 0 }

  abbrev pub suspended : {A : Type 0} → Action (World e) A → Action (Held e) A
  suspended m h = on_world m (yield_loop h)

  abbrev pub update_after : Wait → Action (Held e) (Unit {0})
  update_after completed h = on_world (async_update e h.task) (record h { updates = h.updates + 1 })
  update_after timed_out h =
      (err timeout_error, record h { updates = h.updates + 1; waiting = h.waiting + 1 })
  update_after no_loop h =
      (err (runtime_error "no running event loop"), record h { updates = h.updates + 1 })

  -- `self._queue.store.update(task)`.
  unfoldable pub update : Runtime → Action (Held e) (Unit {0})
  update r h = update_after (r.update_wait h.updates) h
