-- ===== src/Worker/Invariant.antt =====
-- src/worker.py: what every step of a round keeps, however the engine and asyncio behave.
use cio_run_auto_orchestrato.Prelude.{
  String, ℕ, ◌+◌, ◌≤◌, Bool, true, false, ◌≡◌, refl, arith, ltb, if◌then◌else◌,
}
use cio_run_auto_orchestrato.Effect.{Result, Action, ◌>>◌}
use cio_run_auto_orchestrato.Models.{TaskStatus, interrupted, failed, TaskMode, transition, touch}
use cio_run_auto_orchestrato.Redis.{Env}
use cio_run_auto_orchestrato.RedisClient.{World}
use cio_run_auto_orchestrato.TaskQueue.Queue.{enqueue}
use cio_run_auto_orchestrato.EventBus.{close, publish}
use cio_run_auto_orchestrato.Worker.State.{
  Held, Wait, completed, timed_out, no_loop, transition_to, update, update_after, yield_loop,
  run_waiting, suspended,
}
use cio_run_auto_orchestrato.Worker.Stream.{Session, stream}
use cio_run_auto_orchestrato.Worker.Execute.{
  Round, record_status, close_bus, requeue, count_retry, exhausted_detail, handle_retriable,
}
use cio_run_auto_orchestrato.Worker.Streaming
use cio_run_auto_orchestrato.Worker.Streaming.{Keeps, bind-Keeps}
use cio_run_auto_orchestrato.TaskQueue.Store.{async_update}
use cio_run_auto_orchestrato.Worker.Frame.{Frame, run_waiting-Within}

module _ {e : Env} {i : String} (F : Frame e i) (base : World e) (p : String) (most : ℕ) where
  -- The frame, the identity of the task, and a bound on its retries.
  abbrev pub Sane : Held e → Type 0
  Sane h =
      F.Within base h.world
      × (h.task.project_name ≡ p)
      × (h.task.task_id ≡ i)
      × (h.task.retry_count ≤ most)

  suspended-Keeps :
      {A : Type 0} (m : Action (World e) A)
      → ((w : World e) → F.Within w (m w).1)
      → Keeps Sane (suspended m)
  unfolding yield_loop
  suspended-Keeps m k h s = (
    (let w = run_waiting h.waiting h.task h.world in
        F.within_trans base w (m w).1
          (F.within_trans base h.world w s.0 (run_waiting-Within F h.waiting h.task h.world s.2))
          (k w)),
    s.1,
    s.2,
    s.3,
  )

  update_after-Keeps : (x : Wait) → Keeps Sane (update_after x)
  update_after-Keeps completed h s = (
    F.within_trans base h.world (async_update e h.task h.world).1 s.0
        (F.within_update h.task h.world s.2),
    s.1,
    s.2,
    s.3,
  )
  update_after-Keeps timed_out h s = s
  update_after-Keeps no_loop h s = s

  pub record_status-Keeps :
      (r : Round) (st : TaskStatus) (detail : String) → Keeps Sane (record_status r st detail)
  unfolding transition_to transition touch update
  record_status-Keeps r st detail h s =
      update_after-Keeps (r.runtime.update_wait h.updates)
        (record h { task = transition h.world.clock st detail h.task }) s

  pub close_bus-Keeps : (r : Round) → Keeps Sane (close_bus r)
  close_bus-Keeps r h s =
      suspended-Keeps (close e h.task.task_id) (F.within_close h.task.task_id) h s

  pub requeue-Keeps : (r : Round) → Keeps Sane (requeue r)
  requeue-Keeps r h s = suspended-Keeps (enqueue e h.task) (F.within_enqueue h.task) h s

  pub status_then_close-Keeps :
      (r : Round) (st : TaskStatus) (detail : String)
      → Keeps Sane (record_status r st detail >> close_bus r)
  status_then_close-Keeps r st detail =
      bind-Keeps (record_status r st detail) (λ _. close_bus r) (record_status-Keeps r st detail)
        (λ _. close_bus-Keeps r)

-- What the steps keep for a bound that is no lower than the maximum of retries.
module _ {e : Env} {i : String} (F : Frame e i) (base : World e) (p : String) (r : Round) (most : ℕ)
    (cap : r.max_retries ≤ most) where
  abbrev Kept : Held e → Type 0
  Kept = Sane F base p most

  pub branch-Keeps :
      (b : Bool) (x y : Result (Unit {0}) × Held e)
      → (b ≡ true → Kept x.1)
      → (b ≡ false → Kept y.1)
      → Kept (if b then x else y).1
  branch-Keeps true x y kx ky = kx refl
  branch-Keeps false x y kx ky = ky refl

  retry-Keeps :
      (exc : String) (h : Held e)
      → Kept h
      → ltb h.task.retry_count r.max_retries ≡ true
      → Kept ((count_retry r >> record_status r interrupted exc >> requeue r) h).1
  retry-Keeps exc h s room =
      bind-Keeps (record_status r interrupted exc) (λ _. requeue r)
        (record_status-Keeps F base p most r interrupted exc) (λ _. requeue-Keeps F base p most r)
        (record h { task = record h.task { retry_count = h.task.retry_count + 1 } })
        (s.0, s.1, s.2, ground (arith, cap))

  pub handle_retriable-Keeps : (exc : String) → Keeps Kept (handle_retriable r exc)
  unfolding handle_retriable
  handle_retriable-Keeps exc h s =
      branch-Keeps (ltb h.task.retry_count r.max_retries) _ _ (retry-Keeps _ h s) (λ full.
        status_then_close-Keeps F base p most r failed (exhausted_detail r.max_retries exc) h s)

  pub stream-Keeps :
      (s : Session) (mode : TaskMode) → Keeps Kept (stream r.runtime r.stream_timeout s mode)
  stream-Keeps = Streaming.stream-Keeps r Kept (λ h task_id ev k. (
    F.within_trans base h.world (publish e task_id ev h.world).1 k.0
        (F.within_publish task_id ev h.world),
    k.1,
    k.2,
    k.3,
  ))
