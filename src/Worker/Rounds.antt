-- ===== src/Worker/Rounds.antt =====
-- src/worker.py: `_run_locked` keeps a frame, the identity of the task and the bound on its retries.
use cio_run_auto_orchestrato.Prelude.{String, ℕ, ◌+◌, ◌≡◌, refl, ◌≤◌, sym, subst, arith}
use cio_run_auto_orchestrato.Effect.{
  Exn, value_error, fatal_error, retriable_error, lock_stolen_error, cancelled_error, Result, ok,
  err, catch, raise, ◌>>◌,
}
use cio_run_auto_orchestrato.Models.{interrupted, failed, running, success, TaskMode}
use cio_run_auto_orchestrato.Redis.{Env}
use cio_run_auto_orchestrato.RedisClient.{World}
use cio_run_auto_orchestrato.Worker.Beside.{Beside, beside_frame}
use cio_run_auto_orchestrato.Worker.Frame.{Frame}
use cio_run_auto_orchestrato.Scheduler.{decide}
use cio_run_auto_orchestrato.Scheduler.Table.{decide_follows_table, decided}
use cio_run_auto_orchestrato.Worker.State.{Held}
use cio_run_auto_orchestrato.Worker.Stream.{Session, stream}
use cio_run_auto_orchestrato.Worker.Execute.{
  Round, handle_retriable, on_stream_error, on_stolen, after_stream, record_status, close_bus,
  stream_and_finish, run_mode, run_session, run_locked, is_exception, or_none,
}
use cio_run_auto_orchestrato.Worker.Streaming.{Keeps, bind-Keeps, catch-Keeps}
use cio_run_auto_orchestrato.Worker.Invariant.{
  Sane, branch-Keeps, handle_retriable-Keeps, stream-Keeps, record_status-Keeps, close_bus-Keeps,
  status_then_close-Keeps,
}

module _ {e : Env} {i : String} (F : Frame e i) (base : World e) (p : String) (r : Round) (most : ℕ)
    (cap : r.max_retries ≤ most) where
  interrupted-Keeps :
      (m : String)
      → Keeps {A = Unit {0}} (Sane F base p most) (
          record_status {e = e} r interrupted "worker cancelled"
          >> (close_bus r >> raise (cancelled_error m)))
  interrupted-Keeps m =
      bind-Keeps (record_status r interrupted "worker cancelled") _
        (record_status-Keeps F base p most r interrupted "worker cancelled")
        (λ _. bind-Keeps (close_bus r) _ (close_bus-Keeps F base p most r) (λ _ h s. s))

  on_stream_error-Keeps : (x : Exn) → Keeps (Sane F base p most) (on_stream_error {e = e} r x)
  on_stream_error-Keeps (fatal_error m) = status_then_close-Keeps F base p most r failed m
  on_stream_error-Keeps (retriable_error m) =
      bind-Keeps (close_bus r) (λ _. handle_retriable r m) (close_bus-Keeps F base p most r)
        (λ _. handle_retriable-Keeps F base p r most cap m)
  on_stream_error-Keeps (lock_stolen_error m) = λ h s. s
  on_stream_error-Keeps (cancelled_error m) = interrupted-Keeps m
  on_stream_error-Keeps _ = status_then_close-Keeps F base p most r failed _

  -- The two ends of the `try` statement round the stream.
  ended-Keeps :
      (x : Result (Unit {0})) (h : Held e)
      → Sane F base p most h
      → Sane F base p most (after_stream r x h).1
  ended-Keeps (ok u) h s = close_bus-Keeps F base p most r h s
  ended-Keeps (err y) h s = on_stream_error-Keeps y h s

  run_mode-Keeps :
      (s : Session) (m : Result TaskMode) → Keeps (Sane F base p most) (run_mode {e = e} r s m)
  run_mode-Keeps s (ok mode) =
      bind-Keeps (record_status r running _) _ (record_status-Keeps F base p most r running _)
        (λ _ h k. ended-Keeps (stream_and_finish r s mode h).0 (stream_and_finish r s mode h).1 (
          bind-Keeps (stream r.runtime r.stream_timeout s mode) _
            (stream-Keeps F base p r most cap s mode)
            (λ _. record_status-Keeps F base p most r success "") h k))
  run_mode-Keeps s (err (value_error m)) = status_then_close-Keeps F base p most r failed m
  run_mode-Keeps s (err _) = λ h k. k

  decided-Keeps :
      (now : ℕ) (m : Result TaskMode) (h : Held e)
      → Sane F base p most h
      → Sane F base p most (record h { task = decided now m h.task })
  decided-Keeps now (ok m) h s = s
  decided-Keeps now (err x) h s = s

  run_session-Keeps : (x : Result Session) → Keeps (Sane F base p most) (run_session {e = e} r x)
  run_session-Keeps (ok s) h k =
      let step = decide_follows_table s.scheduler h.world.clock h.task in
      run_mode-Keeps s (decide s.scheduler h.world.clock h.task).0
        (record h { task = (decide s.scheduler h.world.clock h.task).1 })
        (subst (λ t. Sane F base p most (record h { task = t })) (sym step.1)
          (decided-Keeps h.world.clock (decide s.scheduler h.world.clock h.task).0 h k))
  run_session-Keeps (err x) h k =
      branch-Keeps F base p r most cap (is_exception x) _ _
        (λ _. status_then_close-Keeps F base p most r failed _ h k) (λ _. k)

  run_locked-Keeps : Keeps (Sane F base p most) (run_locked {e = e} r)
  unfolding run_locked
  run_locked-Keeps h k =
      run_session-Keeps (r.factory (or_none h.task.work_dir) (or_none h.task.config_json)) h k

  on_stolen-Keeps : (x : Exn) → Keeps (Sane F base p most) (on_stolen {e = e} r x)
  on_stolen-Keeps (lock_stolen_error m) = handle_retriable-Keeps F base p r most cap _
  on_stolen-Keeps _ = λ h k. k

  pub guarded-Sane : Keeps (Sane F base p most) (catch (run_locked {e = e} r) (on_stolen r))
  guarded-Sane = catch-Keeps (run_locked r) (on_stolen r) run_locked-Keeps on_stolen-Keeps

-- `_run_locked` with the handler of LockStolenError, whether it returns or raises, stays within every
-- frame, and keeps the project and the id of the task.
pub guarded-Within :
    {e : Env} (r : Round) (h : Held e) (F : Frame e h.task.task_id)
    → let h' = (catch (run_locked r) (on_stolen r) h).1 in
      F.Within h.world h'.world
      × (h'.task.project_name ≡ h.task.project_name)
      × (h'.task.task_id ≡ h.task.task_id)
guarded-Within r h F =
    let sane =
      guarded-Sane F h.world h.task.project_name r (r.max_retries + h.task.retry_count)
        (omega arith) h (F.within_refl h.world, refl, refl, omega arith) in
    (sane.0, sane.1, sane.2)

-- It keeps the client and every lock, its own and those of other projects.
pub guarded-Beside :
    {e : Env} (r : Round) (h : Held e)
    → Beside h.world (catch (run_locked r) (on_stolen r) h).1.world
guarded-Beside {e} r h = (guarded-Within r h (beside_frame e h.task.task_id)).0

pub guarded-Same :
    {e : Env} (r : Round) (h : Held e)
    → let h' = (catch (run_locked r) (on_stolen r) h).1 in
      (h'.task.project_name ≡ h.task.project_name) × (h'.task.task_id ≡ h.task.task_id)
guarded-Same {e} r h =
    let kept = guarded-Within r h (beside_frame e h.task.task_id) in (kept.1, kept.2)
