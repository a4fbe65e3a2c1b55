-- ===== src/Worker/Blocked.antt =====
-- src/worker.py with `TaskStore.update` of src/task_queue/store.py, where the blocking wait of
-- `update` is on the event loop's own thread: no coroutine of the loop runs before it times out.
use cio_run_auto_orchestrato.Prelude.{
  String, ℕ, Bool, ◌+◌, concat, ◌≡◌, refl, ap, subst, ◌⊎◌, inl, inr,
}
use cio_run_auto_orchestrato.Effect.{Result, timeout_error, cancelled_error, str, ok, err}
use cio_run_auto_orchestrato.Models.{
  Task, TaskMode, new, resume, secondary, running, failed, mode_value, transition, touch,
}
use cio_run_auto_orchestrato.Redis.{Env}
use cio_run_auto_orchestrato.Scheduler.{decide}
use cio_run_auto_orchestrato.Scheduler.Table.{
  Row, empty_resumes, empty_fails, no_project, project_resumes, project_continues, decided,
  decide_follows_table,
}
use cio_run_auto_orchestrato.Worker.State.{Held, timed_out, update, transition_to}
use cio_run_auto_orchestrato.Worker.Stream.{Session}
use cio_run_auto_orchestrato.Worker.Execute.{
  Round, run_mode, run_session, run_locked, or_none, fail,
}

-- The task is RUNNING or FAILED, and what names it is as it was.
abbrev pub Started : Task → Task → Type 0
Started t t' =
    (t'.task_id ≡ t.task_id)
    × (t'.project_name ≡ t.project_name)
    × ((t'.status ≡ running) ⊎ (t'.status ≡ failed))

-- The TimeoutError, with the first mark of the round on the task, and its update waiting.
abbrev pub Blocks : {e : Env} → Held e → Result (Unit {0}) × Held e → Type 0
Blocks h z =
    (z.0 ≡ err timeout_error)
    × (z.1.world ≡ h.world)
    × (z.1.waiting ≡ h.waiting + 1)
    × Started h.task z.1.task

module _ {e : Env} (r : Round) (blocked : (n : ℕ) → r.runtime.update_wait n ≡ timed_out) where
  blocked_mode :
      (s : Session) (mode : TaskMode) (h : Held e)
      → ((run_mode r s (ok mode) h).0 ≡ err timeout_error)
        × ((run_mode r s (ok mode) h).1.world ≡ h.world)
        × ((run_mode r s (ok mode) h).1.waiting ≡ h.waiting + 1)
        × ((run_mode r s (ok mode) h).1.task
            ≡ transition h.world.clock running (concat "mode=" (mode_value mode)) h.task)
  unfolding update transition_to
  blocked_mode s mode h = (
    rw (blocked h.updates),
    rw (blocked h.updates),
    rw (blocked h.updates),
    rw (blocked h.updates),
  )

  -- Where every wait of `update` times out, a task that the factory and the scheduler accept does
  -- not get past RUNNING: `_run_locked` raises the TimeoutError, the server, the connection and the
  -- clock are as they were, the task object is RUNNING, and one more update waits.
  pub run_locked_blocked :
      (h : Held e) {s : Session} {mode : TaskMode} {t : Task}
      → r.factory (or_none h.task.work_dir) (or_none h.task.config_json) ≡ ok s
      → decide s.scheduler h.world.clock h.task ≡ (ok mode, t)
      → let (res, h') = run_locked r h in
        (res ≡ err timeout_error)
        × (h'.world ≡ h.world)
        × (h'.waiting ≡ h.waiting + 1)
        × (h'.task ≡ transition h.world.clock running (concat "mode=" (mode_value mode)) t)
  unfolding run_locked
  run_locked_blocked h {s} {mode} {t} made decided =
      rw (made, decided) (blocked_mode s mode (record h { task = t }))

  fail_blocked :
      (detail : String) (h : Held e)
      → let z = fail r detail h in
        (z.0 ≡ err timeout_error)
        × (z.1.world ≡ h.world)
        × (z.1.waiting ≡ h.waiting + 1)
        × (z.1.task ≡ transition h.world.clock failed detail h.task)
  unfolding update transition_to
  fail_blocked detail h = (
    rw (blocked h.updates),
    rw (blocked h.updates),
    rw (blocked h.updates),
    rw (blocked h.updates),
  )

  accepted-Blocks :
      (s : Session) (mode : TaskMode) (h : Held e) → Blocks h (run_mode r s (ok mode) h)
  unfolding transition touch
  accepted-Blocks s mode h =
      let step = blocked_mode s mode h in
      (
        step.0,
        step.1,
        step.2,
        (
          ap (λ (t : Task). t.task_id) step.3,
          ap (λ (t : Task). t.project_name) step.3,
          inl (ap (λ (t : Task). t.status) step.3),
        ),
      )

  refused-Blocks : (detail : String) (h : Held e) → Blocks h (fail r detail h)
  unfolding transition touch
  refused-Blocks detail h =
      let step = fail_blocked detail h in
      (
        step.0,
        step.1,
        step.2,
        (
          ap (λ (t : Task). t.task_id) step.3,
          ap (λ (t : Task). t.project_name) step.3,
          inr (ap (λ (t : Task). t.status) step.3),
        ),
      )

  run_mode-Blocks :
      (s : Session) {error : String} {asked exists checkpoint : Bool} (m : Result TaskMode)
      (h : Held e)
      → Row error asked exists checkpoint m
      → Blocks h (run_mode r s m h)
  run_mode-Blocks s _ h empty_resumes = accepted-Blocks s resume h
  run_mode-Blocks s {error} _ h empty_fails = refused-Blocks error h
  run_mode-Blocks s _ h no_project = accepted-Blocks s new h
  run_mode-Blocks s _ h project_resumes = accepted-Blocks s resume h
  run_mode-Blocks s _ h project_continues = accepted-Blocks s secondary h

  decided-Blocks :
      (now : ℕ) (m : Result TaskMode) (h : Held e) (z : Result (Unit {0}) × Held e)
      → Blocks (record h { task = decided now m h.task }) z
      → Blocks h z
  decided-Blocks now (ok m) h z b = b
  decided-Blocks now (err x) h z b = b

  -- Unless the factory is cancelled.
  pub run_session-Blocks :
      (x : Result Session) (h : Held e)
      → ((m : String) → ¬ (x ≡ err (cancelled_error m)))
      → Blocks h (run_session r x h)
  run_session-Blocks (ok s) h calm =
      let step = decide_follows_table s.scheduler h.world.clock h.task in
      let z = decide s.scheduler h.world.clock h.task in
      let ends = run_mode r s z.0 (record h { task = z.1 }) in
      decided-Blocks h.world.clock z.0 h ends (
        subst (λ t. Blocks (record h { task = t }) ends) step.1
          (run_mode-Blocks s z.0 (record h { task = z.1 }) step.0))
  run_session-Blocks (err (cancelled_error m)) h calm = absurd (calm m refl)
  run_session-Blocks (err x) h calm =
      refused-Blocks (concat "engine initialisation failed: " (str x)) h
