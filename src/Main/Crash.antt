-- ===== src/Main/Crash.antt =====
-- src/worker.py and src/recovery.py together: a task whose turn ended in an exception, with its record
-- RUNNING, at the next start of the process.
use cio_run_auto_orchestrato.Prelude.{
  String, ℕ, true, false, some, List, [], ◌∷◌, ◌++◌, map, ◌≡◌, refl, sym, ap, subst, ◌∙◌, ◌==◌,
  ==_iff, ==_refl, elem, arith, concat, Bool-cases, inl, inr,
}
use cio_run_auto_orchestrato.Effect.{ok, err, timeout_error}
use cio_run_auto_orchestrato.Models.{
  Task, TaskMode, running, interrupted, mode_value, transition, touch, is_terminal, is_running,
}
use cio_run_auto_orchestrato.Redis.{Env, is_some}
use cio_run_auto_orchestrato.RedisClient.{World}
use cio_run_auto_orchestrato.TaskQueue.Keys.{task_key}
use cio_run_auto_orchestrato.TaskQueue.Queue.Fifo.{waiting, in_order, read}
use cio_run_auto_orchestrato.Recovery.{Scan, task_keys, recover_stranded_tasks, reclaimed}
use cio_run_auto_orchestrato.Recovery.Stranded.{seen, queued_for}
use cio_run_auto_orchestrato.Recovery.Fate.{Own}
use cio_run_auto_orchestrato.Recovery.Loop.{texts_for, recovery_lem, recovery_queues_stranded}
use cio_run_auto_orchestrato.Scheduler.{decide}
use cio_run_auto_orchestrato.WorkerLocks.Ownership.{owner}
use cio_run_auto_orchestrato.Worker.State.{Held, timed_out}
use cio_run_auto_orchestrato.Worker.Stream.{Session}
use cio_run_auto_orchestrato.Worker.Execute.{Round, execute, or_none}
use cio_run_auto_orchestrato.Worker.Stranded.{execute_strands}

elem-append_left : (k : String) (xs ys : List String) → elem k xs ≡ true → elem k (xs ++ ys) ≡ true
unfolding elem
elem-append_left k [] ys h = ground arith
elem-append_left k (x ∷ xs) ys h = ground (arith, elem-append_left k xs ys)

elem-append_right : (k : String) (xs ys : List String) → elem k ys ≡ true → elem k (xs ++ ys) ≡ true
unfolding elem
elem-append_right k [] ys h = h
elem-append_right k (x ∷ xs) ys h = ground (arith, elem-append_right k xs ys h)

abbrev pub crash_detail : String
crash_detail = "crash-recovery: worker lost during execution"

module _ (e : Env) where
  -- What the loop queues has the text of each open record that is scanned.
  elem-texts_for :
      (key : String) (t : Task) (w : World e) (keys : List String)
      → seen e w key ≡ some t
      → is_terminal t ≡ false
      → elem key keys ≡ true
      → elem (e.dump (reclaimed w.clock t)) (texts_for e w keys) ≡ true
  unfolding elem
  elem-texts_for key t w [] there open_status m = ground arith
  elem-texts_for key t w (k ∷ keys) there open_status m = elim (Bool-cases (k == key)) [
    | inl same ↦
        elem-append_left _ (map e.dump (queued_for w.clock (seen e w k))) (texts_for e w keys) (
          rw
            (
              ap (seen e w) ((==_iff k key).0 same) ∙ there,
              open_status,
              ==_refl (e.dump (reclaimed w.clock t)),
            )
            refl)
    | inr other ↦
        elem-append_right _ (map e.dump (queued_for w.clock (seen e w k))) (texts_for e w keys)
          (elem-texts_for key t w keys there open_status (ground arith))
  ]

  -- The process at its next start, with another client and a later clock.
  abbrev pub restarted : String → ℕ → World e → World e
  restarted url now w = record w { client = some url; clock = now }

  -- A turn that was stopped by its first update is not lost. A connected worker executes a task
  -- whose lock is free, which the factory and the scheduler accept, and every wait of `update` times
  -- out, so that `_execute` raises the TimeoutError and leaves the task out of the queue. At a next
  -- start, with any address and clock, where the scan has the key of the task and each scanned
  -- record stands under the key of its own task: recovery queues the task as INTERRUPTED, and no
  -- scanned record is RUNNING.
  pub stranded_task_is_recovered :
      (r : Round) (u : String) (h : Held e) {s : Session} {mode : TaskMode} {t : Task}
      → ((n : ℕ) → r.runtime.update_wait n ≡ timed_out)
      → h.world.client ≡ some u
      → h.waiting ≡ 0
      → is_some (owner e h.task.project_name h.world) ≡ false
      → r.factory (or_none h.task.work_dir) (or_none h.task.config_json) ≡ ok s
      → decide s.scheduler h.world.clock h.task ≡ (ok mode, t)
      → (url : String) (now : ℕ) (scan : Scan) → elem (task_key t.task_id) (task_keys scan) ≡ true
      → let next = restarted url now (execute r h).1.world in
        ((k : String) → elem k (task_keys scan) ≡ true → Own e next k)
        → let t' = transition h.world.clock running (concat "mode=" (mode_value mode)) t in
          let z = recover_stranded_tasks e scan next in
          ((execute r h).0 ≡ err timeout_error)
          × (waiting e next ≡ waiting e h.world)
          × (elem (e.dump (transition now interrupted crash_detail t')) (waiting e z.1) ≡ true)
          × ((k : String)
              → elem k (task_keys scan) ≡ true
              → (x : Task) → seen e z.1 k ≡ some x
              → is_running x.status ≡ false)
  unfolding reclaimed transition touch is_terminal
  stranded_task_is_recovered r u h {s} {mode} {t} blocked c idle free made decided url now scan
        listed own =
      let left = execute_strands r u h blocked c idle free made decided in
      let next = restarted url now (execute r h).1.world in
      let t' = transition h.world.clock running (concat "mode=" (mode_value mode)) t in
      let found : seen e next (task_key t.task_id) ≡ some t' =
        ap (read e) left.2.1 ∙ e.validate_law t' in
      let z = recovery_lem e scan next refl own in
      let rest = recovery_queues_stranded e scan next refl own in
      (
        left.0,
        ap in_order left.2.2,
        subst (λ xs. elem (e.dump (transition now interrupted crash_detail t')) xs ≡ true) (sym z.1)
            (elem-append_right _ (waiting e next) (texts_for e next (task_keys scan))
              (elem-texts_for (task_key t.task_id) t' next (task_keys scan) found refl listed)),
        rest.3,
      )
