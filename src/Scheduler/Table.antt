-- ===== src/Scheduler/Table.antt =====
-- src/scheduler.py: the decision table of `decide`, and what it does to the task.
use cio_run_auto_orchestrato.Prelude.{
  String, ℕ, Bool, true, false, ◌≡◌, refl, arith, is_truthy, if◌then◌else◌,
}
use cio_run_auto_orchestrato.Effect.{Exn, Result, ok, err, value_error}
use cio_run_auto_orchestrato.Models.{Task, TaskMode, new, resume, secondary, touch}
use cio_run_auto_orchestrato.Scheduler.{
  Cio, decide, apply, has_project, has_checkpoint, no_checkpoint,
}

-- The rows of the decision table: a requirement, a project, a checkpoint, and the mode or the
-- ValueError. A row that does not look at an entry has it as a variable.
pub data Row (error : String) : Bool → Bool → Bool → Result TaskMode → Type 0 where
  empty_resumes : {exists : Bool} → Row error false exists true (ok resume)
  empty_fails : {exists : Bool} → Row error false exists false (err (value_error error))
  no_project : {checkpoint : Bool} → Row error true false checkpoint (ok new)
  project_resumes : Row error true true true (ok resume)
  project_continues : Row error true true false (ok secondary)

-- The task behind the decision.
abbrev pub decided : ℕ → Result TaskMode → Task → Task
decided now (ok m) t = record t { mode = m; updated_at = now }
decided now (err x) t = t

module _ (now : ℕ) (t : Task) where
  Decides : Bool → Bool → Bool → Result TaskMode × Task → Type 0
  Decides asked exists checkpoint (r, t') =
      Row (no_checkpoint t.project_name) asked exists checkpoint r × (t' ≡ decided now r t)

  tree : Bool → Bool → Bool → Result TaskMode × Task
  tree asked exists checkpoint =
      if asked
      then (if exists
          then (if checkpoint then apply now resume t else apply now secondary t)
          else apply now new t)
      else (if checkpoint
          then apply now resume t
          else (err (value_error (no_checkpoint t.project_name)), t))

  tree-Decides :
      (asked exists checkpoint : Bool)
      → Decides asked exists checkpoint (tree asked exists checkpoint)
  unfolding tree Decides apply touch
  tree-Decides true true true = (project_resumes, refl)
  tree-Decides true true false = (project_continues, refl)
  tree-Decides true false checkpoint = (no_project, refl)
  tree-Decides false exists true = (empty_resumes, refl)
  tree-Decides false exists false = (empty_fails, refl)

  decide-tree :
      (c : Cio)
      → decide c now t
        ≡ tree
            (is_truthy t.requirement)
            (has_project c t.project_name)
            (has_checkpoint c t.project_name)
  unfolding decide tree
  decide-tree c = ground arith

-- `decide` follows the table, whatever the engine's methods answer: only the ValueError of an empty
-- requirement with no checkpoint is raised. A mode that is returned is written on the task with the
-- time, and no other field changes; behind the ValueError the task is as it was.
pub decide_follows_table :
    (c : Cio) (now : ℕ) (t : Task)
    → let (r, t') = decide c now t in
      Row
        (no_checkpoint t.project_name)
        (is_truthy t.requirement)
        (has_project c t.project_name)
        (has_checkpoint c t.project_name)
        r
      × (t' ≡ decided now r t)
unfolding Decides
decide_follows_table c now t = rw (decide-tree now t c) (
    tree-Decides now t (is_truthy t.requirement) (has_project c t.project_name)
      (has_checkpoint c t.project_name))

-- A method that raises: the project counts as new, and an empty requirement is refused.
pub has_project_raises :
    (c : Cio) (name : String) {x : Exn} → c.project_exists name ≡ err x → has_project c name ≡ false
unfolding has_project
has_project_raises c name h = rw h

pub has_checkpoint_raises :
    (c : Cio) (name : String) {x : Exn}
    → c.set_project_name name ≡ err x
    → has_checkpoint c name ≡ false
unfolding has_checkpoint
has_checkpoint_raises c name h = rw h
