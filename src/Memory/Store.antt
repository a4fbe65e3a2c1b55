-- ===== src/Memory/Store.antt =====
-- `TaskStore` of src/task_queue.py: a dict of tasks under a lock. A record stands for the object as
-- it is when a call reads it.
pub mod Incomplete
use cio_run_auto_orchestrato.Prelude.{
  String, Bool, Option, none, some, List, [], ◌∷◌, ◌==◌, find, any, concat, if◌then◌else◌, Dict,
  lookup, insert,
}
use cio_run_auto_orchestrato.Effect.{Result, ok, err, value_error, Action}
use cio_run_auto_orchestrato.Models.{is_running, is_incomplete}
use cio_run_auto_orchestrato.Memory.Models.{Task}

abbrev save_new : Task → Option Task → Action (Dict Task) (Unit {0})
save_new t (some u) tasks =
    (err (value_error (concat "Task '" (concat t.task_id "' already exists"))), tasks)
save_new t none tasks = (ok tt, insert t.task_id t tasks)

unfoldable pub save : Task → Action (Dict Task) (Unit {0})
save t tasks = save_new t (lookup t.task_id tasks) tasks

unfoldable pub update : Task → Action (Dict Task) (Unit {0})
update t tasks = (ok tt, insert t.task_id t tasks)

unfoldable pub get : String → Action (Dict Task) (Option Task)
get task_id tasks = (ok (lookup task_id tasks), tasks)

abbrev pub of_project : String → Dict Task → List Task
of_project project_name [] = []
of_project project_name ((k, t) ∷ tasks) =
    let rest = of_project project_name tasks in
    if t.project_name == project_name then t ∷ rest else rest

unfoldable pub list_by_project : String → Action (Dict Task) (List Task)
list_by_project project_name tasks = (ok (of_project project_name tasks), tasks)

unfoldable pub has_running_task : String → Action (Dict Task) Bool
has_running_task project_name tasks =
    (ok (any (λ t. is_running t.status) (of_project project_name tasks)), tasks)

unfoldable pub find_incomplete : String → Action (Dict Task) (Option Task)
find_incomplete project_name tasks =
    (ok (find (λ t. is_incomplete t.status) (of_project project_name tasks)), tasks)
