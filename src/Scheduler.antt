-- ===== src/Scheduler.antt =====
-- src/scheduler.py: `Scheduler.decide`. `ProjectStore` and `StateTracker` belong to the engine; what
-- their methods answer at the call is a parameter.
pub mod Table
use cio_run_auto_orchestrato.Prelude.{String, ℕ, Bool, false, concat, is_truthy, if◌then◌else◌}
use cio_run_auto_orchestrato.Effect.{value_error, Result, ok, err, Action, raise}
use cio_run_auto_orchestrato.Models.{Task, TaskMode, new, resume, secondary, touch}

pub record Cio : Type 0 where
  pub project_exists : String → Result Bool
  pub set_project_name : String → Result (Unit {0})
  pub checkpoint_exists : String → Result Bool

-- `except Exception: ... = False`.
abbrev or_false : Result Bool → Bool
or_false (ok b) = b
or_false (err x) = false

abbrev and_then : Result (Unit {0}) → Result Bool → Result Bool
and_then (ok u) r = r
and_then (err x) r = err x

unfoldable pub has_project : Cio → String → Bool
has_project c name = or_false (c.project_exists name)

unfoldable pub has_checkpoint : Cio → String → Bool
has_checkpoint c name = or_false (and_then (c.set_project_name name) (c.checkpoint_exists name))

abbrev pub no_checkpoint : String → String
no_checkpoint name =
    concat "requirement 为空，但 project='" (concat name "' 不存在可恢复的 checkpoint，无法执行任何操作")

-- `_apply`, at the time `now`.
unfoldable pub apply : ℕ → TaskMode → Action Task TaskMode
apply now mode t = (ok mode, touch now (record t { mode = mode }))

abbrev decide_named : Cio → ℕ → String → String → Action Task TaskMode
decide_named c now project_name requirement =
    if is_truthy requirement
    then (if has_project c project_name
        then (if has_checkpoint c project_name then apply now resume else apply now secondary)
        else apply now new)
    else (if has_checkpoint c project_name
        then apply now resume
        else raise (value_error (no_checkpoint project_name)))

unfoldable pub decide : Cio → ℕ → Action Task TaskMode
decide c now t = decide_named c now t.project_name t.requirement t
