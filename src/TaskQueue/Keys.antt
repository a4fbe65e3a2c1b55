-- ===== src/TaskQueue/Keys.antt =====
-- The key layout of src/task_queue/store.py, src/task_queue/queue.py and src/worker_locks.py.
use cio_run_auto_orchestrato.Prelude.{
  String, ◌≡◌, refl, true, false, ◌==◌, concat, starts_with, code_at, concat-==, ==_of_code, arith,
}
use cio_run_auto_orchestrato.Redis.{Env}

unfoldable pub task_key : String → String
task_key task_id = concat "cio:task:" task_id

unfoldable pub project_tasks_key : String → String
project_tasks_key project_name = concat "cio:project:" (concat project_name ":tasks")

unfoldable pub digest_key : Env → String → String → String
digest_key e project_name requirement =
    let raw = concat project_name (concat "\0" requirement) in
    concat "cio:task:digest:" (e.sha256 raw)

abbrev pub queue_key : String
queue_key = "cio:queue:tasks"

unfoldable pub lock_key : String → String
lock_key project_name = concat "cio:lock:" project_name

-- Two tasks have one key only if they have one id.
pub task_key-== : (a b : String) → (task_key a == task_key b) ≡ (a == b)
unfolding task_key
task_key-== a b = concat-== "cio:task:" a b

pub lock_key-== : (a b : String) → (lock_key a == lock_key b) ≡ (a == b)
unfolding lock_key
lock_key-== a b = concat-== "cio:lock:" a b

pub task_key-lock_key : (a b : String) → (task_key a == lock_key b) ≡ false
unfolding task_key lock_key concat code_at
task_key-lock_key a b = ==_of_code _ _ 4 (omega arith)

pub lock_key-task_key : (a b : String) → (lock_key a == task_key b) ≡ false
unfolding task_key lock_key concat code_at
lock_key-task_key a b = ==_of_code _ _ 4 (omega arith)

pub digest_key-starts :
    (e : Env) (p r : String) → starts_with (digest_key e p r) "cio:task:digest:" ≡ true
unfolding digest_key concat starts_with
digest_key-starts e p r = refl

pub digest_key-lock_key : (e : Env) (p r q : String) → (digest_key e p r == lock_key q) ≡ false
unfolding digest_key lock_key concat code_at
digest_key-lock_key e p r q = ==_of_code _ _ 4 (omega arith)
