-- ===== src/Memory/Queue.antt =====
-- `TaskQueue` of src/task_queue.py over an `asyncio.Queue`, which holds at most `maxsize` tasks, or
-- any number if that is 0. A call that cannot go on waits; what other coroutines do meanwhile
-- stands beside it.
pub mod Bounded
use cio_run_auto_orchestrato.Prelude.{
  ℕ, Bool, Option, none, some, List, [], ◌∷◌, ◌++◌, ◌&&◌, ltb, leb, length, if◌then◌else◌,
}
use cio_run_auto_orchestrato.Memory.Models.{Task}

pub record TaskQueue : Type 0 where
  pub maxsize : ℕ
  pub q : List Task

unfoldable pub new_queue : ℕ → TaskQueue
new_queue maxsize = record { maxsize = maxsize; q = [] }

-- `asyncio.Queue.full`.
abbrev pub full : TaskQueue → Bool
full s = ltb 0 s.maxsize && leb s.maxsize (length s.q)

-- None where `put` has to wait for a free place.
unfoldable pub enqueue : Task → TaskQueue → Option TaskQueue
enqueue t s = if full s then none else some (record s { q = s.q ++ t ∷ [] })

-- None after the timeout where nothing is there.
abbrev pub front_task : List Task → Option Task
front_task [] = none
front_task (t ∷ ts) = some t

abbrev pub tasks_behind : List Task → List Task
tasks_behind [] = []
tasks_behind (t ∷ ts) = ts

unfoldable pub dequeue : TaskQueue → Option Task × TaskQueue
dequeue s = (front_task s.q, record s { q = tasks_behind s.q })

unfoldable pub qsize : TaskQueue → ℕ
qsize s = length s.q
