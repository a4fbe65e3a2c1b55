-- ===== src/TaskQueue/Queue.antt =====
-- src/task_queue/queue.py: `TaskQueue`, a FIFO queue on a Redis list. Times are in milliseconds.
pub mod Fifo
use Prim.Native.Nat.{◌/◌, max}
use cio_run_auto_orchestrato.Prelude.{ℕ, Option, none, some}
use cio_run_auto_orchestrato.Effect.{Action, pure, ◌>>=◌, ◌>>◌}
use cio_run_auto_orchestrato.Models.{Task}
use cio_run_auto_orchestrato.Redis.{Env}
use cio_run_auto_orchestrato.RedisClient.{World, get_redis, query, mutate, command}
use cio_run_auto_orchestrato.TaskQueue.Keys.{queue_key}

-- `int(max(1, timeout))`.
unfoldable pub block_seconds : ℕ → ℕ
block_seconds timeout = max 1000 timeout / 1000

module _ (e : Env) where
  unfoldable pub enqueue : Task → Action (World e) (Unit {0})
  enqueue t = do get_redis; mutate (e.lpush queue_key (e.dump t))

  -- A text that does not parse has left the queue, and counts as no task.
  unfoldable pub dequeue : ℕ → Action (World e) (Option Task)
  dequeue timeout = do
    get_redis
    result ← command (e.brpop (block_seconds timeout) queue_key)
    pure (elim result [ none ↦ none | some raw ↦ e.validate raw ])

  unfoldable pub qsize : Action (World e) ℕ
  qsize = do get_redis; query (e.llen queue_key)
