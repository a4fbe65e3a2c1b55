-- ===== src/Recovery.antt =====
-- src/recovery.py: at a start every task that is not in a terminal status is queued again.
pub mod Stranded
pub mod Fate
pub mod Loop
pub mod Again
use cio_run_auto_orchestrato.Prelude.{
  String, ℕ, ◌+◌, Bool, true, false, Option, none, some, List, [], ◌∷◌, ◌++◌, ◌&&◌, not,
  starts_with, if◌then◌else◌,
}
use cio_run_auto_orchestrato.Effect.{ok, Action, pure, ◌>>=◌, ◌>>◌}
use cio_run_auto_orchestrato.Models.{Task, interrupted, transition, is_terminal, is_running}
use cio_run_auto_orchestrato.Redis.{Env}
use cio_run_auto_orchestrato.RedisClient.{World, get_redis, query}
use cio_run_auto_orchestrato.TaskQueue.Store.{async_update}
use cio_run_auto_orchestrato.TaskQueue.Queue.{enqueue}

-- The replies to the SCAN calls up to the one whose cursor is 0. A server ends every iteration, and
-- may return a key more than once.
pub data Scan : Type 0 where
  last_page : List String → Scan
  page : List String → Scan → Scan

unfoldable pub is_task_record_key : String → Bool
is_task_record_key k = starts_with k "cio:task:" && not (starts_with k "cio:task:digest:")

unfoldable pub record_keys : List String → List String
record_keys [] = []
record_keys (k ∷ ks) = if is_task_record_key k then k ∷ record_keys ks else record_keys ks

unfoldable pub task_keys : Scan → List String
task_keys (last_page ks) = record_keys ks
task_keys (page ks scan) = record_keys ks ++ task_keys scan

-- What the loop makes of a task that is not terminal.
unfoldable pub reclaimed : ℕ → Task → Task
reclaimed now t =
    if is_running t.status
    then transition now interrupted "crash-recovery: worker lost during execution" t
    else t

module _ (e : Env) where
  unfoldable pub reclaim_task : Task → Action (World e) Bool
  reclaim_task t w =
      let t' = reclaimed w.clock t in
      if is_terminal t
      then (ok false, w)
      else (if is_running t.status
          then (do async_update e t'; enqueue e t'; pure true) w
          else (do enqueue e t'; pure true) w)

  abbrev reclaim_parsed : Option Task → Action (World e) Bool
  reclaim_parsed none = pure false
  reclaim_parsed (some t) = reclaim_task t

  abbrev reclaim_raw : Option String → Action (World e) Bool
  reclaim_raw none = pure false
  reclaim_raw (some raw) = reclaim_parsed (e.validate raw)

  -- The body of the loop over the keys: whether the task was queued.
  unfoldable pub reclaim : String → Action (World e) Bool
  reclaim key = do raw ← query (e.get key); reclaim_raw raw

  unfoldable pub reclaim_all : List String → ℕ → Action (World e) ℕ
  reclaim_all [] recovered = pure recovered
  reclaim_all (key ∷ keys) recovered = do
    queued ← reclaim key
    reclaim_all keys (if queued then recovered + 1 else recovered)

  unfoldable pub recover_stranded_tasks : Scan → Action (World e) ℕ
  recover_stranded_tasks scan = do get_redis; reclaim_all (task_keys scan) 0
