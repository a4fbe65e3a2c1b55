-- ===== src/Worker/Frame.antt =====
-- src/worker.py: what a coroutine may do to the server and the client beside its own business, as
-- an interface. The operations of which a round on the task `i` is made are within it.
use cio_run_auto_orchestrato.Prelude.{String, ℕ, zero, suc, ◌≡◌}
use cio_run_auto_orchestrato.Models.{Task, CioEvent}
use cio_run_auto_orchestrato.Redis.{Env}
use cio_run_auto_orchestrato.RedisClient.{World}
use cio_run_auto_orchestrato.TaskQueue.Store.{async_update}
use cio_run_auto_orchestrato.TaskQueue.Queue.{enqueue}
use cio_run_auto_orchestrato.EventBus.{publish, close}
use cio_run_auto_orchestrato.Worker.State.{run_waiting}

pub record Frame (e : Env) (i : String) : Type 1 where
  pub Within : World e → World e → Type 0
  pub within_refl : (w : World e) → Within w w
  pub within_trans : (w v u : World e) → Within w v → Within v u → Within w u
  pub within_update : (t : Task) (w : World e) → t.task_id ≡ i → Within w (async_update e t w).1
  pub within_enqueue : (t : Task) (w : World e) → Within w (enqueue e t w).1
  pub within_close : (task_id : String) (w : World e) → Within w (close e task_id w).1
  pub within_publish :
      (task_id : String) (ev : CioEvent) (w : World e) → Within w (publish e task_id ev w).1

module _ {e : Env} {i : String} (F : Frame e i) where
  pub run_waiting-Within :
      (n : ℕ) (t : Task) (w : World e) → t.task_id ≡ i → F.Within w (run_waiting n t w)
  run_waiting-Within zero t w own = F.within_refl w
  run_waiting-Within (suc n) t w own =
      let w' = (async_update e t w).1 in
      F.within_trans w w' (run_waiting n t w') (F.within_update t w own)
        (run_waiting-Within n t w' own)
