-- ===== src/Tests/Turns.antt =====
-- Runs of `_execute` of src/worker.py.
use cio_run_auto_orchestrato.Prelude.{concat, true, String, some, ◌∷◌, ◌≡◌, refl}
use cio_run_auto_orchestrato.Effect.{ok}
use cio_run_auto_orchestrato.Redis.{is_some, put}
use cio_run_auto_orchestrato.Redis.Demo.{memory, empty, dump}
use cio_run_auto_orchestrato.TaskQueue.Keys.{lock_key, queue_key}
use cio_run_auto_orchestrato.WorkerLocks.Ownership.{owner}
use cio_run_auto_orchestrato.Worker.State.{Held}
use cio_run_auto_orchestrato.Worker.Execute.{execute}
use cio_run_auto_orchestrato.Worker.Turn.{round_of, execute_with_lock, execute_without_lock}
use cio_run_auto_orchestrato.Tests.{start, task, round, held}

execute_with_lock_example :
    ((execute round held).0 ≡ (round_of round held refl).0)
    × ((execute round held).1.task ≡ (round_of round held refl).1.task)
execute_with_lock_example = execute_with_lock round held refl refl

abbrev locked : Held memory
locked = record held {
  world = record start {
    db = record empty { strings = put (lock_key "shop") (some "another") empty.strings };
  };
}

is_locked : is_some (owner memory "shop" locked.world) ≡ true
unfolding lock_key concat
is_locked = refl

execute_without_lock_example :
    ((execute round locked).0 ≡ ok tt)
    × ((execute round locked).1.task ≡ task)
    × ((execute round locked).1.world.db.items queue_key
        ≡ dump task ∷ locked.world.db.items queue_key)
    × ((k : String) → (execute round locked).1.world.db.strings k ≡ locked.world.db.strings k)
execute_without_lock_example = execute_without_lock round locked refl refl is_locked
