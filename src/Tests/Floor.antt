-- ===== src/Tests/Floor.antt =====
-- Workers among each other.
use cio_run_auto_orchestrato.Prelude.{true, false, some, [], ◌∷◌, ◌≡◌, refl, ◌≤◌, length, concat}
use cio_run_auto_orchestrato.Effect.{ok}
use cio_run_auto_orchestrato.Redis.Demo.{memory}
use cio_run_auto_orchestrato.TaskQueue.Keys.{lock_key}
use cio_run_auto_orchestrato.WorkerLocks.{acquire_lock}
use cio_run_auto_orchestrato.Worker.Floor.{tokens_of, Floor, takes, here, next}
use cio_run_auto_orchestrato.Worker.Exclusive.{one_worker_for_project}
use cio_run_auto_orchestrato.Redis.{is_some}
use cio_run_auto_orchestrato.WorkerLocks.Ownership.{owner}
use cio_run_auto_orchestrato.Worker.State.{Held}
use cio_run_auto_orchestrato.Worker.Execute.{execute, finish}
use cio_run_auto_orchestrato.Worker.Turn.{begun, round_of}
use cio_run_auto_orchestrato.Worker.Holding.{execute_holds_lock, execute_runs_nothing}
use cio_run_auto_orchestrato.Tests.{start, round, blocked_round, held}

abbrev at_first : Floor memory
at_first = record { world = start; inside = [] }

abbrev one_inside : Floor memory
one_inside = record {
  world = (acquire_lock memory "shop" "tok" 3600 start).1;
  inside = ("shop", "tok") ∷ [];
}

entered : (acquire_lock memory "shop" "tok" 3600 start).0 ≡ ok true
unfolding acquire_lock
entered = refl

-- A second worker does not get in.
refused : (acquire_lock memory "shop" "tok2" 3600 one_inside.world).0 ≡ ok false
unfolding acquire_lock lock_key concat
refused = refl

one_worker_for_project_example : length (tokens_of "shop" one_inside.inside) ≤ 1
one_worker_for_project_example =
    one_worker_for_project memory {a = at_first} {b = one_inside} "shop" refl refl
      (next here (takes round "shop" entered refl))

execute_holds_lock_example :
    (owner memory "shop" (begun round held refl).world ≡ some "tok")
    × (owner memory "shop" (round_of round held refl).1.world ≡ some "tok")
    × (execute round held ≡ finish round (round_of round held refl).0 (round_of round held refl).1)
execute_holds_lock_example = execute_holds_lock round held refl refl

-- A task whose project another worker has.
abbrev outside : Held memory
outside = record held { world = (acquire_lock memory "shop" "tok0" 3600 start).1 }

outside_connected : outside.world.client ≡ some "redis://localhost"
unfolding acquire_lock
outside_connected = refl

outside_owned : is_some (owner memory "shop" outside.world) ≡ true
unfolding acquire_lock lock_key concat
outside_owned = refl

execute_runs_nothing_example : execute blocked_round outside ≡ execute round outside
execute_runs_nothing_example =
    execute_runs_nothing round outside outside_connected refl outside_owned blocked_round refl refl
