-- ===== src/Tests/Work.antt =====
-- Runs of src/worker.py, src/worker_locks.py and src/scheduler.py.
use cio_run_auto_orchestrato.Prelude.{Bool, true, false, none, some, ◌≡◌, refl, if◌then◌else◌, not}
use cio_run_auto_orchestrato.Effect.{Result, ok, err}
use cio_run_auto_orchestrato.Redis.{is_some}
use cio_run_auto_orchestrato.Redis.Demo.{memory}
use cio_run_auto_orchestrato.Scheduler.{decide, has_project, has_checkpoint, no_checkpoint}
use cio_run_auto_orchestrato.Scheduler.Table.{Row, decided, decide_follows_table}
use cio_run_auto_orchestrato.WorkerLocks.{acquire_lock, release_lock, refresh_lock, equals}
use cio_run_auto_orchestrato.WorkerLocks.Ownership.{owner, expires, lock_is_owner_cell}
use cio_run_auto_orchestrato.Worker.Execute.{execute}
use cio_run_auto_orchestrato.Worker.Lock.{execute_frees_lock}
use cio_run_auto_orchestrato.Tests.{start, task, session, round, held}

abbrev pub is_ok {ℓ} : {A : Type ℓ} → Result A → Bool
is_ok (ok a) = true
is_ok (err x) = false

execute_frees_lock_example : equals (owner memory "shop" (execute round held).1.world) "tok" ≡ false
execute_frees_lock_example = execute_frees_lock round held refl refl refl

decide_follows_table_example :
    let (r, t') = decide session.scheduler 9 task in
    Row
      (no_checkpoint "shop")
      true
      (has_project session.scheduler "shop")
      (has_checkpoint session.scheduler "shop")
      r
    × (t' ≡ decided 9 r task)
decide_follows_table_example = decide_follows_table session.scheduler 9 task

lock_is_owner_cell_example :
    let w = (acquire_lock memory "shop" "tok" 60 start).1 in
    ((acquire_lock memory "shop" "tok" 60 start).0 ≡ ok (not (is_some (owner memory "shop" start))))
    × (owner memory "shop" w
        ≡ (if is_some (owner memory "shop" start) then owner memory "shop" start else some "tok"))
    × (expires memory "shop" w
        ≡ (if is_some (owner memory "shop" start) then expires memory "shop" start else some 60))
    × (owner memory "shop" (release_lock memory "shop" "tok" start).1
        ≡ (if equals (owner memory "shop" start) "tok" then none else owner memory "shop" start))
    × ((refresh_lock memory "shop" "tok" 60 start).0
        ≡ ok (equals (owner memory "shop" start) "tok"))
    × (owner memory "shop" (refresh_lock memory "shop" "tok" 60 start).1
        ≡ owner memory "shop" start)
    × (expires memory "shop" (refresh_lock memory "shop" "tok" 60 start).1 ≡ (
        if equals (owner memory "shop" start) "tok" then some 60 else expires memory "shop" start))
lock_is_owner_cell_example = lock_is_owner_cell memory "shop" "tok" 60 start refl
