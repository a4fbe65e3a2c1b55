-- ===== src/Tests/Pool.antt =====
-- Runs of the worker pool of src/main.py.
use cio_run_auto_orchestrato.Prelude.{◌≤◌, List, [], ◌∷◌, ◌≡◌, refl, length, arith}
use cio_run_auto_orchestrato.Effect.{ok}
use cio_run_auto_orchestrato.Redis.Demo.{memory}
use cio_run_auto_orchestrato.Worker.Execute.{Round, turn}
use cio_run_auto_orchestrato.TaskQueue.Queue.{dequeue}
use cio_run_auto_orchestrato.Main.Pool.{
  created, in_turn, ended, create_tasks, begin_run, end_turn, stop_all, cancel,
}
use cio_run_auto_orchestrato.Main.{
  Event, begun, turned, shut_down, cancelled, App, happens, happen, started,
}
use cio_run_auto_orchestrato.Main.Shutdown.{
  turns, turns_made, shutdown_ends_workers, early_stop_is_lost,
}
use cio_run_auto_orchestrato.Tests.{start, round}
use cio_run_auto_orchestrato.Tests.Schema.{pydantic, loads}

abbrev new_pool : App memory
new_pool = started pydantic loads 2 start

abbrev one_begun : App memory
one_begun = record new_pool { crew = begin_run 0 (create_tasks 2) }

has_begun : ¬ (one_begun.crew.phase 0 ≡ created)
unfolding begin_run
has_begun q = ground arith

abbrev later_events : List Event
later_events = turned 0 round ∷ turned 0 round ∷ cancelled 1 round ∷ []

shutdown_ends_workers_example :
    let told = happens pydantic loads shut_down one_begun in
    let later = happen pydantic loads later_events told in
    (turns_made pydantic loads 0 later_events told ≤ 1)
    × (turns_made pydantic loads 0 later_events told ≡ 1 → ¬ (later.crew.phase 0 ≡ in_turn))
    × ((r : Round) → (happens pydantic loads (cancelled 0 r) later).crew.phase 0 ≡ ended)
shutdown_ends_workers_example =
    shutdown_ends_workers pydantic loads 0 one_begun later_events has_begun

-- Two workers, of which the second has not begun at the shutdown.
stopped_pool :
    let c = cancel 1 (begin_run 1 (end_turn 0 (ok tt) (stop_all (begin_run 0 (create_tasks 2))))) in
    (c.phase 0 ≡ ended) × (c.phase 1 ≡ ended)
unfolding begin_run end_turn stop_all cancel
stopped_pool = (refl, refl)

idle_turn : (turn round start).0 ≡ ok tt
unfolding turn dequeue
idle_turn = refl

early_stop_is_lost_example :
    let begun_late = happen pydantic loads (shut_down ∷ begun 0 ∷ []) new_pool in
    ((happen pydantic loads (turns 0 (round ∷ [])) begun_late).crew.phase 0 ≡ in_turn)
    × (turns_made pydantic loads 0 (turns 0 (round ∷ [])) begun_late ≡ length (round ∷ []))
early_stop_is_lost_example =
    early_stop_is_lost pydantic loads 0 (round ∷ []) new_pool refl (idle_turn, tt)
