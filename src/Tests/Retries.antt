-- ===== src/Tests/Retries.antt =====
-- A task in several rounds: with updates that return, and on the thread of the event loop.
use cio_run_auto_orchestrato.Prelude.{◌≤◌, List, [], ◌∷◌, ◌≡◌, refl, arith}
use cio_run_auto_orchestrato.Redis.Demo.{memory}
use cio_run_auto_orchestrato.RedisClient.{World}
use cio_run_auto_orchestrato.Worker.Execute.{Round}
use cio_run_auto_orchestrato.Worker.Attempts.{attempts, retries_are_bounded}
use cio_run_auto_orchestrato.Tests.{start, task, round, blocked_round}

abbrev rounds : List (Round × World memory)
rounds = (round, start) ∷ (round, start) ∷ (round, start) ∷ (blocked_round, start) ∷ []

retries_are_bounded_example :
    ((attempts rounds task).task_id ≡ "t1")
    × ((attempts rounds task).project_name ≡ "shop")
    × ((attempts rounds task).retry_count ≤ 3)
retries_are_bounded_example =
    retries_are_bounded 3 rounds task
      (
        omega arith,
        ("redis://localhost", refl),
        (
          omega arith,
          ("redis://localhost", refl),
          (
            omega arith,
            ("redis://localhost", refl),
            (omega arith, ("redis://localhost", refl), tt),
          ),
        ),
      )
      (omega arith)
