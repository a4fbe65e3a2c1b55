-- ===== src/Worker/Attempts.antt =====
-- src/worker.py: how many retries a task collects in the rounds that workers give it.
use cio_run_auto_orchestrato.Prelude.{
  String, ℕ, ◌≤◌, List, [], ◌∷◌, some, ◌≡◌, refl, sym, subst, ◌∙◌, arith, inl, inr, Bool-cases,
}
use cio_run_auto_orchestrato.Models.{Task}
use cio_run_auto_orchestrato.Redis.{Env, is_some}
use cio_run_auto_orchestrato.RedisClient.{World}
use cio_run_auto_orchestrato.WorkerLocks.Ownership.{owner}
use cio_run_auto_orchestrato.Worker.State.{Held}
use cio_run_auto_orchestrato.Worker.Execute.{Round, execute}
use cio_run_auto_orchestrato.Worker.Beside.{beside_frame, Beside-refl}
use cio_run_auto_orchestrato.Worker.Rounds.{guarded-Sane}
use cio_run_auto_orchestrato.Worker.Turn.{begun, execute_with_lock, execute_without_lock}

abbrev Bounded : ℕ → Task → Task → Type 0
Bounded most t t' =
    (t'.task_id ≡ t.task_id) × (t'.project_name ≡ t.project_name) × (t'.retry_count ≤ most)

module _ {e : Env} where
  -- `_execute` of a task that has just been taken from the queue.
  abbrev pub taken_up : World e → Task → Held e
  taken_up w t = record { world = w; task = t; updates = 0; waiting = 0 }

  -- The task behind rounds one after the other, each of any worker in any state of the process.
  abbrev pub attempts : List (Round × World e) → Task → Task
  attempts [] t = t
  attempts ((r, w) ∷ rest) t = attempts rest (execute r (taken_up w t)).1.task

  -- A connected process in each round, and a maximum of retries that is no larger than `most`.
  abbrev pub Limited : ℕ → List (Round × World e) → Type 0
  Limited most [] = Unit {0}
  Limited most ((r, w) ∷ rest) =
      (r.max_retries ≤ most) × ((u : String) × (w.client ≡ some u)) × Limited most rest

  attempt-Bounded :
      (most : ℕ) (r : Round) (w : World e) (t : Task) {u : String}
      → r.max_retries ≤ most
      → w.client ≡ some u
      → t.retry_count ≤ most
      → Bounded most t (execute r (taken_up w t)).1.task
  attempt-Bounded most r w t limit c few =
      let h = taken_up w t in
      elim (Bool-cases (is_some (owner e t.project_name w))) [
        | inl held ↦
            subst (Bounded most t) (sym (execute_without_lock r h c refl held).1)
              (refl, refl, omega (arith, few))
        | inr free ↦
            let b = begun r h c in
            let sane =
              guarded-Sane (beside_frame e t.task_id) b.world t.project_name r most limit b
                (Beside-refl b.world, refl, refl, omega (arith, few)) in
            subst (Bounded most t) (sym (execute_with_lock r h c free).1) (sane.2, sane.1, sane.3)
      ]

  -- A task that begins within a maximum of retries keeps its id and its project and stays within the
  -- maximum through any number of rounds of connected workers whose maximum is no larger, in any
  -- states of the server and the locks, and whatever the engine, the factory and asyncio do.
  pub retries_are_bounded :
      (most : ℕ) (rounds : List (Round × World e)) (t : Task)
      → Limited most rounds
      → t.retry_count ≤ most
      → ((attempts rounds t).task_id ≡ t.task_id)
        × ((attempts rounds t).project_name ≡ t.project_name)
        × ((attempts rounds t).retry_count ≤ most)
  retries_are_bounded most [] t limited few = (refl, refl, few)
  retries_are_bounded most ((r, w) ∷ rest) t (limit, (u, c), limited) few =
      let (id, name, count) = attempt-Bounded most r w t limit c few in
      let (id', name', count') =
        retries_are_bounded most rest (execute r (taken_up w t)).1.task limited count in
      (id' ∙ id, name' ∙ name, count')
