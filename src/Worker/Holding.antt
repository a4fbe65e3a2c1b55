-- ===== src/Worker/Holding.antt =====
-- src/worker.py: the lock of the project around a round of `_execute`.
use cio_run_auto_orchestrato.Prelude.{String, true, false, some, ◌≡◌, refl, sym, ap, ◌∙◌}
use cio_run_auto_orchestrato.Redis.{Env, is_some}
use cio_run_auto_orchestrato.TaskQueue.Keys.{lock_key}
use cio_run_auto_orchestrato.WorkerLocks.Ownership.{owner, lock_is_owner_cell}
use cio_run_auto_orchestrato.Worker.State.{Held}
use cio_run_auto_orchestrato.Worker.Execute.{Round, finish, with_lock, execute}
use cio_run_auto_orchestrato.Worker.Lock.{execute_lem}
use cio_run_auto_orchestrato.Worker.Rounds.{guarded-Beside}
use cio_run_auto_orchestrato.Worker.Turn.{begun, round_of, busy_lem}

module _ {e : Env} (r : Round) (h : Held e) {u : String} (c : h.world.client ≡ some u) where
  free_lem :
      is_some (owner e h.task.project_name h.world) ≡ false
      → execute r h ≡ finish r (round_of r h c).0 (round_of r h c).1
  free_lem free =
      let key = lock_key h.task.project_name in
      let won : (e.set_nx_ex key r.lock_token r.lock_ttl h.world.db).0 ≡ true =
        e.set_nx_ex_law key r.lock_token r.lock_ttl h.world.db ∙ rw free in
      execute_lem r h c ∙ ap (λ b. with_lock r b (begun r h c)) won

  -- With a client and locks that do not expire, where the lock of the project is free: its token owns
  -- it when the round begins and still when the round has ended, whatever happens in the round, and
  -- `_execute` is this round with the `finally` block behind it.
  pub execute_holds_lock :
      is_some (owner e h.task.project_name h.world) ≡ false
      → let p = h.task.project_name in
        (owner e p (begun r h c).world ≡ some r.lock_token)
        × (owner e p (round_of r h c).1.world ≡ some r.lock_token)
        × (execute r h ≡ finish r (round_of r h c).0 (round_of r h c).1)
  execute_holds_lock free =
      let p = h.task.project_name in
      let mine : owner e p (begun r h c).world ≡ some r.lock_token =
        (lock_is_owner_cell e p r.lock_token r.lock_ttl h.world c).1 ∙ rw free refl in
      (mine, (guarded-Beside r (begun r h c)).1 p ∙ mine, free_lem free)

  -- With a client and no update that waits, where the lock of the project is owned: no round is run,
  -- so that `_execute` does the same with any other factory of engines, asyncio, heartbeat, maximum of
  -- retries and stream timeout.
  pub execute_runs_nothing :
      h.waiting ≡ 0
      → is_some (owner e h.task.project_name h.world) ≡ true
      → (other : Round) → other.lock_token ≡ r.lock_token
      → other.lock_ttl ≡ r.lock_ttl
      → execute other h ≡ execute r h
  execute_runs_nothing idle held other token ttl =
      busy_lem other h c idle held ∙ rw (token, ttl) refl ∙ sym (busy_lem r h c idle held)
