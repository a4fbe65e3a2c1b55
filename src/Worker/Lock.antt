-- ===== src/Worker/Lock.antt =====
-- src/worker.py: whatever happens in a round, `_execute` gives the project's lock back.
use cio_run_auto_orchestrato.Prelude.{
  String, true, false, Option, none, some, ◌≡◌, refl, sym, subst, ap, ◌∙◌, ◌==◌, Bool-cases, inl,
  inr, if◌then◌else◌,
}
use cio_run_auto_orchestrato.Effect.{Result, catch}
use cio_run_auto_orchestrato.Redis.{Env, Contents, is_some}
use cio_run_auto_orchestrato.RedisClient.{World}
use cio_run_auto_orchestrato.TaskQueue.Queue.Fifo.{enqueue_lem}
use cio_run_auto_orchestrato.TaskQueue.Keys.{lock_key, queue_key}
use cio_run_auto_orchestrato.WorkerLocks.{equals, acquire_lock, release_lock}
use cio_run_auto_orchestrato.WorkerLocks.Ownership.{
  owner, acquire_lock_lem, release_lock_lem, lock_is_owner_cell,
}
use cio_run_auto_orchestrato.Worker.State.{Held, yield_loop, run_waiting}
use cio_run_auto_orchestrato.Worker.Execute.{
  Round, heartbeat, finish, requeue, with_lock, run_locked, on_stolen, execute,
}
use cio_run_auto_orchestrato.Worker.Connection.{
  client-acquire_lock, client-run_waiting, client-heartbeat,
}
use cio_run_auto_orchestrato.Worker.Rounds.{guarded-Beside, guarded-Same}

not_owner :
    (o : Option String) (token : String) → equals (if equals o token then none else o) token ≡ false
not_owner none token = refl
not_owner (some v) token = elim (Bool-cases (v == token)) [
  | inl mine ↦ rw mine
  | inr other ↦ rw other other
]

module _ {e : Env} (r : Round) where
  pub execute_lem :
      (h : Held e) {u : String}
      → h.world.client ≡ some u
      → execute r h
        ≡ with_lock r
            (e.set_nx_ex (lock_key h.task.project_name) r.lock_token r.lock_ttl h.world.db).0
            (record h {
              world = (acquire_lock e h.task.project_name r.lock_token r.lock_ttl h.world).1;
            })
  unfolding execute
  execute_lem h c = rw (acquire_lock_lem e h.task.project_name r.lock_token r.lock_ttl h.world c)

  -- Before the release of `finish`.
  unfoldable pub released_world : Held e → World e
  released_world h =
      run_waiting h.waiting h.task (heartbeat r r.beats h.task.project_name h.world).1

  pub client-released_world : (h : Held e) → (released_world h).client ≡ h.world.client
  unfolding released_world
  client-released_world h =
      client-run_waiting e h.waiting h.task (heartbeat r r.beats h.task.project_name h.world).1
      ∙ client-heartbeat e r r.beats h.task.project_name h.world

  pub finish_lem :
      (res : Result (Unit {0})) (h : Held e) {u : String}
      → h.world.client ≡ some u
      → finish r res h ≡ (
        res,
        record h {
          world = (release_lock e h.task.project_name r.lock_token (released_world h)).1;
          waiting = 0;
        },
      )
  unfolding yield_loop released_world
  finish_lem res h c = rw (
      release_lock_lem e h.task.project_name r.lock_token 0 (released_world h)
        (client-released_world h ∙ c))

  finish_frees :
      (res : Result (Unit {0})) (h : Held e) {u : String}
      → h.world.client ≡ some u
      → equals (owner e h.task.project_name (finish r res h).1.world) r.lock_token ≡ false
  finish_frees res h c =
      let p = h.task.project_name in
      let cell =
        lock_is_owner_cell e p r.lock_token 0 (released_world h) (client-released_world h ∙ c) in
      subst (λ (z : Result (Unit {0}) × Held e). equals (owner e p z.1.world) r.lock_token ≡ false)
        (sym (finish_lem res h c))
        (subst (λ o. equals o r.lock_token ≡ false) (sym cell.3)
          (not_owner (owner e p (released_world h)) r.lock_token))

  -- The branch that did not get the lock.
  busy_frees :
      (h : Held e) {u : String} {w : World e}
      → w ≡ (acquire_lock e h.task.project_name r.lock_token r.lock_ttl h.world).1
      → h.world.client ≡ some u
      → h.waiting ≡ 0
      → is_some (owner e h.task.project_name h.world) ≡ true
      → equals (owner e h.task.project_name h.world) r.lock_token ≡ false
      → equals
          (owner e h.task.project_name (requeue r (record h { world = w })).1.world)
          r.lock_token
        ≡ false
  unfolding yield_loop
  busy_frees h {u} {w} q c idle held other =
      let p = h.task.project_name in
      let cell = lock_is_owner_cell e p r.lock_token r.lock_ttl h.world c in
      let c' : w.client ≡ some u =
        rw (q, client-acquire_lock e h.task.project_name r.lock_token r.lock_ttl h.world) c in
      rw (idle, run_waiting, enqueue_lem e w c')
        (subst (λ o. equals o r.lock_token ≡ false)
          (sym (
            ap (λ (c : Contents). c.strings (lock_key p))
              (e.lpush_law queue_key (e.dump h.task) w.db)
            ∙ (ap (λ w. owner e p w) q ∙ (cell.1 ∙ rw held))))
          other)

  guarded_frees :
      (h : Held e) {u : String}
      → h.world.client ≡ some u
      → equals (owner e h.task.project_name (with_lock r true h).1.world) r.lock_token ≡ false
  guarded_frees h {u} c =
      let (res, h') = catch (run_locked r) (on_stolen r) h in
      subst (λ p. equals (owner e p (finish r res h').1.world) r.lock_token ≡ false)
        (guarded-Same r h).0 (finish_frees res h' ((guarded-Beside r h).0 ∙ c))

  -- Once `_execute` has returned or raised, its token does not own the lock of the task's project,
  -- whatever the engine, its stream, the heartbeat and the waits of asyncio did. The token is new,
  -- the client is there, and no update of an earlier round waits.
  pub execute_frees_lock :
      (h : Held e) {u : String}
      → h.world.client ≡ some u
      → h.waiting ≡ 0
      → equals (owner e h.task.project_name h.world) r.lock_token ≡ false
      → equals (owner e h.task.project_name (execute r h).1.world) r.lock_token ≡ false
  execute_frees_lock h {u} c idle other =
      let p = h.task.project_name in
      let w = (acquire_lock e p r.lock_token r.lock_ttl h.world).1 in
      let got = (e.set_nx_ex (lock_key p) r.lock_token r.lock_ttl h.world.db).0 in
      let law = e.set_nx_ex_law (lock_key p) r.lock_token r.lock_ttl h.world.db in
      let c' = client-acquire_lock e p r.lock_token r.lock_ttl h.world ∙ c in
      subst (λ (z : Result (Unit {0}) × Held e). equals (owner e p z.1.world) r.lock_token ≡ false)
        (sym (execute_lem h c))
        (elim (Bool-cases (is_some (owner e p h.world))) [
          | inl held ↦
              let busy : got ≡ false = law ∙ (rw held) in
              subst
                (λ b.
                  equals (owner e p (with_lock r b (record h { world = w })).1.world) r.lock_token
                  ≡ false)
                (sym busy) (busy_frees h refl c idle held other)
          | inr free ↦
              let won : got ≡ true = law ∙ (rw free) in
              subst
                (λ b.
                  equals (owner e p (with_lock r b (record h { world = w })).1.world) r.lock_token
                  ≡ false)
                (sym won) (guarded_frees (record h { world = w }) c')
        ])
