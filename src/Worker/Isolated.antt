-- ===== src/Worker/Isolated.antt =====
-- src/worker.py: `_execute` of one task among the others. It stays within every frame that a round
-- stays within and that leaves room for the lock of a project.
use cio_run_auto_orchestrato.Prelude.{
  String, Bool, true, false, [], some, ◌≡◌, refl, sym, subst, ◌∙◌, arith,
}
use cio_run_auto_orchestrato.Effect.{Result, catch}
use cio_run_auto_orchestrato.Redis.{Env}
use cio_run_auto_orchestrato.RedisClient.{World}
use cio_run_auto_orchestrato.TaskQueue.Keys.{lock_key, task_key, queue_key, lock_key-task_key}
use cio_run_auto_orchestrato.WorkerLocks.{acquire_lock, release_lock}
use cio_run_auto_orchestrato.Worker.State.{Held}
use cio_run_auto_orchestrato.Worker.Connection.{client-acquire_lock}
use cio_run_auto_orchestrato.Worker.Execute.{
  Round, heartbeat, finish, with_lock, run_locked, on_stolen, execute,
}
use cio_run_auto_orchestrato.Worker.Frame.{Frame, run_waiting-Within}
use cio_run_auto_orchestrato.Worker.Invariant.{requeue-Keeps}
use cio_run_auto_orchestrato.Worker.Rounds.{guarded-Within, guarded-Beside}
use cio_run_auto_orchestrato.Worker.Lock.{
  execute_lem, finish_lem, released_world, client-released_world,
}
use cio_run_auto_orchestrato.Worker.Spares.{
  Spares, acquire_lock-Spares, release_lock-Spares, heartbeat-Spares,
}
use cio_run_auto_orchestrato.Worker.Others.{Others, others_frame}

module _ {e : Env} {i : String} (F : Frame e i)
    (spared : (p : String) (w w' : World e) → Spares p w w' → F.Within w w') (r : Round) where
  finish-Within :
      (res : Result (Unit {0})) (h : Held e) {u : String}
      → h.world.client ≡ some u
      → h.task.task_id ≡ i
      → F.Within h.world (finish r res h).1.world
  unfolding released_world
  finish-Within res h c own =
      let p = h.task.project_name in
      let v = (heartbeat r r.beats p h.world).1 in
      let z = released_world r h in
      let end = (release_lock e p r.lock_token z).1 in
      subst (λ (x : Result (Unit {0}) × Held e). F.Within h.world x.1.world)
        (sym (finish_lem r res h c))
        (F.within_trans h.world z end
          (F.within_trans h.world v z (spared p h.world v (heartbeat-Spares p r r.beats h.world c))
            (run_waiting-Within F h.waiting h.task v own))
          (spared p z end (release_lock-Spares p r.lock_token z (client-released_world r h ∙ c))))

module _ {e : Env} (r : Round) (h : Held e) {u : String} (c : h.world.client ≡ some u)
    (F : Frame e h.task.task_id)
    (spared : (p : String) (w w' : World e) → Spares p w w' → F.Within w w') where
  abbrev begun : Held e
  begun = record h {
    world = (acquire_lock e h.task.project_name r.lock_token r.lock_ttl h.world).1;
  }

  begun_connected : begun.world.client ≡ some u
  begun_connected = client-acquire_lock e h.task.project_name r.lock_token r.lock_ttl h.world ∙ c

  with_lock-Within : (b : Bool) → F.Within begun.world (with_lock r b begun).1.world
  with_lock-Within false =
      (requeue-Keeps F begun.world h.task.project_name h.task.retry_count r begun
        (F.within_refl begun.world, refl, refl, omega arith)).0
  with_lock-Within true =
      let z = catch (run_locked r) (on_stolen r) begun in
      let kept = guarded-Within r begun F in
      F.within_trans begun.world z.1.world (finish r z.0 z.1).1.world kept.0
        (finish-Within F spared r z.0 z.1 ((guarded-Beside r begun).0 ∙ begun_connected) kept.2)

  pub execute-Within : F.Within h.world (execute r h).1.world
  execute-Within =
      let p = h.task.project_name in
      let b = (e.set_nx_ex (lock_key p) r.lock_token r.lock_ttl h.world.db).0 in
      subst (λ (z : Result (Unit {0}) × Held e). F.Within h.world z.1.world)
        (sym (execute_lem r h c))
        (F.within_trans h.world begun.world (with_lock r b begun).1.world
          (spared p h.world begun.world (acquire_lock-Spares p r.lock_token r.lock_ttl h.world c))
          (with_lock-Within b))

module _ {e : Env} (r : Round) where
  -- Whatever the engine, its stream, the heartbeat and the waits of asyncio do, and whether the lock
  -- is free: when `_execute` has returned or raised, every other task has the record that it had, and
  -- what waited in the queue waits there in its order, before what was added. The client is there,
  -- and no id begins with `digest:`.
  pub execute-Others :
      (h : Held e) {u : String}
      → h.world.client ≡ some u
      → Others h.task.task_id h.world (execute r h).1.world
  execute-Others h c =
      execute-Within r h c (others_frame e h.task.task_id)
        (λ p w w' s. (λ j plain other. s.1 (task_key j) (lock_key-task_key p j), [], s.2 queue_key))
