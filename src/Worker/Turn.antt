-- ===== src/Worker/Turn.antt =====
-- src/worker.py: what `_execute` makes of a task, with and without the lock of its project.
use cio_run_auto_orchestrato.Prelude.{String, true, false, some, ◌∷◌, ◌≡◌, ap, ◌∙◌}
use cio_run_auto_orchestrato.Effect.{Result, ok, catch}
use cio_run_auto_orchestrato.Redis.{Env, Contents, is_some}
use cio_run_auto_orchestrato.RedisClient.{World}
use cio_run_auto_orchestrato.TaskQueue.Queue.Fifo.{enqueue_lem}
use cio_run_auto_orchestrato.TaskQueue.Keys.{lock_key, queue_key}
use cio_run_auto_orchestrato.WorkerLocks.{acquire_lock}
use cio_run_auto_orchestrato.WorkerLocks.Ownership.{owner, acquire_lock_lem}
use cio_run_auto_orchestrato.Worker.State.{Held, yield_loop, run_waiting}
use cio_run_auto_orchestrato.Worker.Execute.{
  Round, finish, requeue, with_lock, run_locked, on_stolen, execute,
}
use cio_run_auto_orchestrato.Worker.Connection.{client-acquire_lock}
use cio_run_auto_orchestrato.Worker.Rounds.{guarded-Beside}
use cio_run_auto_orchestrato.Worker.Lock.{execute_lem, finish_lem}

module _ {e : Env} (r : Round) (h : Held e) {u : String} (c : h.world.client ≡ some u) where
  -- The state in which a round begins.
  abbrev pub begun : Held e
  begun = record h {
    world = (acquire_lock e h.task.project_name r.lock_token r.lock_ttl h.world).1;
  }

  abbrev pub round_of : Result (Unit {0}) × Held e
  round_of = catch (run_locked r) (on_stolen r) begun

  connected : begun.world.client ≡ some u
  connected = client-acquire_lock e h.task.project_name r.lock_token r.lock_ttl h.world ∙ c

  -- With a client and the lock free, `_execute` returns or raises
  -- what the round does, and leaves the task as the round does: what the heartbeat raised makes no
  -- difference.
  pub execute_with_lock :
      is_some (owner e h.task.project_name h.world) ≡ false
      → ((execute r h).0 ≡ round_of.0) × ((execute r h).1.task ≡ round_of.1.task)
  execute_with_lock free =
      let law = e.set_nx_ex_law (lock_key h.task.project_name) r.lock_token r.lock_ttl h.world.db in
      let won : (e.set_nx_ex (lock_key h.task.project_name) r.lock_token r.lock_ttl h.world.db).0
          ≡ true =
        law ∙ rw free in
      let eq : execute r h ≡ finish r round_of.0 round_of.1 =
        execute_lem r h c ∙ ap (λ b. with_lock r b begun) won in
      let done = finish_lem r round_of.0 round_of.1 ((guarded-Beside r begun).0 ∙ connected) in
      (ap (λ z. z.0) (eq ∙ done), ap (λ z. z.1.task) (eq ∙ done))

  requeue_lem :
      (w : World e)
      → w.client ≡ some u
      → h.waiting ≡ 0
      → requeue r (record h { world = w }) ≡ (
        ok tt,
        record h { world = record w { db = e.lpush queue_key (e.dump h.task) w.db }; waiting = 0 },
      )
  unfolding yield_loop
  requeue_lem w connects idle = rw (idle, run_waiting, enqueue_lem e w connects)

  -- Behind the attempt on a lock that is owned.
  abbrev pub tried : e.Db
  tried = (e.set_nx_ex (lock_key h.task.project_name) r.lock_token r.lock_ttl h.world.db).1

  abbrev pub put_back : Held e
  put_back = record h {
    world = record h.world { db = e.lpush queue_key (e.dump h.task) tried };
    waiting = 0;
  }

  pub busy_lem :
      h.waiting ≡ 0
      → is_some (owner e h.task.project_name h.world) ≡ true
      → execute r h ≡ (ok tt, put_back)
  busy_lem idle held =
      let key = lock_key h.task.project_name in
      let law = e.set_nx_ex_law key r.lock_token r.lock_ttl h.world.db in
      let lost : (e.set_nx_ex key r.lock_token r.lock_ttl h.world.db).0 ≡ false = law ∙ rw held in
      execute_lem r h c
      ∙ ap (λ b. with_lock r b begun) lost
      ∙ ap (λ w. requeue r (record h { world = w }))
          (ap (λ z. z.1) (acquire_lock_lem e h.task.project_name r.lock_token r.lock_ttl h.world c))
      ∙ requeue_lem (record h.world { db = tried }) c idle

  -- With a client, the lock owned and no update that waits, `_execute` returns, with the task as it
  -- was and at the tail of the queue, and changes no text of the server.
  pub execute_without_lock :
      h.waiting ≡ 0
      → is_some (owner e h.task.project_name h.world) ≡ true
      → ((execute r h).0 ≡ ok tt)
        × ((execute r h).1.task ≡ h.task)
        × ((e.observe (execute r h).1.world.db).items queue_key
            ≡ e.dump h.task ∷ (e.observe h.world.db).items queue_key)
        × ((k : String)
            → (e.observe (execute r h).1.world.db).strings k ≡ (e.observe h.world.db).strings k)
  execute_without_lock idle held =
      let eq = busy_lem idle held in
      let same : e.observe tried ≡ e.observe h.world.db =
        e.set_nx_ex_state (lock_key h.task.project_name) r.lock_token r.lock_ttl h.world.db
        ∙ rw held in
      let pushed = e.lpush_law queue_key (e.dump h.task) tried in
      (
        ap (λ z. z.0) eq,
        ap (λ z. z.1.task) eq,
        ap (λ z. (e.observe z.1.world.db).items queue_key) eq
            ∙ ap (λ (x : Contents). x.items queue_key) pushed
            ∙ ap (λ (x : Contents). e.dump h.task ∷ x.items queue_key) same,
        λ k.
            ap (λ z. (e.observe z.1.world.db).strings k) eq
            ∙ ap (λ (x : Contents). x.strings k) pushed
            ∙ ap (λ (x : Contents). x.strings k) same,
      )
