-- ===== src/Worker/Stranded.antt =====
-- src/worker.py with `TaskStore.update` of src/task_queue/store.py: what a whole `_execute` leaves
-- where its first update times out.
use cio_run_auto_orchestrato.Prelude.{
  String, ℕ, ◌+◌, true, false, some, ◌≡◌, refl, sym, ap, subst, ◌∙◌, ==_refl, concat, arith,
}
use cio_run_auto_orchestrato.Effect.{Result, ok, err, timeout_error, cancelled_error, handle}
use cio_run_auto_orchestrato.Models.{
  Task, TaskMode, running, mode_value, transition, touch, is_terminal,
}
use cio_run_auto_orchestrato.Redis.{Env, is_some}
use cio_run_auto_orchestrato.RedisClient.{World}
use cio_run_auto_orchestrato.TaskQueue.Keys.{task_key, queue_key, lock_key, lock_key-task_key}
use cio_run_auto_orchestrato.TaskQueue.Store.{async_update}
use cio_run_auto_orchestrato.TaskQueue.Store.Records.{
  text_at, IsPlainId, digest_key-task_key, text_at-async_update, items-async_update,
}
use cio_run_auto_orchestrato.Scheduler.{decide}
use cio_run_auto_orchestrato.WorkerLocks.{acquire_lock}
use cio_run_auto_orchestrato.WorkerLocks.Ownership.{owner, acquire_lock_lem}
use cio_run_auto_orchestrato.Worker.State.{Held, timed_out}
use cio_run_auto_orchestrato.Worker.Stream.{Session}
use cio_run_auto_orchestrato.Worker.Connection.{client-async_update}
use cio_run_auto_orchestrato.Worker.Execute.{
  Round, heartbeat, finish, with_lock, run_locked, run_session, on_stolen, execute, or_none,
}
use cio_run_auto_orchestrato.Worker.Lock.{execute_lem, finish_lem, released_world}
use cio_run_auto_orchestrato.Worker.Blocked.{Started, run_session-Blocks, run_locked_blocked}
use cio_run_auto_orchestrato.Worker.Spares.{
  acquire_lock-Spares, release_lock-Spares, heartbeat-Spares,
}

running_open :
    (now : ℕ) (detail : String) (t : Task) → is_terminal (transition now running detail t) ≡ false
unfolding transition touch is_terminal
running_open now detail t = refl

module _ (e : Env) (u : String) where
  -- An update of the task is what its record holds.
  abbrev Writes : Task → Type 0
  Writes t =
      (w : World e)
      → w.client ≡ some u
      → text_at e (async_update e t w).1 (task_key t.task_id) ≡ some (e.dump t)

  open_Writes : (t : Task) → is_terminal t ≡ false → Writes t
  open_Writes t open_status w c =
      text_at-async_update e t w u (task_key t.task_id) c
      ∙ rw (open_status, ==_refl (task_key t.task_id))

  plain_Writes : (t : Task) → IsPlainId t.task_id → Writes t
  plain_Writes t plain w c =
      text_at-async_update e t w u (task_key t.task_id) c
      ∙ rw
          (
            digest_key-task_key e t.project_name t.requirement t.task_id plain,
            ==_refl (task_key t.task_id),
          )
          (ground arith)

module _ {e : Env} (r : Round) (u : String) where
  -- The task is not in the queue, but its record is written, since the update that waits runs in the
  -- pause of the `finally` block.
  abbrev pub Leaves : World e → Task → World e → Type 0
  Leaves w t w' =
      (w'.client ≡ some u)
      × (text_at e w' (task_key t.task_id) ≡ some (e.dump t))
      × ((e.observe w'.db).items queue_key ≡ (e.observe w.db).items queue_key)

  finish-Leaves :
      (res : Result (Unit {0})) (h : Held e)
      → h.world.client ≡ some u
      → h.waiting ≡ 1
      → Writes e u h.task
      → ((finish r res h).0 ≡ res)
        × ((finish r res h).1.task ≡ h.task)
        × Leaves h.world h.task (finish r res h).1.world
  unfolding released_world
  finish-Leaves res h c one writes =
      let p = h.task.project_name in
      let i = h.task.task_id in
      let beats = heartbeat-Spares p r r.beats h.world c in
      let v = (heartbeat r r.beats p h.world).1 in
      let v_connected = beats.0 ∙ c in
      let x = (async_update e h.task v).1 in
      let x_connected = client-async_update e h.task v ∙ v_connected in
      let gone = release_lock-Spares p r.lock_token x x_connected in
      subst
        (λ (z : Result (Unit {0}) × Held e).
          (z.0 ≡ res) × (z.1.task ≡ h.task) × Leaves h.world h.task z.1.world)
        (sym (finish_lem r res h c))
        (rw one (
          refl,
          refl,
          (
            gone.0 ∙ x_connected,
            gone.1 (task_key i) (lock_key-task_key p i) ∙ writes v v_connected,
            gone.2 queue_key
                ∙ items-async_update e h.task v u queue_key v_connected
                ∙ beats.2 queue_key,
          ),
        ))

  abbrev TimesOut : World e → Task → Result (Unit {0}) × Held e → Type 0
  TimesOut w t (res, h) = (res ≡ err timeout_error) × (h.task ≡ t) × Leaves w t h.world

  guarded-TimesOut :
      (z : Result (Unit {0}) × Held e) (w : World e) (t : Task)
      → z.0 ≡ err timeout_error
      → w.client ≡ some u
      → z.1.world ≡ w
      → z.1.waiting ≡ 1
      → z.1.task ≡ t
      → Writes e u t
      → let x = handle z.0 (on_stolen r) z.1 in TimesOut w t (finish r x.0 x.1)
  guarded-TimesOut z w t q c same one the_task writes =
      let fin =
        finish-Leaves (err timeout_error) z.1 (ap (λ (v : World e). v.client) same ∙ c) one
          (subst (Writes e u) (sym the_task) writes) in
      let x = (finish r (err timeout_error) z.1).1.world in
      subst (λ res. TimesOut w t (let y = handle res (on_stolen r) z.1 in finish r y.0 y.1)) (sym q)
        (
          fin.0,
          fin.1 ∙ the_task,
          subst (λ v. Leaves v t x) same (subst (λ y. Leaves z.1.world y x) the_task fin.2),
        )

  -- Behind the lock, where the round ends with the TimeoutError of its first mark.
  module _ (h : Held e) (c : h.world.client ≡ some u) (idle : h.waiting ≡ 0)
      (free : is_some (owner e h.task.project_name h.world) ≡ false) where
    abbrev pub begun : Held e
    begun = record h {
      world = record h.world {
        db = (e.set_nx_ex (lock_key h.task.project_name) r.lock_token r.lock_ttl h.world.db).1;
      };
    }

    pub execute-TimesOut :
        (t : Task)
        → let z = run_locked r begun in
          z.0 ≡ err timeout_error
          → z.1.world ≡ begun.world
          → z.1.waiting ≡ h.waiting + 1
          → z.1.task ≡ t
          → Writes e u t
          → TimesOut h.world t (execute r h)
    execute-TimesOut t raised same one the_task writes =
        let p = h.task.project_name in
        let cell = e.set_nx_ex (lock_key p) r.lock_token r.lock_ttl h.world.db in
        let got = begun.world in
        let taken = ap (λ z. z.1) (acquire_lock_lem e p r.lock_token r.lock_ttl h.world c) in
        let won : cell.0 ≡ true =
          e.set_nx_ex_law (lock_key p) r.lock_token r.lock_ttl h.world.db ∙ rw free in
        let same_items : (e.observe got.db).items queue_key
            ≡ (e.observe h.world.db).items queue_key =
          ap (λ (w : World e). (e.observe w.db).items queue_key) (sym taken)
          ∙ (acquire_lock-Spares p r.lock_token r.lock_ttl h.world c).2 queue_key in
        let ends =
          guarded-TimesOut (run_locked r begun) got t raised c same (one ∙ ap (λ n. n + 1) idle)
            the_task writes in
        subst (TimesOut h.world t)
          (sym (
            execute_lem r h c
            ∙ ap
                (λ b.
                  with_lock r b
                    (record h { world = (acquire_lock e p r.lock_token r.lock_ttl h.world).1 }))
                won
            ∙ ap (λ (w : World e). with_lock r true (record h { world = w })) taken))
          (ends.0, ends.1, (ends.2.0, ends.2.1, ends.2.2 ∙ same_items))

    pub execute_times_out :
        ((n : ℕ) → r.runtime.update_wait n ≡ timed_out)
        → ((m : String)
            → ¬ (
                r.factory (or_none h.task.work_dir) (or_none h.task.config_json)
                ≡ err (cancelled_error m)))
        → IsPlainId h.task.task_id
        → let z = execute r h in
          (z.0 ≡ err timeout_error) × Started h.task z.1.task × Leaves h.world z.1.task z.1.world
    unfolding run_locked
    execute_times_out blocked calm plain =
        let x = r.factory (or_none h.task.work_dir) (or_none h.task.config_json) in
        let step = run_session-Blocks r blocked x begun calm in
        let t = (run_session r x begun).1.task in
        let ends =
          execute-TimesOut t step.0 step.1 step.2 refl
            (plain_Writes e u t (subst IsPlainId (sym step.3.0) plain)) in
        (
          ends.0,
          subst (Started h.task) (sym ends.1) step.3,
          subst (λ y. Leaves h.world y (execute r h).1.world) (sym ends.1) ends.2,
        )

  -- A connected worker takes the free lock of a task that the factory and the scheduler accept, and
  -- every wait of `update` times out: `_execute` raises the TimeoutError, with the task RUNNING, its
  -- record written so, and the queue as it was.
  pub execute_strands :
      (h : Held e) {s : Session} {mode : TaskMode} {t : Task}
      → ((n : ℕ) → r.runtime.update_wait n ≡ timed_out)
      → h.world.client ≡ some u
      → h.waiting ≡ 0
      → is_some (owner e h.task.project_name h.world) ≡ false
      → r.factory (or_none h.task.work_dir) (or_none h.task.config_json) ≡ ok s
      → decide s.scheduler h.world.clock h.task ≡ (ok mode, t)
      → let t' = transition h.world.clock running (concat "mode=" (mode_value mode)) t in
        ((execute r h).0 ≡ err timeout_error)
        × ((execute r h).1.task ≡ t')
        × Leaves h.world t' (execute r h).1.world
  execute_strands h {s} {mode} {t} blocked c idle free made decided =
      let t' = transition h.world.clock running (concat "mode=" (mode_value mode)) t in
      let round = run_locked_blocked r blocked (begun h c idle free) made decided in
      execute-TimesOut h c idle free t' round.0 round.1 round.2 round.3
        (open_Writes e u t' (running_open h.world.clock (concat "mode=" (mode_value mode)) t))
