-- ===== src/Main/Served.antt =====
-- src/api.py, src/task_queue and src/worker.py together: a request that is posted to an idle system
-- is taken up by the next turn of a worker.
use cio_run_auto_orchestrato.Prelude.{
  String, ℕ, false, Option, none, some, [], ◌∷◌, ◌++◌, ◌≡◌, refl, sym, ap, subst, ◌∙◌, arith, ◌⊎◌,
}
use cio_run_auto_orchestrato.Effect.{Result, ok, err, cancelled_error, timeout_error, continue}
use cio_run_auto_orchestrato.Models.{Task, new_task, running, failed}
use cio_run_auto_orchestrato.Redis.{Env, Contents, is_some}
use cio_run_auto_orchestrato.RedisClient.{World}
use cio_run_auto_orchestrato.TaskQueue.Keys.{
  task_key, queue_key, lock_key, digest_key-lock_key, task_key-lock_key,
}
use cio_run_auto_orchestrato.TaskQueue.Store.{find_incomplete, find_by_digest}
use cio_run_auto_orchestrato.TaskQueue.Store.Records.{IsPlainId, text_at, text_at-save}
use cio_run_auto_orchestrato.TaskQueue.Store.Lookup.{client-save}
use cio_run_auto_orchestrato.TaskQueue.Queue.{dequeue, block_seconds}
use cio_run_auto_orchestrato.TaskQueue.Queue.Fifo.{
  waiting, front, read, in_order, behind, dequeue_lem, queue_is_fifo,
}
use cio_run_auto_orchestrato.WorkerLocks.Ownership.{owner}
use cio_run_auto_orchestrato.Api.{TaskCreateRequest, create_task, task_of, or_empty}
use cio_run_auto_orchestrato.Api.Create.{
  made, pushed, create_task_lem, add_task_lem, text_at-pushed, waiting-pushed,
}
use cio_run_auto_orchestrato.Worker.State.{Held, timed_out}
use cio_run_auto_orchestrato.Worker.Execute.{Round, execute, execute_found, turn, or_none}
use cio_run_auto_orchestrato.Worker.Stranded.{execute_times_out}

module _ (e : Env) (uuid : String) (body : TaskCreateRequest) (w : World e) {url : String}
    (c : w.client ≡ some url) (fresh : text_at e w (task_key uuid) ≡ none) where
  abbrev queued_world : World e
  queued_world = pushed e uuid body w c

  client-queued_world : queued_world.client ≡ some url
  unfolding task_of new_task
  client-queued_world = client-save e (made e uuid body w c) w c fresh

  -- The lock of the project is as it was.
  owner-queued_world : owner e body.project_name queued_world ≡ owner e body.project_name w
  unfolding task_of new_task
  owner-queued_world =
      let t = made e uuid body w c in
      text_at-pushed e uuid body w c (lock_key body.project_name)
      ∙ (text_at-save e t w url (lock_key body.project_name) c fresh).1
      ∙ rw
          (
            digest_key-lock_key e t.project_name t.requirement body.project_name,
            task_key-lock_key t.task_id body.project_name,
          )
          (ground arith)

  module _ (timeout : ℕ) where
    abbrev taken_world : World e
    taken_world = (dequeue e timeout queued_world).1

    first_taken :
        waiting e w ≡ [] → (dequeue e timeout queued_world).0 ≡ ok (some (made e uuid body w c))
    first_taken idle =
        let t = made e uuid body w c in
        (queue_is_fifo e queued_world client-queued_world t timeout).1
        ∙ ap (λ ts. ok (read e (front ts)))
            (waiting-pushed e uuid body w c fresh ∙ ap (λ ts. ts ++ e.dump t ∷ []) idle)
        ∙ ap ok (e.validate_law t)

    none_left : waiting e w ≡ [] → waiting e taken_world ≡ []
    none_left idle =
        (queue_is_fifo e queued_world client-queued_world (made e uuid body w c) timeout).2
        ∙ ap behind (
            waiting-pushed e uuid body w c fresh
            ∙ ap (λ ts. ts ++ e.dump (made e uuid body w c) ∷ []) idle)

    client-taken_world : taken_world.client ≡ some url
    client-taken_world =
        ap (λ (z : Result (Option Task) × World e). z.1.client)
          (dequeue_lem e queued_world client-queued_world timeout)
        ∙ client-queued_world

    owner-taken_world : owner e body.project_name taken_world ≡ owner e body.project_name w
    owner-taken_world =
        ap (λ (z : Result (Option Task) × World e). owner e body.project_name z.1)
          (dequeue_lem e queued_world client-queued_world timeout)
        ∙ ap (λ (x : Contents). x.strings (lock_key body.project_name))
            (e.brpop_state (block_seconds timeout) queue_key queued_world.db)
        ∙ owner-queued_world

  module _ (r : Round) where
    -- What the worker holds when it begins.
    abbrev taken_up : Held e
    taken_up = record {
      world = taken_world r.poll_interval;
      task = made e uuid body w c;
      updates = 0;
      waiting = 0;
    }

    turn_lem :
        waiting e w ≡ []
        → turn r queued_world ≡ ((execute r taken_up).0, (execute r taken_up).1.world)
    unfolding turn
    turn_lem idle =
        ap
          (λ (x : Result (Option Task)).
            continue x (λ task. execute_found r task) (taken_world r.poll_interval))
          (first_taken r.poll_interval idle)

    -- A request that matches no task is posted with a new id to a connected process whose queue is
    -- empty. Then the next turn of any worker, where the lock of the project is free, every wait in
    -- `update` times out, as on the thread of the event loop, and the factory is not cancelled, takes
    -- the task up and raises the TimeoutError, whatever the factory, the scheduler and the engine do:
    -- the record of the id is the text of the task, RUNNING or FAILED, and the queue is empty. No
    -- id begins with `digest:`.
    pub posted_task_times_out :
        IsPlainId uuid
        → ((m : ℕ) → r.runtime.update_wait m ≡ timed_out)
        → (find_incomplete e body.project_name w).0 ≡ ok none
        → (find_by_digest e body.project_name body.requirement w).0 ≡ ok none
        → waiting e w ≡ []
        → is_some (owner e body.project_name w) ≡ false
        → ((m : String)
            → ¬ (
                r.factory (or_none (or_empty body.work_dir)) (or_none (or_empty body.config_json))
                ≡ err (cancelled_error m)))
        → let z = turn r (create_task e uuid body w).1 in
          (z.0 ≡ err timeout_error)
          × (waiting e z.1 ≡ [])
          × ((t : Task) × (text_at e z.1 (task_key uuid) ≡ some (e.dump t))
              × (t.task_id ≡ uuid)
              × (t.project_name ≡ body.project_name)
              × ((t.status ≡ running) ⊎ (t.status ≡ failed)))
    unfolding task_of new_task
    posted_task_times_out plain blocked none_open no_digest idle free calm =
        let made_up : (create_task e uuid body w).1 ≡ queued_world =
          ap (λ z. z.1)
            (create_task_lem e uuid body w c none_open no_digest
              ∙ add_task_lem e uuid body w c fresh) in
        let worked = ap (turn r) made_up ∙ turn_lem idle in
        let ends =
          execute_times_out r url taken_up (client-taken_world r.poll_interval) refl
            (ap is_some (owner-taken_world r.poll_interval) ∙ free) blocked calm plain in
        let h = (execute r taken_up).1 in
        subst
          (λ (z : Result (Unit {0}) × World e).
            (z.0 ≡ err timeout_error)
            × (waiting e z.1 ≡ [])
            × ((t : Task) × (text_at e z.1 (task_key uuid) ≡ some (e.dump t))
                × (t.task_id ≡ uuid)
                × (t.project_name ≡ body.project_name)
                × ((t.status ≡ running) ⊎ (t.status ≡ failed))))
          (sym worked)
          (
            ends.0,
            ap in_order ends.2.2 ∙ none_left r.poll_interval idle,
            (
              h.task,
              ap (λ i. text_at e h.world (task_key i)) (sym ends.1.0) ∙ ends.2.1,
              ends.1.0,
              ends.1.1,
              ends.1.2,
            ),
          )
