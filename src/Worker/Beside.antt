-- ===== src/Worker/Beside.antt =====
-- What a coroutine does beside the locks: the operations of a round leave the module's client
-- (src/redis_client.py) and every lock (src/worker_locks.py) alone, whether they return or raise.
use cio_run_auto_orchestrato.Prelude.{
  String, ℕ, Bool, true, false, some, zero, suc, ◌≡◌, refl, ap, ◌∙◌, none, inl, inr, Option-cases,
  arith,
}
use cio_run_auto_orchestrato.Effect.{Result, ok, err, continue, ◌>>◌}
use cio_run_auto_orchestrato.Models.{Task, CioEvent}
use cio_run_auto_orchestrato.Redis.{Env, Contents}
use cio_run_auto_orchestrato.RedisClient.{World, get_redis, mutate}
use cio_run_auto_orchestrato.TaskQueue.Keys.{
  lock_key, queue_key, digest_key-lock_key, task_key-lock_key,
}
use cio_run_auto_orchestrato.TaskQueue.Store.{async_update}
use cio_run_auto_orchestrato.TaskQueue.Store.Records.{text_at-async_update}
use cio_run_auto_orchestrato.TaskQueue.Queue.{enqueue}
use cio_run_auto_orchestrato.EventBus.{publish, close, channel, done_message, payload_of}
use cio_run_auto_orchestrato.WorkerLocks.Ownership.{owner, strings-refresh_lock}
use cio_run_auto_orchestrato.WorkerLocks.{refresh_lock}
use cio_run_auto_orchestrato.Worker.State.{run_waiting}
use cio_run_auto_orchestrato.Worker.Connection.{client-async_update, client-refresh_lock}
use cio_run_auto_orchestrato.Worker.Frame.{Frame, run_waiting-Within}
use cio_run_auto_orchestrato.Worker.Execute.{Round, beat, heartbeat}

module _ {e : Env} where
  abbrev pub Beside : World e → World e → Type 0
  Beside w w' = (w'.client ≡ w.client) × ((p : String) → owner e p w' ≡ owner e p w)

  pub Beside-refl : (w : World e) → Beside w w
  Beside-refl w = (refl, λ p. refl)

  pub Beside-trans : (w v u : World e) → Beside w v → Beside v u → Beside w u
  Beside-trans w v u (c, o) (c', o') = (c' ∙ c, λ p. o' p ∙ o p)

module _ (e : Env) where
  -- A command that writes no text.
  mutate-Beside :
      (f : e.Db → e.Db) (w : World e)
      → ((p : String)
          → (e.observe (f w.db)).strings (lock_key p) ≡ (e.observe w.db).strings (lock_key p))
      → Beside w ((get_redis >> mutate f) w).1
  mutate-Beside f w same = elim (Option-cases w.client) [
    | inl n ↦ rw n (refl, λ p. refl)
    | inr (u, c) ↦ rw c (refl, same)
  ]

  pub enqueue-Beside : (t : Task) (w : World e) → Beside w (enqueue e t w).1
  unfolding enqueue
  enqueue-Beside t w =
      mutate-Beside (e.lpush queue_key (e.dump t)) w
        (λ p. ap (λ (c : Contents). c.strings (lock_key p)) (e.lpush_law queue_key (e.dump t) w.db))

  pub close-Beside : (task_id : String) (w : World e) → Beside w (close e task_id w).1
  unfolding close
  close-Beside task_id w = mutate-Beside (e.publish (channel task_id) done_message) w (λ p.
      ap (λ (c : Contents). c.strings (lock_key p))
        (e.publish_law (channel task_id) done_message w.db))

  pub publish-Beside :
      (task_id : String) (ev : CioEvent) (w : World e) → Beside w (publish e task_id ev w).1
  unfolding publish
  publish-Beside task_id ev w =
      let text = e.dump_event (payload_of ev) in
      mutate-Beside (e.publish (channel task_id) text) w (λ p.
        ap (λ (c : Contents). c.strings (lock_key p)) (e.publish_law (channel task_id) text w.db))

  not_connected : (t : Task) (w : World e) → w.client ≡ none → (async_update e t w).1 ≡ w
  unfolding async_update
  not_connected t w n = ground arith

  owner-async_update :
      (t : Task) (w : World e) (p : String) → owner e p (async_update e t w).1 ≡ owner e p w
  owner-async_update t w p = elim (Option-cases w.client) [
    | inl n ↦ ap (owner e p) (not_connected t w n)
    | inr (u, c) ↦
        text_at-async_update e t w u (lock_key p) c
        ∙ rw (digest_key-lock_key e t.project_name t.requirement p, task_key-lock_key t.task_id p)
            (ground arith)
  ]

  pub async_update-Beside : (t : Task) (w : World e) → Beside w (async_update e t w).1
  async_update-Beside t w = (client-async_update e t w, owner-async_update t w)

  abbrev pub beside_frame : (i : String) → Frame e i
  beside_frame i = record {
    Within = Beside;
    within_refl = Beside-refl;
    within_trans = Beside-trans;
    within_update = λ t w own. async_update-Beside t w;
    within_enqueue = enqueue-Beside;
    within_close = close-Beside;
    within_publish = publish-Beside;
  }

  pub run_waiting-Beside : (n : ℕ) (t : Task) (w : World e) → Beside w (run_waiting n t w)
  run_waiting-Beside n t w = run_waiting-Within (beside_frame t.task_id) n t w refl

  then_beats-Beside :
      (r : Round) (n : ℕ) (q : String) (x : Result Bool) (w v : World e)
      → Beside w v
      → Beside v (heartbeat r n q v).1
      → Beside w (continue x (λ held. beat {e = e} r held >> heartbeat r n q) v).1
  then_beats-Beside r n q (ok true) w v first later =
      Beside-trans w v (heartbeat r n q v).1 first later
  then_beats-Beside r n q (ok false) w v first later = first
  then_beats-Beside r n q (err x) w v first later = first

  pub heartbeat-Beside :
      (r : Round) (n : ℕ) (q : String) (w : World e) {u : String}
      → w.client ≡ some u
      → Beside w (heartbeat r n q w).1
  unfolding heartbeat
  heartbeat-Beside r zero q w c = Beside-refl w
  heartbeat-Beside r (suc n) q w c =
      let v = (refresh_lock e q r.lock_token r.lock_ttl w).1 in
      let first : Beside w v = (
        client-refresh_lock e q r.lock_token r.lock_ttl w,
        λ p. strings-refresh_lock e q r.lock_token r.lock_ttl w c (lock_key p),
      ) in
      then_beats-Beside r n q (refresh_lock e q r.lock_token r.lock_ttl w).0 w v first
        (heartbeat-Beside r n q v (first.0 ∙ c))
