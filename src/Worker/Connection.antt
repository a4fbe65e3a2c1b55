-- ===== src/Worker/Connection.antt =====
-- No operation of a round touches the module's client (src/redis_client.py).
use cio_run_auto_orchestrato.Prelude.{
  String, ℕ, zero, suc, ◌≡◌, refl, ◌∙◌, none, some, inl, inr, Option-cases, arith,
}
use cio_run_auto_orchestrato.Effect.{ok}
use cio_run_auto_orchestrato.Models.{Task, CioEvent}
use cio_run_auto_orchestrato.Redis.{Env}
use cio_run_auto_orchestrato.RedisClient.{World}
use cio_run_auto_orchestrato.TaskQueue.Store.{async_update}
use cio_run_auto_orchestrato.TaskQueue.Store.Records.{async_update_lem}
use cio_run_auto_orchestrato.TaskQueue.Queue.{enqueue}
use cio_run_auto_orchestrato.EventBus.{publish, close, channel, done_message}
use cio_run_auto_orchestrato.WorkerLocks.{acquire_lock, refresh_lock}
use cio_run_auto_orchestrato.Worker.State.{run_waiting}
use cio_run_auto_orchestrato.Worker.Execute.{Round, heartbeat}

module _ (e : Env) where
  not_connected :
      (t : Task) (w : World e) → w.client ≡ none → (async_update e t w).1.client ≡ w.client
  unfolding async_update
  not_connected t w n = ground arith

  pub client-async_update : (t : Task) (w : World e) → (async_update e t w).1.client ≡ w.client
  client-async_update t w = elim (Option-cases w.client) [
    | inl n ↦ not_connected t w n
    | inr (u, c) ↦ rw (async_update_lem e t w u c)
  ]

  pub client-enqueue : (t : Task) (w : World e) → (enqueue e t w).1.client ≡ w.client
  unfolding enqueue
  client-enqueue t w = ground arith

  pub close_lem :
      (task_id : String) (w : World e) {u : String}
      → w.client ≡ some u
      → close e task_id w ≡ (ok tt, record w { db = e.publish (channel task_id) done_message w.db })
  unfolding close
  close_lem task_id w c = ground arith

  pub client-publish :
      (task_id : String) (ev : CioEvent) (w : World e)
      → (publish e task_id ev w).1.client ≡ w.client
  unfolding publish
  client-publish task_id ev w = ground arith

  pub client-acquire_lock :
      (p token : String) (ttl : ℕ) (w : World e)
      → (acquire_lock e p token ttl w).1.client ≡ w.client
  unfolding acquire_lock
  client-acquire_lock p token ttl w = ground arith

  pub client-refresh_lock :
      (p token : String) (ttl : ℕ) (w : World e)
      → (refresh_lock e p token ttl w).1.client ≡ w.client
  unfolding refresh_lock
  client-refresh_lock p token ttl w = ground arith

  pub client-run_waiting : (n : ℕ) (t : Task) (w : World e) → (run_waiting n t w).client ≡ w.client
  client-run_waiting zero t w = refl
  client-run_waiting (suc n) t w =
      client-run_waiting n t (async_update e t w).1 ∙ client-async_update t w

  pub client-heartbeat :
      (r : Round) (n : ℕ) (p : String) (w : World e) → (heartbeat r n p w).1.client ≡ w.client
  unfolding heartbeat
  client-heartbeat r zero p w = refl
  client-heartbeat r (suc n) p w = ground (
    arith,
    client-refresh_lock p r.lock_token r.lock_ttl w,
    client-heartbeat r n p (refresh_lock e p r.lock_token r.lock_ttl w).1,
  )
