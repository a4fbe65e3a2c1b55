-- ===== src/Worker/Spares.antt =====
-- src/worker.py with src/worker_locks.py: what stands before and behind a round touches nothing but
-- the lock of the project.
use cio_run_auto_orchestrato.Prelude.{
  String, ℕ, zero, suc, Bool, true, false, some, ◌≡◌, refl, ap, ◌∙◌, ◌==◌, arith, inl, inr,
  Bool-cases,
}
use cio_run_auto_orchestrato.Effect.{Result, ok, err, continue, ◌>>◌, ◌>>◌}
use cio_run_auto_orchestrato.Redis.{Env, Contents}
use cio_run_auto_orchestrato.RedisClient.{World}
use cio_run_auto_orchestrato.TaskQueue.Keys.{lock_key}
use cio_run_auto_orchestrato.WorkerLocks.{equals, acquire_lock, release_lock, refresh_lock}
use cio_run_auto_orchestrato.WorkerLocks.Ownership.{
  acquire_lock_lem, release_lock_lem, refresh_lock_lem, strings-acquire_lock, strings-release_lock,
  strings-refresh_lock,
}
use cio_run_auto_orchestrato.Worker.Execute.{Round, heartbeat, beat}

module _ {e : Env} (p : String) where
  -- Nothing but the lock of the project has changed.
  abbrev pub Spares : World e → World e → Type 0
  Spares w w' =
      (w'.client ≡ w.client)
      × ((k : String)
          → (lock_key p == k) ≡ false
          → (e.observe w'.db).strings k ≡ (e.observe w.db).strings k)
      × ((k : String) → (e.observe w'.db).items k ≡ (e.observe w.db).items k)

  Spares-then : (w v u : World e) → Spares w v → Spares v u → Spares w u
  Spares-then w v u (c, s, i) (c', s', i') = (c' ∙ c, λ k q. s' k q ∙ s k q, λ k. i' k ∙ i k)

  pub acquire_lock-Spares :
      (token : String) (ttl : ℕ) (w : World e) {u : String}
      → w.client ≡ some u
      → Spares w (acquire_lock e p token ttl w).1
  acquire_lock-Spares token ttl w c = (
    rw (acquire_lock_lem e p token ttl w c) refl,
    λ k q. strings-acquire_lock e p token ttl w c k ∙ ground (arith, q),
    λ k. rw (acquire_lock_lem e p token ttl w c) (simp e.set_nx_ex_state (ground arith)),
  )

  pub release_lock-Spares :
      (token : String) (w : World e) {u : String}
      → w.client ≡ some u
      → Spares w (release_lock e p token w).1
  release_lock-Spares token w c = (
    rw (release_lock_lem e p token 0 w c) refl,
    λ k q. strings-release_lock e p token 0 w c k ∙ ground (arith, q),
    λ k. elim (Bool-cases (equals (e.get (lock_key p) w.db) token)) [
      | inl mine ↦
          rw (release_lock_lem e p token 0 w c, mine)
            (ap (λ (x : Contents). x.items k) (e.del_law (lock_key p) w.db))
      | inr other ↦ rw (release_lock_lem e p token 0 w c, other) refl
    ],
  )

  refresh_lock-Spares :
      (token : String) (ttl : ℕ) (w : World e) {u : String}
      → w.client ≡ some u
      → Spares w (refresh_lock e p token ttl w).1
  refresh_lock-Spares token ttl w c = (
    rw (refresh_lock_lem e p token ttl w c) refl,
    λ k q. strings-refresh_lock e p token ttl w c k,
    λ k. elim (Bool-cases (equals (e.get (lock_key p) w.db) token)) [
      | inl mine ↦
          rw (refresh_lock_lem e p token ttl w c, mine) (simp e.expire_state (ground arith))
      | inr other ↦ rw (refresh_lock_lem e p token ttl w c, other) refl
    ],
  )

  then_beats-Spares :
      (r : Round) (n : ℕ) (x : Result Bool) (w v : World e)
      → Spares w v
      → Spares v (heartbeat r n p v).1
      → Spares w (continue x (λ held. beat {e = e} r held >> heartbeat r n p) v).1
  then_beats-Spares r n (ok true) w v here later = Spares-then w v (heartbeat r n p v).1 here later
  then_beats-Spares r n (ok false) w v here later = here
  then_beats-Spares r n (err x) w v here later = here

  pub heartbeat-Spares :
      (r : Round) (n : ℕ) (w : World e) {u : String}
      → w.client ≡ some u
      → Spares w (heartbeat r n p w).1
  unfolding heartbeat
  heartbeat-Spares r zero w c = (refl, λ k q. refl, λ k. refl)
  heartbeat-Spares r (suc n) w c =
      let here = refresh_lock-Spares r.lock_token r.lock_ttl w c in
      let v = (refresh_lock e p r.lock_token r.lock_ttl w).1 in
      then_beats-Spares r n (refresh_lock e p r.lock_token r.lock_ttl w).0 w v here
        (heartbeat-Spares r n v (here.0 ∙ c))
