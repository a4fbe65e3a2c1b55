-- ===== src/WorkerLocks/Ownership.antt =====
-- src/worker_locks.py: each helper against the owner of the lock, the text under its key.
use cio_run_auto_orchestrato.Prelude.{
  String, ℕ, true, Option, none, some, ◌≡◌, refl, ◌==◌, ==_iff, ==_refl, arith, not, if◌then◌else◌,
  Bool-cases, inl, inr,
}
use cio_run_auto_orchestrato.Effect.{ok}
use cio_run_auto_orchestrato.Redis.{Env, is_some}
use cio_run_auto_orchestrato.RedisClient.{World}
use cio_run_auto_orchestrato.TaskQueue.Keys.{lock_key}
use cio_run_auto_orchestrato.WorkerLocks.{
  equals, acquire_lock, release_lock, refresh_lock, release_script, refresh_script,
}

abbrev pub owner : (e : Env) → String → World e → Option String
owner e p w = (e.observe w.db).strings (lock_key p)

abbrev pub expires : (e : Env) → String → World e → Option ℕ
expires e p w = (e.observe w.db).expiry (lock_key p)

equals-is_some : (o : Option String) (token : String) → equals o token ≡ true → is_some o ≡ true
equals-is_some none token h = cc
equals-is_some (some v) token h = refl

module _ (e : Env) (p token : String) (ttl : ℕ) (w : World e) {u : String}
    (c : w.client ≡ some u) where
  pub acquire_lock_lem : acquire_lock e p token ttl w ≡ (
    ok (e.set_nx_ex (lock_key p) token ttl w.db).0,
    record w { db = (e.set_nx_ex (lock_key p) token ttl w.db).1 },
  )
  unfolding acquire_lock
  acquire_lock_lem = ground arith

  pub release_lock_lem :
      release_lock e p token w ≡ (ok tt, record w { db = release_script e (lock_key p) token w.db })
  unfolding release_lock
  release_lock_lem = ground arith

  pub refresh_lock_lem : refresh_lock e p token ttl w ≡ (
    ok (refresh_script e (lock_key p) token ttl w.db).0,
    record w { db = (refresh_script e (lock_key p) token ttl w.db).1 },
  )
  unfolding refresh_lock
  refresh_lock_lem = ground arith

  -- The texts of the server behind the three helpers.
  pub strings-acquire_lock :
      (k : String)
      → (e.observe (acquire_lock e p token ttl w).1.db).strings k ≡ (
          if not (is_some (owner e p w))
          then (if lock_key p == k then some token else (e.observe w.db).strings k)
          else (e.observe w.db).strings k)
  strings-acquire_lock k = rw (acquire_lock_lem) (simp e.set_nx_ex_state (ground arith))

  pub strings-release_lock :
      (k : String)
      → (e.observe (release_lock e p token w).1.db).strings k ≡ (
          if equals (owner e p w) token
          then (if lock_key p == k then none else (e.observe w.db).strings k)
          else (e.observe w.db).strings k)
  strings-release_lock k =
      rw (release_lock_lem, e.get_law)
        (elim (Bool-cases (equals (owner e p w) token)) [
          | inl mine ↦ simp (mine, e.del_law)
          | inr other ↦ simp other
        ])

  pub strings-refresh_lock :
      (k : String)
      → (e.observe (refresh_lock e p token ttl w).1.db).strings k ≡ (e.observe w.db).strings k
  strings-refresh_lock k =
      rw (refresh_lock_lem, e.get_law)
        (elim (Bool-cases (equals (owner e p w) token)) [
          | inl mine ↦ simp (mine, e.expire_state) (ground (arith, ==_iff (lock_key p) k))
          | inr other ↦ simp other
        ])

  refreshed : (refresh_lock e p token ttl w).0 ≡ ok (equals (owner e p w) token)
  refreshed =
      rw (refresh_lock_lem, e.get_law)
        (elim (Bool-cases (equals (owner e p w) token)) [
          | inl mine ↦ simp (mine, e.expire_law, equals-is_some (owner e p w) token mine)
          | inr other ↦ simp other
        ])

  refreshed_expiry :
      (e.observe (refresh_lock e p token ttl w).1.db).expiry (lock_key p)
      ≡ (if equals (owner e p w) token then some ttl else expires e p w)
  refreshed_expiry =
      rw (refresh_lock_lem, e.get_law)
        (elim (Bool-cases (equals (owner e p w) token)) [
          | inl mine ↦ simp (mine, e.expire_state, equals-is_some (owner e p w) token mine, ==_refl)
          | inr other ↦ simp other
        ])

  acquired_expiry :
      (e.observe (acquire_lock e p token ttl w).1.db).expiry (lock_key p)
      ≡ (if is_some (owner e p w) then expires e p w else some ttl)
  acquired_expiry =
      rw acquire_lock_lem (simp e.set_nx_ex_state (ground (arith, ==_refl (lock_key p))))

  -- With a client: acquiring succeeds exactly if nobody owns the lock, and makes the token the
  -- owner, with the expiry given; a failed attempt leaves owner and expiry alone. Releasing frees
  -- the lock if the token owns it, and leaves any other owner. Refreshing reports whether the token
  -- owns the lock, sets its expiry only then, and keeps the owner.
  pub lock_is_owner_cell :
      ((acquire_lock e p token ttl w).0 ≡ ok (not (is_some (owner e p w))))
      × (owner e p (acquire_lock e p token ttl w).1
          ≡ (if is_some (owner e p w) then owner e p w else some token))
      × (expires e p (acquire_lock e p token ttl w).1
          ≡ (if is_some (owner e p w) then expires e p w else some ttl))
      × (owner e p (release_lock e p token w).1
          ≡ (if equals (owner e p w) token then none else owner e p w))
      × ((refresh_lock e p token ttl w).0 ≡ ok (equals (owner e p w) token))
      × (owner e p (refresh_lock e p token ttl w).1 ≡ owner e p w)
      × (expires e p (refresh_lock e p token ttl w).1
          ≡ (if equals (owner e p w) token then some ttl else expires e p w))
  lock_is_owner_cell = (
    rw (acquire_lock_lem, e.set_nx_ex_law),
    rw (strings-acquire_lock (lock_key p), ==_refl) (ground arith),
    acquired_expiry,
    rw (strings-release_lock (lock_key p), ==_refl) (ground arith),
    refreshed,
    strings-refresh_lock (lock_key p),
    refreshed_expiry,
  )
