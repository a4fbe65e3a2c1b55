-- ===== src/WorkerLocks/Mutex.antt =====
-- src/worker_locks.py among several workers: one step at a time, each a call of a helper, in any
-- order. `inside` lists the tokens whose holders run a task of the project.
use cio_run_auto_orchestrato.Prelude.{
  String, ℕ, true, false, Option, none, some, List, [], ◌∷◌, ◌≡◌, refl, sym, ◌∙◌, subst, ◌≤◌, ◌==◌,
  ==_iff, arith, length, if◌then◌else◌,
}
use cio_run_auto_orchestrato.Effect.{ok}
use cio_run_auto_orchestrato.Redis.{Env, is_some}
use cio_run_auto_orchestrato.RedisClient.{World}
use cio_run_auto_orchestrato.WorkerLocks.{equals, acquire_lock, release_lock, refresh_lock}
use cio_run_auto_orchestrato.WorkerLocks.Ownership.{
  owner, lock_is_owner_cell, acquire_lock_lem, release_lock_lem, refresh_lock_lem,
}

abbrev pub without : String → List String → List String
without token [] = []
without token (t ∷ ts) = let rest = without token ts in if t == token then rest else t ∷ rest

module _ (e : Env) (p : String) where
  pub record Pool : Type 0 where
    pub world : World e
    pub inside : List String

  -- `enter`: an acquisition that succeeds. `leave`: a release, whoever makes it. `beat`: a refresh.
  -- `elsewhere`: anything that leaves the lock and the connection alone. The lock does not expire.
  pub data Step (a b : Pool) : Type 0 where
    enter :
        (token : String) (ttl : ℕ)
        → (acquire_lock e p token ttl a.world).0 ≡ ok true
        → b ≡ record { world = (acquire_lock e p token ttl a.world).1; inside = token ∷ a.inside }
        → Step a b
    leave :
        (token : String)
        → b ≡ record { world = (release_lock e p token a.world).1; inside = without token a.inside }
        → Step a b
    beat :
        (token : String) (ttl : ℕ)
        → b ≡ record { world = (refresh_lock e p token ttl a.world).1; inside = a.inside }
        → Step a b
    elsewhere :
        (w : World e)
        → w.client ≡ a.world.client
        → owner e p w ≡ owner e p a.world
        → b ≡ record { world = w; inside = a.inside }
        → Step a b

  pub data Reach (a : Pool) : Pool → Type 0 where
    here : Reach a a
    next : {b c : Pool} → Reach a b → Step b c → Reach a c

  -- Whoever is inside owns the lock.
  abbrev Owns : Option String → List String → Type 0
  Owns o [] = Unit {0}
  Owns o (t ∷ []) = o ≡ some t
  Owns o (t ∷ s ∷ ts) = ⊥

  pub record IsExclusive (a : Pool) : Type 0 where
    pub url : String
    pub connected : a.world.client ≡ some url
    pub owns : Owns (owner e p a.world) a.inside

  enter-Owns :
      (o : Option String) (token : String) (ts : List String)
      → Owns o ts
      → is_some o ≡ false
      → Owns (some token) (token ∷ ts)
  enter-Owns o token [] h free = refl
  enter-Owns o token (t ∷ []) h free = cc
  enter-Owns o token (t ∷ s ∷ ts) h free = absurd h

  leave-Owns :
      (o : Option String) (token : String) (ts : List String)
      → Owns o ts
      → Owns (if equals o token then none else o) (without token ts)
  leave-Owns o token [] h = tt
  leave-Owns o token (t ∷ []) h = ground (arith, ==_iff t token)
  leave-Owns o token (t ∷ s ∷ ts) h = absurd h

  entered :
      {a : Pool} (token : String) (ttl : ℕ)
      → IsExclusive a
      → (acquire_lock e p token ttl a.world).0 ≡ ok true
      → IsExclusive
          (record { world = (acquire_lock e p token ttl a.world).1; inside = token ∷ a.inside })
  entered {a} token ttl h got =
      let cell = lock_is_owner_cell e p token ttl a.world h.connected in
      let free : is_some (owner e p a.world) ≡ false = ground (arith, cell.0) in
      record {
        url = h.url;
        connected = rw (acquire_lock_lem e p token ttl a.world h.connected) h.connected;
        owns =
            subst (λ o. Owns o (token ∷ a.inside)) (sym (cell.1 ∙ (rw free)))
              (enter-Owns (owner e p a.world) token a.inside h.owns free);
      }

  left :
      {a : Pool} (token : String)
      → IsExclusive a
      → IsExclusive
          (record { world = (release_lock e p token a.world).1; inside = without token a.inside })
  left {a} token h = record {
    url = h.url;
    connected = rw (release_lock_lem e p token 0 a.world h.connected) h.connected;
    owns =
        subst (λ o. Owns o (without token a.inside))
          (sym (lock_is_owner_cell e p token 0 a.world h.connected).3)
          (leave-Owns (owner e p a.world) token a.inside h.owns);
  }

  refreshed :
      {a : Pool} (token : String) (ttl : ℕ)
      → IsExclusive a
      → IsExclusive (record { world = (refresh_lock e p token ttl a.world).1; inside = a.inside })
  refreshed {a} token ttl h = record {
    url = h.url;
    connected = rw (refresh_lock_lem e p token ttl a.world h.connected) h.connected;
    owns =
        subst (λ o. Owns o a.inside) (sym (lock_is_owner_cell e p token ttl a.world h.connected).5)
          h.owns;
  }

  Step-IsExclusive : {a b : Pool} → Step a b → IsExclusive a → IsExclusive b
  Step-IsExclusive {a} (enter token ttl got q) h =
      subst IsExclusive (sym q) (entered token ttl h got)
  Step-IsExclusive {a} (leave token q) h = subst IsExclusive (sym q) (left token h)
  Step-IsExclusive {a} (beat token ttl q) h = subst IsExclusive (sym q) (refreshed token ttl h)
  Step-IsExclusive {a} (elsewhere w same_client same_owner q) h =
      subst IsExclusive (sym q) (record {
        url = h.url;
        connected = same_client ∙ h.connected;
        owns = subst (λ o. Owns o a.inside) (sym same_owner) h.owns;
      })

  Reach-IsExclusive : {a b : Pool} → Reach a b → IsExclusive a → IsExclusive b
  Reach-IsExclusive here h = h
  Reach-IsExclusive (next r s) h = Step-IsExclusive s (Reach-IsExclusive r h)

  at_most_one : (o : Option String) (ts : List String) → Owns o ts → length ts ≤ 1
  at_most_one o [] h = omega arith
  at_most_one o (t ∷ []) h = omega arith
  at_most_one o (t ∷ s ∷ ts) h = absurd h

  -- However many workers acquire, release and refresh the lock of a project, and in whatever order,
  -- at most one of them is inside at a time, as long as the lock does not expire: from a pool with
  -- a client in which nobody is inside, no reachable pool has two.
  pub mutual_exclusion :
      {a b : Pool} {u : String}
      → a.world.client ≡ some u
      → a.inside ≡ []
      → Reach a b
      → length b.inside ≤ 1
  mutual_exclusion {a} {b} {u} c none_inside r =
      let start : IsExclusive a = record { url = u; connected = c; owns = rw none_inside tt } in
      at_most_one (owner e p b.world) b.inside (Reach-IsExclusive r start).owns
