-- ===== src/Worker/Floor.antt =====
-- src/worker.py among several workers: the parts of `_execute`, from one pause to the next, in any
-- order, with requests between them. `inside` lists the project and the token of each worker that
-- has got the lock and has not left the `finally` block.
use cio_run_auto_orchestrato.Prelude.{
  String, ℕ, true, false, some, List, [], ◌∷◌, ◌≡◌, refl, ap, ◌∙◌, ◌==◌, ◌&&◌, ==_iff, ==_refl,
  arith, if◌then◌else◌,
}
use cio_run_auto_orchestrato.Effect.{Result, ok, catch}
use cio_run_auto_orchestrato.Redis.{Env}
use cio_run_auto_orchestrato.RedisClient.{World}
use cio_run_auto_orchestrato.TaskQueue.Keys.{lock_key, lock_key-==}
use cio_run_auto_orchestrato.WorkerLocks.{acquire_lock, release_lock}
use cio_run_auto_orchestrato.WorkerLocks.Ownership.{
  owner, strings-acquire_lock, strings-release_lock,
}
use cio_run_auto_orchestrato.WorkerLocks.Mutex
use cio_run_auto_orchestrato.WorkerLocks.Mutex.{Pool, without, mutual_exclusion}
use cio_run_auto_orchestrato.Worker.State.{Held}
use cio_run_auto_orchestrato.Worker.State.{run_waiting}
use cio_run_auto_orchestrato.Worker.Beside.{
  Beside, Beside-trans, run_waiting-Beside, heartbeat-Beside,
}
use cio_run_auto_orchestrato.Worker.Lock.{released_world}
use cio_run_auto_orchestrato.Worker.Execute.{Round, heartbeat, finish, run_locked, on_stolen}

abbrev pub tokens_of : String → List (String × String) → List String
tokens_of p [] = []
tokens_of p ((q, t) ∷ xs) = let rest = tokens_of p xs in if q == p then t ∷ rest else rest

abbrev pub leave_at : String → String → List (String × String) → List (String × String)
leave_at q token [] = []
leave_at q token ((p, t) ∷ xs) =
    let rest = leave_at q token xs in if p == q && t == token then rest else (p, t) ∷ rest

tokens_of-leave_at :
    (p token : String) (xs : List (String × String))
    → tokens_of p (leave_at p token xs) ≡ without token (tokens_of p xs)
tokens_of-leave_at p token [] = refl
tokens_of-leave_at p token ((q, t) ∷ xs) = ground (arith, tokens_of-leave_at p token xs)

pub tokens_of-leave_elsewhere :
    (p q token : String) (xs : List (String × String))
    → (q == p) ≡ false
    → tokens_of p (leave_at q token xs) ≡ tokens_of p xs
tokens_of-leave_elsewhere p q token [] other = refl
tokens_of-leave_elsewhere p q token ((q', t) ∷ xs) other =
    ground
      (arith, ==_iff q' q, ==_iff q' p, ==_iff q p, tokens_of-leave_elsewhere p q token xs other)

module _ (e : Env) where
  pub record Floor : Type 0 where
    pub world : World e
    pub inside : List (String × String)

  -- `takes`: `_acquire_lock` succeeds. `works`: `_run_locked` with the handler of LockStolenError.
  -- `leaves`: the `finally` block, behind the heartbeats. `serves`: anything that leaves the locks and
  -- the client alone, such as a request. The locks do not expire.
  pub data Step (a b : Floor) : Type 0 where
    takes :
        (r : Round) (p : String)
        → (acquire_lock e p r.lock_token r.lock_ttl a.world).0 ≡ ok true
        → b ≡ record {
          world = (acquire_lock e p r.lock_token r.lock_ttl a.world).1;
          inside = (p, r.lock_token) ∷ a.inside;
        }
        → Step a b
    works :
        (r : Round) (h : Held e)
        → h.world ≡ a.world
        → b ≡ record { world = (catch (run_locked r) (on_stolen r) h).1.world; inside = a.inside }
        → Step a b
    leaves :
        (r : Round) (res : Result (Unit {0})) (h : Held e)
        → h.world ≡ a.world
        → b ≡ record {
          world = (finish r res h).1.world;
          inside = leave_at h.task.project_name r.lock_token a.inside;
        }
        → Step a b
    serves :
        (w : World e) → Beside a.world w → b ≡ record { world = w; inside = a.inside } → Step a b

  pub data Reach (a : Floor) : Floor → Type 0 where
    here : Reach a a
    next : {b c : Floor} → Reach a b → Step b c → Reach a c

  module _ (p : String) where
    -- What the floor is for one project.
    abbrev pub pool : Floor → Pool e p
    pool a = record { world = a.world; inside = tokens_of p a.inside }

    pub elsewhere :
        (x : Pool e p) (a b : Floor)
        → b.world.client ≡ a.world.client
        → owner e p b.world ≡ owner e p a.world
        → tokens_of p b.inside ≡ tokens_of p a.inside
        → Mutex.Reach e p x (pool a)
        → Mutex.Reach e p x (pool b)
    elsewhere x a b client lock same r = Mutex.Reach.next r (
        Mutex.Step.elsewhere b.world client lock
          (ap (λ ts. record { world = b.world; inside = ts }) same))

    pub took :
        (x : Pool e p) (r : Round) (a : Floor)
        → (acquire_lock e p r.lock_token r.lock_ttl a.world).0 ≡ ok true
        → Mutex.Reach e p x (pool a)
        → Mutex.Reach e p x (
            pool (record {
              world = (acquire_lock e p r.lock_token r.lock_ttl a.world).1;
              inside = (p, r.lock_token) ∷ a.inside;
            }))
    took x r a got reach =
        Mutex.Reach.next reach (Mutex.Step.enter r.lock_token r.lock_ttl got (rw (==_refl p) refl))

    pub left :
        (x : Pool e p) (token : String) (a : Floor)
        → Mutex.Reach e p x (pool a)
        → Mutex.Reach e p x (
            pool (record {
              world = (release_lock e p token a.world).1;
              inside = leave_at p token a.inside;
            }))
    left x token a reach = Mutex.Reach.next reach (
        Mutex.Step.leave token (
          ap (λ ts. record { world = (release_lock e p token a.world).1; inside = ts })
            (tokens_of-leave_at p token a.inside)))

  -- The lock of another project.
  module _ (p q : String) (other : (q == p) ≡ false) (w : World e) {u : String}
      (c : w.client ≡ some u) where
    pub acquire_other :
        (token : String) (ttl : ℕ) → owner e p (acquire_lock e q token ttl w).1 ≡ owner e p w
    acquire_other token ttl =
        strings-acquire_lock e q token ttl w c (lock_key p)
        ∙ rw (lock_key-== q p, other) (ground arith)

    pub release_other : (token : String) → owner e p (release_lock e q token w).1 ≡ owner e p w
    release_other token =
        strings-release_lock e q token 0 w c (lock_key p)
        ∙ rw (lock_key-== q p, other) (ground arith)

  pub released-Beside :
      (r : Round) (h : Held e) {u : String}
      → h.world.client ≡ some u
      → Beside h.world (released_world r h)
  unfolding released_world
  released-Beside r h c =
      let v = (heartbeat r r.beats h.task.project_name h.world).1 in
      Beside-trans h.world v (run_waiting h.waiting h.task v)
        (heartbeat-Beside e r r.beats h.task.project_name h.world c)
        (run_waiting-Beside e h.waiting h.task v)
