-- ===== src/Worker/Exclusive.antt =====
-- src/worker.py among several workers: at most one is inside for a project.
use cio_run_auto_orchestrato.Prelude.{
  String, true, some, List, [], ◌∷◌, ◌≡◌, refl, sym, ap, ◌∙◌, subst, ◌≤◌, ◌==◌, ==_iff, length,
  Bool-cases, inl, inr,
}
use cio_run_auto_orchestrato.Effect.{Result, ok, catch}
use cio_run_auto_orchestrato.Redis.{Env}
use cio_run_auto_orchestrato.RedisClient.{World}
use cio_run_auto_orchestrato.WorkerLocks.{acquire_lock, release_lock}
use cio_run_auto_orchestrato.WorkerLocks.Ownership.{release_lock_lem}
use cio_run_auto_orchestrato.WorkerLocks.Mutex
use cio_run_auto_orchestrato.WorkerLocks.Mutex.{Pool, without, mutual_exclusion}
use cio_run_auto_orchestrato.Worker.Floor.{
  tokens_of, leave_at, tokens_of-leave_elsewhere, Floor, Step, takes, works, leaves, serves, Reach,
  here, next, pool, elsewhere, took, left, acquire_other, release_other, released-Beside,
}
use cio_run_auto_orchestrato.Worker.State.{Held}
use cio_run_auto_orchestrato.Worker.Connection.{client-acquire_lock}
use cio_run_auto_orchestrato.Worker.Beside.{Beside}
use cio_run_auto_orchestrato.Worker.Rounds.{guarded-Beside}
use cio_run_auto_orchestrato.Worker.Lock.{finish_lem, released_world}
use cio_run_auto_orchestrato.Worker.Execute.{Round, finish, run_locked, on_stolen}

module _ (e : Env) where
  abbrev with_taken : Round → Floor e → String → Floor e
  with_taken r a q = record {
    world = (acquire_lock e q r.lock_token r.lock_ttl a.world).1;
    inside = (q, r.lock_token) ∷ a.inside;
  }

  abbrev with_left : String → Floor e → String → Floor e
  with_left token a q = record {
    world = (release_lock e q token a.world).1;
    inside = leave_at q token a.inside;
  }

  -- The part of a floor that one project sees, behind each step.
  module _ (p : String) (x : Pool e p) (u : String) where
    abbrev Sees : Floor e → Type 0
    Sees a = Mutex.Reach e p x (pool e p a) × (a.world.client ≡ some u)

    Sees-taken :
        (r : Round) (a : Floor e) (q : String)
        → Sees a
        → (acquire_lock e q r.lock_token r.lock_ttl a.world).0 ≡ ok true
        → Sees (with_taken r a q)
    Sees-taken r a q (reach, c) got = (
      elim (Bool-cases (q == p)) [
        | inl same ↦
            subst
              (λ z.
                (acquire_lock e z r.lock_token r.lock_ttl a.world).0 ≡ ok true
                → Mutex.Reach e p x (pool e p (with_taken r a z)))
              (sym ((==_iff q p).0 same)) (λ g. took e p x r a g reach) got
        | inr other ↦
            elsewhere e p x a (with_taken r a q)
              (client-acquire_lock e q r.lock_token r.lock_ttl a.world)
              (acquire_other e p q other a.world c r.lock_token r.lock_ttl) (rw other refl) reach
      ],
      client-acquire_lock e q r.lock_token r.lock_ttl a.world ∙ c,
    )

    Sees-left : (token : String) (a : Floor e) (q : String) → Sees a → Sees (with_left token a q)
    Sees-left token a q (reach, c) =
        let kept = ap (λ z. z.1.client) (release_lock_lem e q token 0 a.world c) in
        (
          elim (Bool-cases (q == p)) [
            | inl same ↦
                subst (λ z. Mutex.Reach e p x (pool e p (with_left token a z)))
                  (sym ((==_iff q p).0 same)) (left e p x token a reach)
            | inr other ↦
                elsewhere e p x a (with_left token a q) kept
                  (release_other e p q other a.world c token)
                  (tokens_of-leave_elsewhere p q token a.inside other) reach
          ],
          kept ∙ c,
        )

    Sees-Beside :
        (a : Floor e) (w : World e)
        → Sees a
        → Beside a.world w
        → Sees (record { world = w; inside = a.inside })
    Sees-Beside a w (reach, c) beside = (
      elsewhere e p x a (record { world = w; inside = a.inside }) beside.0 (beside.1 p) refl reach,
      beside.0 ∙ c,
    )

    Sees-finished :
        (r : Round) (res : Result (Unit {0})) (h : Held e) (inside : List (String × String))
        → Sees (record { world = h.world; inside = inside })
        → Sees (record {
          world = (finish r res h).1.world;
          inside = leave_at h.task.project_name r.lock_token inside;
        })
    Sees-finished r res h inside s =
        let released =
          Sees-Beside (record { world = h.world; inside = inside }) (released_world r h) s
            (released-Beside e r h s.1) in
        subst
          (λ w.
            Sees (record { world = w; inside = leave_at h.task.project_name r.lock_token inside }))
          (ap (λ z. z.1.world) (sym (finish_lem r res h s.1)))
          (Sees-left r.lock_token (record { world = released_world r h; inside = inside })
            h.task.project_name released)

    Sees-step : {a b : Floor e} → Step e a b → Sees a → Sees b
    Sees-step {a} {b} (takes r q got eq) s = subst Sees (sym eq) (Sees-taken r a q s got)
    Sees-step {a} {b} (works r h same eq) s = subst Sees (sym eq) (
        Sees-Beside a (catch (run_locked r) (on_stolen r) h).1.world s (
          subst (λ w. Beside w (catch (run_locked r) (on_stolen r) h).1.world) same
            (guarded-Beside r h)))
    Sees-step {a} {b} (leaves r res h same eq) s = subst Sees (sym eq) (
        Sees-finished r res h a.inside
          (subst (λ w. Sees (record { world = w; inside = a.inside })) (sym same) s))
    Sees-step {a} {b} (serves w beside eq) s = subst Sees (sym eq) (Sees-Beside a w s beside)

    Sees-Reach : {a b : Floor e} → Reach e a b → Sees a → Sees b
    Sees-Reach here s = s
    Sees-Reach (next r step) s = Sees-step step (Sees-Reach r s)

  -- However the workers of a process take the locks of projects, run their tasks and leave, one part
  -- of `_execute` after another in any order, with requests and whatever else leaves the locks and
  -- the client alone between them: at most one worker at a time is inside for a project. At first
  -- there is a client and nobody is inside, and no lock expires.
  pub one_worker_for_project :
      {a b : Floor e} {u : String} (p : String)
      → a.world.client ≡ some u
      → a.inside ≡ []
      → Reach e a b
      → length (tokens_of p b.inside) ≤ 1
  one_worker_for_project {a} {b} {u} p c none_inside r =
      let start = Sees-Reach p (pool e p a) u r (Mutex.Reach.here, c) in
      mutual_exclusion e p c (ap (tokens_of p) none_inside) start.0
