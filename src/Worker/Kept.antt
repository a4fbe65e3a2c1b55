-- ===== src/Worker/Kept.antt =====
-- src/worker.py and src/task_queue: a turn of a worker loses no task.
use cio_run_auto_orchestrato.Prelude.{
  String, ℕ, true, false, Option, some, ◌≡◌, refl, ap, ◌∙◌, sym, none, inl, inr, ◌==◌, ◌++◌, List,
  [], ◌∷◌, arith, ◌⊎◌, elem, ==_refl, ==_iff, Bool-cases, subst,
}
use cio_run_auto_orchestrato.Effect.{err, cancelled_error}
use cio_run_auto_orchestrato.Models.{Task, running, failed}
use cio_run_auto_orchestrato.Redis.{Env, Contents, is_some, get_last?, drop_last}
use cio_run_auto_orchestrato.RedisClient.{World}
use cio_run_auto_orchestrato.TaskQueue.Keys.{task_key, queue_key}
use cio_run_auto_orchestrato.TaskQueue.Store.Records.{IsPlainId, text_at}
use cio_run_auto_orchestrato.TaskQueue.Queue.{block_seconds}
use cio_run_auto_orchestrato.TaskQueue.Queue.Fifo.{dequeue_lem, read}
use cio_run_auto_orchestrato.WorkerLocks.Ownership.{owner}
use cio_run_auto_orchestrato.Worker.State.{Held, timed_out}
use cio_run_auto_orchestrato.Worker.Execute.{Round, execute, execute_found, turn, or_none}
use cio_run_auto_orchestrato.Worker.Stranded.{execute_times_out}
use cio_run_auto_orchestrato.Worker.Turn.{execute_without_lock}
use cio_run_auto_orchestrato.Worker.Others.{Others}
use cio_run_auto_orchestrato.Worker.Isolated.{execute-Others}

elem-append : (x : String) (more xs : List String) → elem x xs ≡ true → elem x (more ++ xs) ≡ true
unfolding elem
elem-append x [] xs m = m
elem-append x (y ∷ more) xs m = ground (arith, elem-append x more xs m)

last_or_before :
    (x : String) (xs : List String)
    → elem x xs ≡ true
    → (get_last? xs ≡ some x) ⊎ (elem x (drop_last xs) ≡ true)
unfolding elem
last_or_before x [] m = ground arith
last_or_before x (y ∷ []) m = inl (ap some ((==_iff y x).0 (ground arith)))
last_or_before x (y ∷ z ∷ zs) m = elim (Bool-cases (y == x)) [
  | inl here ↦ inr (ground arith)
  | inr other ↦ elim (last_or_before x (z ∷ zs) (ground arith)) [
    | inl last ↦ inl last
    | inr before ↦ inr (ground arith)
  ]
]

module _ {e : Env} (j : String) where
  abbrev pub Record : World e → Task → Type 0
  Record w t = (t.task_id ≡ j) × (text_at e w (task_key j) ≡ some (e.dump t))

  abbrev pub Rests : World e → Task → Type 0
  Rests w t =
      (t.status ≡ running)
      ⊎ (t.status ≡ failed)
      ⊎ (elem (e.dump t) ((e.observe w.db).items queue_key) ≡ true)

  -- The record of the task `j` is the text of a task with this id, which is RUNNING or FAILED, or waits
  -- in the queue.
  abbrev pub Kept : World e → Type 0
  Kept w = (t : Task) × Record w t × Rests w t

  Rests-grows :
      (w w' : World e) (t : Task) (more : List String)
      → (e.observe w'.db).items queue_key ≡ more ++ (e.observe w.db).items queue_key
      → Rests w t
      → Rests w' t
  Rests-grows w w' t more q (inl done) = inl done
  Rests-grows w w' t more q (inr (inl stopped)) = inr (inl stopped)
  Rests-grows w w' t more q (inr (inr waits)) = inr (
      inr (
        ap (elem (e.dump t)) q
        ∙ elem-append (e.dump t) more ((e.observe w.db).items queue_key) waits))

  -- What leaves other tasks alone.
  pub Kept-Others :
      (i : String) (w w' : World e)
      → IsPlainId j
      → (i == j) ≡ false
      → Others i w w'
      → Kept w
      → Kept w'
  Kept-Others i w w' plain other (same, more, q) (t, (own, rec), rests) =
      (t, (own, same j plain other ∙ rec), Rests-grows w w' t more q rests)

-- Every wait of `update` times out, as it does on the thread of the event loop that is to run the
-- coroutine, and the factory of engines is not cancelled.
abbrev pub OnLoop : Round → Type 0
OnLoop r =
    ((m : ℕ) → r.runtime.update_wait m ≡ timed_out)
    × ((work_dir config_json : Option String) (m : String)
        → ¬ (r.factory work_dir config_json ≡ err (cancelled_error m)))

module _ {e : Env} (url j : String) (plain : IsPlainId j) (r : Round) (calm : OnLoop r)
    (w : World e) (c : w.client ≡ some url) where
  abbrev taken_up : Task → Held e
  taken_up t = record { world = w; task = t; updates = 0; waiting = 0 }

  free_own :
      (t : Task)
      → t.task_id ≡ j
      → is_some (owner e t.project_name w) ≡ false
      → Kept j (execute r (taken_up t)).1.world
  free_own t own free =
      let ends =
        execute_times_out r url (taken_up t) c refl free calm.0
          (calm.1 (or_none t.work_dir) (or_none t.config_json)) (subst IsPlainId (sym own) plain) in
      let z = execute r (taken_up t) in
      let same = ends.1.0 ∙ own in
      (
        z.1.task,
        (same, ap (λ i. text_at e z.1.world (task_key i)) (sym same) ∙ ends.2.1),
        started z.1.world z.1.task ends.1.2,
      )
    where
      started :
          (w' : World e) (t' : Task) → (t'.status ≡ running) ⊎ (t'.status ≡ failed) → Rests j w' t'
      started w' t' (inl q) = inl q
      started w' t' (inr q) = inr (inl q)

  -- Where the lock is owned, the task is in the queue again.
  busy_own :
      (t u : Task)
      → is_some (owner e t.project_name w) ≡ true
      → Record j w u
      → Rests j w u ⊎ (t ≡ u)
      → Kept j (execute r (taken_up t)).1.world
  unfolding elem
  busy_own t u held (own, rec) case =
      let left = execute_without_lock r (taken_up t) c refl held in
      let w' = (execute r (taken_up t)).1.world in
      (
        u,
        (own, left.3 (task_key j) ∙ rec),
        elim case [
          | inl rests ↦ Rests-grows j w w' u (e.dump t ∷ []) left.2 rests
          | inr same ↦ inr (
              inr (
                ap (elem (e.dump u))
                  (left.2 ∙ ap (λ v. e.dump v ∷ (e.observe w.db).items queue_key) same)
                ∙ ground (arith, ==_refl (e.dump u))))
        ],
      )

  executed_own :
      (t u : Task)
      → t.task_id ≡ j
      → Record j w u
      → Rests j w u ⊎ (t ≡ u)
      → Kept j (execute r (taken_up t)).1.world
  executed_own t u own rec case = elim (Bool-cases (is_some (owner e t.project_name w))) [
    | inl held ↦ busy_own t u held rec case
    | inr free ↦ free_own t own free
  ]

  -- Any task that is taken, while `j` is kept.
  executed : (o : Option Task) → Kept j w → Kept j (execute_found r o w).1
  executed none kept = kept
  executed (some t) (u, rec, rests) = elim (Bool-cases (t.task_id == j)) [
    | inl own ↦ executed_own t u ((==_iff t.task_id j).0 own) rec (inl rests)
    | inr other ↦
        Kept-Others j t.task_id w (execute r (taken_up t)).1.world plain other
          (execute-Others r (taken_up t) c) (u, rec, rests)
  ]

module _ {e : Env} (url j : String) (plain : IsPlainId j) (r : Round) (calm : OnLoop r)
    (w : World e) (c : w.client ≡ some url) where
  abbrev taken_world : World e
  taken_world = record w { db = (e.brpop (block_seconds r.poll_interval) queue_key w.db).1 }

  Record-taken : (t : Task) → Record j w t → Record j taken_world t
  Record-taken t (own, rec) = (
    own,
    ap (λ (x : Contents). x.strings (task_key j))
          (e.brpop_state (block_seconds r.poll_interval) queue_key w.db)
        ∙ rec,
  )

  Rests-taken :
      (t : Task)
      → Rests j w t
      → Rests j taken_world t ⊎ (get_last? ((e.observe w.db).items queue_key) ≡ some (e.dump t))
  Rests-taken t (inl done) = inl (inl done)
  Rests-taken t (inr (inl stopped)) = inl (inr (inl stopped))
  Rests-taken t (inr (inr waits)) =
      let xs = (e.observe w.db).items queue_key in
      let left : (e.observe taken_world.db).items queue_key ≡ drop_last xs =
        ap (λ (x : Contents). x.items queue_key)
          (e.brpop_state (block_seconds r.poll_interval) queue_key w.db) in
      elim (last_or_before (e.dump t) xs waits) [
        | inl last ↦ inr last
        | inr before ↦ inl (inr (inr (ap (elem (e.dump t)) left ∙ before)))
      ]

  found-Kept :
      (o : Option String)
      → get_last? ((e.observe w.db).items queue_key) ≡ o
      → Kept j w
      → Kept j (execute_found r (read e o) taken_world).1
  found-Kept o q (t, rec, rests) = elim (Rests-taken t rests) [
    | inl still ↦
        executed url j plain r calm taken_world c (read e o) (t, Record-taken t rec, still)
    | inr last ↦
        subst (λ x. Kept j (execute_found r x taken_world).1)
          (sym (e.validate_law t) ∙ ap (read e) (sym last ∙ q))
          (executed_own url j plain r calm taken_world c t t rec.0 (Record-taken t rec) (inr refl))
  ]

  pub turn-Kept : Kept j w → Kept j (turn r w).1
  unfolding turn
  turn-Kept kept =
      rw (dequeue_lem e w c r.poll_interval)
        (found-Kept _ (sym (e.brpop_law (block_seconds r.poll_interval) queue_key w.db)) kept)
