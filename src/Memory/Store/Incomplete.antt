-- ===== src/Memory/Store/Incomplete.antt =====
-- `TaskStore` of src/task_queue.py as a map, and what its searches find.
use cio_run_auto_orchestrato.Prelude.{
  String, Bool, true, false, Option, none, some, List, [], ◌∷◌, ◌≡◌, refl, sym, ap, subst, ◌∙◌,
  ◌==◌, inl, inr, arith, find, any, if◌then◌else◌, Bool-cases, ==_iff, Dict, lookup, insert,
  lookup-insert,
}
use cio_run_auto_orchestrato.Effect.{ok, err, value_error}
use cio_run_auto_orchestrato.Models.{is_running, is_incomplete}
use cio_run_auto_orchestrato.Memory.Models.{Task}
use cio_run_auto_orchestrato.Memory.Store.{
  save, update, get, of_project, has_running_task, find_incomplete,
}

-- The tasks are under their own ids, each once.
abbrev pub IsStore : Dict Task → Type 0
IsStore [] = Unit {0}
IsStore ((k, t) ∷ tasks) = (t.task_id ≡ k) × (lookup k tasks ≡ none) × IsStore tasks

-- A map from ids to tasks, with one task put in.
abbrev pub with_task : Task → (String → Option Task) → String → Option Task
with_task t m k = if t.task_id == k then some t else m k

abbrev pub view : Dict Task → String → Option Task
view tasks k = lookup k tasks

insert-IsStore : (t : Task) (tasks : Dict Task) → IsStore tasks → IsStore (insert t.task_id t tasks)
unfolding insert lookup
insert-IsStore t [] h = (refl, refl, tt)
insert-IsStore t ((k, u) ∷ tasks) (own, new, h) = elim (Bool-cases (k == t.task_id)) [
  | inl q ↦ rw q (sym ((==_iff k t.task_id).0 q), new, h)
  | inr q ↦ rw q (
    own,
    ground (arith, lookup-insert t.task_id k t tasks, ==_iff k t.task_id, ==_iff t.task_id k),
    insert-IsStore t tasks h,
  )
]

-- Where every task stands under its id: `get` reads a map from ids to tasks; `save` of a new id and
-- `update` of any put the task into it and return; `save` of an id that is taken raises a
-- ValueError and leaves the store as it is; and every task stands under its id again.
pub tasks_implement_map :
    (t : Task) (k : String) (tasks : Dict Task)
    → IsStore tasks
    → (get k tasks ≡ (ok (view tasks k), tasks))
      × ((view tasks t.task_id ≡ none)
          → ((save t tasks).0 ≡ ok tt)
            × (view (save t tasks).1 k ≡ with_task t (view tasks) k)
            × IsStore (save t tasks).1)
      × ((u : Task)
          → view tasks t.task_id ≡ some u
          → ((m : String) × (save t tasks ≡ (err (value_error m), tasks))))
      × ((update t tasks).0 ≡ ok tt)
      × (view (update t tasks).1 k ≡ with_task t (view tasks) k)
      × IsStore (update t tasks).1
unfolding get save update
tasks_implement_map t k tasks h = (
  refl,
  λ q. rw q (refl, lookup-insert t.task_id k t tasks, insert-IsStore t tasks h),
  λ u q. rw q (_, refl),
  refl,
  lookup-insert t.task_id k t tasks,
  insert-IsStore t tasks h,
)

-- What a search of a project's tasks finds: one that passes the test, under its id, or none where
-- no task of the project passes.
abbrev pub Finds : (Task → Bool) → String → Dict Task → Option Task → Type 0
Finds test p tasks none =
    (k : String) (t : Task) → view tasks k ≡ some t → t.project_name ≡ p → test t ≡ false
Finds test p tasks (some t) =
    (view tasks t.task_id ≡ some t) × (t.project_name ≡ p) × (test t ≡ true)

Finds-later :
    (test : Task → Bool) (p k : String) (t : Task) (tasks : Dict Task) (o : Option Task)
    → IsStore ((k, t) ∷ tasks)
    → (t.project_name ≡ p → test t ≡ false)
    → Finds test p tasks o
    → Finds test p ((k, t) ∷ tasks) o
unfolding lookup
Finds-later test p k t tasks none (own, new, h) here later = λ j u found same.
    elim (Bool-cases (k == j)) [
      | inl q ↦
          let e : t ≡ u = ground arith in
          subst (λ x. x.project_name ≡ p → test x ≡ false) e here same
      | inr q ↦ later j u (rw q at found) same
    ]
Finds-later test p k t tasks (some u) (own, new, h) here (found, same, passes) =
    elim (Bool-cases (k == u.task_id)) [
      | inl q ↦
          let e : k ≡ u.task_id = (==_iff k u.task_id).0 q in
          let clash : none ≡ some u = sym new ∙ ap (λ j. lookup j tasks) e ∙ found in ground arith
      | inr q ↦ (rw q found, same, passes)
    ]

find-Finds :
    (test : Task → Bool) (p : String) (tasks : Dict Task)
    → IsStore tasks
    → Finds test p tasks (find test (of_project p tasks))
unfolding find lookup
find-Finds test p [] h = λ k t found. ground arith
find-Finds test p ((k, t) ∷ tasks) (own, new, h) = elim (Bool-cases (t.project_name == p)) [
  | inr q ↦ rw q (
      Finds-later test p k t tasks (find test (of_project p tasks)) (own, new, h)
        (λ e. ground (arith, ==_iff t.project_name p)) (find-Finds test p tasks h))
  | inl q ↦ rw q (elim (Bool-cases (test t)) [
    | inl r ↦ rw r (rw ((==_iff k t.task_id).1 (sym own)) refl, (==_iff t.project_name p).0 q, r)
    | inr r ↦ rw r (
        Finds-later test p k t tasks (find test (of_project p tasks)) (own, new, h) (λ e. r)
          (find-Finds test p tasks h))
  ])
]

abbrev pub is_some : Option Task → Bool
is_some none = false
is_some (some t) = true

any-find : (test : Task → Bool) (ts : List Task) → any test ts ≡ is_some (find test ts)
unfolding any find
any-find test [] = refl
any-find test (t ∷ ts) = elim (Bool-cases (test t)) [
  | inl q ↦ rw q refl
  | inr q ↦ rw q (any-find test ts)
]

-- Where every task stands under its id: `find_incomplete` returns a PENDING or RUNNING task of the
-- project, or None exactly where it has none; `has_running_task` says whether a task of the project
-- is RUNNING; neither changes the store.
searches_find :
    (p : String) (tasks : Dict Task)
    → IsStore tasks
    → ((o : Option Task) × (find_incomplete p tasks ≡ (ok o, tasks))
        × Finds (λ t. is_incomplete t.status) p tasks o)
      × ((o : Option Task) × (has_running_task p tasks ≡ (ok (is_some o), tasks))
          × Finds (λ t. is_running t.status) p tasks o)
unfolding find_incomplete has_running_task
searches_find p tasks h = (
  (_, refl, find-Finds (λ t. is_incomplete t.status) p tasks h),
  (
    find (λ t. is_running t.status) (of_project p tasks),
    rw (any-find (λ t. is_running t.status) (of_project p tasks)) refl,
    find-Finds (λ t. is_running t.status) p tasks h,
  ),
)
