-- ===== src/Api/Twice.antt =====
-- src/api.py: POST /tasks sent again.
use cio_run_auto_orchestrato.Prelude.{
  String, Bool, true, false, Option, none, some, List, [], ◌∷◌, map, ◌≡◌, refl, sym, ap, ◌∙◌, ◌==◌,
  ==_refl, ==_iff, ◌||◌, elem, arith, find, if◌then◌else◌, inl, inr, Bool-cases,
}
use mathlib.Core.Bool.{false≢true}
use cio_run_auto_orchestrato.Effect.{ok}
use cio_run_auto_orchestrato.Models.{Task, is_incomplete, new_task}
use cio_run_auto_orchestrato.Redis.{Env, Contents}
use cio_run_auto_orchestrato.RedisClient.{World}
use cio_run_auto_orchestrato.TaskQueue.Keys.{task_key, queue_key, project_tasks_key, task_key-==}
use cio_run_auto_orchestrato.TaskQueue.Store.{find_incomplete, find_by_digest, parse_all, keep}
use cio_run_auto_orchestrato.TaskQueue.Store.Records.{
  text_at, IsPlainId, members-saved, text_at-save, digest_key-task_key,
}
use cio_run_auto_orchestrato.TaskQueue.Store.Lookup.{client-save}
use cio_run_auto_orchestrato.Api.{TaskCreateRequest, create_task, task_of}
use cio_run_auto_orchestrato.Api.Create.{
  find_incomplete_lem, tasks_of, create_task_existing, create_task_lem, add_task_lem, made, saved,
  pushed,
}

module _ (e : Env) where
  -- Whether a text stands for an unfinished task.
  abbrev open_task : Option Task → Bool
  open_task none = false
  open_task (some t) = is_incomplete t.status

  abbrev is_open : Option String → Bool
  is_open none = false
  is_open (some raw) = open_task (e.validate raw)

  abbrev first_open : List Task → Option Task
  first_open ts = find (λ t. is_incomplete t.status) ts

  first_open-keep :
      (o : Option Task) (ts : List Task)
      → open_task o ≡ false
      → first_open (keep e o ts) ≡ first_open ts
  unfolding find
  first_open-keep none ts q = refl
  first_open-keep (some t) ts q = rw q

  first_open-none :
      (o : Option Task) (ts : List Task)
      → first_open (keep e o ts) ≡ none
      → (open_task o ≡ false) × (first_open ts ≡ none)
  unfolding find
  first_open-none none ts q = (refl, q)
  first_open-none (some t) ts q = (ground arith, ground arith)

  parse_all-cons :
      (o : Option String) (raws : List (Option String))
      → is_open o ≡ false
      → first_open (parse_all e (o ∷ raws)) ≡ first_open (parse_all e raws)
  parse_all-cons none raws q = refl
  parse_all-cons (some raw) raws q = first_open-keep (e.validate raw) (parse_all e raws) q

  parse_all-none :
      (o : Option String) (raws : List (Option String))
      → first_open (parse_all e (o ∷ raws)) ≡ none
      → (is_open o ≡ false) × (first_open (parse_all e raws) ≡ none)
  parse_all-none none raws q = (refl, q)
  parse_all-none (some raw) raws q = first_open-none (e.validate raw) (parse_all e raws) q

  found-cons :
      (t : Task) (o : Option String) (raws : List (Option String))
      → is_incomplete t.status ≡ true
      → o ≡ some (e.dump t)
      → first_open (parse_all e (o ∷ raws)) ≡ some t
  unfolding find
  found-cons t o raws unfinished q = rw (q, e.validate_law t, unfinished)

  -- If nothing in a list is unfinished, no member is.
  none_open :
      (read : String → Option String) (ids : List String)
      → first_open (parse_all e (map read ids)) ≡ none
      → (j : String) → elem j ids ≡ true
      → is_open (read j) ≡ false
  unfolding elem
  none_open read [] q j m = absurd (false≢true m)
  none_open read (i ∷ ids) q j m =
      let (here, behind) = parse_all-none (read i) (map read ids) q in
      elim (Bool-cases (i == j)) [
        | inl same ↦ ap (λ k. is_open (read k)) (sym ((==_iff i j).0 same)) ∙ here
        | inr other ↦ none_open read ids behind j (ground arith)
      ]

  -- If a member is a text of `t`, and all others are nothing unfinished, `t` is found.
  only_open :
      (t : Task) (read : String → Option String) (id : String) (ids : List String)
      → is_incomplete t.status ≡ true
      → read id ≡ some (e.dump t)
      → ((j : String) → elem j ids ≡ true → (j == id) ≡ false → is_open (read j) ≡ false)
      → elem id ids ≡ true
      → first_open (parse_all e (map read ids)) ≡ some t
  unfolding elem
  only_open t read id [] unfinished own others m = absurd (false≢true m)
  only_open t read id (i ∷ ids) unfinished own others m = elim (Bool-cases (i == id)) [
    | inl same ↦
        found-cons t (read i) (map read ids) unfinished (ap read ((==_iff i id).0 same) ∙ own)
    | inr other ↦
        parse_all-cons (read i) (map read ids) (others i (rw (==_refl i)) other)
        ∙ only_open t read id ids unfinished own (λ j mj. others j (ground arith)) (ground arith)
  ]

module _ (e : Env) (uuid : String) (body : TaskCreateRequest) (w : World e) {u : String}
    (c : w.client ≡ some u) where
  abbrev after : World e
  after = pushed e uuid body w c

  members-after :
      (j : String)
      → text_at e w (task_key uuid) ≡ none
      → elem j (e.smembers (project_tasks_key body.project_name) after.db)
        ≡ (uuid == j || elem j (e.smembers (project_tasks_key body.project_name) w.db))
  unfolding task_of new_task
  members-after j fresh =
      let p = project_tasks_key body.project_name in
      rw (
        e.smembers_law,
        e.lpush_law,
        e.smembers_law p w.db,
        members-saved e (made e uuid body w c) w u p j c fresh,
        ==_refl,
      )

  open_task_of : is_incomplete (made e uuid body w c).status ≡ true
  unfolding task_of new_task
  open_task_of = refl

  text_at-after :
      (j : String)
      → text_at e w (task_key uuid) ≡ none
      → IsPlainId j
      → e.get (task_key j) after.db
        ≡ (if uuid == j then some (e.dump (made e uuid body w c)) else e.get (task_key j) w.db)
  unfolding task_of new_task
  text_at-after j fresh plain =
      let t = made e uuid body w c in
      e.get_law (task_key j) after.db
      ∙ ap (λ (x : Contents). x.strings (task_key j))
          (e.lpush_law queue_key (e.dump t) (saved e uuid body w c).db)
      ∙ (text_at-save e t w u (task_key j) c fresh).1
      ∙ rw
          (
            digest_key-task_key e t.project_name t.requirement j plain,
            task_key-==,
            e.get_law (task_key j) w.db,
          )
          (ground arith)

  -- With a client: a request that matched no task and made one with a new id, sent again, or any
  -- request for the same project that follows it, is answered with that task, and nothing on the
  -- server changes. No id of the project begins with `digest:`.
  pub create_task_twice :
      (find_incomplete e body.project_name w).0 ≡ ok none
      → (find_by_digest e body.project_name body.requirement w).0 ≡ ok none
      → IsPlainId uuid
      → ((j : String)
          → elem j (e.smembers (project_tasks_key body.project_name) w.db) ≡ true
          → IsPlainId j)
      → text_at e w (task_key uuid) ≡ none
      → (uuid' : String) (body' : TaskCreateRequest) → body'.project_name ≡ body.project_name
      → let z = create_task e uuid body w in create_task e uuid' body' z.1 ≡ (z.0, z.1)
  unfolding task_of new_task
  create_task_twice q q' plain all_plain fresh uuid' body' same =
      rw (create_task_lem e uuid body w c q q', add_task_lem e uuid body w c fresh)
        (create_task_existing e uuid' body' after connected (made e uuid body w c) (inl found))
    where
      p : String
      p = project_tasks_key body.project_name

      connected : after.client ≡ some u
      connected = client-save e (made e uuid body w c) w c fresh

      none_before : first_open e (tasks_of e w body.project_name) ≡ none
      none_before = ground (arith, find_incomplete_lem e body.project_name w c)

      others :
          (j : String)
          → elem j (e.smembers p after.db) ≡ true
          → (j == uuid) ≡ false
          → is_open e (e.get (task_key j) after.db) ≡ false
      others j m other =
          let different : (uuid == j) ≡ false = ground (arith, ==_iff uuid j, ==_refl j) in
          let old : elem j (e.smembers p w.db) ≡ true = ground (arith, members-after j fresh) in
          rw (text_at-after j fresh (all_plain j old), different)
            (none_open e (λ j. e.get (task_key j) w.db) (e.smembers p w.db) none_before j old)

      found : (find_incomplete e body'.project_name after).0 ≡ ok (some (made e uuid body w c))
      found =
          ap (λ (x, y). x) (find_incomplete_lem e body'.project_name after connected)
          ∙ ap (λ n. ok (first_open e (tasks_of e after n))) same
          ∙ ap ok (
              only_open e (made e uuid body w c) (λ j. e.get (task_key j) after.db) uuid
                (e.smembers p after.db) open_task_of
                (rw (text_at-after uuid fresh plain, ==_refl uuid)) others
                (rw (members-after uuid fresh, ==_refl uuid)))
