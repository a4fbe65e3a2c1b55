-- ===== src/Api/Apart.antt =====
-- src/api.py: POST /tasks for two projects.
use cio_run_auto_orchestrato.Prelude.{
  ◌≢◌, String, true, false, Option, none, some, List, [], ◌∷◌, map, ◌≡◌, refl, sym, ap, ◌∙◌, ◌==◌,
  ==_refl, ==_iff, ==_of_ne, elem, arith, find, inl, inr,
}
use cio_run_auto_orchestrato.Effect.{Result, ok, err}
use cio_run_auto_orchestrato.Models.{Task, is_incomplete, new_task}
use cio_run_auto_orchestrato.Redis.{Env, Contents}
use cio_run_auto_orchestrato.RedisClient.{World}
use cio_run_auto_orchestrato.TaskQueue.Keys.{
  task_key, queue_key, project_tasks_key, digest_key, task_key-==,
}
use cio_run_auto_orchestrato.TaskQueue.Digest.{
  IsNulFree, digest_key_injective, project_tasks_key_injective,
}
use cio_run_auto_orchestrato.TaskQueue.Store.{
  find_incomplete, find_by_digest, parse_all, parse_raw, get_found,
}
use cio_run_auto_orchestrato.TaskQueue.Store.Records.{
  text_at, IsPlainId, others-saved, text_at-save, digest_key-task_key, get_lem, find_by_digest_lem,
  save_fresh,
}
use cio_run_auto_orchestrato.TaskQueue.Store.Lookup.{client-save}
use cio_run_auto_orchestrato.Api.{TaskCreateRequest, TaskResponse, create_task, task_of, from_task}
use cio_run_auto_orchestrato.Api.Create.{
  find_incomplete_lem, find_by_digest_state, tasks_of, create_task_existing, create_task_lem,
  add_task_lem, made, saved, pushed, text_at-pushed,
}

true_not_false : true ≢ false
true_not_false q = ground arith

-- The answer to a request, from what the two lookups return and the task that it would make.
abbrev answer : Result (Option Task) → Result (Option Task) → Task → Result TaskResponse
answer (err x) by_digest t = err x
answer (ok (some old)) by_digest t = ok (from_task old)
answer (ok none) (err x) t = err x
answer (ok none) (ok (some old)) t = ok (from_task old)
answer (ok none) (ok none) t = ok (from_task t)

module _ (e : Env) (uuid : String) (body : TaskCreateRequest) (w : World e) {u : String}
    (c : w.client ≡ some u) (fresh : text_at e w (task_key uuid) ≡ none) where
  answers_at :
      (open_task by_digest : Result (Option Task))
      → (find_incomplete e body.project_name w).0 ≡ open_task
      → (find_by_digest e body.project_name body.requirement w).0 ≡ by_digest
      → (create_task e uuid body w).0 ≡ answer open_task by_digest (made e uuid body w c)
  unfolding create_task
  answers_at (err x) d q q' = ground (arith, find_incomplete_lem e body.project_name w c)
  answers_at (ok (some t)) d q q' = ap (λ z. z.0) (create_task_existing e uuid body w c t (inl q))
  answers_at (ok none) (err x) q q' = ground (
    arith,
    find_incomplete_lem e body.project_name w c,
    find_by_digest_state e body.project_name body.requirement w c,
  )
  answers_at (ok none) (ok (some t)) q q' =
      ap (λ z. z.0) (create_task_existing e uuid body w c t (inr (q, q')))
  answers_at (ok none) (ok none) q q' =
      ap (λ z. z.0) (create_task_lem e uuid body w c q q' ∙ add_task_lem e uuid body w c fresh)

map_same {ℓ} :
    {A : Type ℓ} (f g : String → A) (ids : List String)
    → ((j : String) → elem j ids ≡ true → f j ≡ g j)
    → map f ids ≡ map g ids
unfolding elem
map_same f g [] same = refl
map_same f g (i ∷ ids) same =
    rw (same i (rw (==_refl i) refl), map_same f g ids (λ j m. same j (ground (arith, m)))) refl

module _ (e : Env) (no_collision : (s t : String) → e.sha256 s ≡ e.sha256 t → s ≡ t) (uuid : String)
    (body : TaskCreateRequest) (w : World e) {u : String} (c : w.client ≡ some u)
    (fresh : text_at e w (task_key uuid) ≡ none) (plain : IsPlainId uuid) (p r : String)
    (other : body.project_name ≢ p) (free : IsNulFree body.project_name) (free' : IsNulFree p) where
  abbrev behind : World e
  behind = pushed e uuid body w c

  abbrev IsOther : String → Type 0
  IsOther j = IsPlainId j × ((uuid == j) ≡ false)

  client-behind : behind.client ≡ some u
  unfolding task_of new_task
  client-behind = client-save e (made e uuid body w c) w c fresh

  clock-behind : behind.clock ≡ w.clock
  unfolding task_of new_task
  clock-behind = ap (λ z. z.1.clock) (save_fresh e (made e uuid body w c) w u c fresh)

  members-behind :
      e.smembers (project_tasks_key p) behind.db ≡ e.smembers (project_tasks_key p) w.db
  unfolding task_of new_task
  members-behind =
      let t = made e uuid body w c in
      let k = project_tasks_key p in
      let apart : (project_tasks_key body.project_name == k) ≡ false =
        ==_of_ne (project_tasks_key body.project_name) k
          (λ q. other (project_tasks_key_injective body.project_name p q)) in
      e.smembers_law k behind.db
      ∙ ap (λ (x : Contents). x.members k)
          (e.lpush_law queue_key (e.dump t) (saved e uuid body w c).db)
      ∙ others-saved e t w u k c fresh apart
      ∙ sym (e.smembers_law k w.db)

  text_at-behind :
      (k : String)
      → (digest_key e body.project_name body.requirement == k) ≡ false
      → (task_key uuid == k) ≡ false
      → text_at e behind k ≡ text_at e w k
  unfolding task_of new_task
  text_at-behind k not_digest not_record =
      text_at-pushed e uuid body w c k
      ∙ (text_at-save e (made e uuid body w c) w u k c fresh).1
      ∙ rw (not_digest, not_record) (ground arith)

  record-behind :
      (j : String) → IsOther j → text_at e behind (task_key j) ≡ text_at e w (task_key j)
  record-behind j (plain_j, new) =
      text_at-behind (task_key j)
        (digest_key-task_key e body.project_name body.requirement j plain_j)
        (task_key-== uuid j ∙ new)

  digest-behind : text_at e behind (digest_key e p r) ≡ text_at e w (digest_key e p r)
  digest-behind =
      text_at-behind (digest_key e p r)
        (==_of_ne (digest_key e body.project_name body.requirement) (digest_key e p r) (λ q.
          other
            (digest_key_injective e no_collision body.project_name p body.requirement r free free'
              q).0))
        (==_of_ne (task_key uuid) (digest_key e p r) (λ q. true_not_false (
          sym ((==_iff (digest_key e p r) (task_key uuid)).1 (sym q))
          ∙ digest_key-task_key e p r uuid plain)))

  tasks-behind :
      ((j : String) → elem j (e.smembers (project_tasks_key p) w.db) ≡ true → IsOther j)
      → tasks_of e behind p ≡ tasks_of e w p
  tasks-behind others =
      ap (λ ids. parse_all e (map (λ j. e.get (task_key j) behind.db) ids)) members-behind
      ∙ ap (parse_all e) (
          map_same (λ j. e.get (task_key j) behind.db) (λ j. e.get (task_key j) w.db)
            (e.smembers (project_tasks_key p) w.db)
            (λ j m.
              e.get_law (task_key j) behind.db
              ∙ record-behind j (others j m)
              ∙ sym (e.get_law (task_key j) w.db)))

  got_found :
      (o : Option String)
      → ((j : String) → o ≡ some j → IsOther j)
      → (get_found e o behind).0 ≡ (get_found e o w).0
  got_found none others = refl
  got_found (some j) others =
      ap (λ z. z.0) (get_lem e j behind u client-behind)
      ∙ ap (parse_raw e) (record-behind j (others j refl))
      ∙ sym (ap (λ z. z.0) (get_lem e j w u c))

  lookups-behind :
      ((j : String) → elem j (e.smembers (project_tasks_key p) w.db) ≡ true → IsOther j)
      → ((j : String) → text_at e w (digest_key e p r) ≡ some j → IsOther j)
      → ((find_incomplete e p behind).0 ≡ (find_incomplete e p w).0)
        × ((find_by_digest e p r behind).0 ≡ (find_by_digest e p r w).0)
  lookups-behind members_other digest_other = (
    ap (λ z. z.0) (find_incomplete_lem e p behind client-behind)
        ∙ ap (λ ts. ok (find (λ t. is_incomplete t.status) ts)) (tasks-behind members_other)
        ∙ sym (ap (λ z. z.0) (find_incomplete_lem e p w c)),
    ap (λ z. z.0) (find_by_digest_lem e p r behind u client-behind)
        ∙ ap (λ o. (get_found e o behind).0) digest-behind
        ∙ got_found (text_at e w (digest_key e p r)) digest_other
        ∙ sym (ap (λ z. z.0) (find_by_digest_lem e p r w u c)),
  )

module _ (e : Env) (no_collision : (s t : String) → e.sha256 s ≡ e.sha256 t → s ≡ t)
    (uuid uuid2 : String) (body body2 : TaskCreateRequest) (w : World e) {u : String}
    (c : w.client ≡ some u) (fresh : text_at e w (task_key uuid) ≡ none)
    (fresh2 : text_at e w (task_key uuid2) ≡ none) (plain : IsPlainId uuid)
    (plain2 : IsPlainId uuid2) (new : (uuid == uuid2) ≡ false) where
  -- With a client and where SHA-256 has no collision: a request that makes a new task changes
  -- nothing in the answer to the next request, if that is for another project, which may have tasks
  -- of its own. The ids are new and different, no id begins with `digest:`, and no project name
  -- holds a NUL.
  pub create_task_apart :
      (find_incomplete e body.project_name w).0 ≡ ok none
      → (find_by_digest e body.project_name body.requirement w).0 ≡ ok none
      → body.project_name ≢ body2.project_name
      → IsNulFree body.project_name
      → IsNulFree body2.project_name
      → ((j : String)
          → elem j (e.smembers (project_tasks_key body2.project_name) w.db) ≡ true
          → IsPlainId j × ((uuid == j) ≡ false))
      → ((j : String)
          → text_at e w (digest_key e body2.project_name body2.requirement) ≡ some j
          → IsPlainId j × ((uuid == j) ≡ false))
      → (create_task e uuid2 body2 (create_task e uuid body w).1).0
        ≡ (create_task e uuid2 body2 w).0
  create_task_apart q q' other free free' members_other digest_other =
      let p = body2.project_name in
      let r = body2.requirement in
      let z = pushed e uuid body w c in
      let c' = client-behind e no_collision uuid body w c fresh plain p r other free free' in
      let same =
        lookups-behind e no_collision uuid body w c fresh plain p r other free free' members_other
          digest_other in
      let fresh' =
        record-behind e no_collision uuid body w c fresh plain p r other free free' uuid2
          (plain2, new)
        ∙ fresh2 in
      ap (λ x. (create_task e uuid2 body2 x.1).0)
        (create_task_lem e uuid body w c q q' ∙ add_task_lem e uuid body w c fresh)
      ∙ answers_at e uuid2 body2 z c' fresh' _ _ same.0 same.1
      ∙ ap
          (λ k. answer (find_incomplete e p w).0 (find_by_digest e p r w).0 (task_of uuid2 k body2))
          (clock-behind e no_collision uuid body w c fresh plain p r other free free')
      ∙ sym (answers_at e uuid2 body2 w c fresh2 _ _ refl refl)
