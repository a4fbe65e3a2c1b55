-- ===== src/TaskQueue/Store/Records.antt =====
-- src/task_queue/store.py: the records of tasks as a map from ids, and what the writes do to it.
use cio_run_auto_orchestrato.Prelude.{
  String, false, Option, none, some, ◌≡◌, refl, ap, ◌∙◌, ◌==◌, ◌&&◌, ◌||◌, elem, ==_iff, arith,
  is_truthy, if◌then◌else◌, Bool-cases, inl, inr, starts_with,
}
use cio_run_auto_orchestrato.Effect.{ok}
use cio_run_auto_orchestrato.Models.{Task, is_terminal}
use cio_run_auto_orchestrato.Redis.{Env}
use cio_run_auto_orchestrato.RedisClient.{World}
use cio_run_auto_orchestrato.TaskQueue.Keys.{
  task_key, project_tasks_key, digest_key, digest_key-starts,
}
use cio_run_auto_orchestrato.TaskQueue.Store.{
  save, async_update, get, parse_raw, find_by_digest, get_found,
}

-- The ids that `uuid4().hex` makes do not look like the rest of a digest key.
abbrev pub IsPlainId : String → Type 0
IsPlainId id = starts_with (task_key id) "cio:task:digest:" ≡ false

module _ (e : Env) where
  -- The text that the server holds under a key.
  abbrev pub text_at : World e → String → Option String
  text_at w k = (e.observe w.db).strings k

  pub digest_key-task_key :
      (p r id : String) → IsPlainId id → (digest_key e p r == task_key id) ≡ false
  digest_key-task_key p r id h =
      ground (arith, ==_iff (digest_key e p r) (task_key id), starts, digest_key-starts e p r)
    where
      starts :
          digest_key e p r ≡ task_key id
          → starts_with (digest_key e p r) "cio:task:digest:"
            ≡ starts_with (task_key id) "cio:task:digest:"
      starts q = ap (λ k. starts_with k "cio:task:digest:") q

  -- The server behind a `save` that went through.
  abbrev inserted : Task → e.Db → e.Db
  inserted t db =
      e.sadd (project_tasks_key t.project_name) t.task_id
        (e.set_nx (task_key t.task_id) (e.dump t) db).1

  abbrev indexed : Task → e.Db → e.Db
  indexed t db =
      if is_truthy t.requirement
      then e.set (digest_key e t.project_name t.requirement) t.task_id db
      else db

  pub save_fresh :
      (t : Task) (w : World e) (u : String)
      → w.client ≡ some u
      → text_at w (task_key t.task_id) ≡ none
      → save e t w ≡ (ok tt, record w { db = indexed t (inserted t w.db) })
  unfolding save
  save_fresh t w u c fresh = ground (arith, e.set_nx_law (task_key t.task_id) (e.dump t) w.db)

  strings-inserted :
      (t : Task) (db : e.Db) (k : String)
      → (e.observe db).strings (task_key t.task_id) ≡ none
      → (e.observe (inserted t db)).strings k
        ≡ (if task_key t.task_id == k then some (e.dump t) else (e.observe db).strings k)
  strings-inserted t db k fresh = simp e.sadd_strings (simp e.set_nx_state (simp fresh))

  strings-indexed :
      (t : Task) (db : e.Db) (k : String)
      → (e.observe (indexed t db)).strings k ≡ (
          if is_truthy t.requirement && (digest_key e t.project_name t.requirement == k)
          then some t.task_id
          else (e.observe db).strings k)
  strings-indexed t db k = elim (Bool-cases (is_truthy t.requirement)) [
    | inl r ↦ simp (r, e.set_law)
    | inr r ↦ simp r
  ]

  pub text_at-save :
      (t : Task) (w : World e) (u k : String)
      → w.client ≡ some u
      → text_at w (task_key t.task_id) ≡ none
      → ((save e t w).0 ≡ ok tt)
        × (text_at (save e t w).1 k ≡ (
            if is_truthy t.requirement && (digest_key e t.project_name t.requirement == k)
            then some t.task_id
            else if task_key t.task_id == k
            then some (e.dump t)
            else text_at w k))
  text_at-save t w u k c fresh =
      rw (save_fresh t w u c fresh) (refl, simp (strings-indexed, strings-inserted t w.db k fresh))

  items-indexed :
      (t : Task) (db : e.Db) (k : String)
      → (e.observe (indexed t db)).items k ≡ (e.observe db).items k
  items-indexed t db k = elim (Bool-cases (is_truthy t.requirement)) [
    | inl r ↦ simp (r, e.set_law)
    | inr r ↦ simp r
  ]

  members-indexed :
      (t : Task) (db : e.Db) (k : String)
      → (e.observe (indexed t db)).members k ≡ (e.observe db).members k
  members-indexed t db k = elim (Bool-cases (is_truthy t.requirement)) [
    | inl r ↦ simp (r, e.set_law)
    | inr r ↦ simp r
  ]

  pub items-saved :
      (t : Task) (w : World e) (u k : String)
      → w.client ≡ some u
      → text_at w (task_key t.task_id) ≡ none
      → (e.observe (save e t w).1.db).items k ≡ (e.observe w.db).items k
  items-saved t w u k c fresh =
      rw (save_fresh t w u c fresh)
        (simp (items-indexed, e.sadd_items) (simp e.set_nx_state (simp fresh)))

  pub members-saved :
      (t : Task) (w : World e) (u p j : String)
      → w.client ≡ some u
      → text_at w (task_key t.task_id) ≡ none
      → elem j ((e.observe (save e t w).1.db).members p) ≡ (
          (project_tasks_key t.project_name == p && t.task_id == j)
          || elem j ((e.observe w.db).members p))
  members-saved t w u p j c fresh =
      rw (save_fresh t w u c fresh)
        (simp (members-indexed, e.sadd_members) (simp e.set_nx_state (simp fresh)))

  -- The set of another project.
  pub others-saved :
      (t : Task) (w : World e) (u k : String)
      → w.client ≡ some u
      → text_at w (task_key t.task_id) ≡ none
      → (project_tasks_key t.project_name == k) ≡ false
      → (e.observe (save e t w).1.db).members k ≡ (e.observe w.db).members k
  others-saved t w u k c fresh other = rw (save_fresh t w u c fresh) (
      members-indexed t (inserted t w.db) k
      ∙ e.sadd_others (project_tasks_key t.project_name) t.task_id
          (e.set_nx (task_key t.task_id) (e.dump t) w.db).1 k other
      ∙ simp e.set_nx_state (simp fresh))

  -- The server behind an update.
  abbrev overwritten : Task → e.Db → e.Db
  overwritten t db = e.set (task_key t.task_id) (e.dump t) db

  abbrev unindexed : Task → e.Db → e.Db
  unindexed t db =
      if is_terminal t && is_truthy t.requirement
      then e.del (digest_key e t.project_name t.requirement) db
      else db

  pub async_update_lem :
      (t : Task) (w : World e) (u : String)
      → w.client ≡ some u
      → async_update e t w ≡ (ok tt, record w { db = unindexed t (overwritten t w.db) })
  unfolding async_update
  async_update_lem t w u c = ground arith

  strings-unindexed :
      (t : Task) (db : e.Db) (k : String)
      → (e.observe (unindexed t db)).strings k ≡ (
          if (is_terminal t && is_truthy t.requirement)
            && (digest_key e t.project_name t.requirement == k)
          then none
          else (e.observe db).strings k)
  strings-unindexed t db k = elim (Bool-cases (is_terminal t && is_truthy t.requirement)) [
    | inl r ↦ simp (r, e.del_law)
    | inr r ↦ simp r
  ]

  items-unindexed :
      (t : Task) (db : e.Db) (k : String)
      → (e.observe (unindexed t db)).items k ≡ (e.observe db).items k
  items-unindexed t db k = elim (Bool-cases (is_terminal t && is_truthy t.requirement)) [
    | inl r ↦ simp (r, e.del_law)
    | inr r ↦ simp r
  ]

  pub items-async_update :
      (t : Task) (w : World e) (u k : String)
      → w.client ≡ some u
      → (e.observe (async_update e t w).1.db).items k ≡ (e.observe w.db).items k
  items-async_update t w u k c = rw (async_update_lem t w u c) (simp (items-unindexed, e.set_law))

  pub text_at-async_update :
      (t : Task) (w : World e) (u k : String)
      → w.client ≡ some u
      → text_at (async_update e t w).1 k ≡ (
          if (is_terminal t && is_truthy t.requirement)
            && (digest_key e t.project_name t.requirement == k)
          then none
          else if task_key t.task_id == k
          then some (e.dump t)
          else text_at w k)
  text_at-async_update t w u k c =
      rw (async_update_lem t w u c) (simp (strings-unindexed, e.set_law))

  pub get_lem :
      (id : String) (w : World e) (u : String)
      → w.client ≡ some u
      → get e id w ≡ (parse_raw e (text_at w (task_key id)), w)
  unfolding get
  get_lem id w u c = ground (arith, e.get_law (task_key id) w.db)

  pub find_by_digest_lem :
      (p r : String) (w : World e) (u : String)
      → w.client ≡ some u
      → find_by_digest e p r w ≡ get_found e (text_at w (digest_key e p r)) w
  unfolding find_by_digest
  find_by_digest_lem p r w u c = rw (← e.get_law (digest_key e p r) w.db) (ground arith)
