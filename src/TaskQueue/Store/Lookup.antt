-- ===== src/TaskQueue/Store/Lookup.antt =====
-- src/task_queue/store.py: `save` as a reader sees it through `get`, and the client behind the writes.
use cio_run_auto_orchestrato.Prelude.{String, none, some, ◌≡◌, ◌==◌, arith, concat, if◌then◌else◌}
use cio_run_auto_orchestrato.Effect.{ok, err, value_error}
use cio_run_auto_orchestrato.Models.{Task}
use cio_run_auto_orchestrato.Redis.{Env}
use cio_run_auto_orchestrato.RedisClient.{World}
use cio_run_auto_orchestrato.TaskQueue.Keys.{task_key, task_key-==}
use cio_run_auto_orchestrato.TaskQueue.Store.{save, async_update, get}
use cio_run_auto_orchestrato.TaskQueue.Store.Records.{
  async_update_lem, text_at, IsPlainId, digest_key-task_key, save_fresh, text_at-save, get_lem,
}

module _ (e : Env) (t : Task) (w : World e) {u : String} (c : w.client ≡ some u) where
  pub client-save : text_at e w (task_key t.task_id) ≡ none → (save e t w).1.client ≡ some u
  client-save fresh = rw (save_fresh e t w u c fresh) c

  pub client-async_update : (async_update e t w).1.client ≡ some u
  client-async_update = rw (async_update_lem e t w u c) c

  -- With a client: a task that is saved under a new id is what `get` returns for that id, and `get`
  -- returns for any other id what it returned before. The ids do not begin with `digest:`.
  pub get-save :
      IsPlainId t.task_id
      → text_at e w (task_key t.task_id) ≡ none
      → (j : String) → IsPlainId j
      → ((save e t w).0 ≡ ok tt)
        × ((get e j (save e t w).1).0 ≡ (if t.task_id == j then ok (some t) else (get e j w).0))
  get-save plain fresh j plain_j = (
    (text_at-save e t w u "" c fresh).0,
    rw
        (
          get_lem e j (save e t w).1 u (client-save fresh),
          get_lem e j w u c,
          (text_at-save e t w u (task_key j) c fresh).1,
          digest_key-task_key e t.project_name t.requirement j plain_j,
          task_key-==,
        )
        (ground (arith, e.validate_law t)),
  )

  -- With a client: a task whose id is taken is refused with a ValueError, and the server holds what
  -- it held.
  pub save_duplicate :
      {raw : String}
      → text_at e w (task_key t.task_id) ≡ some raw
      → ((save e t w).0 ≡ err (value_error (concat "Task '" (concat t.task_id "' already exists"))))
        × (e.observe (save e t w).1.db ≡ e.observe w.db)
  unfolding save
  save_duplicate taken =
      let refused = e.set_nx_law (task_key t.task_id) (e.dump t) w.db in
      let kept = e.set_nx_state (task_key t.task_id) (e.dump t) w.db in (ground arith, ground arith)
