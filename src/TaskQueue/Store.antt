-- ===== src/TaskQueue/Store.antt =====
-- The coroutines of `TaskStore` in src/task_queue/store.py. The reply of SMEMBERS, whose order the
-- server chooses, fixes the order in which the tasks of a project are seen.
pub mod Records
pub mod Lookup
use cio_run_auto_orchestrato.Prelude.{
  String, Bool, Option, none, some, List, [], ◌∷◌, map, ◌&&◌, find, any, is_truthy, concat,
  if◌then◌else◌,
}
use cio_run_auto_orchestrato.Effect.{
  value_error, validation_error, Result, ok, err, Action, pure, raise, when, ◌>>=◌, ◌>>◌,
}
use cio_run_auto_orchestrato.Models.{Task, is_terminal, is_running, is_incomplete}
use cio_run_auto_orchestrato.Redis.{Env}
use cio_run_auto_orchestrato.RedisClient.{World, get_redis, query, mutate, command}
use cio_run_auto_orchestrato.TaskQueue.Keys.{task_key, project_tasks_key, digest_key}

module _ (e : Env) where
  unfoldable pub save : Task → Action (World e) (Unit {0})
  save t = do
    get_redis
    set_result ← command (e.set_nx (task_key t.task_id) (e.dump t))
    if set_result
        then (do
          mutate (e.sadd (project_tasks_key t.project_name) t.task_id)
          when (is_truthy t.requirement)
              (mutate (e.set (digest_key e t.project_name t.requirement) t.task_id)))
        else raise (value_error (concat "Task '" (concat t.task_id "' already exists")))

  unfoldable pub async_update : Task → Action (World e) (Unit {0})
  async_update t = do
    get_redis
    mutate (e.set (task_key t.task_id) (e.dump t))
    when (is_terminal t && is_truthy t.requirement)
        (mutate (e.del (digest_key e t.project_name t.requirement)))

  -- A text that does not validate raises.
  abbrev pub parsed : Option Task → Result (Option Task)
  parsed none = err validation_error
  parsed (some t) = ok (some t)

  abbrev pub parse_raw : Option String → Result (Option Task)
  parse_raw none = ok none
  parse_raw (some raw) = parsed (e.validate raw)

  unfoldable pub get : String → Action (World e) (Option Task)
  get task_id = do get_redis; raw ← query (e.get (task_key task_id)); λ w. (parse_raw raw, w)

  -- The loop over the replies of the pipeline: what is missing or does not parse is passed over.
  abbrev pub keep : Option Task → List Task → List Task
  keep none ts = ts
  keep (some t) ts = t ∷ ts

  abbrev pub parse_all : List (Option String) → List Task
  parse_all [] = []
  parse_all (none ∷ raws) = parse_all raws
  parse_all (some raw ∷ raws) = keep (e.validate raw) (parse_all raws)

  unfoldable pub list_by_project : String → Action (World e) (List Task)
  list_by_project project_name = do
    get_redis
    task_ids ← query (e.smembers (project_tasks_key project_name))
    query (λ db. parse_all (map (λ tid. e.get (task_key tid) db) task_ids))

  unfoldable pub has_running_task : String → Action (World e) Bool
  has_running_task project_name = do
    tasks ← list_by_project project_name
    pure (any (λ t. is_running t.status) tasks)

  unfoldable pub find_incomplete : String → Action (World e) (Option Task)
  find_incomplete project_name = do
    tasks ← list_by_project project_name
    pure (find (λ t. is_incomplete t.status) tasks)

  abbrev pub get_found : Option String → Action (World e) (Option Task)
  get_found none = pure none
  get_found (some task_id) = get task_id

  unfoldable pub find_by_digest : String → String → Action (World e) (Option Task)
  find_by_digest project_name requirement = do
    get_redis
    task_id ← query (e.get (digest_key e project_name requirement))
    get_found task_id
