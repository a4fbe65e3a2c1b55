-- ===== src/Api.antt =====
-- src/api.py and the request and response of src/models/api_schemas.py: the endpoints that create a
-- task and return one.
pub mod Request
pub mod Admitted
pub mod Configured
pub mod Create
pub mod Twice
pub mod Apart
pub mod Stream
use cio_run_auto_orchestrato.Prelude.{String, ℕ, Option, none, some, [], ◌∷◌, concat, Dict}
use cio_run_auto_orchestrato.Effect.{http_exception, Action, pure, raise, ◌>>=◌, ◌>>◌}
use cio_run_auto_orchestrato.Models.{Task, TaskMode, TaskStatus, new_task}
use cio_run_auto_orchestrato.Redis.{Env}
use cio_run_auto_orchestrato.RedisClient.{World}
use cio_run_auto_orchestrato.TaskQueue.Store.{save, get, find_incomplete, find_by_digest}
use cio_run_auto_orchestrato.TaskQueue.Queue.{enqueue}

-- A body that has passed the validation.
pub record TaskCreateRequest : Type 0 where
  pub project_name : String
  pub requirement : String
  pub work_dir : Option String
  pub config_json : Option String

pub record TaskResponse : Type 0 where
  pub task_id : String
  pub project_name : String
  pub requirement : String
  pub work_dir : String
  pub config_json : String
  pub mode : TaskMode
  pub status : TaskStatus
  pub created_at : ℕ
  pub updated_at : ℕ
  pub retry_count : ℕ
  pub status_detail : String

unfoldable pub from_task : Task → TaskResponse
from_task t = record {
  task_id = t.task_id;
  project_name = t.project_name;
  requirement = t.requirement;
  work_dir = t.work_dir;
  config_json = t.config_json;
  mode = t.mode;
  status = t.status;
  created_at = t.created_at;
  updated_at = t.updated_at;
  retry_count = t.retry_count;
  status_detail = t.status_detail;
}

-- `s or ""`.
abbrev pub or_empty : Option String → String
or_empty none = ""
or_empty (some s) = s

unfoldable pub task_of : String → ℕ → TaskCreateRequest → Task
task_of uuid now body =
    new_task uuid now body.project_name body.requirement (or_empty body.work_dir)
      (or_empty body.config_json)

module _ (e : Env) where
  -- `uuid` is the id that `uuid4` makes for this call.
  abbrev pub add_task : String → TaskCreateRequest → Action (World e) TaskResponse
  add_task uuid body w =
      let t = task_of uuid w.clock body in (do save e t; enqueue e t; pure (from_task t)) w

  abbrev pub digest_unless : Option Task → TaskCreateRequest → Action (World e) (Option Task)
  digest_unless (some t) body = pure (some t)
  digest_unless none body = find_by_digest e body.project_name body.requirement

  abbrev pub respond : Option Task → String → TaskCreateRequest → Action (World e) TaskResponse
  respond (some t) uuid body = pure (from_task t)
  respond none uuid body = add_task uuid body

  unfoldable pub create_task : String → TaskCreateRequest → Action (World e) TaskResponse
  create_task uuid body = do
    existing ← find_incomplete e body.project_name
    existing ← digest_unless existing body
    respond existing uuid body

  abbrev pub found_or_404 : String → Option Task → Action (World e) TaskResponse
  found_or_404 task_id none =
      raise (http_exception 404 (concat "Task '" (concat task_id "' not found")))
  found_or_404 task_id (some t) = pure (from_task t)

  unfoldable pub get_task : String → Action (World e) TaskResponse
  get_task task_id = do task ← get e task_id; found_or_404 task_id task

-- The body of the answer of GET /health.
abbrev pub health : Dict String
health = ("status", "ok") ∷ []
