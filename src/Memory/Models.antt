-- ===== src/Memory/Models.antt =====
-- src/models.py: the task record of the first phase. Its enumerations are those of
-- src/models/enums.py, value for value.
use cio_run_auto_orchestrato.Prelude.{String, ℕ, Bool, Option, none, some}
use cio_run_auto_orchestrato.Models.{
  TaskMode, TaskStatus, unknown, pending, is_terminal_status, is_interrupted, CioEvent,
}

pub record Task : Type 0 where
  pub task_id : String
  pub project_name : String
  pub requirement : String
  pub mode : TaskMode
  pub status : TaskStatus
  pub created_at : ℕ
  pub updated_at : ℕ
  pub retry_count : ℕ
  pub status_detail : String

unfoldable pub new_task : String → ℕ → String → String → Task
new_task uuid now project_name requirement = record {
  task_id = uuid;
  project_name = project_name;
  requirement = requirement;
  mode = unknown;
  status = pending;
  created_at = now;
  updated_at = now;
  retry_count = 0;
  status_detail = "";
}

unfoldable pub touch : ℕ → Task → Task
touch now t = record t { updated_at = now }

unfoldable pub transition : ℕ → TaskStatus → String → Task → Task
unfolding touch
transition now new_status detail t =
    touch now (record t { status = new_status; status_detail = detail })

unfoldable pub is_terminal : Task → Bool
is_terminal t = is_terminal_status t.status

unfoldable pub is_resumable : Task → Bool
is_resumable t = is_interrupted t.status

pub record TaskResponse : Type 0 where
  pub task_id : String
  pub project_name : String
  pub requirement : String
  pub mode : TaskMode
  pub status : TaskStatus
  pub created_at : ℕ
  pub updated_at : ℕ
  pub retry_count : ℕ
  pub status_detail : String

unfoldable pub from_task : Task → TaskResponse
from_task t = record {
  task_id = t.task_id;
  project_name = t.project_name;
  requirement = t.requirement;
  mode = t.mode;
  status = t.status;
  created_at = t.created_at;
  updated_at = t.updated_at;
  retry_count = t.retry_count;
  status_detail = t.status_detail;
}

-- Metadata are the text of a JSON object.
pub record SsePayload : Type 0 where
  pub message : String
  pub metadata : String
  pub timestamp : String

abbrev attribute : String → Option String → String
attribute default none = default
attribute default (some s) = s

unfoldable pub from_cio_event : CioEvent → SsePayload
from_cio_event event = record {
  message = attribute "" event.message;
  metadata = attribute "{}" event.metadata;
  timestamp = attribute "" event.timestamp;
}
