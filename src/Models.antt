-- ===== src/Models.antt =====
-- src/models/enums.py and src/models/task.py: the modes, the statuses and the task record.
use cio_run_auto_orchestrato.Prelude.{String, ℕ, Bool, true, false, Option}

pub data TaskMode : Type 0 where
  new resume secondary unknown : TaskMode

pub data TaskStatus : Type 0 where
  pending running success failed interrupted : TaskStatus

-- The values of the two enumerations.
abbrev pub mode_value : TaskMode → String
mode_value new = "new"
mode_value resume = "resume"
mode_value secondary = "secondary"
mode_value unknown = "unknown"

abbrev pub status_value : TaskStatus → String
status_value pending = "pending"
status_value running = "running"
status_value success = "success"
status_value failed = "failed"
status_value interrupted = "interrupted"

-- Times are numbers of microseconds. A count of retries starts at 0 and only grows.
pub record Task : Type 0 where
  pub task_id : String
  pub project_name : String
  pub requirement : String
  pub work_dir : String
  pub config_json : String
  pub mode : TaskMode
  pub status : TaskStatus
  pub created_at : ℕ
  pub updated_at : ℕ
  pub retry_count : ℕ
  pub status_detail : String

-- `Task(...)`: the fields that are not given take their defaults.
unfoldable pub new_task : String → ℕ → String → String → String → String → Task
new_task uuid now project_name requirement work_dir config_json = record {
  task_id = uuid;
  project_name = project_name;
  requirement = requirement;
  work_dir = work_dir;
  config_json = config_json;
  mode = unknown;
  status = pending;
  created_at = now;
  updated_at = now;
  retry_count = 0;
  status_detail = "";
}

unfoldable pub touch : ℕ → Task → Task
touch now t = record t { updated_at = now }

unfoldable pub transition : ℕ → TaskStatus → String → Task → Task
unfolding touch
transition now new_status detail t =
    touch now (record t { status = new_status; status_detail = detail })

abbrev pub is_terminal_status : TaskStatus → Bool
is_terminal_status success = true
is_terminal_status failed = true
is_terminal_status _ = false

unfoldable pub is_terminal : Task → Bool
is_terminal t = is_terminal_status t.status

abbrev pub is_interrupted : TaskStatus → Bool
is_interrupted interrupted = true
is_interrupted _ = false

abbrev pub is_running : TaskStatus → Bool
is_running running = true
is_running _ = false

-- `status in (PENDING, RUNNING)`.
abbrev pub is_incomplete : TaskStatus → Bool
is_incomplete pending = true
is_incomplete running = true
is_incomplete _ = false

unfoldable pub is_resumable : Task → Bool
is_resumable t = is_interrupted t.status

-- `getattr(event, "event_type", ...)`: no such attribute, `None`, a member of an enumeration with
-- its value, or another object with its text.
pub data TypeAttr : Type 0 where
  missing is_none : TypeAttr
  member other : String → TypeAttr

-- An event of the engine. An attribute that it lacks is `none`; metadata are the text of a JSON
-- object.
pub record CioEvent : Type 0 where
  pub event_type : TypeAttr
  pub message : Option String
  pub metadata : Option String
  pub timestamp : Option String

-- What is published, and what a subscriber is given (`_EventProxy`).
pub record Payload : Type 0 where
  pub event_type : String
  pub message : String
  pub metadata : String
  pub timestamp : String
