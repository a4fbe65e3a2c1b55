-- ===== src/Tests.antt =====
-- Concrete inputs for runs of the model: a connected process with an empty server, a request, a
-- task, and a round whose engine is busy.
mod Server
mod Work
mod Bus
mod Engines
mod Schema
mod InProcess
mod Retries
mod Process
mod Restart
mod Pool
mod Crash
mod Pairs
mod Floor
mod Apart
mod Accepted
mod Turns
use cio_run_auto_orchestrato.Prelude.{false, true, none, some, [], refl, concat, starts_with}
use cio_run_auto_orchestrato.Effect.{ok, err, retriable_error}
use cio_run_auto_orchestrato.Models.{Task, running, new}
use cio_run_auto_orchestrato.Redis.Demo.{memory, empty}
use cio_run_auto_orchestrato.RedisClient.{World}
use cio_run_auto_orchestrato.TaskQueue.Keys.{task_key}
use cio_run_auto_orchestrato.TaskQueue.Store.Records.{IsPlainId}
use cio_run_auto_orchestrato.Api.{TaskCreateRequest}
use cio_run_auto_orchestrato.Worker.State.{Runtime, Held, completed, timed_out}
use cio_run_auto_orchestrato.Worker.Stream.{Session}
use cio_run_auto_orchestrato.Worker.Execute.{Round}

abbrev pub start : World memory
start = record { client = some "redis://localhost"; db = empty; clock = 5 }

abbrev pub body : TaskCreateRequest
body = record {
  project_name = "shop";
  requirement = "build it";
  work_dir = none;
  config_json = none;
}

abbrev pub task : Task
task = record {
  task_id = "t1";
  project_name = "shop";
  requirement = "build it";
  work_dir = "";
  config_json = "";
  mode = new;
  status = running;
  created_at = 3;
  updated_at = 4;
  retry_count = 1;
  status_detail = "";
}

abbrev pub runtime : Runtime
runtime = record {
  update_wait = λ n. completed;
  publish_wait = λ n. true;
  executor_loop = true;
  one_timeout_error = true;
  stream_late = false;
}

abbrev pub session : Session
session = record {
  scheduler = record {
    project_exists = λ s. ok false;
    set_project_name = λ s. ok tt;
    checkpoint_exists = λ s. ok false;
  };
  run_stream = λ s p. ok (record { events = []; ending = err (retriable_error "engine is busy") });
  resume_stream = λ s p. ok (record { events = []; ending = ok tt });
  run_secondary_stream = λ s p. ok (record { events = []; ending = ok tt });
}

abbrev pub round : Round
round = record {
  max_retries = 3;
  poll_interval = 500;
  lock_ttl = 3600;
  stream_timeout = 0;
  lock_token = "tok";
  factory = λ w c. ok session;
  runtime = runtime;
  beats = 1;
}

-- On the thread of the event loop.
abbrev pub blocked_round : Round
blocked_round = record round { runtime = record runtime { update_wait = λ n. timed_out } }

abbrev pub held : Held memory
held = record { world = start; task = task; updates = 0; waiting = 0 }

pub plain_t1 : IsPlainId "t1"
unfolding task_key concat starts_with
plain_t1 = refl
