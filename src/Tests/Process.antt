-- ===== src/Tests/Process.antt =====
-- Runs of src/config.py and src/main.py.
use Prim.Native.Nat.{◌≤◌, ◌<◌}
use cio_run_auto_orchestrato.Prelude.{
  String, ℕ, ◌*◌, true, false, Option, none, some, List, [], ◌∷◌, ◌≡◌, refl, ◌==◌, arith,
  if◌then◌else◌,
}
use cio_run_auto_orchestrato.Effect.{Exn, Result, ok, err, timeout_error}
use cio_run_auto_orchestrato.EngineFactory.Strip.{strip, strip_left, strip_right}
use cio_run_auto_orchestrato.ConfigSchema.Json.{pos, digits}
use cio_run_auto_orchestrato.Config.{Fraction, Settings, read_settings}
use cio_run_auto_orchestrato.Config.Heartbeat.{heartbeat_within_lifetime}
use cio_run_auto_orchestrato.Redis.Demo.{memory}
use cio_run_auto_orchestrato.Recovery.{last_page}
use cio_run_auto_orchestrato.Main.{
  Event, posted, asked, begun, turned, shut_down, cancelled, started, happen, run_app, async_main,
}
use cio_run_auto_orchestrato.Main.Connected.{happen-IsConnected, async_main_closes}
use mathlib.Core.Bool.{false≢true}
use cio_run_auto_orchestrato.Prelude.{sym, ap, ◌⊎◌}
use cio_run_auto_orchestrato.Api.{create_task}
use cio_run_auto_orchestrato.Worker.Execute.{turn}
use cio_run_auto_orchestrato.Models.{Task, running, failed}
use cio_run_auto_orchestrato.TaskQueue.Keys.{task_key}
use cio_run_auto_orchestrato.TaskQueue.Store.Records.{text_at}
use cio_run_auto_orchestrato.TaskQueue.Queue.Fifo.{waiting}
use cio_run_auto_orchestrato.Main.Served.{posted_task_times_out}
use cio_run_auto_orchestrato.Tests.Server.{no_project, no_digest}
use cio_run_auto_orchestrato.Tests.Work.{is_ok}
use cio_run_auto_orchestrato.Tests.{body, plain_t1, start, round, blocked_round}
use cio_run_auto_orchestrato.Tests.Schema.{pydantic, loads, request}

abbrev float : String → Result Fraction
float s = ok record { numerator = pos 1; denominator = 2 }

abbrev env : String → Option String
env name =
    if name == "CIO_API_KEY" then some "key" else (if name == "LOCK_TTL" then some " 60 " else none)

abbrev half : Fraction
half = record { numerator = pos 1; denominator = 2 }

abbrev settings_read : Settings
settings_read = record {
  cio_api_key = "key";
  cio_model = "GPT-4.1";
  cio_llm_url = "https://api.poe.com";
  cio_work_dir = "./workspace/solutions";
  cio_config_path = "";
  worker_concurrency = pos 4;
  worker_poll_interval = half;
  max_retries = pos 3;
  api_host = "0.0.0.0";
  api_port = pos 1577;
  redis_url = "redis://localhost:6379/0";
  lock_ttl = pos 60;
  lock_heartbeat_interval = record { numerator = pos 60; denominator = 3 };
  stream_timeout = half;
  sse_keepalive_interval = half;
  sse_max_duration = half;
}

reads : read_settings float env ≡ ok settings_read
unfolding read_settings digits strip strip_left strip_right
reads = refl

heartbeat_within_lifetime_example : (m : ℕ) × (pos 60 ≡ pos m) × (1 ≤ m) × (2 * m < 60 * 3)
heartbeat_within_lifetime_example =
    heartbeat_within_lifetime float env reads refl refl (omega arith)

abbrev events : List Event
events =
    posted "t1" request ∷ begun 0 ∷ turned 0 round ∷ asked "t1" ∷ shut_down ∷ cancelled 0 round ∷ []

happen-IsConnected_example :
    (happen pydantic loads events (started pydantic loads 1 start)).world.client
    ≡ some "redis://localhost"
happen-IsConnected_example =
    happen-IsConnected pydantic loads "redis://localhost" events (started pydantic loads 1 start)
      refl

async_main_closes_example :
    let app = run_app pydantic loads 1 (last_page []) events (ok tt) in
    let z = app (record start { client = some "redis://other" }) in
    (async_main true "redis://other" app start ≡ (z.0, record z.1 { client = none }))
    × ((x : Exn) × (async_main false "redis://other" app start
          ≡ (err x, record start { client = some "redis://other" })))
async_main_closes_example =
    async_main_closes pydantic loads "redis://other" 1 (last_page []) events (ok tt) start

posted_task_times_out_example :
    let z = turn blocked_round (create_task memory "t1" body start).1 in
    (z.0 ≡ err timeout_error)
    × (waiting memory z.1 ≡ [])
    × ((t : Task) × (text_at memory z.1 (task_key "t1") ≡ some (memory.dump t))
        × (t.task_id ≡ "t1")
        × (t.project_name ≡ "shop")
        × ((t.status ≡ running) ⊎ (t.status ≡ failed)))
posted_task_times_out_example =
    posted_task_times_out memory "t1" body start refl refl blocked_round plain_t1 (λ n. refl)
      no_project no_digest refl refl (λ m q. false≢true (sym (ap is_ok q)))
