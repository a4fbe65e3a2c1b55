-- ===== src/Main.antt =====
-- src/main.py: the start of the process, its run and its end. The run is given by what happens in it,
-- in order: requests, what the workers of the pool do, and the shutdown. How the server ends, which
-- the signals make it do, is a parameter.
pub mod Pool
mod Steady
pub mod Connected
pub mod Served
mod Stopping
pub mod Shutdown
pub mod Crash
pub mod Accepted
pub mod Sound
pub mod Restored
pub mod Restart
use cio_run_auto_orchestrato.Prelude.{
  String, ℕ, Bool, true, false, List, [], ◌∷◌, if◌then◌else◌, Dict,
}
use cio_run_auto_orchestrato.Effect.{Result, ok, err, Action}
use cio_run_auto_orchestrato.Redis.{Env}
use cio_run_auto_orchestrato.RedisClient.{World, init_redis, close_redis}
use cio_run_auto_orchestrato.Recovery.{Scan, recover_stranded_tasks}
use cio_run_auto_orchestrato.ConfigSchema.Json.{Json}
use cio_run_auto_orchestrato.ConfigSchema.Check.{Pydantic}
use cio_run_auto_orchestrato.Api.{TaskResponse, get_task}
use cio_run_auto_orchestrato.Api.Request.{post_task}
use cio_run_auto_orchestrato.Worker.Execute.{Round, released_or, turn}
use cio_run_auto_orchestrato.Main.Pool.{
  Phase, created, in_turn, ended, Crew, create_tasks, begin_run, end_turn, stop_all, cancel,
}

-- A request to create a task, with the id that `uuid4` makes for it; a request for a task; the first
-- step of a worker; the end of a turn of its loop; the shutdown event, which the pool awaits; and the
-- cancellation of a worker that is still in a turn, or has not begun, 30 seconds later.
pub data Event : Type 0 where
  posted : String → Dict Json → Event
  asked : String → Event
  begun : ℕ → Event
  turned : ℕ → Round → Event
  shut_down : Event
  cancelled : ℕ → Round → Event

-- The process, its workers, and whether the pool has told them to stop.
pub record App (e : Env) : Type 0 where
  pub world : World e
  pub crew : Crew
  pub shut : Bool

module _ {e : Env} where
  -- A request that raises is answered with its error, and the server goes on.
  abbrev pub answered : App e → Result TaskResponse × World e → App e
  answered s (res, w) = record s { world = w }

  abbrev pub after_turn : ℕ → App e → Result (Unit {0}) × World e → App e
  after_turn i s (res, w) = record s { world = w; crew = end_turn i res s.crew }

  abbrev pub turn_at : Phase → ℕ → Round → App e → App e
  turn_at created i r s = s
  turn_at in_turn i r s = after_turn i s (turn r s.world)
  turn_at ended i r s = s

  abbrev pub after_cancel : ℕ → App e → Result (Unit {0}) × World e → App e
  after_cancel i s (res, w) = record s { world = w; crew = cancel i s.crew }

  -- What a turn does of which the cancellation is the end is given by its round.
  abbrev pub cancel_at : Phase → ℕ → Round → App e → App e
  cancel_at created i r s = record s { crew = cancel i s.crew }
  cancel_at in_turn i r s = after_cancel i s (turn r s.world)
  cancel_at ended i r s = s

  abbrev pub cancel_late : Bool → ℕ → Round → App e → App e
  cancel_late false i r s = s
  cancel_late true i r s = cancel_at (s.crew.phase i) i r s

module _ {e : Env} (p : Pydantic) (loads : String → Result Json) where
  unfoldable pub happens : Event → App e → App e
  happens (posted uuid d) s = answered s (post_task p loads e uuid d s.world)
  happens (asked task_id) s = answered s (get_task e task_id s.world)
  happens (begun i) s = record s { crew = begin_run i s.crew }
  happens (turned i r) s = turn_at (s.crew.phase i) i r s
  happens shut_down s = record s { crew = stop_all s.crew; shut = true }
  happens (cancelled i r) s = cancel_late s.shut i r s

  unfoldable pub happen : List Event → App e → App e
  happen [] s = s
  happen (event ∷ events) s = happen events (happens event s)

  -- The workers that are made, with the coroutines of the pool.
  abbrev pub started : ℕ → World e → App e
  started worker_concurrency w = record {
    world = w;
    crew = create_tasks worker_concurrency;
    shut = false;
  }

  abbrev pub served :
      ℕ → List Event → Result (Unit {0}) → Result ℕ × World e → Result (Unit {0}) × World e
  served worker_concurrency events end (err x, w) = (err x, w)
  served worker_concurrency events end (ok recovered, w) =
      (end, (happen events (started worker_concurrency w)).world)

  unfoldable pub run_app : ℕ → Scan → List Event → Result (Unit {0}) → Action (World e) (Unit {0})
  run_app worker_concurrency scan events end w =
      served worker_concurrency events end (recover_stranded_tasks e scan w)

-- The `finally` block.
abbrev pub finally_close : {e : Env} → Result (Unit {0}) × World e → Result (Unit {0}) × World e
finally_close (res, w) = let (closed, w') = close_redis w in (released_or closed res, w')

abbrev pub with_client :
    {e : Env} → Action (World e) (Unit {0}) → Result String × World e → Result (Unit {0}) × World e
with_client app (err x, w) = (err x, w)
with_client app (ok url, w) = finally_close (app w)

-- Whether the server is `reachable` shows when the client pings it.
unfoldable pub async_main :
    {e : Env} → Bool → String → Action (World e) (Unit {0}) → Action (World e) (Unit {0})
async_main reachable redis_url app w = with_client app (init_redis reachable redis_url w)
