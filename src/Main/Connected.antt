-- ===== src/Main/Connected.antt =====
-- The client of src/redis_client.py through the life of the process of src/main.py.
use cio_run_auto_orchestrato.Main.Steady.{client-post_task, client-get_task, release_lock-Steady}
use cio_run_auto_orchestrato.Prelude.{
  String, ℕ, Bool, true, false, Option, none, some, List, [], ◌∷◌, ◌≡◌, refl, ap, ◌∙◌, arith,
}
use cio_run_auto_orchestrato.Effect.{Exn, Exn, Result, ok, err, catch}
use cio_run_auto_orchestrato.Models.{Task}
use cio_run_auto_orchestrato.Redis.{Env}
use cio_run_auto_orchestrato.RedisClient.{World, init_redis, close_redis}
use cio_run_auto_orchestrato.TaskQueue.Keys.{lock_key}
use cio_run_auto_orchestrato.TaskQueue.Queue.Fifo.{dequeue_lem}
use cio_run_auto_orchestrato.Recovery.{
  Scan, task_keys, reclaim, reclaim_all, recover_stranded_tasks,
}
use cio_run_auto_orchestrato.Recovery.Stranded.{reclaim-Reclaims}
use cio_run_auto_orchestrato.Recovery.Loop.{recover_lem}
use cio_run_auto_orchestrato.ConfigSchema.Json.{Json}
use cio_run_auto_orchestrato.ConfigSchema.Check.{Pydantic}
use cio_run_auto_orchestrato.Worker.State.{Held}
use cio_run_auto_orchestrato.Worker.Connection.{client-acquire_lock}
use cio_run_auto_orchestrato.Worker.Invariant.{requeue-Keeps}
use cio_run_auto_orchestrato.Worker.Rounds.{guarded-Beside}
use cio_run_auto_orchestrato.Worker.Beside.{Beside-refl, beside_frame}
use cio_run_auto_orchestrato.Worker.Lock.{
  execute_lem, finish_lem, released_world, client-released_world,
}
use cio_run_auto_orchestrato.Worker.Execute.{
  Round, finish, with_lock, run_locked, on_stolen, execute, execute_found, turn,
}
use cio_run_auto_orchestrato.Main.Pool.{Phase, created, in_turn, ended}
use cio_run_auto_orchestrato.Main.{
  Event, posted, asked, begun, turned, shut_down, cancelled, App, turn_at, cancel_at, cancel_late,
  happens, happen, async_main, finally_close, served, started, run_app,
}

module _ {e : Env} (r : Round) where
  finish-Connected :
      (res : Result (Unit {0})) (h : Held e) {u : String}
      → h.world.client ≡ some u
      → (finish r res h).1.world.client ≡ some u
  finish-Connected res h c =
      ap (λ (z : Result (Unit {0}) × Held e). z.1.world.client) (finish_lem r res h c)
      ∙ release_lock-Steady h.task.project_name r.lock_token (released_world r h)
      ∙ client-released_world r h
      ∙ c

  with_lock-Connected :
      (b : Bool) (h : Held e) {u : String}
      → h.world.client ≡ some u
      → (with_lock r b h).1.world.client ≡ some u
  with_lock-Connected false h {u} c =
      (requeue-Keeps (beside_frame e h.task.task_id) h.world h.task.project_name h.task.retry_count
        r h (Beside-refl h.world, refl, refl, omega arith)).0.0
      ∙ c
  with_lock-Connected true h {u} c =
      let round = catch (run_locked r) (on_stolen r) h in
      finish-Connected round.0 round.1 ((guarded-Beside r h).0 ∙ c)

  execute-Connected :
      (h : Held e) {u : String} → h.world.client ≡ some u → (execute r h).1.world.client ≡ some u
  execute-Connected h {u} c =
      ap (λ (z : Result (Unit {0}) × Held e). z.1.world.client) (execute_lem r h c)
      ∙ with_lock-Connected
          (e.set_nx_ex (lock_key h.task.project_name) r.lock_token r.lock_ttl h.world.db).0 _
          (client-acquire_lock e h.task.project_name r.lock_token r.lock_ttl h.world ∙ c)

  execute_found-Connected :
      (o : Option Task) (w : World e) {u : String}
      → w.client ≡ some u
      → (execute_found r o w).1.client ≡ some u
  execute_found-Connected none w c = c
  execute_found-Connected (some t) w c =
      execute-Connected (record { world = w; task = t; updates = 0; waiting = 0 }) c

  turn-Connected : (w : World e) {u : String} → w.client ≡ some u → (turn r w).1.client ≡ some u
  unfolding turn
  turn-Connected w {u} c = rw (dequeue_lem e w c r.poll_interval) (execute_found-Connected _ _ c)

-- The client is there, made for `url`.
abbrev pub IsConnected : {e : Env} → String → App e → Type 0
IsConnected url s = s.world.client ≡ some url

module _ {e : Env} (url : String) where
  turn_at-Connected :
      (phase : Phase) (i : ℕ) (r : Round) (s : App e)
      → IsConnected url s
      → IsConnected url (turn_at phase i r s)
  turn_at-Connected created i r s c = c
  turn_at-Connected in_turn i r s c = turn-Connected r s.world c
  turn_at-Connected ended i r s c = c

  cancel_at-Connected :
      (phase : Phase) (i : ℕ) (r : Round) (s : App e)
      → IsConnected url s
      → IsConnected url (cancel_at phase i r s)
  cancel_at-Connected created i r s c = c
  cancel_at-Connected in_turn i r s c = turn-Connected r s.world c
  cancel_at-Connected ended i r s c = c

  cancel_late-Connected :
      (late : Bool) (i : ℕ) (r : Round) (s : App e)
      → IsConnected url s
      → IsConnected url (cancel_late late i r s)
  cancel_late-Connected false i r s c = c
  cancel_late-Connected true i r s c = cancel_at-Connected (s.crew.phase i) i r s c

module _ {e : Env} (p : Pydantic) (loads : String → Result Json) (url : String) where
  pub happens-IsConnected :
      (event : Event) (s : App e) → IsConnected url s → IsConnected url (happens p loads event s)
  unfolding happens
  happens-IsConnected (posted uuid d) s c = client-post_task p loads uuid d s.world ∙ c
  happens-IsConnected (asked i) s c = client-get_task i s.world ∙ c
  happens-IsConnected (begun i) s c = c
  happens-IsConnected (turned i r) s c = turn_at-Connected url (s.crew.phase i) i r s c
  happens-IsConnected shut_down s c = c
  happens-IsConnected (cancelled i r) s c = cancel_late-Connected url s.shut i r s c

  -- A connected process stays so through any sequence of requests, of first steps, turns and
  -- cancellations of workers, and of shutdowns, whatever they raise: no operation takes the module's
  -- client away or puts another in its place.
  pub happen-IsConnected :
      (events : List Event) (s : App e)
      → IsConnected url s
      → IsConnected url (happen p loads events s)
  unfolding happen
  happen-IsConnected [] s c = c
  happen-IsConnected (event ∷ events) s c =
      happen-IsConnected events (happens p loads event s) (happens-IsConnected event s c)

  reclaim_all-Connected :
      (keys : List String) (n : ℕ) (w : World e)
      → w.client ≡ some url
      → (reclaim_all e keys n w).1.client ≡ some url
  unfolding reclaim_all
  reclaim_all-Connected [] n w c = c
  reclaim_all-Connected (key ∷ keys) n w c =
      let step = reclaim-Reclaims e key w c in
      rw step.0 (reclaim_all-Connected keys _ (reclaim e key w).1 (step.1 ∙ c))

  served-Connected :
      (worker_concurrency : ℕ) (events : List Event) (end : Result (Unit {0}))
      (z : Result ℕ × World e)
      → z.1.client ≡ some url
      → (served p loads worker_concurrency events end z).1.client ≡ some url
  served-Connected n events end (err x, w) c = c
  served-Connected n events end (ok recovered, w) c =
      happen-IsConnected events (started p loads n w) c

  run_app-Connected :
      (worker_concurrency : ℕ) (scan : Scan) (events : List Event) (end : Result (Unit {0}))
      (w : World e)
      → w.client ≡ some url
      → (run_app p loads worker_concurrency scan events end w).1.client ≡ some url
  unfolding run_app
  run_app-Connected n scan events end w c =
      served-Connected n events end (recover_stranded_tasks e scan w)
        (rw (recover_lem e scan w c) (reclaim_all-Connected (task_keys scan) 0 w c))

  finally_close_lem :
      (z : Result (Unit {0}) × World e)
      → z.1.client ≡ some url
      → finally_close z ≡ (z.0, record z.1 { client = none })
  unfolding close_redis
  finally_close_lem z c = ground arith

  -- The life of the process. Where the server answers the ping, `_async_main` ends as `_run_app`
  -- does, whether that returns or raises, with what it left on the server and with the client
  -- closed and taken away; where it does not, `_async_main` raises without running anything, and
  -- the client that was made stays.
  pub async_main_closes :
      (worker_concurrency : ℕ) (scan : Scan) (events : List Event) (end : Result (Unit {0}))
      (w : World e)
      → let app = run_app p loads worker_concurrency scan events end in
        let z = app (record w { client = some url }) in
        (async_main true url app w ≡ (z.0, record z.1 { client = none }))
        × ((x : Exn) × (async_main false url app w ≡ (err x, record w { client = some url })))
  unfolding async_main init_redis
  async_main_closes n scan events end w = (
    finally_close_lem _ (run_app-Connected n scan events end (record w { client = some url }) refl),
    (_, refl),
  )
