-- ===== src/Worker/Stream.antt =====
-- src/worker.py: the choice of the engine's stream, its consumption in a thread, and its timeout.
use cio_run_auto_orchestrato.Prelude.{
  String, ℕ, ◌+◌, Bool, true, false, List, [], ◌∷◌, ◌&&◌, ltb, if◌then◌else◌,
}
use cio_run_auto_orchestrato.Effect.{
  Exn, runtime_error, timeout_error, cancelled_error, Result, ok, err, Action, pure, raise, catch,
  ◌>>◌,
}
use cio_run_auto_orchestrato.Models.{Task, TaskMode, new, resume, secondary, unknown, CioEvent}
use cio_run_auto_orchestrato.Redis.{Env}
use cio_run_auto_orchestrato.EventBus.{publish}
use cio_run_auto_orchestrato.Scheduler.{Cio}
use cio_run_auto_orchestrato.Worker.State.{Runtime, Held, on_world}

-- What an iterator of the engine yields, and how it ends.
pub record EventStream : Type 0 where
  pub events : List CioEvent
  pub ending : Result (Unit {0})

-- An engine and its scheduler, as `EngineFactory.get` returns them. The engine's three streams are
-- functions of the arguments that they are given.
pub record Session : Type 0 where
  pub scheduler : Cio
  pub run_stream : String → String → Result EventStream
  pub resume_stream : String → String → Result EventStream
  pub run_secondary_stream : String → String → Result EventStream

-- `_iter_events`.
unfoldable pub iter_events : Session → TaskMode → Task → Result EventStream
iter_events s new t = s.run_stream t.requirement t.project_name
iter_events s resume t = s.resume_stream t.project_name t.requirement
iter_events s secondary t = s.run_secondary_stream t.project_name t.requirement
iter_events s unknown t = s.run_secondary_stream t.project_name t.requirement

module _ {e : Env} (r : Runtime) where
  abbrev pub after_wait : Bool → Action (Held e) (Unit {0})
  after_wait true = pure tt
  after_wait false = raise timeout_error

  -- The loop of `_consume_sync`, from its n-th event on. An event whose wait times out has been
  -- handed to the loop all the same.
  unfoldable pub consume_events : ℕ → String → List CioEvent → Action (Held e) (Unit {0})
  consume_events n task_id [] = pure tt
  consume_events n task_id (ev ∷ events) = do
    on_world (publish e task_id ev)
    after_wait (r.publish_wait n)
    consume_events (n + 1) task_id events

  unfoldable pub consume_sync : EventStream → Action (Held e) (Unit {0})
  consume_sync s h =
      if r.executor_loop
      then (consume_events 0 h.task.task_id s.events >> λ h'. (s.ending, h')) h
      else (err (runtime_error "no running event loop"), h)

  abbrev pub as_cancelled : Exn → Action (Held e) (Unit {0})
  as_cancelled timeout_error =
      raise (if r.one_timeout_error then cancelled_error "stream timeout" else timeout_error)
  as_cancelled x = raise x

  abbrev pub stream_of : Result EventStream → Action (Held e) (Unit {0})
  stream_of (err x) = raise x
  stream_of (ok s) = catch (consume_sync s) as_cancelled

  -- `_stream`; a timeout of 0 is none. A stream that is late is left to its thread, and what that
  -- publishes afterwards is not part of this round.
  unfoldable pub stream : ℕ → Session → TaskMode → Action (Held e) (Unit {0})
  stream stream_timeout s mode h =
      if ltb 0 stream_timeout && r.stream_late
      then (do stream_of (iter_events s mode h.task); raise (cancelled_error "stream timeout")) h
      else stream_of (iter_events s mode h.task) h
