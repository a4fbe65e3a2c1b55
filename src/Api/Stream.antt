-- ===== src/Api/Stream.antt =====
-- src/sse_utils.py and GET /tasks/{task_id}/stream of src/api.py. The frames are those that the
-- generator of the response yields; `json.dumps` of a payload is a parameter, and `disconnected`
-- says for each item of the bus whether the client has gone when it comes.
pub mod Forward
use cio_run_auto_orchestrato.Prelude.{
  String, ℕ, ◌+◌, Bool, Option, none, some, List, [], ◌∷◌, ◌==◌, ◌||◌, concat, if◌then◌else◌,
}
use cio_run_auto_orchestrato.Effect.{Exn, http_exception, Result, ok, err, Action}
use cio_run_auto_orchestrato.Models.{Task, Payload, is_terminal}
use cio_run_auto_orchestrato.Redis.{Env}
use cio_run_auto_orchestrato.RedisClient.{World}
use cio_run_auto_orchestrato.TaskQueue.Store.{get}
use cio_run_auto_orchestrato.EventBus.{close}
use cio_run_auto_orchestrato.EventBus.Subscribe.{
  Item, keepalive, event, Outcome, returned, waits, raised,
}

pub record SsePayload : Type 0 where
  pub message : String
  pub metadata : String
  pub timestamp : String

pub data Frame : Type 0 where
  keepalive_frame : Frame
  frame : String → String → Frame

unfoldable pub from_cio_event : Payload → SsePayload
from_cio_event p = record { message = p.message; metadata = p.metadata; timestamp = p.timestamp }

unfoldable pub is_terminal_event : String → Bool
is_terminal_event event_type = event_type == "workflow_complete" || event_type == "workflow_failed"

-- The frame of an event that the bus yields, whose type is a text.
unfoldable pub build_sse_frame : (SsePayload → String) → Payload → Frame
build_sse_frame dumps p = frame p.event_type (dumps (from_cio_event p))

abbrev pub ended : Outcome → Result (Unit {0})
ended (raised x) = err x
ended returned = ok tt
ended waits = ok tt

-- What the generator has yielded, how it has ended, and the process behind it.
abbrev pub Stream : Env → Type 0
Stream e = (List Frame × Result (Unit {0})) × World e

module _ {e : Env} (dumps : SsePayload → String) (disconnected : ℕ → Bool) where
  abbrev pub yield_frame : Frame → Stream e → Stream e
  yield_frame f ((fs, res), w) = ((f ∷ fs, res), w)

  abbrev pub closed_after : Frame → Result (Unit {0}) × World e → Stream e
  closed_after f (res, w) = ((f ∷ [], res), w)

  -- `_event_generator` over the items of the bus, from the n-th on.
  unfoldable pub event_generator : String → ℕ → List (ℕ × Item) → Outcome → World e → Stream e
  event_generator task_id n [] end w = (([], ended end), w)
  event_generator task_id n ((now, keepalive) ∷ items) end w =
      let more = event_generator task_id (n + 1) items end w in
      if disconnected n then (([], ok tt), w) else yield_frame keepalive_frame more
  event_generator task_id n ((now, event p) ∷ items) end w =
      let more = event_generator task_id (n + 1) items end w in
      if disconnected n
      then (([], ok tt), w)
      else (if is_terminal_event p.event_type
          then closed_after (build_sse_frame dumps p) (close e task_id w)
          else yield_frame (build_sse_frame dumps p) more)

  abbrev pub stream_of_task : String → List (ℕ × Item) → Outcome → Option Task → World e → Stream e
  stream_of_task task_id items end none w =
      (([], err (http_exception 404 (concat "Task '" (concat task_id "' not found")))), w)
  stream_of_task task_id items end (some t) w =
      if is_terminal t then (([], ok tt), w) else event_generator task_id 0 items end w

  abbrev pub stream_found :
      String → List (ℕ × Item) → Outcome → Result (Option Task) × World e → Stream e
  stream_found task_id items end (err x, w) = (([], err x), w)
  stream_found task_id items end (ok task, w) = stream_of_task task_id items end task w

  -- `items` and `end` are what the subscription yields and how it ends.
  unfoldable pub stream_task : String → List (ℕ × Item) → Outcome → World e → Stream e
  stream_task task_id items end w = stream_found task_id items end (get e task_id w)
