-- ===== src/EventBus/Subscribe.antt =====
-- src/event_bus.py: `EventBus.subscribe`, an asynchronous generator. The replies of its calls of
-- `get_message` are given with the loop's time at each, in milliseconds.
pub mod Delivery
pub mod Roundtrip
use cio_run_auto_orchestrato.Prelude.{
  String, ℕ, ◌+◌, ◌-◌, Bool, Option, none, some, List, [], ◌∷◌, ◌==◌, leb, if◌then◌else◌,
}
use cio_run_auto_orchestrato.Effect.{Exn, other_error}
use cio_run_auto_orchestrato.Models.{Payload}
use cio_run_auto_orchestrato.EventBus.{done_message}

-- No reply or a wait that ends, a reply of another type, and a message with its text.
pub data Reply : Type 0 where
  silence : Reply
  notice : Reply
  message : String → Reply

-- What `json.loads` makes of a text: it raises, a value without `get`, or an object.
pub record RawEvent : Type 0 where
  pub event_type : Option String
  pub message : Option String
  pub metadata : Option String
  pub timestamp : Option String

pub data Decoded : Type 0 where
  not_json : Decoded
  not_object : Decoded
  object : RawEvent → Decoded

-- What the generator yields.
pub data Item : Type 0 where
  keepalive : Item
  event : Payload → Item

-- How it stands behind the last reply: it has returned, it has raised, or it waits for more.
pub data Outcome : Type 0 where
  returned waits : Outcome
  raised : Exn → Outcome

abbrev pub get_or : String → Option String → String
get_or d none = d
get_or d (some s) = s

-- `_EventProxy` of an object.
unfoldable pub event_proxy : RawEvent → Payload
event_proxy raw = record {
  event_type = get_or "info" raw.event_type;
  message = get_or "" raw.message;
  metadata = get_or "{}" raw.metadata;
  timestamp = get_or "" raw.timestamp;
}

module _ (loads : String → Decoded) (keepalive_interval : ℕ) where
  abbrev pub yielded : ℕ → Item → List (ℕ × Item) × Outcome → List (ℕ × Item) × Outcome
  yielded now i (items, end) = ((now, i) ∷ items, end)

  -- What follows a text: `skip` is the rest of the loop without a yield, `next` with one.
  abbrev pub heard :
      ℕ
      → Decoded
      → List (ℕ × Item) × Outcome
      → List (ℕ × Item) × Outcome
      → List (ℕ × Item) × Outcome
  heard now not_json skip next = skip
  heard now not_object skip next = ([], raised (other_error "'str' object has no attribute 'get'"))
  heard now (object raw) skip next = yielded now (event (event_proxy raw)) next

  -- The loop, from a reply on; every item has the time at which it is yielded.
  unfoldable pub subscribe : ℕ → List (ℕ × Reply) → List (ℕ × Item) × Outcome
  subscribe last_yield_time [] = ([], waits)
  subscribe last_yield_time ((now, silence) ∷ replies) =
      if leb keepalive_interval (now - last_yield_time)
      then yielded now keepalive (subscribe now replies)
      else subscribe last_yield_time replies
  subscribe last_yield_time ((now, notice) ∷ replies) = subscribe last_yield_time replies
  subscribe last_yield_time ((now, message text) ∷ replies) =
      if text == done_message
      then ([], returned)
      else heard now (loads text) (subscribe last_yield_time replies) (subscribe now replies)
