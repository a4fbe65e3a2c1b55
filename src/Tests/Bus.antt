-- ===== src/Tests/Bus.antt =====
-- Runs of src/event_bus.py and of the stream endpoint of src/api.py.
use cio_run_auto_orchestrato.Api.Stream.{stream_task, build_sse_frame}
use cio_run_auto_orchestrato.Api.Stream.Forward.{
  event_frames, through_terminal, closing, client_receives_the_stream,
}
use cio_run_auto_orchestrato.TaskQueue.Store.{get}
use cio_run_auto_orchestrato.TaskQueue.Keys.{task_key}
use cio_run_auto_orchestrato.Redis.{put}
use cio_run_auto_orchestrato.Prelude.{
  String, ℕ, false, map, Option, none, some, List, [], ◌∷◌, ◌++◌, ◌≡◌, refl, ap, concat,
}
use cio_run_auto_orchestrato.Models.{is_terminal, member, CioEvent, Payload}
use cio_run_auto_orchestrato.Redis.Demo.{
  memory, empty, dump, validate, load_event, dump_event, load_event-dump_event, dump_event_begins,
}
use cio_run_auto_orchestrato.EventBus.{publish, close, channel, payload_of, done_message}
use cio_run_auto_orchestrato.EventBus.Subscribe.{
  Reply, silence, message, Decoded, not_json, object, Outcome, returned, subscribe,
}
use cio_run_auto_orchestrato.EventBus.Subscribe.Delivery.{
  texts, events, delivered, Spaced, subscribe_delivers,
}
use cio_run_auto_orchestrato.EventBus.Subscribe.Roundtrip.{
  raw_of, publish_all, heard_on, subscriber_sees_the_stream,
}
use cio_run_auto_orchestrato.Tests.{start, task}
use cio_run_auto_orchestrato.RedisClient.{World}
use cio_run_auto_orchestrato.Effect.{ok}

-- A subscriber of a channel: a keepalive, an event, the end.
abbrev event_1 : CioEvent
event_1 = record {
  event_type = member "info";
  message = some "hello";
  metadata = none;
  timestamp = none;
}

abbrev decoded_of : Option Payload → Decoded
decoded_of none = not_json
decoded_of (some p) = object (raw_of p)

abbrev loads : String → Decoded
loads s = decoded_of (load_event s)

loads_dump : (p : Payload) → loads (dump_event p) ≡ object (raw_of p)
loads_dump p = ap decoded_of (load_event-dump_event p)

abbrev replies : List (ℕ × Reply)
replies =
    (16000, silence)
    ∷ (16010, message (dump_event (payload_of event_1)))
    ∷ (16020, message done_message)
    ∷ []

heard :
    heard_on memory "t1" (publish_all memory "t1" (event_1 ∷ []) start).1
    ≡ heard_on memory "t1" start ++ texts replies
unfolding publish close channel concat
heard = refl

subscriber_sees_the_stream_example :
    let z = subscribe loads 15000 0 replies in
    ◌≡◌ {A = List Payload × Outcome} (events z.0, z.1) (payload_of event_1 ∷ [], returned)
subscriber_sees_the_stream_example =
    subscriber_sees_the_stream memory loads loads_dump dump_event_begins "t1" (event_1 ∷ []) start
      refl 15000 0 replies heard

subscribe_delivers_example :
    let z = subscribe loads 15000 0 replies in
    ◌≡◌ {A = List Payload × Outcome} (events z.0, z.1) (delivered loads (texts replies))
    × Spaced 15000 0 z.0
subscribe_delivers_example = subscribe_delivers loads 15000 0 replies

abbrev final : CioEvent
final = record {
  event_type = member "workflow_complete";
  message = some "done";
  metadata = none;
  timestamp = none;
}

abbrev all_replies : List (ℕ × Reply)
all_replies =
    (16000, silence)
    ∷ (16010, message (dump_event (payload_of event_1)))
    ∷ (16020, message (dump_event (payload_of final)))
    ∷ (16030, message done_message)
    ∷ []

all_heard :
    heard_on memory "t1" (publish_all memory "t1" (event_1 ∷ final ∷ []) start).1
    ≡ heard_on memory "t1" start ++ texts all_replies
unfolding publish close channel concat
all_heard = refl

abbrev with_task : World memory
with_task = record start {
  db = record empty { strings = put (task_key "t1") (some (dump task)) empty.strings };
}

found : (get memory "t1" with_task).0 ≡ ok (some task)
unfolding get task_key concat dump validate
found = refl

live : is_terminal task ≡ false
unfolding is_terminal
live = refl

client_receives_the_stream_example :
    let z = subscribe loads 15000 0 all_replies in
    let s = stream_task (λ p. p.message) (λ n. false) "t1" z.0 z.1 with_task in
    (event_frames s.0.0
      ≡ map
          (build_sse_frame (λ p. p.message))
          (through_terminal (payload_of event_1 ∷ payload_of final ∷ [])))
    × (heard_on memory "t1" s.1
        ≡ heard_on memory "t1" with_task ++ closing (payload_of event_1 ∷ payload_of final ∷ []))
client_receives_the_stream_example =
    client_receives_the_stream (λ p. p.message) (λ n. false) (λ n. refl) loads loads_dump
      dump_event_begins "t1" (event_1 ∷ final ∷ []) start with_task refl refl found live 15000 0
      all_replies all_heard
