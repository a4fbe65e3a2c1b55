-- ===== src/Api/Stream/Forward.antt =====
-- GET /tasks/{task_id}/stream of src/api.py: the frames that a client receives.
use cio_run_auto_orchestrato.Prelude.{
  String, ℕ, ◌+◌, Bool, false, some, List, [], ◌∷◌, ◌++◌, map, ◌≡◌, refl, sym, ap, ◌∙◌, ◌==◌, any,
  if◌then◌else◌, Bool-cases, inl, inr,
}
use mathlib.Core.List.{append-nil}
use cio_run_auto_orchestrato.Effect.{ok}
use cio_run_auto_orchestrato.Models.{Task, CioEvent, Payload, is_terminal}
use cio_run_auto_orchestrato.Redis.{Env}
use cio_run_auto_orchestrato.RedisClient.{World}
use cio_run_auto_orchestrato.EventBus.{payload_of, done_message}
use cio_run_auto_orchestrato.EventBus.Subscribe.{
  Item, keepalive, event, Outcome, Reply, Decoded, object, subscribe,
}
use cio_run_auto_orchestrato.EventBus.Subscribe.Delivery.{events, texts}
use cio_run_auto_orchestrato.EventBus.Subscribe.Roundtrip.{
  heard_on, messages-publish_all, publish_all, raw_of, subscriber_sees_the_stream,
}
use cio_run_auto_orchestrato.TaskQueue.Store.{get, parse_raw}
use cio_run_auto_orchestrato.TaskQueue.Store.Records.{get_lem, text_at}
use cio_run_auto_orchestrato.TaskQueue.Keys.{task_key}
use cio_run_auto_orchestrato.Api.Stream.{
  SsePayload, Frame, keepalive_frame, frame, is_terminal_event, build_sse_frame, event_generator,
  stream_task,
}

-- The frames of events.
abbrev pub event_frames : List Frame → List Frame
event_frames [] = []
event_frames (keepalive_frame ∷ fs) = event_frames fs
event_frames (frame t d ∷ fs) = frame t d ∷ event_frames fs

-- The events up to the first terminal one, that one included.
abbrev pub through_terminal : List Payload → List Payload
through_terminal [] = []
through_terminal (p ∷ ps) =
    let rest = through_terminal ps in if is_terminal_event p.event_type then p ∷ [] else p ∷ rest

-- The end message that a terminal event makes the endpoint publish.
abbrev pub closing : List Payload → List String
closing ps = if any (λ p. is_terminal_event p.event_type) ps then done_message ∷ [] else []

module _ {e : Env} (dumps : SsePayload → String) (disconnected : ℕ → Bool)
    (stays : (n : ℕ) → disconnected n ≡ false) where
  frames_forwarded :
      (task_id : String) (n : ℕ) (items : List (ℕ × Item)) (end : Outcome) (w : World e)
      → event_frames (event_generator dumps disconnected task_id n items end w).0.0
        ≡ map (build_sse_frame dumps) (through_terminal (events items))
  unfolding event_generator build_sse_frame
  frames_forwarded task_id n [] end w = refl
  frames_forwarded task_id n ((now, keepalive) ∷ items) end w =
      rw (stays n) (frames_forwarded task_id (n + 1) items end w)
  frames_forwarded task_id n ((now, event p) ∷ items) end w =
      elim (Bool-cases (is_terminal_event p.event_type)) [
        | inl q ↦ rw (stays n, q)
        | inr q ↦ rw (stays n, q, frames_forwarded task_id (n + 1) items end w)
      ]

  messages_forwarded :
      (task_id : String) (n : ℕ) (items : List (ℕ × Item)) (end : Outcome) (w : World e)
      {u : String}
      → w.client ≡ some u
      → heard_on e task_id (event_generator dumps disconnected task_id n items end w).1
        ≡ heard_on e task_id w ++ closing (events items)
  unfolding event_generator any
  messages_forwarded task_id n [] end w c = sym (append-nil (heard_on e task_id w))
  messages_forwarded task_id n ((now, keepalive) ∷ items) end w c =
      rw (stays n) (messages_forwarded task_id (n + 1) items end w c)
  messages_forwarded task_id n ((now, event p) ∷ items) end w c =
      elim (Bool-cases (is_terminal_event p.event_type)) [
        | inl q ↦ rw (stays n, q) (messages-publish_all e task_id [] w c)
        | inr q ↦ rw (stays n, q) (messages_forwarded task_id (n + 1) items end w c)
      ]

  -- With a client of Redis, where `loads` reads what was dumped and no event reads as the end
  -- message: a client that stays connected to the stream of a task that has not ended receives,
  -- keepalives aside, the frames of the events that were published on the task's channel before it
  -- was closed, in their order, up to the first terminal event, that one included; and the endpoint
  -- publishes one more end message exactly if there is a terminal event.
  pub client_receives_the_stream :
      (loads : String → Decoded)
      → ((p : Payload) → loads (e.dump_event p) ≡ object (raw_of p))
      → ((p : Payload) → (e.dump_event p == done_message) ≡ false)
      → (task_id : String) {t : Task} (evs : List CioEvent) (w w' : World e) {u : String}
      → w.client ≡ some u
      → w'.client ≡ some u
      → (get e task_id w').0 ≡ ok (some t)
      → is_terminal t ≡ false
      → (interval last : ℕ) (rs : List (ℕ × Reply))
      → heard_on e task_id (publish_all e task_id evs w).1 ≡ heard_on e task_id w ++ texts rs
      → let z = subscribe loads interval last rs in
        let s = stream_task dumps disconnected task_id z.0 z.1 w' in
        (event_frames s.0.0 ≡ map (build_sse_frame dumps) (through_terminal (map payload_of evs)))
        × (heard_on e task_id s.1 ≡ heard_on e task_id w' ++ closing (map payload_of evs))
  unfolding stream_task
  client_receives_the_stream loads loads_dump not_done task_id {t} evs w w' {u} c c' found live
        interval last rs q =
      let z = subscribe loads interval last rs in
      let seen : events z.0 ≡ map payload_of evs =
        ap (λ (ps, end). ps)
          (subscriber_sees_the_stream e loads loads_dump not_done task_id evs w c interval last rs
            q) in
      rw (get_lem e task_id w' u c', raw, live)
        (
          frames_forwarded task_id 0 z.0 z.1 w'
              ∙ ap (λ ps. map (build_sse_frame dumps) (through_terminal ps)) seen,
          messages_forwarded task_id 0 z.0 z.1 w' c'
              ∙ ap (λ ps. heard_on e task_id w' ++ closing ps) seen,
        )
    where
      raw : parse_raw e (text_at e w' (task_key task_id)) ≡ ok (some t)
      raw = ap (λ (x, y). x) (sym (get_lem e task_id w' u c')) ∙ found
