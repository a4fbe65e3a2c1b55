-- ===== src/EventBus/Subscribe/Roundtrip.antt =====
-- src/event_bus.py: `publish` and `close` against `subscribe`.
use cio_run_auto_orchestrato.Prelude.{
  String, ℕ, false, some, List, [], ◌∷◌, ◌++◌, map, ◌≡◌, refl, sym, ap, ◌∙◌, ◌==◌, ==_refl, arith,
}
use mathlib.Core.List.{append_assoc}
use cio_run_auto_orchestrato.Effect.{ok, Action, ◌>>◌}
use cio_run_auto_orchestrato.Models.{CioEvent, Payload}
use cio_run_auto_orchestrato.Redis.{Env, Contents}
use cio_run_auto_orchestrato.RedisClient.{World}
use cio_run_auto_orchestrato.EventBus.{done_message, payload_of, publish, close, channel}
use cio_run_auto_orchestrato.EventBus.Subscribe.{
  event_proxy, Reply, RawEvent, Decoded, object, Outcome, returned, subscribe,
}
use cio_run_auto_orchestrato.EventBus.Subscribe.Delivery.{
  texts, events, delivered, subscribe_delivers,
}

abbrev behind_first {ℓ} : {A : Type ℓ} → List A → List A
behind_first [] = []
behind_first (x ∷ xs) = xs

append_cancel {ℓ} : {A : Type ℓ} (xs ys zs : List A) → xs ++ ys ≡ xs ++ zs → ys ≡ zs
append_cancel [] ys zs q = q
append_cancel (x ∷ xs) ys zs q = append_cancel xs ys zs (ap behind_first q)

-- An event as a JSON object, every key present.
abbrev pub raw_of : Payload → RawEvent
raw_of p = record {
  event_type = some p.event_type;
  message = some p.message;
  metadata = some p.metadata;
  timestamp = some p.timestamp;
}

module _ (e : Env) where
  -- A stream's events, published one by one, and the end of the stream.
  abbrev pub publish_all : String → List CioEvent → Action (World e) (Unit {0})
  publish_all i [] = close e i
  publish_all i (ev ∷ evs) = do publish e i ev; publish_all i evs

  abbrev pub sent : List CioEvent → List String
  sent [] = done_message ∷ []
  sent (ev ∷ evs) = e.dump_event (payload_of ev) ∷ sent evs

  abbrev pub heard_on : String → World e → List String
  heard_on i w = (e.observe w.db).messages (channel i)

  heard_on-publish :
      (i text : String) (db : e.Db)
      → (e.observe (e.publish (channel i) text db)).messages (channel i)
        ≡ (e.observe db).messages (channel i) ++ (text ∷ [])
  heard_on-publish i text db =
      ap (λ (c : Contents). c.messages (channel i)) (e.publish_law (channel i) text db)
      ∙ rw (==_refl (channel i))

  publish_lem :
      (i : String) (ev : CioEvent) (w : World e) {u : String}
      → w.client ≡ some u
      → publish e i ev w
        ≡ (ok tt, record w { db = e.publish (channel i) (e.dump_event (payload_of ev)) w.db })
  unfolding publish
  publish_lem i ev w c = ground arith

  close_lem :
      (i : String) (w : World e) {u : String}
      → w.client ≡ some u
      → close e i w ≡ (ok tt, record w { db = e.publish (channel i) done_message w.db })
  unfolding close
  close_lem i w c = ground arith

  pub messages-publish_all :
      (i : String) (evs : List CioEvent) (w : World e) {u : String}
      → w.client ≡ some u
      → heard_on i (publish_all i evs w).1 ≡ heard_on i w ++ sent evs
  messages-publish_all i [] w c = rw (close_lem i w c) (heard_on-publish i done_message w.db)
  messages-publish_all i (ev ∷ evs) w c =
      let text = e.dump_event (payload_of ev) in
      let w' = record w { db = e.publish (channel i) text w.db } in
      rw (publish_lem i ev w c) (
        messages-publish_all i evs w' c
        ∙ ap (λ ms. ms ++ sent evs) (heard_on-publish i text w.db)
        ∙ append_assoc (heard_on i w) (text ∷ []) (sent evs))

  module _ (loads : String → Decoded)
      (loads_dump : (p : Payload) → loads (e.dump_event p) ≡ object (raw_of p))
      (not_done : (p : Payload) → (e.dump_event p == done_message) ≡ false) where
    delivered-sent :
        (evs : List CioEvent) → delivered loads (sent evs) ≡ (map payload_of evs, returned)
    unfolding delivered event_proxy payload_of
    delivered-sent [] = refl
    delivered-sent (ev ∷ evs) =
        rw (not_done (payload_of ev), loads_dump (payload_of ev), delivered-sent evs)

    -- With a client, where `loads` reads what was dumped and no event reads as the end message: the
    -- events that are published on the channel of a task before it is closed stand behind what
    -- the channel had carried, with the end message last; and a subscriber that is given the
    -- messages from there on yields these events, as they were published, and returns.
    pub subscriber_sees_the_stream :
        (i : String) (evs : List CioEvent) (w : World e) {u : String}
        → w.client ≡ some u
        → (interval last : ℕ) (rs : List (ℕ × Reply))
        → heard_on i (publish_all i evs w).1 ≡ heard_on i w ++ texts rs
        → let z = subscribe loads interval last rs in
          ◌≡◌ {A = List Payload × Outcome} (events z.0, z.1) (map payload_of evs, returned)
    subscriber_sees_the_stream i evs w c interval last rs q =
        (subscribe_delivers loads interval last rs).0
        ∙ ap (delivered loads) (
            append_cancel (heard_on i w) (texts rs) (sent evs)
              (sym q ∙ messages-publish_all i evs w c))
        ∙ delivered-sent evs
