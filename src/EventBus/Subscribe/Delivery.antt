-- ===== src/EventBus/Subscribe/Delivery.antt =====
-- src/event_bus.py: a subscriber against the messages of its channel.
use cio_run_auto_orchestrato.Prelude.{
  String, ℕ, ◌-◌, ◌≤◌, List, [], ◌∷◌, ◌≡◌, refl, ap, ◌==◌, arith, leb, if◌then◌else◌, Bool-cases,
  inl, inr,
}
use cio_run_auto_orchestrato.Effect.{other_error}
use cio_run_auto_orchestrato.Models.{Payload}
use cio_run_auto_orchestrato.EventBus.{done_message}
use cio_run_auto_orchestrato.EventBus.Subscribe.{
  Reply, silence, notice, message, Decoded, not_json, not_object, object, Item, keepalive, event,
  Outcome, returned, waits, raised, event_proxy, yielded, heard, subscribe,
}

-- The texts of the messages among the replies, and the events among the items.
abbrev pub texts : List (ℕ × Reply) → List String
texts [] = []
texts ((now, silence) ∷ rs) = texts rs
texts ((now, notice) ∷ rs) = texts rs
texts ((now, message t) ∷ rs) = t ∷ texts rs

abbrev pub events : List (ℕ × Item) → List Payload
events [] = []
events ((now, keepalive) ∷ items) = events items
events ((now, event p) ∷ items) = p ∷ events items

-- Keepalives stand at least an interval behind the item before them.
pub data Spaced (interval : ℕ) : ℕ → List (ℕ × Item) → Type 0 where
  spaced_end : {last : ℕ} → Spaced interval last []
  spaced_keepalive :
      {last now : ℕ} {items : List (ℕ × Item)}
      → interval ≤ now - last
      → Spaced interval now items
      → Spaced interval last ((now, keepalive) ∷ items)
  spaced_event :
      {last now : ℕ} {p : Payload} {items : List (ℕ × Item)}
      → Spaced interval now items
      → Spaced interval last ((now, event p) ∷ items)

module _ (loads : String → Decoded) where
  -- The events of a list of texts up to the end message, without times.
  abbrev pub delivers : Decoded → List Payload × Outcome → List Payload × Outcome
  delivers not_json (ps, end) = (ps, end)
  delivers not_object (ps, end) = ([], raised (other_error "'str' object has no attribute 'get'"))
  delivers (object raw) (ps, end) = (event_proxy raw ∷ ps, end)

  unfoldable pub delivered : List String → List Payload × Outcome
  delivered [] = ([], waits)
  delivered (t ∷ ts) =
      if t == done_message then ([], returned) else delivers (loads t) (delivered ts)

  module _ (interval : ℕ) where
    abbrev Follows : ℕ → List Payload × Outcome → List (ℕ × Item) × Outcome → Type 0
    Follows last d (items, end) = ((events items, end) ≡ d) × Spaced interval last items

    on_silence :
        (last now : ℕ) (d : List Payload × Outcome) (skip next : List (ℕ × Item) × Outcome)
        → Follows last d skip
        → Follows now d next
        → Follows last d
            (if leb interval (now - last) then yielded loads interval now keepalive next else skip)
    on_silence last now d skip next a b = elim (Bool-cases (leb interval (now - last))) [
      | inl q ↦ rw q (b.0, spaced_keepalive (ground arith) b.1)
      | inr q ↦ rw q a
    ]

    on_heard :
        (last now : ℕ) (m : Decoded) (d : List Payload × Outcome)
        (skip next : List (ℕ × Item) × Outcome)
        → Follows last d skip
        → Follows now d next
        → Follows last (delivers m d) (heard loads interval now m skip next)
    on_heard last now not_json d skip next a b = a
    on_heard last now not_object d skip next a b = (refl, spaced_end)
    on_heard last now (object raw) d skip next a b =
        (ap (λ (ps, end). (event_proxy raw ∷ ps, end)) b.0, spaced_event b.1)

    on_message :
        (last now : ℕ) (t : String) (d : List Payload × Outcome)
        (skip next : List (ℕ × Item) × Outcome)
        → Follows last d skip
        → Follows now d next
        → Follows last (if t == done_message then ([], returned) else delivers (loads t) d) (
            if t == done_message
            then ([], returned)
            else heard loads interval now (loads t) skip next)
    on_message last now t d skip next a b = elim (Bool-cases (t == done_message)) [
      | inl q ↦ rw q (refl, spaced_end)
      | inr q ↦ rw q (on_heard last now (loads t) d skip next a b)
    ]

    -- A subscriber yields the events of the messages up to the end message, in their order, and
    -- returns, raises or waits as they say, whatever silences and notices stand between them and
    -- whenever they come; a keepalive is yielded no sooner than an interval after the item before.
    pub subscribe_delivers :
        (last : ℕ) (rs : List (ℕ × Reply))
        → let z = subscribe loads interval last rs in
          ((events z.0, z.1) ≡ delivered (texts rs)) × Spaced interval last z.0
    unfolding subscribe delivered
    subscribe_delivers last [] = (refl, spaced_end)
    subscribe_delivers last ((now, silence) ∷ rs) =
        on_silence last now (delivered (texts rs)) _ _ (subscribe_delivers last rs)
          (subscribe_delivers now rs)
    subscribe_delivers last ((now, notice) ∷ rs) = subscribe_delivers last rs
    subscribe_delivers last ((now, message t) ∷ rs) =
        on_message last now t (delivered (texts rs)) _ _ (subscribe_delivers last rs)
          (subscribe_delivers now rs)
