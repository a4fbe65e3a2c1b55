-- ===== src/Worker/Streaming.antt =====
-- src/worker.py: actions that keep a predicate, whether they return or raise. A stream keeps every
-- predicate that the publication of an event keeps.
use cio_run_auto_orchestrato.Prelude.{
  String, ℕ, ◌+◌, Bool, true, false, ◌&&◌, List, [], ◌∷◌, ◌≡◌, refl, ltb, if◌then◌else◌,
}
use cio_run_auto_orchestrato.Effect.{
  Exn, timeout_error, Result, ok, err, Action, catch, handle, continue, ◌>>=◌,
}
use cio_run_auto_orchestrato.Models.{TaskMode, CioEvent}
use cio_run_auto_orchestrato.Redis.{Env}
use cio_run_auto_orchestrato.EventBus.{publish}
use cio_run_auto_orchestrato.Worker.State.{Held, on_world}
use cio_run_auto_orchestrato.Worker.Stream.{
  Session, EventStream, stream, stream_of, after_wait, as_cancelled, consume_events, consume_sync,
  iter_events,
}
use cio_run_auto_orchestrato.Worker.Execute.{Round}

-- `m` keeps `P`, whether it returns or raises.
abbrev pub Keeps : {e : Env} {A : Type 0} → (Held e → Type 0) → Action (Held e) A → Type 0
Keeps {e} P m = (h : Held e) → P h → P (m h).1

module _ {e : Env} {A B : Type 0} {P : Held e → Type 0} where
  continue-Keeps :
      (x : Result A) (f : A → Action (Held e) B)
      → ((a : A) → Keeps P (f a))
      → Keeps P (continue x f)
  continue-Keeps (ok a) f kf h p = kf a h p
  continue-Keeps (err x) f kf h p = p

  pub bind-Keeps :
      (m : Action (Held e) A) (f : A → Action (Held e) B)
      → Keeps P m
      → ((a : A) → Keeps P (f a))
      → Keeps P (m >>= f)
  bind-Keeps m f km kf h p = continue-Keeps (m h).0 f kf (m h).1 (km h p)

module _ {e : Env} {A : Type 0} {P : Held e → Type 0} where
  handle-Keeps :
      (x : Result A) (f : Exn → Action (Held e) A)
      → ((x : Exn) → Keeps P (f x))
      → Keeps P (handle x f)
  handle-Keeps (ok a) f kf h p = p
  handle-Keeps (err x) f kf h p = kf x h p

  pub catch-Keeps :
      (m : Action (Held e) A) (f : Exn → Action (Held e) A)
      → Keeps P m
      → ((x : Exn) → Keeps P (f x))
      → Keeps P (catch m f)
  catch-Keeps m f km kf h p = handle-Keeps (m h).0 f kf (m h).1 (km h p)

module _ {e : Env} (r : Round) (P : Held e → Type 0)
    (published : (h : Held e) (task_id : String) (ev : CioEvent)
      → P h
      → P (record h { world = (publish e task_id ev h.world).1 })) where
  branch-Keeps :
      (b : Bool) (x y : Result (Unit {0}) × Held e)
      → (b ≡ true → P x.1)
      → (b ≡ false → P y.1)
      → P (if b then x else y).1
  branch-Keeps true x y kx ky = kx refl
  branch-Keeps false x y kx ky = ky refl

  consume_events-Keeps :
      (n : ℕ) (task_id : String) (events : List CioEvent)
      → Keeps P (consume_events r.runtime n task_id events)
  unfolding consume_events
  consume_events-Keeps n task_id [] h s = s
  consume_events-Keeps n task_id (ev ∷ events) h s =
      bind-Keeps (on_world (publish e task_id ev)) _ (λ h k. published h task_id ev k)
        (λ _.
          bind-Keeps (after_wait r.runtime (r.runtime.publish_wait n)) _
            (after_wait-Keeps (r.runtime.publish_wait n))
            (λ _. consume_events-Keeps (n + 1) task_id events))
        h s
    where
      after_wait-Keeps : (b : Bool) → Keeps P (after_wait {e = e} r.runtime b)
      after_wait-Keeps true h s = s
      after_wait-Keeps false h s = s

  consume_sync-Keeps : (st : EventStream) → Keeps P (consume_sync r.runtime st)
  unfolding consume_sync
  consume_sync-Keeps st h s =
      branch-Keeps r.runtime.executor_loop _ _
        (λ _.
          bind-Keeps (consume_events r.runtime 0 h.task.task_id st.events) (λ _ h'. (st.ending, h'))
            (consume_events-Keeps 0 h.task.task_id st.events) (λ _ h' s'. s') h s)
        (λ _. s)

  as_cancelled-Keeps : (x : Exn) → Keeps P (as_cancelled {e = e} r.runtime x)
  as_cancelled-Keeps timeout_error h s = s
  as_cancelled-Keeps _ h s = s

  stream_of-Keeps : (x : Result EventStream) → Keeps P (stream_of r.runtime x)
  stream_of-Keeps (err x) h s = s
  stream_of-Keeps (ok st) h s =
      catch-Keeps (consume_sync r.runtime st) (as_cancelled r.runtime) (consume_sync-Keeps st)
        as_cancelled-Keeps h s

  pub stream-Keeps :
      (s : Session) (mode : TaskMode) → Keeps P (stream r.runtime r.stream_timeout s mode)
  unfolding stream
  stream-Keeps s mode h k =
      branch-Keeps (ltb 0 r.stream_timeout && r.runtime.stream_late) _ _
        (λ _.
          bind-Keeps (stream_of r.runtime (iter_events s mode h.task)) _
            (stream_of-Keeps (iter_events s mode h.task)) (λ _ h' k'. k') h k)
        (λ _. stream_of-Keeps (iter_events s mode h.task) h k)
