-- ===== src/Main/Sound.antt =====
-- src/main.py: the record of a task that was accepted through the life of the process, whatever the
-- engine and asyncio do.
use cio_run_auto_orchestrato.Prelude.{String, ℕ, Bool, true, false, List, [], ◌∷◌, ◌≡◌, ◌==◌}
use cio_run_auto_orchestrato.Effect.{Result}
use cio_run_auto_orchestrato.Redis.{Env}
use cio_run_auto_orchestrato.TaskQueue.Store.Records.{IsPlainId}
use cio_run_auto_orchestrato.ConfigSchema.Json.{Json}
use cio_run_auto_orchestrato.ConfigSchema.Check.{Pydantic}
use cio_run_auto_orchestrato.Api.Request.{post_task}
use cio_run_auto_orchestrato.Worker.Execute.{Round}
use cio_run_auto_orchestrato.Worker.Others.{
  Others, Others-refl, Others-trans, save-Others, enqueue-Others,
}
use cio_run_auto_orchestrato.Worker.Recorded.{Records, same_record, turn-Records}
use cio_run_auto_orchestrato.Main.Pool.{Phase, created, in_turn, ended}
use cio_run_auto_orchestrato.Main.Steady.{post_task-Steady, get_task-Steady}
use cio_run_auto_orchestrato.Main.Connected.{IsConnected, happens-IsConnected}
use cio_run_auto_orchestrato.Main.{
  Event, posted, asked, begun, turned, shut_down, cancelled, App, turn_at, cancel_at, cancel_late,
  happens, happen,
}

-- No request makes the id `j`.
abbrev pub Spared : String → List Event → Type 0
Spared j [] = Unit {0}
Spared j (posted uuid d ∷ events) = ((uuid == j) ≡ false) × Spared j events
Spared j (event ∷ events) = Spared j events

module _ {e : Env} (url j : String) (plain : IsPlainId j) where
  turn_at-Records :
      (phase : Phase) (i : ℕ) (r : Round) (s : App e)
      → IsConnected url s
      → Records j s.world (turn_at phase i r s).world
  turn_at-Records created i r s c rec = rec
  turn_at-Records in_turn i r s c rec = turn-Records j plain r s.world c rec
  turn_at-Records ended i r s c rec = rec

  cancel_at-Records :
      (phase : Phase) (i : ℕ) (r : Round) (s : App e)
      → IsConnected url s
      → Records j s.world (cancel_at phase i r s).world
  cancel_at-Records created i r s c rec = rec
  cancel_at-Records in_turn i r s c rec = turn-Records j plain r s.world c rec
  cancel_at-Records ended i r s c rec = rec

  cancel_late-Records :
      (late : Bool) (i : ℕ) (r : Round) (s : App e)
      → IsConnected url s
      → Records j s.world (cancel_late late i r s).world
  cancel_late-Records false i r s c rec = rec
  cancel_late-Records true i r s c rec = cancel_at-Records (s.crew.phase i) i r s c rec

module _ {e : Env} (p : Pydantic) (loads : String → Result Json) (url j : String)
    (plain : IsPlainId j) where
  pub happen-Records :
      (events : List Event) (s : App e)
      → Spared j events
      → IsConnected url s
      → Records j s.world (happen p loads events s).world
  unfolding happen happens
  happen-Records [] s spared c rec = rec
  happen-Records (posted uuid d ∷ events) s (other, later) c rec =
      let z = post_task p loads e uuid d s.world in
      let beside =
        post_task-Steady (Others uuid) (Others-refl uuid) (Others-trans uuid) uuid
          (λ t own w. save-Others e uuid t w own) (enqueue-Others uuid) p loads d s.world in
      happen-Records events (happens p loads (posted uuid d) s) later
        (happens-IsConnected p loads url (posted uuid d) s c)
        (same_record j s.world z.1 (beside.0 j plain other) rec)
  happen-Records (asked task_id ∷ events) s spared c rec =
      happen-Records events (happens p loads (asked task_id) s) spared
        (happens-IsConnected p loads url (asked task_id) s c)
        (get_task-Steady (Records j) (λ w k. k) (λ w v u f g k. g (f k)) task_id s.world rec)
  happen-Records (begun i ∷ events) s spared c rec =
      happen-Records events (happens p loads (begun i) s) spared
        (happens-IsConnected p loads url (begun i) s c) rec
  happen-Records (turned i r ∷ events) s spared c rec =
      happen-Records events (happens p loads (turned i r) s) spared
        (happens-IsConnected p loads url (turned i r) s c)
        (turn_at-Records url j plain (s.crew.phase i) i r s c rec)
  happen-Records (shut_down ∷ events) s spared c rec =
      happen-Records events (happens p loads shut_down s) spared
        (happens-IsConnected p loads url shut_down s c) rec
  happen-Records (cancelled i r ∷ events) s spared c rec =
      happen-Records events (happens p loads (cancelled i r) s) spared
        (happens-IsConnected p loads url (cancelled i r) s c)
        (cancel_late-Records url j plain s.shut i r s c rec)
