-- ===== src/Main/Accepted.antt =====
-- src/api.py, src/worker.py and src/main.py together: a task that was accepted is never lost while the
-- process runs.
use cio_run_auto_orchestrato.Prelude.{
  String, ℕ, Bool, true, false, none, some, List, [], ◌∷◌, ◌≡◌, refl, sym, subst, ap, ◌∙◌, ◌==◌,
  ==_refl, elem, inr, arith,
}
use cio_run_auto_orchestrato.Effect.{Result, ok}
use cio_run_auto_orchestrato.Models.{new_task}
use cio_run_auto_orchestrato.Redis.{Env, Contents}
use cio_run_auto_orchestrato.RedisClient.{World}
use cio_run_auto_orchestrato.TaskQueue.Keys.{task_key, queue_key}
use cio_run_auto_orchestrato.TaskQueue.Store.{find_incomplete, find_by_digest}
use cio_run_auto_orchestrato.TaskQueue.Store.Records.{
  IsPlainId, text_at, text_at-save, digest_key-task_key,
}
use cio_run_auto_orchestrato.TaskQueue.Store.Lookup.{client-save}
use cio_run_auto_orchestrato.ConfigSchema.Json.{Json}
use cio_run_auto_orchestrato.ConfigSchema.Check.{Pydantic}
use cio_run_auto_orchestrato.Api.{TaskCreateRequest, create_task, task_of}
use cio_run_auto_orchestrato.Api.Create.{
  made, saved, pushed, create_task_lem, add_task_lem, text_at-pushed,
}
use cio_run_auto_orchestrato.Api.Request.{post_task}
use cio_run_auto_orchestrato.Worker.Execute.{Round}
use cio_run_auto_orchestrato.Worker.Others.{Others-refl, Others-trans, save-Others, enqueue-Others}
use cio_run_auto_orchestrato.Worker.Others
use cio_run_auto_orchestrato.Worker.Kept.{Kept, Kept-Others, OnLoop, turn-Kept}
use cio_run_auto_orchestrato.Main.Pool.{Phase, created, in_turn, ended}
use cio_run_auto_orchestrato.Main.Steady.{post_task-Steady, get_task-Steady}
use cio_run_auto_orchestrato.Main.Connected.{IsConnected, happens-IsConnected}
use cio_run_auto_orchestrato.Main.{
  Event, posted, asked, begun, turned, shut_down, cancelled, App, turn_at, cancel_at, cancel_late,
  happens, happen,
}

-- An id that is made is not `j`, and rounds run on the event loop.
abbrev Regular : String → Event → Type 0
Regular j (posted uuid d) = (uuid == j) ≡ false
Regular j (turned i r) = OnLoop r
Regular j (cancelled i r) = OnLoop r
Regular j _ = Unit {0}

abbrev AllRegular : String → List Event → Type 0
AllRegular j [] = Unit {0}
AllRegular j (event ∷ events) = Regular j event × AllRegular j events

module _ {e : Env} (url j : String) (plain : IsPlainId j) where
  turn_at-Kept :
      (phase : Phase) (i : ℕ) (r : Round) (s : App e)
      → OnLoop r
      → IsConnected url s
      → Kept j s.world
      → Kept j (turn_at phase i r s).world
  turn_at-Kept created i r s calm c kept = kept
  turn_at-Kept in_turn i r s calm c kept = turn-Kept url j plain r calm s.world c kept
  turn_at-Kept ended i r s calm c kept = kept

  cancel_at-Kept :
      (phase : Phase) (i : ℕ) (r : Round) (s : App e)
      → OnLoop r
      → IsConnected url s
      → Kept j s.world
      → Kept j (cancel_at phase i r s).world
  cancel_at-Kept created i r s calm c kept = kept
  cancel_at-Kept in_turn i r s calm c kept = turn-Kept url j plain r calm s.world c kept
  cancel_at-Kept ended i r s calm c kept = kept

  cancel_late-Kept :
      (late : Bool) (i : ℕ) (r : Round) (s : App e)
      → OnLoop r
      → IsConnected url s
      → Kept j s.world
      → Kept j (cancel_late late i r s).world
  cancel_late-Kept false i r s calm c kept = kept
  cancel_late-Kept true i r s calm c kept = cancel_at-Kept (s.crew.phase i) i r s calm c kept

module _ {e : Env} (p : Pydantic) (loads : String → Result Json) (url j : String)
    (plain : IsPlainId j) where
  happens-Kept :
      (event : Event) (s : App e)
      → Regular j event
      → IsConnected url s
      → Kept j s.world
      → Kept j (happens p loads event s).world
  unfolding happens
  happens-Kept (posted uuid d) s other c kept =
      Kept-Others j uuid s.world (post_task p loads e uuid d s.world).1 plain other
        (post_task-Steady (Others.Others uuid) (Others-refl uuid) (Others-trans uuid) uuid
          (λ t own w. save-Others e uuid t w own) (enqueue-Others uuid) p loads d s.world)
        kept
  happens-Kept (asked task_id) s other c kept =
      get_task-Steady (λ w w'. Kept j w → Kept j w') (λ w k. k) (λ w v u f g k. g (f k)) task_id
        s.world kept
  happens-Kept (begun i) s other c kept = kept
  happens-Kept (turned i r) s calm c kept =
      turn_at-Kept url j plain (s.crew.phase i) i r s calm c kept
  happens-Kept shut_down s other c kept = kept
  happens-Kept (cancelled i r) s calm c kept = cancel_late-Kept url j plain s.shut i r s calm c kept

  happen-Kept :
      (events : List Event) (s : App e)
      → AllRegular j events
      → IsConnected url s
      → Kept j s.world
      → Kept j (happen p loads events s).world
  unfolding happen
  happen-Kept [] s regular c kept = kept
  happen-Kept (event ∷ events) s (here, later) c kept =
      happen-Kept events (happens p loads event s) later (happens-IsConnected p loads url event s c)
        (happens-Kept event s here c kept)

module _ {e : Env} (uuid : String) (body : TaskCreateRequest) (w : World e) {url : String}
    (c : w.client ≡ some url) (fresh : text_at e w (task_key uuid) ≡ none)
    (plain : IsPlainId uuid) where
  pushed-Kept : Kept uuid (pushed e uuid body w c)
  unfolding task_of new_task elem
  pushed-Kept =
      let t = made e uuid body w c in
      (
        t,
        (
          refl,
          text_at-pushed e uuid body w c (task_key uuid)
              ∙ (text_at-save e t w url (task_key uuid) c fresh).1
              ∙ rw
                  (
                    digest_key-task_key e t.project_name t.requirement uuid plain,
                    ==_refl (task_key uuid),
                  )
                  (ground arith),
        ),
        inr (
            inr (
              ap (λ (x : Contents). elem (e.dump t) (x.items queue_key))
                (e.lpush_law queue_key (e.dump t) (saved e uuid body w c).db)
              ∙ ground (arith, ==_refl (e.dump t)))),
      )

  pub accepted :
      (find_incomplete e body.project_name w).0 ≡ ok none
      → (find_by_digest e body.project_name body.requirement w).0 ≡ ok none
      → let w' = (create_task e uuid body w).1 in (w'.client ≡ some url) × Kept uuid w'
  unfolding task_of new_task
  accepted none_open no_digest =
      subst (λ v. (v.client ≡ some url) × Kept uuid v)
        (sym (
          ap (λ z. z.1)
            (create_task_lem e uuid body w c none_open no_digest
              ∙ add_task_lem e uuid body w c fresh)))
        (client-save e (made e uuid body w c) w c fresh, pushed-Kept)

  pub no_task_is_lost :
      (p : Pydantic) (loads : String → Result Json) (s : App e) (events : List Event)
      → (find_incomplete e body.project_name w).0 ≡ ok none
      → (find_by_digest e body.project_name body.requirement w).0 ≡ ok none
      → AllRegular uuid events
      → let accepted = record s { world = (create_task e uuid body w).1 } in
        Kept uuid (happen p loads events accepted).world
  no_task_is_lost p loads s events none_open no_digest regular =
      let (connected, kept) = accepted none_open no_digest in
      happen-Kept p loads url uuid plain events (record s { world = (create_task e uuid body w).1 })
        regular connected kept
