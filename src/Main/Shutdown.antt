-- ===== src/Main/Shutdown.antt =====
-- `_run_worker_pool` of src/main.py with `run` and `stop` of src/worker.py: which workers the shutdown
-- ends.
use cio_run_auto_orchestrato.Prelude.{
  String, ℕ, ◌+◌, ◌≤◌, true, List, [], ◌∷◌, ◌≡◌, refl, sym, ap, subst, ◌∙◌, arith, length,
}
use cio_run_auto_orchestrato.Effect.{Result, ok}
use cio_run_auto_orchestrato.Redis.{Env}
use cio_run_auto_orchestrato.RedisClient.{World}
use cio_run_auto_orchestrato.ConfigSchema.Json.{Json}
use cio_run_auto_orchestrato.ConfigSchema.Check.{Pydantic}
use cio_run_auto_orchestrato.Worker.Execute.{Round, turn}
use cio_run_auto_orchestrato.Main.Pool.{
  Phase, created, in_turn, ended, begin_run, end_turn, stop_all, cancel,
}
use cio_run_auto_orchestrato.Main.Stopping.{
  one_if_in_turn, turn_made, one_if_in_turn_le, next_shut, next_shut-true, shut-turn_at,
  shut-cancel_late, Stopping, Falls, same_Falls, happens-Falls,
}
use cio_run_auto_orchestrato.Main.{
  Event, posted, asked, begun, turned, shut_down, cancelled, App, turn_at, cancel_at, cancel_late,
  happens, happen,
}

-- The turns return.
abbrev pub Return : {e : Env} → List Round → World e → Type 0
Return [] w = Unit {0}
Return (r ∷ rounds) w = ((turn r w).0 ≡ ok tt) × Return rounds (turn r w).1

abbrev pub turns : ℕ → List Round → List Event
turns i [] = []
turns i (r ∷ rounds) = turned i r ∷ turns i rounds

module _ {e : Env} (p : Pydantic) (loads : String → Result Json) (i : ℕ) where
  abbrev pub turns_made : List Event → App e → ℕ
  turns_made [] s = 0
  turns_made (event ∷ events) s =
      turn_made i event s.crew + turns_made events (happens p loads event s)

  happen-Falls :
      (events : List Event) (s : App e)
      → Stopping i s.crew
      → Falls i (turns_made events s) s.crew (happen p loads events s).crew
  unfolding happen
  happen-Falls [] s h = same_Falls i s.crew h
  happen-Falls (event ∷ events) s h =
      let here = happens-Falls p loads i event s h in
      let later = happen-Falls events (happens p loads event s) here.0 in
      (later.0, omega (arith, here.1, later.1))

  late_cancel_ends :
      (ph : Phase) (r : Round) (s : App e)
      → s.crew.phase i ≡ ph
      → (cancel_at ph i r s).crew.phase i ≡ ended
  unfolding cancel
  late_cancel_ends created r s q = ground arith
  late_cancel_ends in_turn r s q = ground arith
  late_cancel_ends ended r s q = q

  shut-happens :
      (event : Event) (s : App e) → (happens p loads event s).shut ≡ next_shut event s.shut
  unfolding happens
  shut-happens (posted uuid d) s = refl
  shut-happens (asked task_id) s = refl
  shut-happens (begun j) s = refl
  shut-happens (turned j r) s = shut-turn_at (s.crew.phase j) j r s
  shut-happens shut_down s = refl
  shut-happens (cancelled j r) s = shut-cancel_late s.shut (s.crew.phase j) j r s refl

  stays_shut :
      (events : List Event) (s : App e) → s.shut ≡ true → (happen p loads events s).shut ≡ true
  unfolding happen
  stays_shut [] s h = h
  stays_shut (event ∷ events) s h =
      stays_shut events (happens p loads event s)
        (shut-happens event s ∙ next_shut-true event s.shut h)

  ended_by_cancel :
      (r : Round) (s : App e)
      → s.shut ≡ true
      → (happens p loads (cancelled i r) s).crew.phase i ≡ ended
  unfolding happens
  ended_by_cancel r s h =
      ap (λ late. (cancel_late late i r s).crew.phase i) h
      ∙ late_cancel_ends (s.crew.phase i) r s refl

  -- Behind the shutdown, and whatever happens then, in any order: a worker whose run had begun makes
  -- at most one more turn, has ended when it has made one, and has ended when it is cancelled.
  pub shutdown_ends_workers :
      (s : App e) (events : List Event)
      → ¬ (s.crew.phase i ≡ created)
      → let told = happens p loads shut_down s in
        let later = happen p loads events told in
        (turns_made events told ≤ 1)
        × (turns_made events told ≡ 1 → ¬ (later.crew.phase i ≡ in_turn))
        × ((r : Round) → (happens p loads (cancelled i r) later).crew.phase i ≡ ended)
  unfolding happens stop_all
  shutdown_ends_workers s events has_begun =
      let told = happens p loads shut_down s in
      let falls = happen-Falls events told (refl, has_begun) in
      let at_most = one_if_in_turn_le (s.crew.phase i) in
      (
        omega (arith, falls.1, at_most),
        λ made busy. absurd (omega (arith, falls.1, at_most, made, ap one_if_in_turn busy)),
        λ r. ended_by_cancel r (happen p loads events told) (stays_shut events told refl),
      )

module _ {e : Env} (p : Pydantic) (loads : String → Result Json) (i : ℕ) where
  abbrev Busy : App e → Type 0
  Busy s = (s.crew.phase i ≡ in_turn) × (s.crew.running i ≡ true)

  Busy-turn :
      (r : Round) (s : App e)
      → Busy s
      → (turn r s.world).0 ≡ ok tt
      → Busy (happens p loads (turned i r) s)
        × ((happens p loads (turned i r) s).world ≡ (turn r s.world).1)
  unfolding happens end_turn
  Busy-turn r s (ph, on) ret =
      subst (λ x. Busy (turn_at x i r s) × ((turn_at x i r s).world ≡ (turn r s.world).1)) (sym ph)
        (ground (arith, on, ret))

  goes_on :
      (rounds : List Round) (s : App e)
      → Busy s
      → Return rounds s.world
      → ((happen p loads (turns i rounds) s).crew.phase i ≡ in_turn)
        × (turns_made p loads i (turns i rounds) s ≡ length rounds)
  unfolding happen
  goes_on [] s busy ret = (busy.0, refl)
  goes_on (r ∷ rounds) s busy (here, later) =
      let step = Busy-turn r s busy here in
      let next = happens p loads (turned i r) s in
      let rest = goes_on rounds next step.0 (subst (Return rounds) (sym step.1) later) in
      (rest.0, ground (arith, rest.1, busy.0))

  -- A shutdown that comes before the first step of a worker's `run` is lost on it, since `run` sets
  -- the flag that `stop` has cleared: it makes as many turns as there are turns that return, and is
  -- in its loop behind them.
  pub early_stop_is_lost :
      (rounds : List Round) (s : App e)
      → s.crew.phase i ≡ created
      → Return rounds s.world
      → let begun_late = happen p loads (shut_down ∷ begun i ∷ []) s in
        ((happen p loads (turns i rounds) begun_late).crew.phase i ≡ in_turn)
        × (turns_made p loads i (turns i rounds) begun_late ≡ length rounds)
  unfolding happen happens begin_run stop_all
  early_stop_is_lost rounds s q ret =
      goes_on rounds (happens p loads (begun i) (happens p loads shut_down s)) (ground (arith, q))
        ret
