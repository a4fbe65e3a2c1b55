-- ===== src/Main/Stopping.antt =====
-- `_run_worker_pool` of src/main.py with `run` and `stop` of src/worker.py: what an event leaves of a
-- worker that is told to stop.
use cio_run_auto_orchestrato.Prelude.{
  String, ℕ, ◌+◌, ◌≤◌, Bool, true, false, ◌≡◌, refl, sym, ap, ◌∙◌, arith, nat_eq, if◌then◌else◌,
  Bool-cases, inl, inr,
}
use cio_run_auto_orchestrato.Effect.{Result, ok, err}
use cio_run_auto_orchestrato.Redis.{Env}
use cio_run_auto_orchestrato.ConfigSchema.Json.{Json}
use cio_run_auto_orchestrato.ConfigSchema.Check.{Pydantic}
use cio_run_auto_orchestrato.Worker.Execute.{Round, turn}
use cio_run_auto_orchestrato.Main.Pool.{
  Phase, created, in_turn, ended, Crew, with_phase, begin_at, begin_run, end_turn, stop_all, cancel,
  next_phase,
}
use cio_run_auto_orchestrato.Main.{
  Event, posted, asked, begun, turned, shut_down, cancelled, App, turn_at, cancel_late, happens,
}

-- The turns of a worker that happen.
abbrev pub one_if_in_turn : Phase → ℕ
one_if_in_turn created = 0
one_if_in_turn in_turn = 1
one_if_in_turn ended = 0

abbrev pub turn_made : ℕ → Event → Crew → ℕ
turn_made i (turned j r) c = if nat_eq j i then one_if_in_turn (c.phase i) else 0
turn_made i _ c = 0

pub one_if_in_turn_le : (ph : Phase) → one_if_in_turn ph ≤ 1
one_if_in_turn_le created = omega arith
one_if_in_turn_le in_turn = omega arith
one_if_in_turn_le ended = omega arith

abbrev pub next_shut : Event → Bool → Bool
next_shut shut_down b = true
next_shut _ b = b

pub next_shut-true : (event : Event) (b : Bool) → b ≡ true → next_shut event b ≡ true
next_shut-true shut_down b h = refl
next_shut-true _ b h = h

next_phase_stopped : (b : Bool) (res : Result (Unit {0})) → b ≡ false → next_phase b res ≡ ended
next_phase_stopped b (ok u) q = rw q
next_phase_stopped b (err x) q = refl

nat_eq→eq : (i j : ℕ) → nat_eq i j ≡ true → i ≡ j
nat_eq→eq i j q = ground arith

module _ (i : ℕ) where
  -- The worker is told to stop, and has begun.
  abbrev pub Stopping : Crew → Type 0
  Stopping c = (c.running i ≡ false) × ¬ (c.phase i ≡ created)

  -- It is still so, and the turns that were made are turns that the worker had left.
  abbrev pub Falls : ℕ → Crew → Crew → Type 0
  Falls made c c' = Stopping c' × (made + one_if_in_turn (c'.phase i) ≤ one_if_in_turn (c.phase i))

  pub same_Falls : (c : Crew) → Stopping c → Falls 0 c c
  same_Falls c h = (h, omega arith)

  -- A worker whose phase has changed is past its loop, if it is the one that was told to stop.
  moved_Falls :
      (j : ℕ) (x : Phase) (c : Crew)
      → (nat_eq j i ≡ true → x ≡ ended)
      → Stopping c
      → (made : ℕ) → made ≤ (if nat_eq j i then one_if_in_turn (c.phase i) else 0)
      → Falls made c (with_phase j x c)
  moved_Falls j x c ends h made least = elim (Bool-cases (nat_eq j i)) [
    | inl same ↦ ground (arith, ends same)
    | inr other ↦ ground arith
  ]

  -- A turn of a worker that is not in one does not happen.
  no_turn :
      (j : ℕ) (c : Crew) (x : Phase)
      → c.phase j ≡ x
      → one_if_in_turn x ≡ 0
      → (if nat_eq j i then one_if_in_turn (c.phase i) else 0) ≡ 0
  no_turn j c x q none_left = elim (Bool-cases (nat_eq j i)) [
    | inl same ↦ rw same (
        ap (λ k. one_if_in_turn (c.phase k)) (sym (nat_eq→eq j i same))
        ∙ ap one_if_in_turn q
        ∙ none_left)
    | inr other ↦ rw other refl
  ]

  begun_Falls :
      (ph : Phase) (j : ℕ) (c : Crew) → c.phase j ≡ ph → Stopping c → Falls 0 c (begin_at ph j c)
  begun_Falls created j c q h = elim (Bool-cases (nat_eq j i)) [
    | inl same ↦ absurd (h.1 (ap c.phase (sym (nat_eq→eq j i same)) ∙ q))
    | inr other ↦ rw other (same_Falls c h)
  ]
  begun_Falls in_turn j c q h = same_Falls c h
  begun_Falls ended j c q h = same_Falls c h

module _ {e : Env} where
  pub shut-turn_at : (ph : Phase) (j : ℕ) (r : Round) (s : App e) → (turn_at ph j r s).shut ≡ s.shut
  shut-turn_at created j r s = refl
  shut-turn_at in_turn j r s = refl
  shut-turn_at ended j r s = refl

  pub shut-cancel_late :
      (late : Bool) (ph : Phase) (j : ℕ) (r : Round) (s : App e)
      → s.crew.phase j ≡ ph
      → (cancel_late late j r s).shut ≡ s.shut
  shut-cancel_late false ph j r s q = refl
  shut-cancel_late true created j r s q = rw q refl
  shut-cancel_late true in_turn j r s q = rw q refl
  shut-cancel_late true ended j r s q = rw q refl

module _ {e : Env} (i : ℕ) where
  turned_Falls :
      (ph : Phase) (j : ℕ) (r : Round) (s : App e)
      → s.crew.phase j ≡ ph
      → Stopping i s.crew
      → Falls i (turn_made i (turned j r) s.crew) s.crew (turn_at ph j r s).crew
  unfolding end_turn
  turned_Falls created j r s q h = rw (no_turn i j s.crew created q refl) (same_Falls i s.crew h)
  turned_Falls in_turn j r s q h =
      moved_Falls i j (next_phase (s.crew.running j) (turn r s.world).0) s.crew
        (λ same.
          next_phase_stopped (s.crew.running j) (turn r s.world).0
            (ap s.crew.running (nat_eq→eq j i same) ∙ h.0))
        h _ (omega arith)
  turned_Falls ended j r s q h = rw (no_turn i j s.crew ended q refl) (same_Falls i s.crew h)

  cancelled_Falls :
      (late : Bool) (ph : Phase) (j : ℕ) (r : Round) (s : App e)
      → s.crew.phase j ≡ ph
      → Stopping i s.crew
      → Falls i 0 s.crew (cancel_late late j r s).crew
  unfolding cancel
  cancelled_Falls false ph j r s q h = same_Falls i s.crew h
  cancelled_Falls true created j r s q h =
      rw q (moved_Falls i j ended s.crew (λ same. refl) h 0 (omega arith))
  cancelled_Falls true in_turn j r s q h =
      rw q (moved_Falls i j ended s.crew (λ same. refl) h 0 (omega arith))
  cancelled_Falls true ended j r s q h = rw q (same_Falls i s.crew h)

module _ {e : Env} (p : Pydantic) (loads : String → Result Json) (i : ℕ) where
  pub happens-Falls :
      (event : Event) (s : App e)
      → Stopping i s.crew
      → Falls i (turn_made i event s.crew) s.crew (happens p loads event s).crew
  unfolding happens begin_run stop_all
  happens-Falls (posted uuid d) s h = same_Falls i s.crew h
  happens-Falls (asked task_id) s h = same_Falls i s.crew h
  happens-Falls (begun j) s h = begun_Falls i (s.crew.phase j) j s.crew refl h
  happens-Falls (turned j r) s h = turned_Falls i (s.crew.phase j) j r s refl h
  happens-Falls shut_down s h = ((refl, h.1), omega arith)
  happens-Falls (cancelled j r) s h = cancelled_Falls i s.shut (s.crew.phase j) j r s refl h
