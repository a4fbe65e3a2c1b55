-- ===== src/Main/Pool.antt =====
-- `_run_worker_pool` of src/main.py, with `run` and `stop` of src/worker.py: how far each worker is,
-- and its flag `_running`. A worker is either before the first step of `run`, in a turn of its loop,
-- or past it; the test of the loop stands between two turns with no wait.
use cio_run_auto_orchestrato.Prelude.{ℕ, Bool, true, false, ltb, nat_eq, if◌then◌else◌}
use cio_run_auto_orchestrato.Effect.{Result, ok, err}

pub data Phase : Type 0 where
  created in_turn ended : Phase

pub record Crew : Type 0 where
  pub phase : ℕ → Phase
  pub running : ℕ → Bool

abbrev pub put {ℓ} : {A : Type ℓ} → ℕ → A → (ℕ → A) → ℕ → A
put i x f j = if nat_eq i j then x else f j

abbrev pub with_phase : ℕ → Phase → Crew → Crew
with_phase i phase c = record c { phase = put i phase c.phase }

-- `asyncio.create_task(w.run())` for each of the workers.
abbrev pub create_tasks : ℕ → Crew
create_tasks workers = record {
  phase = λ i. if ltb i workers then created else ended;
  running = λ i. false;
}

-- The first step of `run`, which sets the flag and enters the loop.
abbrev pub begin_at : Phase → ℕ → Crew → Crew
begin_at created i c = record { phase = put i in_turn c.phase; running = put i true c.running }
begin_at in_turn i c = c
begin_at ended i c = c

unfoldable pub begin_run : ℕ → Crew → Crew
begin_run i c = begin_at (c.phase i) i c

-- The end of a turn: the test of the loop, or an exception, which ends the worker.
abbrev pub next_phase : Bool → Result (Unit {0}) → Phase
next_phase running (ok u) = if running then in_turn else ended
next_phase running (err x) = ended

unfoldable pub end_turn : ℕ → Result (Unit {0}) → Crew → Crew
end_turn i res c = with_phase i (next_phase (c.running i) res) c

-- `stop` of each worker.
unfoldable pub stop_all : Crew → Crew
stop_all c = record c { running = λ i. false }

-- `cancel` of a worker that has not ended.
unfoldable pub cancel : ℕ → Crew → Crew
cancel i c = with_phase i ended c
