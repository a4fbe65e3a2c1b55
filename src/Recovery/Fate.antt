-- ===== src/Recovery/Fate.antt =====
-- src/recovery.py: what the body of the loop does to the record under a key.
use cio_run_auto_orchestrato.Prelude.{
  String, ℕ, Bool, true, Option, none, some, List, [], ◌∷◌, ◌≡◌, refl, if◌then◌else◌, false, sym,
  ap, subst, ◌∙◌, ◌==◌, ==_iff, not, ◌⊎◌, arith, Bool-cases, inl, inr,
}
use mathlib.Core.Bool.{false≢true}
use cio_run_auto_orchestrato.Models.{
  Task, interrupted, transition, touch, is_terminal, is_terminal_status, is_running,
}
use cio_run_auto_orchestrato.Redis.{Env}
use cio_run_auto_orchestrato.RedisClient.{World}
use cio_run_auto_orchestrato.TaskQueue.Keys.{task_key}
use cio_run_auto_orchestrato.TaskQueue.Store.Records.{text_at}
use cio_run_auto_orchestrato.TaskQueue.Queue.Fifo.{read}
use cio_run_auto_orchestrato.Recovery.{reclaimed}
use cio_run_auto_orchestrato.Recovery.Stranded.{queued_for, rewritten, replaced, seen}

abbrev pub rests : Option Task → Bool
rests none = true
rests (some t) = not (is_running t.status)

module _ (now : ℕ) (t : Task) (q : is_running t.status ≡ true) where
  queued_once : queued_for now (some (reclaimed now t)) ≡ queued_for now (some t)
  unfolding reclaimed transition touch is_terminal
  queued_once = ground arith

  rests-reclaimed : rests (some (reclaimed now t)) ≡ true
  unfolding reclaimed transition touch
  rests-reclaimed = ground arith

  pub task_id-reclaimed : (reclaimed now t).task_id ≡ t.task_id
  unfolding reclaimed transition touch
  task_id-reclaimed = ground arith

-- The task at the next start: INTERRUPTED if it was RUNNING, with the time and the reason.
abbrev pub interrupted_at : ℕ → Task → Task
interrupted_at now t =
    if is_running t.status
    then (record t {
      status = interrupted;
      status_detail = "crash-recovery: worker lost during execution";
      updated_at = now;
    })
    else t

abbrev pub open_task : ℕ → Option Task → List Task
open_task now none = []
open_task now (some t) = if is_terminal_status t.status then [] else interrupted_at now t ∷ []

pub reclaimed_lem : (now : ℕ) (t : Task) → reclaimed now t ≡ interrupted_at now t
unfolding reclaimed transition touch
reclaimed_lem now t = refl

pub queued_for_lem : (now : ℕ) (o : Option Task) → queued_for now o ≡ open_task now o
unfolding reclaimed transition touch is_terminal
queued_for_lem now none = refl
queued_for_lem now (some t) = refl

-- What the loop makes of a record.
abbrev pub at_start : ℕ → Option Task → Option Task
at_start now none = none
at_start now (some t) = some (reclaimed now t)

pub at_start-rests : (now : ℕ) (o : Option Task) → rests o ≡ true → at_start now o ≡ o
unfolding reclaimed
at_start-rests now none h = refl
at_start-rests now (some t) h =
    let idle : is_running t.status ≡ false = ground (arith, h) in rw idle refl

rests_now : (o : Option Task) (t : Task) → rests o ≡ true → o ≡ some t → is_running t.status ≡ false
rests_now o t h q = ground arith

pub not_running :
    (now : ℕ) (o : Option Task) (t : Task) → at_start now o ≡ some t → is_running t.status ≡ false
unfolding reclaimed transition touch
not_running now none t q = ground arith
not_running now (some s) t q = elim (Bool-cases (is_running s.status)) [
  | inl runs ↦ rests_now (at_start now (some s)) t (rests-reclaimed now s runs) q
  | inr idle ↦ rests_now (at_start now (some s)) t (rw idle (rw idle refl)) q
]

module _ (e : Env) where
  -- A record under the key of its task.
  abbrev pub Own : World e → String → Type 0
  Own w k = (t : Task) → seen e w k ≡ some t → task_key t.task_id ≡ k

  -- What the body of the loop does to the record under a key: nothing, or it takes it out of
  -- RUNNING.
  pub data Fate (w : World e) (key : String) (w' : World e) (k : String) : Type 0 where
    kept : seen e w' k ≡ seen e w k → ((key ≡ k) → rests (seen e w k) ≡ true) → Fate w key w' k
    taken :
        (t : Task)
        → seen e w k ≡ some t
        → is_running t.status ≡ true
        → seen e w' k ≡ some (reclaimed w.clock t)
        → Fate w key w' k

  pub fate :
      (o : Option Task) (key : String) (w w' : World e)
      → seen e w key ≡ o
      → Own w key
      → ((k : String) → text_at e w' k ≡ replaced e (rewritten w.clock o) (text_at e w) k)
      → (k : String) → Fate w key w' k
  fate none key w w' q own step k = kept (ap (read e) (step k)) (λ same. rw (← same, q))
  fate (some t) key w w' q own step k = elim (Bool-cases (is_running t.status)) [
    | inr idle ↦ kept (ap (read e) (step k ∙ rw idle)) (λ same. rw (← same, q, idle))
    | inl runs ↦ elim (Bool-cases (task_key t.task_id == k)) [
      | inl same ↦
          taken t
            (subst (λ k. seen e w k ≡ some t)
              (sym (own t q) ∙ (==_iff (task_key t.task_id) k).0 same) q)
            runs (ap (read e) (step k ∙ hit t k runs same) ∙ e.validate_law (reclaimed w.clock t))
      | inr other ↦
          kept
            (ap (read e) (
              step k
              ∙ rw (runs, ap (λ i. task_key i == k) (task_id-reclaimed w.clock t runs), other)))
            (λ same.
              absurd (false≢true (sym other ∙ (==_iff (task_key t.task_id) k).1 (own t q ∙ same))))
    ]
  ]
    where
      hit :
          (t : Task) (k : String)
          → is_running t.status ≡ true
          → (task_key t.task_id == k) ≡ true
          → replaced e (rewritten w.clock (some t)) (text_at e w) k
            ≡ some (e.dump (reclaimed w.clock t))
      hit t k runs same =
          rw (runs, ap (λ i. task_key i == k) (task_id-reclaimed w.clock t runs), same)

  -- What a fate leaves as it was, and what it brings.
  pub queued_for-Fate :
      (w : World e) (key : String) (w' : World e) (k : String)
      → Fate w key w' k
      → queued_for w.clock (seen e w' k) ≡ queued_for w.clock (seen e w k)
  queued_for-Fate w key w' k (kept same idle) = ap (queued_for w.clock) same
  queued_for-Fate w key w' k (taken t q runs q') = rw (q, q') (queued_once w.clock t runs)

  pub rests-Fate :
      (w : World e) (key : String) (w' : World e) (k : String)
      → Fate w key w' k
      → (key ≡ k) ⊎ (rests (seen e w k) ≡ true)
      → rests (seen e w' k) ≡ true
  rests-Fate w key w' k (kept same idle) (inl h) = ap rests same ∙ idle h
  rests-Fate w key w' k (kept same idle) (inr h) = ap rests same ∙ h
  rests-Fate w key w' k (taken t q runs q') h = rw q' (rests-reclaimed w.clock t runs)

  pub Own-Fate :
      (w : World e) (key : String) (w' : World e) (k : String)
      → Fate w key w' k
      → Own w k
      → Own w' k
  Own-Fate w key w' k (kept same idle) own t q = own t (sym same ∙ q)
  Own-Fate w key w' k (taken t q runs q') own t' h =
      ground (arith, own t q, task_id-reclaimed w.clock t runs)

  pub at_start-Fate :
      (w : World e) (key : String) (w' : World e) (k : String)
      → Fate w key w' k
      → at_start w.clock (seen e w' k) ≡ at_start w.clock (seen e w k)
  at_start-Fate w key w' k (kept same idle) = ap (at_start w.clock) same
  at_start-Fate w key w' k (taken t q runs q') =
      ap (at_start w.clock) q'
      ∙ at_start-rests w.clock (some (reclaimed w.clock t)) (rests-reclaimed w.clock t runs)
      ∙ ap (at_start w.clock) (sym q)
