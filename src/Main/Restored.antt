-- ===== src/Main/Restored.antt =====
-- src/recovery.py: what the body of the loop makes of a task that was accepted.
use cio_run_auto_orchestrato.Prelude.{
  String, true, false, Option, none, some, List, [], ◌∷◌, ◌++◌, map, ◌≡◌, refl, subst, ap, ◌∙◌,
  ◌==◌, ==_refl, elem, inl, inr, arith, ◌||◌, ◌⊎◌, Bool-cases,
}
use cio_run_auto_orchestrato.Models.{Task, is_terminal, is_terminal_status, is_running}
use cio_run_auto_orchestrato.Redis.{Env}
use cio_run_auto_orchestrato.RedisClient.{World}
use cio_run_auto_orchestrato.TaskQueue.Keys.{task_key}
use cio_run_auto_orchestrato.TaskQueue.Store.Records.{text_at}
use cio_run_auto_orchestrato.TaskQueue.Queue.Fifo.{waiting, read}
use cio_run_auto_orchestrato.Recovery.{reclaimed}
use cio_run_auto_orchestrato.Recovery.Stranded.{seen, rewritten, replaced, queued_for}
use cio_run_auto_orchestrato.Recovery.Fate.{Own, task_id-reclaimed}
use cio_run_auto_orchestrato.Worker.Kept.{Record}
use cio_run_auto_orchestrato.Worker.Recorded.{Recorded}

elem-++ : (x : String) (xs ys : List String) → elem x (xs ++ ys) ≡ (elem x xs || elem x ys)
unfolding elem
elem-++ x [] ys = refl
elem-++ x (y ∷ xs) ys = ground (arith, elem-++ x xs ys)

module _ {e : Env} (j : String) where
  -- The record is that of a task with the id, which has a terminal status or waits in the queue.
  abbrev pub Restored : World e → Type 0
  Restored w =
      (t : Task) × Record j w t
      × ((is_terminal_status t.status ≡ true) ⊎ (elem (e.dump t) (waiting e w) ≡ true))

  module _ (key : String) (w w' : World e)
      (queue : waiting e w' ≡ waiting e w ++ map e.dump (queued_for w.clock (seen e w key)))
      (texts : (k : String)
        → text_at e w' k ≡ replaced e (rewritten w.clock (seen e w key)) (text_at e w) k) where
    still_waits : (x : String) → elem x (waiting e w) ≡ true → elem x (waiting e w') ≡ true
    still_waits x m =
        ap (elem x) queue
        ∙ elem-++ x (waiting e w) (map e.dump (queued_for w.clock (seen e w key)))
        ∙ rw m refl

    replaced_other :
        (o : Option Task)
        → ((t : Task) → o ≡ some t → task_key t.task_id ≡ key)
        → (key == task_key j) ≡ false
        → replaced e (rewritten w.clock o) (text_at e w) (task_key j) ≡ text_at e w (task_key j)
    replaced_other none own other = refl
    replaced_other (some t) own other = elim (Bool-cases (is_running t.status)) [
      | inr idle ↦ rw idle refl
      | inl runs ↦ rw runs (
          rw
            (ap (λ i. task_key i == task_key j) (task_id-reclaimed w.clock t runs)
              ∙ ap (λ k. k == task_key j) (own t refl)
              ∙ other)
            refl)
    ]

    Record-other :
        (t : Task) → Own e w key → (key == task_key j) ≡ false → Record j w t → Record j w' t
    Record-other t own other (id, rec) =
        (id, texts (task_key j) ∙ replaced_other (seen e w key) own other ∙ rec)

    pub Recorded-other : Own e w key → (key == task_key j) ≡ false → Recorded j w → Recorded j w'
    Recorded-other own other (t, rec) = (t, Record-other t own other rec)

    pub Restored-other : Own e w key → (key == task_key j) ≡ false → Restored w → Restored w'
    Restored-other own other (t, rec, inl done) = (t, Record-other t own other rec, inl done)
    Restored-other own other (t, rec, inr waits) =
        (t, Record-other t own other rec, inr (still_waits (e.dump t) waits))

    module _ (same : key ≡ task_key j) (t : Task) (rec : Record j w t) where
      seen_own : seen e w key ≡ some t
      seen_own = ap (seen e w) same ∙ ap (read e) rec.1 ∙ e.validate_law t

      queue_own : waiting e w' ≡ waiting e w ++ map e.dump (queued_for w.clock (some t))
      queue_own = queue ∙ ap (λ o. waiting e w ++ map e.dump (queued_for w.clock o)) seen_own

      text_own :
          text_at e w' (task_key j)
          ≡ replaced e (rewritten w.clock (some t)) (text_at e w) (task_key j)
      text_own =
          texts (task_key j)
          ∙ ap (λ o. replaced e (rewritten w.clock o) (text_at e w) (task_key j)) seen_own

      queued_open :
          is_terminal t ≡ false → elem (e.dump (reclaimed w.clock t)) (waiting e w') ≡ true
      unfolding elem
      queued_open unfinished =
          let x = e.dump (reclaimed w.clock t) in
          ap (elem x) (queue_own ∙ rw unfinished refl)
          ∙ elem-++ x (waiting e w) (x ∷ [])
          ∙ ground (arith, ==_refl x)

      Restored-running : is_running t.status ≡ true → Restored w'
      unfolding is_terminal
      Restored-running runs = (
        reclaimed w.clock t,
        (
          task_id-reclaimed w.clock t runs ∙ rec.0,
          text_own
              ∙ rw runs (
                  rw
                    (ap (λ i. task_key i == task_key j) (task_id-reclaimed w.clock t runs ∙ rec.0)
                      ∙ ==_refl (task_key j))
                    refl),
        ),
        inr (queued_open (ground (arith, runs))),
      )

      Restored-idle : is_running t.status ≡ false → Restored w'
      unfolding is_terminal reclaimed
      Restored-idle idle =
          let same_task : reclaimed w.clock t ≡ t = rw idle refl in
          (
            t,
            (rec.0, text_own ∙ rw idle rec.1),
            elim (Bool-cases (is_terminal t)) [
              | inl done ↦ inl done
              | inr unfinished ↦ inr (
                  subst (λ u. elem (e.dump u) (waiting e w') ≡ true) same_task
                    (queued_open unfinished))
            ],
          )

    pub Restored-own : key ≡ task_key j → Recorded j w → Restored w'
    Restored-own same (t, rec) = elim (Bool-cases (is_running t.status)) [
      | inl runs ↦ Restored-running same t rec runs
      | inr idle ↦ Restored-idle same t rec idle
    ]
