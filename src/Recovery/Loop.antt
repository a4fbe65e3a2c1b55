-- ===== src/Recovery/Loop.antt =====
-- src/recovery.py: the loop over the keys.
use cio_run_auto_orchestrato.Recovery.Fate.{
  rests, Own, Fate, fate, at_start, at_start-rests, at_start-Fate, interrupted_at, reclaimed_lem,
  not_running, open_task, queued_for_lem, queued_for-Fate, rests-Fate, Own-Fate,
}
use cio_run_auto_orchestrato.Prelude.{
  String, ℕ, ◌+◌, Bool, true, false, Option, none, some, List, [], ◌∷◌, ◌++◌, map, ◌≡◌, refl, sym,
  ap, subst, ◌∙◌, ◌==◌, ==_refl, ==_iff, ◌⊎◌, elem, length, length-append, arith, Bool-cases, inl,
  inr, if◌then◌else◌,
}
use mathlib.Core.List.{append-nil, append_assoc}
use mathlib.Core.Bool.{false≢true}
use cio_run_auto_orchestrato.Effect.{Result, ok, continue}
use cio_run_auto_orchestrato.Models.{Task, is_terminal, is_running}
use cio_run_auto_orchestrato.Redis.{Env}
use cio_run_auto_orchestrato.RedisClient.{World}
use cio_run_auto_orchestrato.TaskQueue.Queue.Fifo.{waiting}
use cio_run_auto_orchestrato.Recovery.{
  Scan, task_keys, reclaim, reclaim_all, recover_stranded_tasks,
}
use cio_run_auto_orchestrato.Recovery.Stranded.{is_stranded, queued_for, seen, reclaim-Reclaims}

module _ (e : Env) where
  -- The texts that the loop queues, for the records as they stand at its start.
  abbrev pub texts_for : World e → List String → List String
  texts_for w [] = []
  texts_for w (key ∷ keys) = map e.dump (queued_for w.clock (seen e w key)) ++ texts_for w keys

  texts_for-Fate :
      (w : World e) (key : String) (w' : World e) (keys : List String)
      → w'.clock ≡ w.clock
      → ((k : String) → Fate e w key w' k)
      → texts_for w' keys ≡ texts_for w keys
  texts_for-Fate w key w' [] now f = refl
  texts_for-Fate w key w' (k ∷ keys) now f =
      rw (now, queued_for-Fate e w key w' k (f k), texts_for-Fate w key w' keys now f)

  abbrev pub number : Bool → ℕ
  number true = 1
  number false = 0

  length-queued_for :
      (now : ℕ) (o : Option Task) → length (map e.dump (queued_for now o)) ≡ number (is_stranded o)
  length-queued_for now none = refl
  length-queued_for now (some t) = elim (Bool-cases (is_terminal t)) [ inl q ↦ rw q | inr q ↦ rw q ]

  -- The loop from some count on, and the records of the keys behind it.
  abbrev Recovers : List String → ℕ → World e → Result ℕ × World e → Type 0
  Recovers keys recovered w (res, w') =
      (res ≡ ok (recovered + length (texts_for w keys)))
      × (waiting e w' ≡ waiting e w ++ texts_for w keys)
      × ((k : String)
          → (elem k keys ≡ true) ⊎ (rests (seen e w k) ≡ true)
          → seen e w' k ≡ at_start w.clock (seen e w k))

  rests_nowhere :
      (w : World e) (k : String)
      → (elem k [] ≡ true) ⊎ (rests (seen e w k) ≡ true)
      → seen e w k ≡ at_start w.clock (seen e w k)
  unfolding elem
  rests_nowhere w k (inl m) = absurd (false≢true m)
  rests_nowhere w k (inr h) = sym (at_start-rests w.clock (seen e w k) h)

  counted :
      (b : Bool) (recovered n m : ℕ)
      → n ≡ number b
      → (if b then recovered + 1 else recovered) + m ≡ recovered + (n + m)
  counted b recovered n m q = ground arith

  one_more :
      (key : String) (keys : List String) (recovered : ℕ) (w w' : World e)
      → w'.clock ≡ w.clock
      → waiting e w' ≡ waiting e w ++ map e.dump (queued_for w.clock (seen e w key))
      → ((k : String) → Fate e w key w' k)
      → (z : Result ℕ × World e)
      → Recovers keys (if is_stranded (seen e w key) then recovered + 1 else recovered) w' z
      → Recovers (key ∷ keys) recovered w z
  unfolding elem
  one_more key keys recovered w w' now queue f (res, w'') (count, texts, idle) = (
    count
        ∙ ap ok (
            ap (λ xs. (if is_stranded (seen e w key) then recovered + 1 else recovered) + length xs)
              same
            ∙ counted (is_stranded (seen e w key)) recovered _ _
                (length-queued_for w.clock (seen e w key))
            ∙ ap (λ n. recovered + n)
                (sym (
                  length-append (map e.dump (queued_for w.clock (seen e w key)))
                    (texts_for w keys)))),
    texts
        ∙ rw (queue, same)
            (append_assoc (waiting e w) (map e.dump (queued_for w.clock (seen e w key)))
              (texts_for w keys)),
    λ k h.
        idle k (rests_behind k h)
        ∙ ap (λ n. at_start n (seen e w' k)) now
        ∙ at_start-Fate e w key w' k (f k),
  )
    where
      same : texts_for w' keys ≡ texts_for w keys
      same = texts_for-Fate w key w' keys now f

      rests_behind :
          (k : String)
          → (elem k (key ∷ keys) ≡ true) ⊎ (rests (seen e w k) ≡ true)
          → (elem k keys ≡ true) ⊎ (rests (seen e w' k) ≡ true)
      rests_behind k (inr h) = inr (rests-Fate e w key w' k (f k) (inr h))
      rests_behind k (inl m) = elim (Bool-cases (key == k)) [
        | inl q ↦ inr (rests-Fate e w key w' k (f k) (inl ((==_iff key k).0 q)))
        | inr q ↦ inl (ground arith)
      ]

  reclaim_all-Recovers :
      (keys : List String) (recovered : ℕ) (w : World e) {u : String}
      → w.client ≡ some u
      → ((k : String) → elem k keys ≡ true → Own e w k)
      → Recovers keys recovered w (reclaim_all e keys recovered w)
  unfolding reclaim_all elem
  reclaim_all-Recovers [] recovered w c own =
      (ap ok (omega arith), sym (append-nil (waiting e w)), rests_nowhere w)
  reclaim_all-Recovers (key ∷ keys) recovered w c own =
      let z = reclaim e key w in
      let step = reclaim-Reclaims e key w c in
      let stranded = is_stranded (seen e w key) in
      let f = λ (k : String).
        fate e (seen e w key) key w z.1 refl (own key (rw (==_refl key))) step.4 k in
      let next = if stranded then recovered + 1 else recovered in
      subst
        (λ r. Recovers (key ∷ keys) recovered w (
          continue r (λ queued. reclaim_all e keys (if queued then recovered + 1 else recovered))
            z.1))
        (sym step.0)
        (one_more key keys recovered w z.1 step.2 step.3 f (reclaim_all e keys next z.1) (
          reclaim_all-Recovers keys next z.1 (step.1 ∙ c)
            (λ k m. Own-Fate e w key z.1 k (f k) (own k (ground arith)))))

  pub recover_lem :
      (scan : Scan) (w : World e) {u : String}
      → w.client ≡ some u
      → recover_stranded_tasks e scan w ≡ reclaim_all e (task_keys scan) 0 w
  unfolding recover_stranded_tasks
  recover_lem scan w c = ground arith

  -- The count, the queue and the records behind recovery.
  pub recovery_lem :
      (scan : Scan) (w : World e) {u : String}
      → w.client ≡ some u
      → ((k : String) → elem k (task_keys scan) ≡ true → Own e w k)
      → let z = recover_stranded_tasks e scan w in
        (z.0 ≡ ok (length (texts_for w (task_keys scan))))
        × (waiting e z.1 ≡ waiting e w ++ texts_for w (task_keys scan))
        × ((k : String)
            → elem k (task_keys scan) ≡ true
            → seen e z.1 k ≡ at_start w.clock (seen e w k))
  recovery_lem scan w c own =
      let all = reclaim_all-Recovers (task_keys scan) 0 w c own in
      rw (recover_lem scan w c) (all.0 ∙ ap ok (omega arith), all.1, λ k m. all.2 k (inl m))

  -- The texts of the open tasks under some keys: a RUNNING one is INTERRUPTED, with the time and the
  -- reason, and any other is as it was.
  abbrev pub open_texts : World e → List String → List String
  open_texts w [] = []
  open_texts w (key ∷ keys) = map e.dump (open_task w.clock (seen e w key)) ++ open_texts w keys

  open_texts_lem : (w : World e) (keys : List String) → texts_for w keys ≡ open_texts w keys
  open_texts_lem w [] = refl
  open_texts_lem w (key ∷ keys) =
      rw (queued_for_lem w.clock (seen e w key), open_texts_lem w keys) refl

  -- Recovery, with a client and where each scanned record stands under the key of its own task: it
  -- returns the number of open tasks among the scanned keys, a key that SCAN returns twice counted
  -- twice; it puts their texts behind what the queue held, in the order of the scan, those of RUNNING
  -- tasks as INTERRUPTED with the time and the reason, all others as they were; and then each
  -- scanned record is the task that it was, INTERRUPTED with the time and the reason if it was
  -- RUNNING, so that none is RUNNING.
  pub recovery_queues_stranded :
      (scan : Scan) (w : World e) {u : String}
      → w.client ≡ some u
      → ((k : String) → elem k (task_keys scan) ≡ true → Own e w k)
      → let z = recover_stranded_tasks e scan w in
        (z.0 ≡ ok (length (open_texts w (task_keys scan))))
        × (waiting e z.1 ≡ waiting e w ++ open_texts w (task_keys scan))
        × ((k : String)
            → elem k (task_keys scan) ≡ true
            → (t : Task) → seen e w k ≡ some t
            → seen e z.1 k ≡ some (interrupted_at w.clock t))
        × ((k : String)
            → elem k (task_keys scan) ≡ true
            → (t : Task) → seen e z.1 k ≡ some t
            → is_running t.status ≡ false)
  recovery_queues_stranded scan w c own =
      let all = recovery_lem scan w c own in
      let same = open_texts_lem w (task_keys scan) in
      (
        all.0 ∙ ap (λ ts. ok (length ts)) same,
        all.1 ∙ ap (λ ts. waiting e w ++ ts) same,
        λ k m t q. all.2 k m ∙ ap (at_start w.clock) q ∙ ap some (reclaimed_lem w.clock t),
        λ k m t q. not_running w.clock (seen e w k) t (sym (all.2 k m) ∙ q),
      )
