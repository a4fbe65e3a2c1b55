-- ===== src/Recovery/Stranded.antt =====
-- src/recovery.py: the queue and the records behind `recover_stranded_tasks`.
use cio_run_auto_orchestrato.Prelude.{
  String, ℕ, Bool, true, false, Option, none, some, List, [], ◌∷◌, ◌++◌, map, ◌≡◌, refl, sym, ap,
  subst, ◌∙◌, ◌==◌, not, arith, Bool-cases, inl, inr, if◌then◌else◌,
}
use mathlib.Core.List.{append-nil}
use cio_run_auto_orchestrato.Effect.{Result, ok}
use cio_run_auto_orchestrato.Models.{Task, transition, touch, is_terminal, is_running}
use cio_run_auto_orchestrato.Redis.{Env, Contents}
use cio_run_auto_orchestrato.RedisClient.{World}
use cio_run_auto_orchestrato.TaskQueue.Keys.{task_key, queue_key}
use cio_run_auto_orchestrato.TaskQueue.Store.{async_update}
use cio_run_auto_orchestrato.TaskQueue.Store.Records.{
  text_at, async_update_lem, text_at-async_update, items-async_update,
}
use cio_run_auto_orchestrato.TaskQueue.Store.Lookup.{client-async_update}
use cio_run_auto_orchestrato.TaskQueue.Queue.Fifo.{
  waiting, in_order, read, enqueue_lem, queue_is_fifo,
}
use cio_run_auto_orchestrato.Recovery.{
  reclaimed, reclaim_task, reclaim_parsed, reclaim_raw, reclaim,
}

-- Whether a record counts as stranded, and the task that is queued for it.
abbrev pub is_stranded : Option Task → Bool
is_stranded none = false
is_stranded (some t) = not (is_terminal t)

abbrev pub queued_for : ℕ → Option Task → List Task
queued_for now none = []
queued_for now (some t) = if is_terminal t then [] else reclaimed now t ∷ []

-- A record that is rewritten.
abbrev pub rewritten : ℕ → Option Task → Option Task
rewritten now none = none
rewritten now (some t) = if is_running t.status then some (reclaimed now t) else none

module _ (e : Env) where
  abbrev pub replaced : Option Task → (String → Option String) → String → Option String
  replaced none f k = f k
  replaced (some t) f k = if task_key t.task_id == k then some (e.dump t) else f k

  abbrev pub Reclaims : World e → Option Task → Result Bool × World e → Type 0
  Reclaims w o (res, w') =
      (res ≡ ok (is_stranded o))
      × (w'.client ≡ w.client)
      × (w'.clock ≡ w.clock)
      × (waiting e w' ≡ waiting e w ++ map e.dump (queued_for w.clock o))
      × ((k : String) → text_at e w' k ≡ replaced (rewritten w.clock o) (text_at e w) k)

  abbrev pushed : Task → World e → World e
  pushed t w = record w { db = e.lpush queue_key (e.dump t) w.db }

  text_at-pushed : (t : Task) (w : World e) (k : String) → text_at e (pushed t w) k ≡ text_at e w k
  text_at-pushed t w k = ap (λ (x : Contents). x.strings k) (e.lpush_law queue_key (e.dump t) w.db)

  waiting-pushed :
      (t : Task) (w : World e) {u : String}
      → w.client ≡ some u
      → waiting e (pushed t w) ≡ waiting e w ++ (e.dump t ∷ [])
  waiting-pushed t w c =
      ap (λ z. waiting e z.1) (sym (enqueue_lem e w c t)) ∙ (queue_is_fifo e w c t 0).0

  module _ (t : Task) (w : World e) {u : String} (c : w.client ≡ some u) where
    terminal_lem : is_terminal t ≡ true → reclaim_task e t w ≡ (ok false, w)
    unfolding reclaim_task
    terminal_lem q = ground arith

    open_lem :
        is_terminal t ≡ false
        → is_running t.status ≡ false
        → reclaim_task e t w ≡ (ok true, pushed t w)
    unfolding reclaim_task reclaimed
    open_lem q q' = ground (arith, enqueue_lem e w c t)

    running_open : is_running t.status ≡ true → is_terminal t ≡ false
    unfolding is_terminal
    running_open q = ground arith

    reclaimed_open : is_running t.status ≡ true → is_terminal (reclaimed w.clock t) ≡ false
    unfolding is_terminal reclaimed transition touch
    reclaimed_open q = ground arith

    abbrev marked : World e
    marked = (async_update e (reclaimed w.clock t) w).1

    running_lem :
        is_running t.status ≡ true
        → reclaim_task e t w ≡ (ok true, pushed (reclaimed w.clock t) marked)
    unfolding reclaim_task
    running_lem q = ground (
      arith,
      running_open q,
      async_update_lem e (reclaimed w.clock t) w u c,
      enqueue_lem e marked (client-async_update e (reclaimed w.clock t) w c) (reclaimed w.clock t),
    )

    terminal_rests : is_terminal t ≡ true → is_running t.status ≡ false
    unfolding is_terminal
    terminal_rests q = ground arith

    Reclaims-terminal : is_terminal t ≡ true → Reclaims w (some t) (reclaim_task e t w)
    Reclaims-terminal q =
        subst (Reclaims w (some t)) (sym (terminal_lem q))
          (rw q, refl, refl, rw q (sym (append-nil (waiting e w))), λ k. rw (terminal_rests q))

    Reclaims-open :
        is_terminal t ≡ false
        → is_running t.status ≡ false
        → Reclaims w (some t) (reclaim_task e t w)
    unfolding reclaimed
    Reclaims-open q q' =
        subst (Reclaims w (some t)) (sym (open_lem q q'))
          (rw q, refl, refl, rw (q, q') (waiting-pushed t w c), λ k. rw q' (text_at-pushed t w k))

    Reclaims-running : is_running t.status ≡ true → Reclaims w (some t) (reclaim_task e t w)
    Reclaims-running q = subst (Reclaims w (some t)) (sym (running_lem q)) (
        let t' = reclaimed w.clock t in
        (
          rw (running_open q),
          ap (λ z. z.1.client) (async_update_lem e t' w u c),
          ap (λ z. z.1.clock) (async_update_lem e t' w u c),
          rw (running_open q) (
              waiting-pushed t' marked (client-async_update e t' w c)
              ∙ ap (λ xs. in_order xs ++ (e.dump t' ∷ []))
                  (items-async_update e t' w u queue_key c)),
          λ k. rw q (
              text_at-pushed t' marked k
              ∙ text_at-async_update e t' w u k c
              ∙ rw (reclaimed_open q)),
        ))

  -- The task that a key stands for.
  abbrev pub seen : World e → String → Option Task
  seen w k = read e (text_at e w k)

  reclaim_lem :
      (key : String) (w : World e) {u : String}
      → w.client ≡ some u
      → reclaim e key w ≡ reclaim_parsed e (seen w key) w
  unfolding reclaim
  reclaim_lem key w c = rw (e.get_law key w.db) (raw_lem ((e.observe w.db).strings key))
    where
      raw_lem : (o : Option String) → reclaim_raw e o w ≡ reclaim_parsed e (read e o) w
      raw_lem none = refl
      raw_lem (some raw) = refl

  Reclaims-parsed :
      (o : Option Task) (w : World e) {u : String}
      → w.client ≡ some u
      → Reclaims w o (reclaim_parsed e o w)
  Reclaims-parsed none w c = (refl, refl, refl, sym (append-nil (waiting e w)), λ k. refl)
  Reclaims-parsed (some t) w c = elim (Bool-cases (is_terminal t)) [
    | inl q ↦ Reclaims-terminal t w c q
    | inr q ↦ elim (Bool-cases (is_running t.status)) [
      | inl q' ↦ Reclaims-running t w c q'
      | inr q' ↦ Reclaims-open t w c q q'
    ]
  ]

  pub reclaim-Reclaims :
      (key : String) (w : World e) {u : String}
      → w.client ≡ some u
      → Reclaims w (seen w key) (reclaim e key w)
  reclaim-Reclaims key w c =
      subst (Reclaims w (seen w key)) (sym (reclaim_lem key w c)) (Reclaims-parsed (seen w key) w c)
