-- ===== src/Main/Restart.antt =====
-- src/recovery.py behind a run of src/main.py: what the next start makes of a task that was accepted.
use mathlib.Core.Bool.{false≢true}
use cio_run_auto_orchestrato.Prelude.{
  String, ℕ, ◌+◌, Bool, true, none, some, List, [], ◌∷◌, ◌++◌, map, ◌≡◌, refl, sym, subst, ◌∙◌,
  ◌==◌, ==_refl, ==_iff, elem, inl, inr, arith, ◌⊎◌, Bool-cases, if◌then◌else◌,
}
use cio_run_auto_orchestrato.Effect.{Result, ok, continue}
use cio_run_auto_orchestrato.Redis.{Env}
use cio_run_auto_orchestrato.RedisClient.{World}
use cio_run_auto_orchestrato.TaskQueue.Keys.{task_key}
use cio_run_auto_orchestrato.TaskQueue.Store.Records.{text_at, IsPlainId}
use cio_run_auto_orchestrato.TaskQueue.Queue.Fifo.{waiting}
use cio_run_auto_orchestrato.Recovery.{
  Scan, task_keys, reclaim, reclaim_all, recover_stranded_tasks,
}
use cio_run_auto_orchestrato.Recovery.Stranded.{
  seen, rewritten, replaced, queued_for, is_stranded, reclaim-Reclaims,
}
use cio_run_auto_orchestrato.Recovery.Fate.{Own, fate, Own-Fate}
use cio_run_auto_orchestrato.Recovery.Loop.{recover_lem}
use cio_run_auto_orchestrato.TaskQueue.Store.{find_incomplete, find_by_digest}
use cio_run_auto_orchestrato.ConfigSchema.Json.{Json}
use cio_run_auto_orchestrato.ConfigSchema.Check.{Pydantic}
use cio_run_auto_orchestrato.Api.{TaskCreateRequest, create_task}
use cio_run_auto_orchestrato.Main.{Event, App, happen}
use cio_run_auto_orchestrato.Main.Accepted.{accepted}
use cio_run_auto_orchestrato.Main.Sound.{Spared, happen-Records}
use cio_run_auto_orchestrato.Worker.Recorded.{Recorded}
use cio_run_auto_orchestrato.Main.Restored.{Restored, Recorded-other, Restored-other, Restored-own}

module _ {e : Env} (j : String) where
  -- What is still to be shown behind one key.
  abbrev Due : List String → World e → Type 0
  Due keys w = ((elem (task_key j) keys ≡ true) × Recorded j w) ⊎ Restored j w

  one_step :
      (key : String) (w w' : World e)
      → waiting e w' ≡ waiting e w ++ map e.dump (queued_for w.clock (seen e w key))
      → ((k : String)
          → text_at e w' k ≡ replaced e (rewritten w.clock (seen e w key)) (text_at e w) k)
      → Own e w key
      → (keys : List String) → Due (key ∷ keys) w
      → Due keys w'
  unfolding elem
  one_step key w w' queue texts own keys (inl (m, kept)) = elim (Bool-cases (key == task_key j)) [
    | inl same ↦ inr (Restored-own j key w w' queue texts ((==_iff key (task_key j)).0 same) kept)
    | inr other ↦ inl (ground (arith, m), Recorded-other j key w w' queue texts own other kept)
  ]
  one_step key w w' queue texts own keys (inr done) = elim (Bool-cases (key == task_key j)) [
    | inl same ↦
        inr
          (Restored-own j key w w' queue texts ((==_iff key (task_key j)).0 same) (done.0, done.1))
    | inr other ↦ inr (Restored-other j key w w' queue texts own other done)
  ]

  reclaim_all-Restored :
      (keys : List String) (n : ℕ) (w : World e) {u : String}
      → w.client ≡ some u
      → ((k : String) → elem k keys ≡ true → Own e w k)
      → Due keys w
      → Restored j (reclaim_all e keys n w).1
  unfolding reclaim_all elem
  reclaim_all-Restored [] n w c own (inl (m, kept)) = absurd (false≢true m)
  reclaim_all-Restored [] n w c own (inr done) = done
  reclaim_all-Restored (key ∷ keys) n w c own case =
      let z = reclaim e key w in
      let step = reclaim-Reclaims e key w c in
      let own_key = own key (rw (==_refl key)) in
      let f = λ (k : String). fate e (seen e w key) key w z.1 refl own_key step.4 k in
      let later = λ (k : String) (m : elem k keys ≡ true).
        Own-Fate e w key z.1 k (f k) (own k (ground (arith, m))) in
      let queued = is_stranded (seen e w key) in
      subst
        (λ (r : Result Bool).
          Restored j
            (continue r (λ queued. reclaim_all e keys (if queued then n + 1 else n)) z.1).1)
        (sym step.0)
        (reclaim_all-Restored keys (if queued then n + 1 else n) z.1 (step.1 ∙ c) later
          (one_step key w z.1 step.3 step.4 own_key keys case))

  restart_restores :
      (scan : Scan) (w : World e) {u : String}
      → w.client ≡ some u
      → ((k : String) → elem k (task_keys scan) ≡ true → Own e w k)
      → elem (task_key j) (task_keys scan) ≡ true
      → Recorded j w
      → Restored j (recover_stranded_tasks e scan w).1
  restart_restores scan w c own m kept =
      rw (recover_lem e scan w c) (reclaim_all-Restored (task_keys scan) 0 w c own (inl (m, kept)))

module _ {e : Env} (uuid : String) (body : TaskCreateRequest) (w : World e) {url : String}
    (c : w.client ≡ some url) (fresh : text_at e w (task_key uuid) ≡ none)
    (plain : IsPlainId uuid) where
  -- With a client: a request that matches no task, with a new id, is posted. Whatever then happens,
  -- however the engine and asyncio behave, until the process ends: at a next start on the server as it
  -- was left, whose scan has the key of the task, each scanned record under the key of its own task,
  -- behind recovery the record of the id is the text of a task with this id, and the task has a
  -- terminal status or waits in the queue. Later requests make other ids, and no id begins with
  -- `digest:`.
  pub accepted_task_survives_restart :
      (p : Pydantic) (loads : String → Result Json) (s : App e) (events : List Event)
      → (find_incomplete e body.project_name w).0 ≡ ok none
      → (find_by_digest e body.project_name body.requirement w).0 ≡ ok none
      → Spared uuid events
      → (scan : Scan) (restarted : World e) {url2 : String} → restarted.client ≡ some url2
      → restarted.db
        ≡ (happen p loads events (record s { world = (create_task e uuid body w).1 })).world.db
      → elem (task_key uuid) (task_keys scan) ≡ true
      → ((k : String) → elem k (task_keys scan) ≡ true → Own e restarted k)
      → Restored uuid (recover_stranded_tasks e scan restarted).1
  accepted_task_survives_restart p loads s events none_open no_digest spared scan restarted c2 left
        m own =
      let (connected, kept) = accepted uuid body w c fresh plain none_open no_digest in
      let posted = record s { world = (create_task e uuid body w).1 } in
      let recorded =
        happen-Records p loads url uuid plain events posted spared connected (kept.0, kept.1) in
      restart_restores uuid scan restarted c2 own m
        (subst (λ db. Recorded uuid (record restarted { db = db })) (sym left) recorded)
