-- ===== src/Recovery/Again.antt =====
-- src/recovery.py: what a second start finds, with no worker in between.
use cio_run_auto_orchestrato.Prelude.{
  String, ℕ, true, false, Option, none, some, List, [], ◌∷◌, ◌++◌, ◌≡◌, refl, sym, ap, subst, ◌∙◌,
  arith, elem, length, ==_refl,
}
use cio_run_auto_orchestrato.Effect.{ok, Result}
use cio_run_auto_orchestrato.Models.{Task, is_running}
use cio_run_auto_orchestrato.Redis.{Env}
use cio_run_auto_orchestrato.RedisClient.{World}
use cio_run_auto_orchestrato.TaskQueue.Queue.Fifo.{waiting}
use cio_run_auto_orchestrato.Recovery.{
  Scan, task_keys, reclaim, reclaim_all, recover_stranded_tasks,
}
use cio_run_auto_orchestrato.Recovery.Stranded.{queued_for, seen, reclaim-Reclaims}
use cio_run_auto_orchestrato.Recovery.Fate.{
  rests, Own, Fate, kept, taken, fate, queued_for-Fate, Own-Fate,
}
use cio_run_auto_orchestrato.Recovery.Loop.{
  texts_for, recover_lem, recovery_lem, recovery_queues_stranded,
}

module _ (e : Env) where
  -- What a run of the loop leaves as it is.
  abbrev Resembles : World e → World e → Type 0
  Resembles w w' =
      (w'.client ≡ w.client)
      × (w'.clock ≡ w.clock)
      × ((k : String) → queued_for w.clock (seen e w' k) ≡ queued_for w.clock (seen e w k))
      × ((k : String) → Own e w k → Own e w' k)
      × ((k : String) → rests (seen e w k) ≡ true → seen e w' k ≡ seen e w k)

  at_rest_kept :
      (w : World e) (key : String) (w' : World e) (k : String)
      → Fate e w key w' k
      → rests (seen e w k) ≡ true
      → seen e w' k ≡ seen e w k
  at_rest_kept w key w' k (kept same idle) h = same
  at_rest_kept w key w' k (taken t q runs q') h =
      let clash : rests (some t) ≡ true = ap rests (sym q) ∙ h in ground arith

  Resembles-then : (w v u : World e) → Resembles w v → Resembles v u → Resembles w u
  Resembles-then w v u (c, now, queues, own, rest) (c', now', queues', own', rest') = (
    c' ∙ c,
    now' ∙ now,
    λ k.
        ap (λ n. queued_for n (seen e u k)) (sym now)
        ∙ queues' k
        ∙ ap (λ n. queued_for n (seen e v k)) now
        ∙ queues k,
    λ k h. own' k (own k h),
    λ k h. rest' k (ap rests (rest k h) ∙ h) ∙ rest k h,
  )

  reclaim_all-Resembles :
      (keys : List String) (n : ℕ) (w : World e) {u : String}
      → w.client ≡ some u
      → ((k : String) → elem k keys ≡ true → Own e w k)
      → Resembles w (reclaim_all e keys n w).1
  unfolding reclaim_all elem
  reclaim_all-Resembles [] n w c own = (refl, refl, λ k. refl, λ k h. h, λ k h. refl)
  reclaim_all-Resembles (key ∷ keys) n w c own =
      let z = reclaim e key w in
      let step = reclaim-Reclaims e key w c in
      let f = λ (k : String).
        fate e (seen e w key) key w z.1 refl (own key (rw (==_refl key))) step.4 k in
      let here : Resembles w z.1 = (
        step.1,
        step.2,
        λ k. queued_for-Fate e w key z.1 k (f k),
        λ k. Own-Fate e w key z.1 k (f k),
        λ k. at_rest_kept w key z.1 k (f k),
      ) in
      rw step.0 (
        Resembles-then w z.1 _ here (
          reclaim_all-Resembles keys _ z.1 (step.1 ∙ c)
            (λ k m. Own-Fate e w key z.1 k (f k) (own k (ground arith)))))

  texts_for-Resembles :
      (w w' : World e) (keys : List String)
      → Resembles w w'
      → texts_for e w' keys ≡ texts_for e w keys
  texts_for-Resembles w w' [] same = refl
  texts_for-Resembles w w' (k ∷ keys) same =
      rw (same.1, same.2 k, texts_for-Resembles w w' keys same)

  rests_if :
      (o : Option Task) → ((t : Task) → o ≡ some t → is_running t.status ≡ false) → rests o ≡ true
  rests_if none h = refl
  rests_if (some t) h = let idle = h t refl in ground arith

  -- A second recovery over the same keys, right behind the first, with a client and where each
  -- scanned record stands under the key of its own task: it returns the same number, changes no
  -- scanned record, and puts the same texts into the queue once more, behind those of the first.
  pub second_recovery_queues_again :
      (scan : Scan) (w : World e) {u : String}
      → w.client ≡ some u
      → ((k : String) → elem k (task_keys scan) ≡ true → Own e w k)
      → let z = recover_stranded_tasks e scan w in
        let z' = recover_stranded_tasks e scan z.1 in
        let texts = texts_for e w (task_keys scan) in
        (z'.0 ≡ z.0)
        × (waiting e z'.1 ≡ (waiting e w ++ texts) ++ texts)
        × ((k : String) → elem k (task_keys scan) ≡ true → seen e z'.1 k ≡ seen e z.1 k)
  second_recovery_queues_again scan w {u} c own =
      let keys = task_keys scan in
      let w' = (recover_stranded_tasks e scan w).1 in
      let same : Resembles w w' =
        subst (λ (z : Result ℕ × World e). Resembles w z.1) (sym (recover_lem e scan w c))
          (reclaim_all-Resembles keys 0 w c own) in
      let own' = λ (k : String) (m : elem k keys ≡ true). same.3 k (own k m) in
      let c' = same.0 ∙ c in
      let again : Resembles w' (recover_stranded_tasks e scan w').1 =
        subst (λ (z : Result ℕ × World e). Resembles w' z.1) (sym (recover_lem e scan w' c'))
          (reclaim_all-Resembles keys 0 w' c' own') in
      let (count, texts, left) = recovery_lem e scan w c own in
      let idle = (recovery_queues_stranded e scan w c own).3 in
      let (count', texts', left') = recovery_lem e scan w' c' own' in
      let equal : texts_for e w' keys ≡ texts_for e w keys = texts_for-Resembles w w' keys same in
      (
        count' ∙ ap (λ (ts : List String). ok (length ts)) equal ∙ sym count,
        texts'
            ∙ ap (λ (ts : List String). ts ++ texts_for e w' keys) texts
            ∙ ap (λ (ts : List String). (waiting e w ++ texts_for e w keys) ++ ts) equal,
        λ k m. again.4 k (rests_if (seen e w' k) (idle k m)),
      )
