-- ===== src/Tests/Crash.antt =====
-- A turn whose updates time out, and the next start.
use cio_run_auto_orchestrato.Prelude.{
  String, true, false, Option, none, some, [], ◌∷◌, ◌≡◌, refl, sym, ap, ◌∙◌, ==_iff, ==_refl,
  starts_with, elem, arith, concat,
}
use cio_run_auto_orchestrato.Effect.{ok, err, timeout_error}
use cio_run_auto_orchestrato.Models.{
  Task, new, running, interrupted, mode_value, transition, touch, is_running,
}
use cio_run_auto_orchestrato.Redis.Demo.{memory}
use cio_run_auto_orchestrato.TaskQueue.Keys.{task_key}
use cio_run_auto_orchestrato.TaskQueue.Queue.Fifo.{waiting, read}
use cio_run_auto_orchestrato.Scheduler.{decide, has_project, apply}
use cio_run_auto_orchestrato.Recovery.{
  last_page, task_keys, record_keys, is_task_record_key, recover_stranded_tasks,
}
use cio_run_auto_orchestrato.Recovery.Stranded.{seen}
use cio_run_auto_orchestrato.Recovery.Fate.{Own}
use cio_run_auto_orchestrato.Worker.Execute.{execute}
use cio_run_auto_orchestrato.Worker.Stranded.{execute_strands}
use cio_run_auto_orchestrato.Main.Crash.{restarted, crash_detail, stranded_task_is_recovered}
use cio_run_auto_orchestrato.Tests.{task, session, blocked_round, held}

abbrev decided_task : Task
decided_task = touch 5 (record task { mode = new })

decided : decide session.scheduler 5 task ≡ (ok new, decided_task)
unfolding decide has_project apply
decided = refl

abbrev marked : Task
marked = transition 5 running (concat "mode=" (mode_value new)) decided_task

abbrev task_id_of : Option Task → String
task_id_of none = ""
task_id_of (some t) = task_key t.task_id

scanned_keys : task_keys (last_page (task_key "t1" ∷ [])) ≡ task_key "t1" ∷ []
unfolding task_keys record_keys is_task_record_key starts_with task_key concat
scanned_keys = refl

only_t1 :
    (k : String) → elem k (task_keys (last_page (task_key "t1" ∷ []))) ≡ true → task_key "t1" ≡ k
unfolding elem
only_t1 k m =
    let listed : elem k (task_key "t1" ∷ []) ≡ true = ap (elem k) (sym scanned_keys) ∙ m in
    (==_iff (task_key "t1") k).0 (ground arith)

Own-restarted :
    (k : String)
    → elem k (task_keys (last_page (task_key "t1" ∷ []))) ≡ true
    → Own memory (restarted memory "redis://localhost" 9 (execute blocked_round held).1.world) k
unfolding touch transition
Own-restarted k m t q =
    let left =
      execute_strands blocked_round "redis://localhost" held {s = session} {t = decided_task}
        (λ n. refl) refl refl refl refl decided in
    let next = restarted memory "redis://localhost" 9 (execute blocked_round held).1.world in
    let same = only_t1 k m in
    let at_key : seen memory next (task_key "t1") ≡ some marked =
      ap (read memory) left.2.1 ∙ memory.validate_law marked in
    ap task_id_of (sym q ∙ ap (seen memory next) (sym same) ∙ at_key) ∙ same

scanned : elem (task_key decided_task.task_id) (task_keys (last_page (task_key "t1" ∷ []))) ≡ true
unfolding elem touch
scanned = ap (elem (task_key "t1")) scanned_keys ∙ rw (==_refl (task_key "t1")) refl

stranded_task_is_recovered_example :
    let next = restarted memory "redis://localhost" 9 (execute blocked_round held).1.world in
    let scan = last_page (task_key "t1" ∷ []) in
    let z = recover_stranded_tasks memory scan next in
    ((execute blocked_round held).0 ≡ err timeout_error)
    × (waiting memory next ≡ waiting memory held.world)
    × (elem (memory.dump (transition 9 interrupted crash_detail marked)) (waiting memory z.1)
        ≡ true)
    × ((k : String)
        → elem k (task_keys scan) ≡ true
        → (x : Task) → seen memory z.1 k ≡ some x
        → is_running x.status ≡ false)
stranded_task_is_recovered_example =
    stranded_task_is_recovered memory blocked_round "redis://localhost" held {s = session}
      {t = decided_task} (λ n. refl) refl refl refl refl decided "redis://localhost" 9
      (last_page (task_key "t1" ∷ [])) scanned Own-restarted
