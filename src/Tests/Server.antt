-- ===== src/Tests/Server.antt =====
-- Runs of src/task_queue, src/recovery.py and src/api.py.
use mathlib.Core.Bool.{false≢true}
use cio_run_auto_orchestrato.Prelude.{
  find, String, true, false, Option, none, some, [], ◌∷◌, ◌++◌, ◌≡◌, refl, sym, ap, ◌∙◌, ◌==◌,
  ==_iff, ==_refl, elem, length, arith, concat, if◌then◌else◌,
}
use cio_run_auto_orchestrato.Effect.{ok}
use cio_run_auto_orchestrato.Models.{Task, is_running}
use cio_run_auto_orchestrato.Redis.{put}
use cio_run_auto_orchestrato.Redis.Demo.{memory, empty, dump, validate}
use cio_run_auto_orchestrato.RedisClient.{World}
use cio_run_auto_orchestrato.TaskQueue.Keys.{task_key, project_tasks_key}
use cio_run_auto_orchestrato.TaskQueue.Store.{
  save, get, find_incomplete, find_by_digest, list_by_project,
}
use cio_run_auto_orchestrato.TaskQueue.Store.Records.{IsPlainId, text_at}
use cio_run_auto_orchestrato.TaskQueue.Store.Lookup.{get-save}
use cio_run_auto_orchestrato.TaskQueue.Queue.{enqueue, dequeue, qsize}
use cio_run_auto_orchestrato.TaskQueue.Queue.Fifo.{waiting, read, front, behind, queue_is_fifo}
use cio_run_auto_orchestrato.Recovery.{last_page, task_keys, recover_stranded_tasks}
use cio_run_auto_orchestrato.Recovery.Fate.{Own, interrupted_at}
use cio_run_auto_orchestrato.Recovery.Loop.{open_texts, recovery_queues_stranded}
use cio_run_auto_orchestrato.Recovery.Stranded.{seen}
use cio_run_auto_orchestrato.Api.{create_task, get_task, task_of, from_task}
use cio_run_auto_orchestrato.Api.Create.{create_task_fresh}
use cio_run_auto_orchestrato.Api.Twice.{create_task_twice}
use cio_run_auto_orchestrato.Tests.{start, body, task, plain_t1}

-- A server with the one record, and the requests and updates on it.
abbrev pub with_task : World memory
with_task = record start {
  db = record empty { strings = put (task_key "t1") (some (dump task)) empty.strings };
}

abbrev key_of : Option Task → String
key_of none = ""
key_of (some t) = task_key t.task_id

pub Own-t1 :
    (k : String)
    → elem k (task_keys (last_page (task_key "t1" ∷ []))) ≡ true
    → Own memory with_task k
unfolding elem
Own-t1 k m t q =
    let same : task_key "t1" ≡ k = (==_iff (task_key "t1") k).0 (ground arith) in
    let at_key : seen memory with_task (task_key "t1") ≡ some task =
      rw (==_refl (task_key "t1")) (memory.validate_law task) in
    ap key_of (sym q ∙ ap (seen memory with_task) (sym same) ∙ at_key) ∙ same

recovery_queues_stranded_example :
    let scan = last_page (task_key "t1" ∷ []) in
    let z = recover_stranded_tasks memory scan with_task in
    (z.0 ≡ ok (length (open_texts memory with_task (task_keys scan))))
    × (waiting memory z.1
        ≡ waiting memory with_task ++ open_texts memory with_task (task_keys scan))
    × ((k : String)
        → elem k (task_keys scan) ≡ true
        → (t : Task) → seen memory with_task k ≡ some t
        → seen memory z.1 k ≡ some (interrupted_at 5 t))
    × ((k : String)
        → elem k (task_keys scan) ≡ true
        → (t : Task) → seen memory z.1 k ≡ some t
        → is_running t.status ≡ false)
recovery_queues_stranded_example =
    recovery_queues_stranded memory (last_page (task_key "t1" ∷ [])) with_task refl Own-t1

pub no_project : (find_incomplete memory "shop" start).0 ≡ ok none
unfolding find_incomplete list_by_project find
no_project = refl

pub no_digest : (find_by_digest memory "shop" "build it" start).0 ≡ ok none
unfolding find_by_digest
no_digest = refl

create_task_twice_example :
    let z = create_task memory "t1" body start in create_task memory "t2" body z.1 ≡ (z.0, z.1)
unfolding elem
create_task_twice_example =
    create_task_twice memory "t1" body start refl no_project no_digest plain_t1
      (λ j m. absurd (false≢true m)) refl "t2" body refl

create_task_fresh_example :
    let z = create_task memory "t1" body start in
    let t = task_of "t1" 5 body in
    (z.0 ≡ ok (from_task t))
    × ((get_task memory "t1" z.1).0 ≡ ok (from_task t))
    × ((j : String)
        → IsPlainId j
        → ("t1" == j) ≡ false
        → (get_task memory j z.1).0 ≡ (get_task memory j start).0)
    × (waiting memory z.1 ≡ waiting memory start ++ (dump t ∷ []))
create_task_fresh_example =
    create_task_fresh memory "t1" body start refl no_project no_digest plain_t1 refl

abbrev pub listed : World memory
listed = record with_task {
  db = record with_task.db { members = put (project_tasks_key "shop") ("t1" ∷ []) empty.members };
}

finds_t1 : (find_incomplete memory "shop" listed).0 ≡ ok (some task)
unfolding find_incomplete list_by_project find dump validate project_tasks_key concat task_key
finds_t1 = refl

queue_is_fifo_example :
    (waiting memory (enqueue memory task start).1 ≡ waiting memory start ++ (dump task ∷ []))
    × ((dequeue memory 500 start).0 ≡ ok (read memory (front (waiting memory start))))
    × (waiting memory (dequeue memory 500 start).1 ≡ behind (waiting memory start))
    × ((qsize memory start).0 ≡ ok (length (waiting memory start)))
queue_is_fifo_example = queue_is_fifo memory start refl task 500

get-save_example :
    ((save memory task start).0 ≡ ok tt)
    × ((get memory "t1" (save memory task start).1).0
        ≡ (if "t1" == "t1" then ok (some task) else (get memory "t1" start).0))
get-save_example = get-save memory task start refl plain_t1 refl "t1" plain_t1

taken : text_at memory with_task (task_key "t1") ≡ some (dump task)
unfolding task_key concat
taken = refl
