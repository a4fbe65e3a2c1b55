-- ===== src/Tests/InProcess.antt =====
-- Runs of src/task_queue.py.
use cio_run_auto_orchestrato.Prelude.{
  String, none, some, [], ◌∷◌, ◌++◌, ◌≡◌, refl, arith, Dict, lookup, find,
}
use cio_run_auto_orchestrato.Effect.{ok, err, value_error}
use cio_run_auto_orchestrato.Models.{new, pending, failed}
use cio_run_auto_orchestrato.Memory.Models.{Task}
use cio_run_auto_orchestrato.Memory.Store.{save, update, get, find_incomplete}
use cio_run_auto_orchestrato.Memory.Store.Incomplete.{IsStore, view, with_task, tasks_implement_map}
use cio_run_auto_orchestrato.Memory.Queue.{TaskQueue, new_queue, enqueue, dequeue, qsize}
use cio_run_auto_orchestrato.Memory.Queue.Bounded.{
  Runs, start, then_enqueue, then_dequeue, WithinBound,
}

abbrev first : Task
first = record {
  task_id = "a";
  project_name = "shop";
  requirement = "";
  mode = new;
  status = pending;
  created_at = 1;
  updated_at = 1;
  retry_count = 0;
  status_detail = "";
}

abbrev second : Task
second = record first { task_id = "b"; status = failed }

abbrev stored : Dict Task
stored = ("b", second) ∷ ("a", first) ∷ []

own : IsStore stored
unfolding lookup
own = (refl, refl, (refl, refl, tt))

finds : find_incomplete "shop" stored ≡ (ok (some first), stored)
unfolding find_incomplete find
finds = refl

tasks_implement_map_example :
    (get "a" stored ≡ (ok (view stored "a"), stored))
    × ((view stored "a" ≡ none)
        → ((save first stored).0 ≡ ok tt)
          × (view (save first stored).1 "a" ≡ with_task first (view stored) "a")
          × IsStore (save first stored).1)
    × ((u : Task)
        → view stored "a" ≡ some u
        → ((m : String) × (save first stored ≡ (err (value_error m), stored))))
    × ((update first stored).0 ≡ ok tt)
    × (view (update first stored).1 "a" ≡ with_task first (view stored) "a")
    × IsStore (update first stored).1
tasks_implement_map_example = tasks_implement_map first "a" stored own

abbrev waiting_one : TaskQueue
waiting_one = record { maxsize = 1; q = first ∷ [] }

one : enqueue first (new_queue 1) ≡ some waiting_one
unfolding enqueue new_queue
one = refl

waits : enqueue second waiting_one ≡ none
unfolding enqueue
waits = refl

two_calls :
    Runs (new_queue 1) ([] ++ first ∷ []) ([] ++ first ∷ []) (record { maxsize = 1; q = [] })
unfolding dequeue
two_calls = then_dequeue (then_enqueue first start one)

within : WithinBound (new_queue 1)
unfolding qsize new_queue
within bound = omega arith
