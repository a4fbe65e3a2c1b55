-- ===== src/Tests/Accepted.antt =====
-- A run of src/main.py behind a request, the next start, and one of `_execute` beside another task.
use mathlib.Core.Bool.{false≢true}
use cio_run_auto_orchestrato.Prelude.{
  String, true, Option, none, some, List, [], ◌∷◌, ◌≡◌, refl, sym, ap, ◌∙◌, elem, ==_iff, arith,
  concat, starts_with,
}
use cio_run_auto_orchestrato.RedisClient.{World}
use cio_run_auto_orchestrato.TaskQueue.Queue.Fifo.{read}
use cio_run_auto_orchestrato.Recovery.{
  Scan, last_page, task_keys, record_keys, is_task_record_key, recover_stranded_tasks,
}
use cio_run_auto_orchestrato.Recovery.Stranded.{seen}
use cio_run_auto_orchestrato.Recovery.Fate.{Own}
use cio_run_auto_orchestrato.Main.Restored.{Restored}
use cio_run_auto_orchestrato.Main.Restart.{accepted_task_survives_restart}
use cio_run_auto_orchestrato.Models.{Task}
use cio_run_auto_orchestrato.Api.{create_task}
use cio_run_auto_orchestrato.Redis.Demo.{memory, empty}
use cio_run_auto_orchestrato.TaskQueue.Keys.{task_key, queue_key}
use cio_run_auto_orchestrato.Worker.State.{Held}
use cio_run_auto_orchestrato.Worker.Execute.{execute}
use cio_run_auto_orchestrato.Worker.Others.{Others}
use cio_run_auto_orchestrato.Worker.Isolated.{execute-Others}
use cio_run_auto_orchestrato.Worker.Kept.{Kept, OnLoop}
use cio_run_auto_orchestrato.Main.{
  Event, posted, asked, begun, turned, shut_down, cancelled, happen, started,
}
use cio_run_auto_orchestrato.Main.Accepted.{no_task_is_lost}
use cio_run_auto_orchestrato.Tests.Server.{no_project, no_digest}
use cio_run_auto_orchestrato.Tests.Work.{is_ok}
use cio_run_auto_orchestrato.Tests.{body, plain_t1, start, round, blocked_round, held}
use cio_run_auto_orchestrato.Tests.Schema.{pydantic, loads, request}

calm : OnLoop blocked_round
calm = (λ m. refl, λ d c m q. false≢true (sym (ap is_ok q)))

abbrev events : List Event
events =
    posted "t2" request
    ∷ begun 0
    ∷ turned 0 blocked_round
    ∷ turned 0 blocked_round
    ∷ asked "t1"
    ∷ shut_down
    ∷ cancelled 0 blocked_round
    ∷ []

-- A server on which another task waits.
abbrev crowded : Held memory
crowded = record held { world = record start { db = memory.lpush queue_key "other" empty } }

execute-Others_example : Others "t1" crowded.world (execute round crowded).1.world
execute-Others_example = execute-Others round crowded refl

abbrev run_end : World memory
run_end =
    (happen pydantic loads events (record (started {e = memory} pydantic loads 1 start) {
      world = (create_task memory "t1" body start).1;
    })).world

abbrev restarted : World memory
restarted = record start { db = run_end.db; clock = 9 }

abbrev scan : Scan
scan = last_page (task_key "t1" ∷ [])

scanned : elem (task_key "t1") (task_keys scan) ≡ true
unfolding task_keys record_keys is_task_record_key elem task_key concat starts_with
scanned = refl

abbrev task_or : Task → Option Task → Task
task_or t none = t
task_or t (some u) = u

only_t1 : (k : String) → elem k (task_keys scan) ≡ true → task_key "t1" ≡ k
unfolding task_keys record_keys is_task_record_key elem task_key concat starts_with
only_t1 k m = (==_iff "cio:task:t1" k).0 (ground (arith, m))

Own-Kept : (w : World memory) → Kept "t1" w → (k : String) → task_key "t1" ≡ k → Own memory w k
Own-Kept w (u, (id, rec), rests) k same t q =
    let there : seen memory w (task_key "t1") ≡ some u =
      ap (read memory) rec ∙ memory.validate_law u in
    let found : t ≡ u = ap (task_or t) (sym q ∙ ap (seen memory w) (sym same) ∙ there) in
    ap (λ x. task_key x.task_id) found ∙ ap task_key id ∙ same

Kept-t1 : Kept "t1" restarted
Kept-t1 =
    no_task_is_lost "t1" body start refl refl plain_t1 pydantic loads
      (started pydantic loads 1 start) events no_project no_digest
      (refl, (tt, (calm, (calm, (tt, (tt, (calm, tt)))))))

accepted_task_survives_restart_example :
    Restored "t1" (recover_stranded_tasks memory scan restarted).1
accepted_task_survives_restart_example =
    accepted_task_survives_restart "t1" body start refl refl plain_t1 pydantic loads
      (started pydantic loads 1 start) events no_project no_digest (refl, tt) scan restarted refl
      refl scanned (λ k m. Own-Kept restarted Kept-t1 k (only_t1 k m))
