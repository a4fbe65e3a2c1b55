-- ===== src/Tests/Restart.antt =====
-- A second recovery, and the correlation ids of an engine's loggers.
use cio_run_auto_orchestrato.Prelude.{
  String, true, none, some, [], ◌∷◌, ◌++◌, ◌≡◌, refl, ◌==◌, arith, elem, if◌then◌else◌,
}
use cio_run_auto_orchestrato.TaskQueue.Keys.{task_key}
use cio_run_auto_orchestrato.TaskQueue.Queue.Fifo.{waiting}
use cio_run_auto_orchestrato.Redis.Demo.{memory}
use cio_run_auto_orchestrato.Recovery.{last_page, task_keys, recover_stranded_tasks}
use cio_run_auto_orchestrato.Recovery.Stranded.{seen}
use cio_run_auto_orchestrato.Recovery.Loop.{texts_for}
use cio_run_auto_orchestrato.Recovery.Again.{second_recovery_queues_again}
use cio_run_auto_orchestrato.EngineFactory.Correlation.{
  inject_at, inject_correlation_id, inject_attributes, Attribute, absent, a_logger, sets, refuses,
  ensure_correlation_id, Objects,
}
use cio_run_auto_orchestrato.EngineFactory.Correlation.Injected.{AreMild}
use cio_run_auto_orchestrato.Tests.Server.{with_task, Own-t1}

second_recovery_queues_again_example :
    let scan = last_page (task_key "t1" ∷ []) in
    let z = recover_stranded_tasks memory scan with_task in
    let z' = recover_stranded_tasks memory scan z.1 in
    let texts = texts_for memory with_task (task_keys scan) in
    (z'.0 ≡ z.0)
    × (waiting memory z'.1 ≡ (waiting memory with_task ++ texts) ++ texts)
    × ((k : String) → elem k (task_keys scan) ≡ true → seen memory z'.1 k ≡ seen memory z.1 k)
second_recovery_queues_again_example =
    second_recovery_queues_again memory (last_page (task_key "t1" ∷ [])) with_task refl Own-t1

-- A wrapper that only the override can write to, around a logger.
abbrev objects : Objects
objects i = record { correlation_id = none; direct = refuses; override = sets }

abbrev getattr : String → Attribute
getattr name = if name == "_logger" then a_logger 1 else absent

mild : AreMild objects
mild i = (λ x q. ground arith, λ x q. ground arith)

patched :
    (ensure_correlation_id "c1" 0 getattr objects).1 1
    ≡ record (objects 1) { correlation_id = some "c1" }
unfolding ensure_correlation_id inject_at inject_correlation_id inject_attributes
patched = refl
