-- ===== src/Tests/Apart.antt =====
-- Two requests of src/api.py for two projects, one of which has a task.
use mathlib.Core.Bool.{false≢true}
use cio_run_auto_orchestrato.Prelude.{
  String, true, false, none, some, ◌≡◌, ◌≢◌, refl, ◌==◌, elem, subst, ==_iff, find, concat,
  starts_with, arith,
}
use cio_run_auto_orchestrato.Effect.{ok}
use cio_run_auto_orchestrato.Redis.Demo.{memory}
use cio_run_auto_orchestrato.TaskQueue.Keys.{task_key, project_tasks_key, digest_key}
use cio_run_auto_orchestrato.TaskQueue.Store.{find_incomplete, find_by_digest, list_by_project}
use cio_run_auto_orchestrato.TaskQueue.Store.Records.{IsPlainId, text_at}
use cio_run_auto_orchestrato.Api.{TaskCreateRequest, create_task}
use cio_run_auto_orchestrato.Api.Apart.{create_task_apart}
use cio_run_auto_orchestrato.Tests.{body, plain_t1}
use cio_run_auto_orchestrato.Tests.Server.{listed}

-- A request for a project that the server does not know.
abbrev blog : TaskCreateRequest
blog = record body { project_name = "blog" }

plain_t2 : IsPlainId "t2"
unfolding task_key concat starts_with
plain_t2 = refl

plain_t3 : IsPlainId "t3"
unfolding task_key concat starts_with
plain_t3 = refl

other_name : blog.project_name ≢ body.project_name
other_name q = false≢true ((==_iff "blog" "shop").1 q)

no_blog : (find_incomplete memory "blog" listed).0 ≡ ok none
unfolding find_incomplete list_by_project find project_tasks_key concat
no_blog = refl

no_blog_digest : (find_by_digest memory "blog" "build it" listed).0 ≡ ok none
unfolding find_by_digest digest_key task_key concat
no_blog_digest = refl

new_t2 : text_at memory listed (task_key "t2") ≡ none
unfolding task_key concat
new_t2 = refl

new_t3 : text_at memory listed (task_key "t3") ≡ none
unfolding task_key concat
new_t3 = refl

the_task :
    (j : String)
    → elem j (memory.smembers (project_tasks_key "shop") listed.db) ≡ true
    → IsPlainId j × (("t2" == j) ≡ false)
unfolding elem project_tasks_key concat
the_task j m =
    let same : "t1" ≡ j = (==_iff "t1" j).0 (ground (arith, m)) in
    subst (λ i. IsPlainId i × (("t2" == i) ≡ false)) same (plain_t1, refl)

no_text :
    (j : String)
    → text_at memory listed (digest_key memory "shop" "build it") ≡ some j
    → IsPlainId j × (("t2" == j) ≡ false)
unfolding digest_key task_key concat
no_text j q = ground arith

create_task_apart_example :
    (create_task memory "t3" body (create_task memory "t2" blog listed).1).0
    ≡ (create_task memory "t3" body listed).0
create_task_apart_example =
    create_task_apart memory (λ s t q. q) "t2" "t3" blog body listed refl new_t2 new_t3 plain_t2
      plain_t3 refl no_blog no_blog_digest other_name (refl, (refl, (refl, (refl, tt))))
      (refl, (refl, (refl, (refl, tt)))) the_task no_text
