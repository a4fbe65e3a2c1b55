-- ===== src/Main/Steady.antt =====
-- What a request of src/api.py does to the server and the client of src/redis_client.py: what stands
-- before and behind each action of it is in a relation that saving and queueing its task keep.
use cio_run_auto_orchestrato.Prelude.{
  String, Option, none, some, ◌≡◌, refl, ◌∙◌, arith, Dict, subst, sym,
}
use cio_run_auto_orchestrato.Effect.{Result, ok, err, Action, continue, ◌>>=◌}
use cio_run_auto_orchestrato.Models.{Task, new_task}
use cio_run_auto_orchestrato.Redis.{Env}
use cio_run_auto_orchestrato.RedisClient.{World, get_redis, query}
use cio_run_auto_orchestrato.TaskQueue.Keys.{digest_key}
use cio_run_auto_orchestrato.TaskQueue.Store.{
  save, get, find_incomplete, list_by_project, find_by_digest, get_found,
}
use cio_run_auto_orchestrato.TaskQueue.Queue.{enqueue}
use cio_run_auto_orchestrato.WorkerLocks.{release_lock}
use cio_run_auto_orchestrato.ConfigSchema.Json.{Json}
use cio_run_auto_orchestrato.ConfigSchema.Check.{Pydantic}
use cio_run_auto_orchestrato.Api.{
  TaskCreateRequest, create_task, get_task, respond, add_task, digest_unless, found_or_404, task_of,
}
use cio_run_auto_orchestrato.Api.Request.{read_body, post_task}
use cio_run_auto_orchestrato.Worker.Connection.{client-enqueue}

module _ {e : Env} where
  -- An action that changes nothing.
  abbrev Quiet : {A : Type 0} → Action (World e) A → Type 0
  Quiet m = (w : World e) → (m w).1 ≡ w

  get_redis-Quiet : Quiet (get_redis {e = e})
  get_redis-Quiet w = ground arith

  get-Quiet : (i : String) → Quiet (get e i)
  unfolding get
  get-Quiet i w = ground arith

  list_by_project-Quiet : (p : String) → Quiet (list_by_project e p)
  unfolding list_by_project
  list_by_project-Quiet p w = ground arith

  found_or_404-Quiet : (i : String) (o : Option Task) → Quiet (found_or_404 e i o)
  found_or_404-Quiet i none w = refl
  found_or_404-Quiet i (some t) w = refl

  pub release_lock-Steady :
      (p token : String) (w : World e) → (release_lock e p token w).1.client ≡ w.client
  unfolding release_lock
  release_lock-Steady p token w = ground arith

module _ {e : Env} (R : World e → World e → Type 0) (R_refl : (w : World e) → R w w)
    (R_trans : (w v u : World e) → R w v → R v u → R w u) where
  abbrev pub Steady : {A : Type 0} → Action (World e) A → Type 0
  Steady m = (w : World e) → R w (m w).1

  continue-Steady :
      {A B : Type 0} (x : Result A) (f : A → Action (World e) B)
      → ((a : A) → Steady (f a))
      → Steady (continue x f)
  continue-Steady (ok a) f s w = s a w
  continue-Steady (err x) f s w = R_refl w

  bind-Steady :
      {A B : Type 0} (m : Action (World e) A) (f : A → Action (World e) B)
      → Steady m
      → ((a : A) → Steady (f a))
      → Steady (m >>= f)
  bind-Steady m f sm sf w =
      R_trans w (m w).1 (continue (m w).0 f (m w).1).1 (sm w) (continue-Steady (m w).0 f sf (m w).1)

  Quiet-Steady : {A : Type 0} (m : Action (World e) A) → Quiet m → Steady m
  Quiet-Steady m q w = subst (R w) (sym (q w)) (R_refl w)

  find_incomplete-Steady : (p : String) → Steady (find_incomplete e p)
  unfolding find_incomplete
  find_incomplete-Steady p =
      bind-Steady (list_by_project e p) _
        (Quiet-Steady (list_by_project e p) (list_by_project-Quiet p)) (λ ts w. R_refl w)

  get_found-Steady : (o : Option String) → Steady (get_found e o)
  get_found-Steady none w = R_refl w
  get_found-Steady (some i) w = Quiet-Steady (get e i) (get-Quiet i) w

  find_by_digest-Steady : (p r : String) → Steady (find_by_digest e p r)
  unfolding find_by_digest
  find_by_digest-Steady p r =
      let asked = query (e.get (digest_key e p r)) in
      bind-Steady get_redis (λ _. asked >>= get_found e) (Quiet-Steady get_redis get_redis-Quiet)
        (λ _. bind-Steady asked (get_found e) (λ w. R_refl w) get_found-Steady)

  digest_unless-Steady :
      (o : Option Task) (body : TaskCreateRequest) → Steady (digest_unless e o body)
  digest_unless-Steady (some t) body w = R_refl w
  digest_unless-Steady none body w = find_by_digest-Steady body.project_name body.requirement w

  pub get_task-Steady : (i : String) → Steady (get_task e i)
  unfolding get_task
  get_task-Steady i =
      bind-Steady (get e i) _ (Quiet-Steady (get e i) (get-Quiet i))
        (λ o. Quiet-Steady (found_or_404 e i o) (found_or_404-Quiet i o))

  module _ (uuid : String) (saves : (t : Task) → t.task_id ≡ uuid → Steady (save e t))
      (enqueues : (t : Task) → Steady (enqueue e t)) where
    add_task-Steady : (body : TaskCreateRequest) → Steady (add_task e uuid body)
    unfolding task_of new_task
    add_task-Steady body w =
        let t = task_of uuid w.clock body in
        bind-Steady (save e t) _ (saves t refl)
          (λ _. bind-Steady (enqueue e t) _ (enqueues t) (λ _ w'. R_refl w')) w

    respond-Steady : (o : Option Task) (body : TaskCreateRequest) → Steady (respond e o uuid body)
    respond-Steady (some t) body w = R_refl w
    respond-Steady none body w = add_task-Steady body w

    create_task-Steady : (body : TaskCreateRequest) → Steady (create_task e uuid body)
    unfolding create_task
    create_task-Steady body =
        bind-Steady (find_incomplete e body.project_name) _
          (find_incomplete-Steady body.project_name)
          (λ o.
            bind-Steady (digest_unless e o body) _ (digest_unless-Steady o body)
              (λ o'. respond-Steady o' body))

    pub post_task-Steady :
        (p : Pydantic) (loads : String → Result Json) (d : Dict Json)
        → Steady (post_task p loads e uuid d)
    unfolding post_task
    post_task-Steady p loads d w =
        continue-Steady (read_body p loads d) (create_task e uuid) create_task-Steady w

module _ {e : Env} where
  abbrev SameClient : World e → World e → Type 0
  SameClient w w' = w'.client ≡ w.client

  client-save : (t : Task) (w : World e) → SameClient w (save e t w).1
  unfolding save
  client-save t w = ground arith

  pub client-post_task :
      (p : Pydantic) (loads : String → Result Json) (uuid : String) (d : Dict Json) (w : World e)
      → SameClient w (post_task p loads e uuid d w).1
  client-post_task p loads uuid d =
      post_task-Steady SameClient (λ w. refl) (λ w v u q q'. q' ∙ q) uuid (λ t own. client-save t)
        (client-enqueue e) p loads d

  pub client-get_task : (i : String) (w : World e) → SameClient w (get_task e i w).1
  client-get_task = get_task-Steady SameClient (λ w. refl) (λ w v u q q'. q' ∙ q)
