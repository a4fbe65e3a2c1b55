-- ===== src/Api/Create.antt =====
-- src/api.py: what POST /tasks answers and what it leaves on the server.
use cio_run_auto_orchestrato.Prelude.{
  String, false, Option, none, some, List, [], ◌∷◌, ◌++◌, map, ◌≡◌, refl, ◌==◌, arith, find,
  if◌then◌else◌, ◌⊎◌, inl, inr, ap, sym, ◌∙◌, ==_refl,
}
use cio_run_auto_orchestrato.Effect.{ok}
use cio_run_auto_orchestrato.Models.{Task, is_incomplete, new_task}
use cio_run_auto_orchestrato.Redis.{Env, Contents}
use cio_run_auto_orchestrato.RedisClient.{World}
use cio_run_auto_orchestrato.TaskQueue.Keys.{task_key, queue_key, project_tasks_key, digest_key}
use cio_run_auto_orchestrato.TaskQueue.Store.{
  save, get, find_incomplete, find_by_digest, list_by_project, parse_all, parse_raw, get_found,
}
use cio_run_auto_orchestrato.TaskQueue.Store.Records.{
  text_at, IsPlainId, get_lem, items-saved, find_by_digest_lem, text_at-save,
}
use cio_run_auto_orchestrato.TaskQueue.Store.Lookup.{get-save, client-save}
use cio_run_auto_orchestrato.TaskQueue.Queue.Fifo.{waiting, in_order, enqueue_lem, queue_is_fifo}
use cio_run_auto_orchestrato.Api.{
  TaskCreateRequest, create_task, get_task, from_task, task_of, add_task,
}

module _ (e : Env) where
  -- The tasks of a project that `list_by_project` returns.
  abbrev pub tasks_of : World e → String → List Task
  tasks_of w p =
      parse_all e (map (λ tid. e.get (task_key tid) w.db) (e.smembers (project_tasks_key p) w.db))

  pub find_incomplete_lem :
      (p : String) (w : World e) {u : String}
      → w.client ≡ some u
      → find_incomplete e p w ≡ (ok (find (λ t. is_incomplete t.status) (tasks_of w p)), w)
  unfolding find_incomplete list_by_project
  find_incomplete_lem p w c = ground arith

  get_found_state :
      (o : Option String) (w : World e) {u : String} → w.client ≡ some u → (get_found e o w).1 ≡ w
  get_found_state none w c = refl
  get_found_state (some i) w c = rw (get_lem e i w _ c)

  pub find_by_digest_state :
      (p r : String) (w : World e) {u : String} → w.client ≡ some u → (find_by_digest e p r w).1 ≡ w
  find_by_digest_state p r w {u} c =
      rw (find_by_digest_lem e p r w u c) (get_found_state (text_at e w (digest_key e p r)) w c)

module _ (e : Env) (uuid : String) (body : TaskCreateRequest) (w : World e) {u : String}
    (c : w.client ≡ some u) where
  -- With a client: a request that matches an unfinished task of its project, or else the task of
  -- its project and requirement, is answered with that task, and nothing on the server changes.
  pub create_task_existing :
      (t : Task)
      → ((find_incomplete e body.project_name w).0 ≡ ok (some t))
        ⊎ (((find_incomplete e body.project_name w).0 ≡ ok none)
            × ((find_by_digest e body.project_name body.requirement w).0 ≡ ok (some t)))
      → create_task e uuid body w ≡ (ok (from_task t), w)
  unfolding create_task
  create_task_existing t (inl q) = ground (arith, find_incomplete_lem e body.project_name w c)
  create_task_existing t (inr (q, q')) = ground (
    arith,
    find_incomplete_lem e body.project_name w c,
    find_by_digest_state e body.project_name body.requirement w c,
  )

  pub create_task_lem :
      (find_incomplete e body.project_name w).0 ≡ ok none
      → (find_by_digest e body.project_name body.requirement w).0 ≡ ok none
      → create_task e uuid body w ≡ add_task e uuid body w
  unfolding create_task
  create_task_lem q q' = ground (
    arith,
    find_incomplete_lem e body.project_name w c,
    find_by_digest_state e body.project_name body.requirement w c,
  )

  -- The task that a fresh request makes.
  abbrev pub made : Task
  made = task_of uuid w.clock body

  abbrev pub saved : World e
  saved = (save e made w).1

  pub add_task_lem :
      text_at e w (task_key uuid) ≡ none
      → add_task e uuid body w
        ≡ (ok (from_task made), record saved { db = e.lpush queue_key (e.dump made) saved.db })
  unfolding task_of new_task
  add_task_lem fresh = ground (
    arith,
    text_at-save e made w u "" c fresh,
    enqueue_lem e saved (client-save e made w c fresh) made,
  )

  abbrev pub pushed : World e
  pushed = record saved { db = e.lpush queue_key (e.dump made) saved.db }

  pub text_at-pushed : (k : String) → text_at e pushed k ≡ text_at e saved k
  text_at-pushed k =
      ap (λ (x : Contents). x.strings k) (e.lpush_law queue_key (e.dump made) saved.db)

  get-pushed :
      text_at e w (task_key uuid) ≡ none
      → IsPlainId uuid
      → (j : String) → IsPlainId j
      → get e j pushed ≡ ((if uuid == j then ok (some made) else (get e j w).0), pushed)
  unfolding task_of new_task
  get-pushed fresh plain j plain_j =
      let same = client-save e made w c fresh in
      get_lem e j pushed u same
      ∙ ap (λ o. (parse_raw e o, pushed)) (text_at-pushed (task_key j))
      ∙ ap (λ x. (x, pushed))
          (sym (ap (λ (x, y). x) (get_lem e j saved u same))
            ∙ (get-save e made w c plain fresh j plain_j).1)

  pub waiting-pushed :
      text_at e w (task_key uuid) ≡ none → waiting e pushed ≡ waiting e w ++ (e.dump made ∷ [])
  unfolding task_of new_task
  waiting-pushed fresh =
      let same = client-save e made w c fresh in
      ap (λ z. waiting e z.1) (sym (enqueue_lem e saved same made))
      ∙ (queue_is_fifo e saved same made 0).0
      ∙ ap (λ xs. in_order xs ++ (e.dump made ∷ [])) (items-saved e made w u queue_key c fresh)

  -- With a client: a request that matches no task, with a new id, is answered with its task. From
  -- then on the task is what GET /tasks returns under the id, other ids return what they did, and
  -- its text is the last in the queue. No id begins with `digest:`.
  pub create_task_fresh :
      (find_incomplete e body.project_name w).0 ≡ ok none
      → (find_by_digest e body.project_name body.requirement w).0 ≡ ok none
      → IsPlainId uuid
      → text_at e w (task_key uuid) ≡ none
      → let z = create_task e uuid body w in
        (z.0 ≡ ok (from_task made))
        × ((get_task e uuid z.1).0 ≡ ok (from_task made))
        × ((j : String)
            → IsPlainId j
            → (uuid == j) ≡ false
            → (get_task e j z.1).0 ≡ (get_task e j w).0)
        × (waiting e z.1 ≡ waiting e w ++ (e.dump made ∷ []))
  unfolding get_task
  create_task_fresh q q' plain fresh =
      rw (create_task_lem q q', add_task_lem fresh)
        (
          refl,
          ground (arith, get-pushed fresh plain uuid plain, ==_refl uuid),
          λ j plain_j other. ground (arith, get-pushed fresh plain j plain_j, get_lem e j w u c),
          waiting-pushed fresh,
        )
