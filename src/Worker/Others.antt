-- ===== src/Worker/Others.antt =====
-- src/worker.py: what a round on one task leaves alone: the records of other tasks, and what waits in
-- the queue.
use cio_run_auto_orchestrato.Prelude.{
  String, false, ◌≡◌, refl, ap, ◌∙◌, sym, none, inl, inr, Option-cases, ◌==◌, ◌++◌, List, [], ◌∷◌,
  arith, subst,
}
use cio_run_auto_orchestrato.Effect.{◌>>◌}
use cio_run_auto_orchestrato.Models.{Task, CioEvent}
use cio_run_auto_orchestrato.Redis.{Env, Contents}
use cio_run_auto_orchestrato.RedisClient.{World, get_redis, mutate}
use cio_run_auto_orchestrato.TaskQueue.Keys.{task_key, queue_key, task_key-==}
use cio_run_auto_orchestrato.TaskQueue.Store.{async_update, save}
use cio_run_auto_orchestrato.TaskQueue.Store.Records.{
  IsPlainId, text_at, text_at-async_update, items-async_update, digest_key-task_key, text_at-save,
  items-saved,
}
use cio_run_auto_orchestrato.TaskQueue.Store.Lookup.{save_duplicate}
use cio_run_auto_orchestrato.TaskQueue.Queue.{enqueue}
use cio_run_auto_orchestrato.EventBus.{publish, close, channel, done_message, payload_of}
use cio_run_auto_orchestrato.Worker.Frame.{Frame}

++_assoc : (xs ys zs : List String) → (xs ++ ys) ++ zs ≡ xs ++ (ys ++ zs)
++_assoc [] ys zs = refl
++_assoc (x ∷ xs) ys zs = ap (λ l. x ∷ l) (++_assoc xs ys zs)

module _ {e : Env} (i : String) where
  abbrev pub queue_of : World e → List String
  queue_of w = (e.observe w.db).items queue_key

  abbrev pub SameRecords : World e → World e → Type 0
  SameRecords w w' =
      (j : String)
      → IsPlainId j
      → (i == j) ≡ false
      → text_at e w' (task_key j) ≡ text_at e w (task_key j)

  -- The records of tasks but `i` are the same, and new texts in the queue are behind the old ones:
  -- they are at the head of the list, from whose end texts are taken.
  abbrev pub Others : World e → World e → Type 0
  Others w w' = SameRecords w w' × (more : List String) × (queue_of w' ≡ more ++ queue_of w)

  pub Others-refl : (w : World e) → Others w w
  Others-refl w = (λ j plain other. refl, [], refl)

  pub Others-trans : (w v u : World e) → Others w v → Others v u → Others w u
  Others-trans w v u (same, more, q) (same', more', q') = (
    λ j plain other. same' j plain other ∙ same j plain other,
    more' ++ more,
    q' ∙ ap (λ l. more' ++ l) q ∙ sym (++_assoc more' more (queue_of w)),
  )

  -- A command that writes no text.
  mutate-Others :
      (f : e.Db → e.Db) (w : World e) (more : List String)
      → ((k : String) → (e.observe (f w.db)).strings k ≡ (e.observe w.db).strings k)
      → (e.observe (f w.db)).items queue_key ≡ more ++ queue_of w
      → Others w ((get_redis >> mutate f) w).1
  mutate-Others f w more same q = elim (Option-cases w.client) [
    | inl n ↦ rw n (Others-refl w)
    | inr (u, c) ↦ rw c (λ j plain other. same (task_key j), more, q)
  ]

  pub enqueue-Others : (t : Task) (w : World e) → Others w (enqueue e t w).1
  unfolding enqueue
  enqueue-Others t w =
      let law = e.lpush_law queue_key (e.dump t) w.db in
      mutate-Others (e.lpush queue_key (e.dump t)) w (e.dump t ∷ [])
        (λ k. ap (λ (c : Contents). c.strings k) law) (ap (λ (c : Contents). c.items queue_key) law)

  message-Others :
      (k m : String) (w : World e) → Others w ((get_redis >> mutate (e.publish k m)) w).1
  message-Others k m w =
      let law = e.publish_law k m w.db in
      mutate-Others (e.publish k m) w [] (λ j. ap (λ (c : Contents). c.strings j) law)
        (ap (λ (c : Contents). c.items queue_key) law)

  pub close-Others : (task_id : String) (w : World e) → Others w (close e task_id w).1
  unfolding close
  close-Others task_id w = message-Others (channel task_id) done_message w

  pub publish-Others :
      (task_id : String) (ev : CioEvent) (w : World e) → Others w (publish e task_id ev w).1
  unfolding publish
  publish-Others task_id ev w = message-Others (channel task_id) (e.dump_event (payload_of ev)) w

  not_connected : (t : Task) (w : World e) → w.client ≡ none → (async_update e t w).1 ≡ w
  unfolding async_update
  not_connected t w n = ground arith

  pub async_update-Others :
      (t : Task) (w : World e) → t.task_id ≡ i → Others w (async_update e t w).1
  async_update-Others t w own = elim (Option-cases w.client) [
    | inl n ↦ subst (Others w) (sym (not_connected t w n)) (Others-refl w)
    | inr (u, c) ↦ (
      λ j plain other.
          text_at-async_update e t w u (task_key j) c
          ∙ rw
              (
                digest_key-task_key e t.project_name t.requirement j plain,
                task_key-== t.task_id j,
                own,
                other,
              )
              (ground arith),
      [],
      items-async_update e t w u queue_key c,
    )
  ]

module _ (e : Env) (i : String) where
  not_saved : (t : Task) (w : World e) → w.client ≡ none → (save e t w).1 ≡ w
  unfolding save
  not_saved t w n = ground arith

  -- The `save` of a task, whether its id is taken or not.
  pub save-Others : (t : Task) (w : World e) → t.task_id ≡ i → Others i w (save e t w).1
  save-Others t w own = elim (Option-cases w.client) [
    | inl n ↦ subst (Others i w) (sym (not_saved t w n)) (Others-refl i w)
    | inr (u, c) ↦ elim (Option-cases (text_at e w (task_key t.task_id))) [
      | inl fresh ↦ (
        λ j plain other.
            (text_at-save e t w u (task_key j) c fresh).1
            ∙ rw
                (
                  digest_key-task_key e t.project_name t.requirement j plain,
                  task_key-== t.task_id j,
                  own,
                  other,
                )
                (ground arith),
        [],
        items-saved e t w u queue_key c fresh,
      )
      | inr (raw, taken) ↦ (
        λ j plain other.
            ap (λ (x : Contents). x.strings (task_key j)) (save_duplicate e t w c taken).1,
        [],
        ap (λ (x : Contents). x.items queue_key) (save_duplicate e t w c taken).1,
      )
    ]
  ]

  abbrev pub others_frame : Frame e i
  others_frame = record {
    Within = Others i;
    within_refl = Others-refl i;
    within_trans = Others-trans i;
    within_update = async_update-Others i;
    within_enqueue = enqueue-Others i;
    within_close = close-Others i;
    within_publish = publish-Others i;
  }
