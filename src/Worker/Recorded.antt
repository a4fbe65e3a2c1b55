-- ===== src/Worker/Recorded.antt =====
-- src/worker.py and src/task_queue: the record of a task is the text of a task with its id, however
-- the engine and asyncio behave.
use cio_run_auto_orchestrato.Prelude.{
  String, Option, some, ◌≡◌, ap, ◌∙◌, sym, none, inl, inr, ◌==◌, ==_refl, ==_iff, arith, Bool-cases,
  Option-cases, subst,
}
use cio_run_auto_orchestrato.Effect.{◌>>◌}
use cio_run_auto_orchestrato.Models.{Task, CioEvent}
use cio_run_auto_orchestrato.Redis.{Env, Contents}
use cio_run_auto_orchestrato.RedisClient.{World, get_redis, mutate}
use cio_run_auto_orchestrato.TaskQueue.Keys.{task_key, queue_key, lock_key-task_key}
use cio_run_auto_orchestrato.TaskQueue.Store.{async_update}
use cio_run_auto_orchestrato.TaskQueue.Store.Records.{
  IsPlainId, text_at, text_at-async_update, digest_key-task_key,
}
use cio_run_auto_orchestrato.TaskQueue.Queue.{enqueue, block_seconds}
use cio_run_auto_orchestrato.TaskQueue.Queue.Fifo.{dequeue_lem, read}
use cio_run_auto_orchestrato.EventBus.{publish, close, channel, done_message, payload_of}
use cio_run_auto_orchestrato.Worker.State.{Held}
use cio_run_auto_orchestrato.Worker.Execute.{Round, execute, execute_found, turn}
use cio_run_auto_orchestrato.Worker.Frame.{Frame}
use cio_run_auto_orchestrato.Worker.Isolated.{execute-Within, execute-Others}
use cio_run_auto_orchestrato.Worker.Kept.{Record}

module _ {e : Env} (j : String) where
  -- The record of the id is the text of a task with this id.
  abbrev pub Recorded : World e → Type 0
  Recorded w = (t : Task) × Record j w t

  abbrev pub Records : World e → World e → Type 0
  Records w w' = Recorded w → Recorded w'

  pub same_record :
      (w w' : World e) → text_at e w' (task_key j) ≡ text_at e w (task_key j) → Records w w'
  same_record w w' same (t, (own, rec)) = (t, (own, same ∙ rec))

  -- A command that writes no text.
  mutate-Records :
      (f : e.Db → e.Db) (w : World e)
      → (e.observe (f w.db)).strings (task_key j) ≡ (e.observe w.db).strings (task_key j)
      → Records w ((get_redis >> mutate f) w).1
  mutate-Records f w same = elim (Option-cases w.client) [
    | inl n ↦ rw n (λ rec. rec)
    | inr (u, c) ↦ rw c (same_record w (record w { db = f w.db }) same)
  ]

  enqueue-Records : (t : Task) (w : World e) → Records w (enqueue e t w).1
  unfolding enqueue
  enqueue-Records t w =
      mutate-Records (e.lpush queue_key (e.dump t)) w
        (ap (λ (c : Contents). c.strings (task_key j)) (e.lpush_law queue_key (e.dump t) w.db))

  message-Records :
      (k m : String) (w : World e) → Records w ((get_redis >> mutate (e.publish k m)) w).1
  message-Records k m w =
      mutate-Records (e.publish k m) w
        (ap (λ (c : Contents). c.strings (task_key j)) (e.publish_law k m w.db))

  close-Records : (task_id : String) (w : World e) → Records w (close e task_id w).1
  unfolding close
  close-Records task_id w = message-Records (channel task_id) done_message w

  publish-Records :
      (task_id : String) (ev : CioEvent) (w : World e) → Records w (publish e task_id ev w).1
  unfolding publish
  publish-Records task_id ev w = message-Records (channel task_id) (e.dump_event (payload_of ev)) w

  not_connected : (t : Task) (w : World e) → w.client ≡ none → (async_update e t w).1 ≡ w
  unfolding async_update
  not_connected t w n = ground arith

  async_update-Records :
      IsPlainId j → (t : Task) (w : World e) → t.task_id ≡ j → Records w (async_update e t w).1
  async_update-Records plain t w own rec = elim (Option-cases w.client) [
    | inl n ↦ subst Recorded (sym (not_connected t w n)) rec
    | inr (u, c) ↦ (
      t,
      (
        own,
        text_at-async_update e t w u (task_key j) c
            ∙ rw (digest_key-task_key e t.project_name t.requirement j plain)
                (rw (ap (λ k. task_key k == task_key j) own ∙ ==_refl (task_key j)) (ground arith)),
      ),
    )
  ]

  abbrev record_frame : IsPlainId j → Frame e j
  record_frame plain = record {
    Within = Records;
    within_refl = λ w rec. rec;
    within_trans = λ w v u f g rec. g (f rec);
    within_update = async_update-Records plain;
    within_enqueue = enqueue-Records;
    within_close = close-Records;
    within_publish = publish-Records;
  }

module _ {e : Env} (r : Round) where
  execute-Records :
      (h : Held e) {u : String}
      → h.world.client ≡ some u
      → IsPlainId h.task.task_id
      → Records h.task.task_id h.world (execute r h).1.world
  execute-Records h c plain =
      let i = h.task.task_id in
      execute-Within r h c (record_frame i plain)
        (λ p w w' s. same_record i w w' (s.1 (task_key i) (lock_key-task_key p i)))

module _ {e : Env} (j : String) (plain : IsPlainId j) (r : Round) where
  executed :
      (o : Option Task) (w : World e) {u : String}
      → w.client ≡ some u
      → Records j w (execute_found r o w).1
  executed none w c rec = rec
  executed (some t) w c rec =
      let h : Held e = record { world = w; task = t; updates = 0; waiting = 0 } in
      elim (Bool-cases (t.task_id == j)) [
        | inl own ↦
            let same : t.task_id ≡ j = (==_iff t.task_id j).0 own in
            subst (λ i. Records i w (execute r h).1.world) same
              (execute-Records r h c (subst IsPlainId (sym same) plain)) rec
        | inr other ↦
            same_record j w (execute r h).1.world ((execute-Others r h c).0 j plain other) rec
      ]

  pub turn-Records : (w : World e) {u : String} → w.client ≡ some u → Records j w (turn r w).1
  unfolding turn
  turn-Records w c rec =
      let taken = record w { db = (e.brpop (block_seconds r.poll_interval) queue_key w.db).1 } in
      rw (dequeue_lem e w c r.poll_interval) (
        executed (read e (e.brpop (block_seconds r.poll_interval) queue_key w.db).0) taken c (
          same_record j w taken
            (ap (λ (x : Contents). x.strings (task_key j))
              (e.brpop_state (block_seconds r.poll_interval) queue_key w.db))
            rec))
