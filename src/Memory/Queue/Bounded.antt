-- ===== src/Memory/Queue/Bounded.antt =====
-- `TaskQueue` of src/task_queue.py: sequences of calls, in any order.
use mathlib.Core.List.{append-nil, append_assoc}
use cio_run_auto_orchestrato.Prelude.{
  ◌≤◌, false, Option, none, some, List, [], ◌∷◌, ◌++◌, ◌≡◌, refl, sym, ap, subst, ◌∙◌, inl, inr,
  arith, length, length-append, Bool-cases,
}
use cio_run_auto_orchestrato.Memory.Models.{Task}
use cio_run_auto_orchestrato.Memory.Queue.{
  TaskQueue, full, enqueue, dequeue, qsize, front_task, tasks_behind,
}

abbrev given : Option Task → List Task
given none = []
given (some t) = t ∷ []

-- From a queue, with the tasks that were put in and those that were given out, to a queue: a call
-- of `enqueue` that does not wait, or a call of `dequeue`.
pub data Runs : TaskQueue → List Task → List Task → TaskQueue → Type 0 where
  start : {s : TaskQueue} → Runs s [] [] s
  then_enqueue :
      {s m n : TaskQueue} {into out : List Task} (t : Task)
      → Runs s into out m
      → enqueue t m ≡ some n
      → Runs s (into ++ t ∷ []) out n
  then_dequeue :
      {s m : TaskQueue} {into out : List Task}
      → Runs s into out m
      → Runs s into (out ++ given (dequeue m).0) (dequeue m).1

abbrev pub WithinBound : TaskQueue → Type 0
WithinBound s = (1 ≤ s.maxsize) → qsize s ≤ s.maxsize

-- A call of `enqueue` that does not wait has found a place.
enqueue_lem :
    (t : Task) (s : TaskQueue) {n : TaskQueue}
    → enqueue t s ≡ some n
    → (full s ≡ false) × (record s { q = s.q ++ t ∷ [] } ≡ n)
unfolding enqueue
enqueue_lem t s h = elim (Bool-cases (full s)) [ inl q ↦ ground arith | inr q ↦ (q, ground arith) ]

WithinBound-enqueued :
    (t : Task) (s : TaskQueue) → full s ≡ false → WithinBound (record s { q = s.q ++ t ∷ [] })
unfolding qsize
WithinBound-enqueued t s h bound = ground (arith, length-append s.q (t ∷ []))

length-tasks_behind : (ts : List Task) → length (tasks_behind ts) ≤ length ts
length-tasks_behind [] = omega arith
length-tasks_behind (t ∷ ts) = omega arith

WithinBound-dequeue : (s : TaskQueue) → WithinBound s → WithinBound (dequeue s).1
unfolding qsize dequeue
WithinBound-dequeue s h bound = omega (arith, length-tasks_behind s.q, h bound)

front_and_rest : (ts : List Task) → given (front_task ts) ++ tasks_behind ts ≡ ts
front_and_rest [] = refl
front_and_rest (t ∷ ts) = refl

-- However calls of `enqueue` and `dequeue` follow each other: the tasks given out, and then those
-- that remain, are those that were there at first, and then those put in, in the same order; and a
-- queue with a maximal size that held no more tasks than that holds no more afterwards.
queue_is_bounded_fifo :
    {s n : TaskQueue} {into out : List Task}
    → Runs s into out n
    → WithinBound s
    → (s.q ++ into ≡ out ++ n.q) × WithinBound n
unfolding dequeue
queue_is_bounded_fifo start h = (append-nil _, h)
queue_is_bounded_fifo {s} (then_enqueue {m} {into} {out} t r q) h =
    let (order, bound) = queue_is_bounded_fifo r h in
    let (room, e) = enqueue_lem t m q in
    (
      sym (append_assoc s.q into (t ∷ []))
          ∙ ap (λ ts. ts ++ t ∷ []) order
          ∙ append_assoc out m.q (t ∷ [])
          ∙ ap (λ z. out ++ z.q) e,
      subst WithinBound e (WithinBound-enqueued t m room),
    )
queue_is_bounded_fifo (then_dequeue {m} {out} r) h =
    let (order, bound) = queue_is_bounded_fifo r h in
    (
      order
          ∙ ap (λ ts. out ++ ts) (sym (front_and_rest m.q))
          ∙ sym (append_assoc out (given (front_task m.q)) (tasks_behind m.q)),
      WithinBound-dequeue m bound,
    )
