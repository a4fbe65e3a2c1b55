-- ===== src/TaskQueue/Queue/Fifo.antt =====
-- src/task_queue/queue.py against an abstract queue, whose front is the head of a list.
use cio_run_auto_orchestrato.Prelude.{
  String, ℕ, Option, none, some, List, [], ◌∷◌, ◌++◌, ◌≡◌, refl, ap, ◌∙◌, arith, length,
  length-append,
}
use cio_run_auto_orchestrato.Effect.{ok}
use cio_run_auto_orchestrato.Models.{Task}
use cio_run_auto_orchestrato.Redis.{Env, get_last?, drop_last}
use cio_run_auto_orchestrato.RedisClient.{World}
use cio_run_auto_orchestrato.TaskQueue.Keys.{queue_key}
use cio_run_auto_orchestrato.TaskQueue.Queue.{block_seconds, enqueue, dequeue, qsize}

-- The list from its tail to its head.
abbrev pub in_order {ℓ} : {A : Type ℓ} → List A → List A
in_order [] = []
in_order (x ∷ xs) = in_order xs ++ (x ∷ [])

abbrev from_last {ℓ} : {A : Type ℓ} → Option A → List A → List A
from_last none xs = []
from_last (some x) xs = x ∷ xs

get_last?-cons {ℓ} : {A : Type ℓ} (x : A) (xs : List A) → (z : A) × (get_last? (x ∷ xs) ≡ some z)
get_last?-cons x [] = (x, refl)
get_last?-cons x (y ∷ ys) = get_last?-cons y ys

from_last-append {ℓ} :
    {A : Type ℓ} (o : Option A) (z x : A) (xs : List A)
    → o ≡ some z
    → from_last o xs ++ (x ∷ []) ≡ from_last o (xs ++ (x ∷ []))
from_last-append o z x xs h = rw h

in_order_lem {ℓ} :
    {A : Type ℓ} (xs : List A) → in_order xs ≡ from_last (get_last? xs) (in_order (drop_last xs))
in_order_lem [] = refl
in_order_lem (x ∷ []) = refl
in_order_lem (x ∷ y ∷ ys) =
    let (z, e) = get_last?-cons y ys in
    ap (λ l. l ++ (x ∷ [])) (in_order_lem (y ∷ ys))
    ∙ from_last-append (get_last? (y ∷ ys)) z x (in_order (drop_last (y ∷ ys))) e

abbrev pub behind : List String → List String
behind [] = []
behind (x ∷ xs) = xs

behind-in_order : (xs : List String) → in_order (drop_last xs) ≡ behind (in_order xs)
behind-in_order [] = refl
behind-in_order (x ∷ xs) = let (z, e) = get_last?-cons x xs in rw (in_order_lem (x ∷ xs), e)

length-in_order {ℓ} : {A : Type ℓ} (xs : List A) → length (in_order xs) ≡ length xs
length-in_order [] = refl
length-in_order (x ∷ xs) = omega (arith, length-in_order xs, length-append (in_order xs) (x ∷ []))

-- The texts in the queue, the front first, and what BRPOP leaves.
abbrev pub waiting : (e : Env) → World e → List String
waiting e w = in_order ((e.observe w.db).items queue_key)

abbrev pub front : List String → Option String
front [] = none
front (x ∷ xs) = some x

-- The task that a text stands for, if there is one.
abbrev pub read : (e : Env) → Option String → Option Task
read e none = none
read e (some raw) = e.validate raw

front-from_last : (o : Option String) (xs : List String) → front (from_last o xs) ≡ o
front-from_last none xs = refl
front-from_last (some x) xs = refl

module _ (e : Env) (w : World e) {u : String} (c : w.client ≡ some u) where
  pub enqueue_lem :
      (t : Task) → enqueue e t w ≡ (ok tt, record w { db = e.lpush queue_key (e.dump t) w.db })
  unfolding enqueue
  enqueue_lem t = ground arith

  pub dequeue_lem :
      (timeout : ℕ)
      → dequeue e timeout w ≡ (
        ok (read e (e.brpop (block_seconds timeout) queue_key w.db).0),
        record w { db = (e.brpop (block_seconds timeout) queue_key w.db).1 },
      )
  unfolding dequeue
  dequeue_lem timeout = ground arith

  qsize_lem : qsize e w ≡ (ok (e.llen queue_key w.db), w)
  unfolding qsize
  qsize_lem = ground arith

  -- With a client: `enqueue` puts the text of the task behind the others, `dequeue` takes the front
  -- text and returns the task that it parses to, or none if it does not parse or there is none, and
  -- `qsize` counts the texts.
  pub queue_is_fifo :
      (t : Task) (timeout : ℕ)
      → (waiting e (enqueue e t w).1 ≡ waiting e w ++ (e.dump t ∷ []))
        × ((dequeue e timeout w).0 ≡ ok (read e (front (waiting e w))))
        × (waiting e (dequeue e timeout w).1 ≡ behind (waiting e w))
        × ((qsize e w).0 ≡ ok (length (waiting e w)))
  queue_is_fifo t timeout =
      let texts = (e.observe w.db).items queue_key in
      (
        rw (enqueue_lem t) (simp e.lpush_law),
        rw (dequeue_lem timeout, e.brpop_law, in_order_lem texts, front-from_last),
        rw (dequeue_lem timeout) (simp e.brpop_state (behind-in_order texts)),
        rw (qsize_lem, e.llen_law, length-in_order),
      )
