-- ===== src/Redis/Demo.antt =====
-- A server in memory and a text form of tasks: the laws of `Env` can be met, and tests can run.
mod Codec
use cio_run_auto_orchestrato.Prelude.{
  String, ℕ, Bool, true, false, none, some, List, [], ◌∷◌, ◌++◌, ◌≡◌, refl, ◌==◌, ◌&&◌, ◌||◌, not,
  elem, length, if◌then◌else◌, concat, ==_iff, ==_refl, arith,
}
use cio_run_auto_orchestrato.Models.{Payload}
use cio_run_auto_orchestrato.Redis.{Contents, Env, put, has, with_string, get_last?, drop_last}
unfoldable pub use Codec.{dump, validate, dump_event, load_event}
use Codec.{validate-dump}
pub use Codec.{load_event-dump_event, dump_event_begins}

abbrev pub add_member : String → List String → List String
add_member m ms = if elem m ms then ms else ms ++ (m ∷ [])

elem-append_self :
    (m j : String) (ms : List String) → elem j (ms ++ (m ∷ [])) ≡ (m == j || elem j ms)
unfolding elem
elem-append_self m j [] = refl
elem-append_self m j (x ∷ ms) = ground (arith, elem-append_self m j ms)

elem_of_eq :
    (m j : String) (ms : List String) → elem m ms ≡ true → (m == j) ≡ true → elem j ms ≡ true
elem_of_eq m j ms h q = ground (arith, ==_iff m j)

elem-add_member :
    (m j : String) (ms : List String) → elem j (add_member m ms) ≡ (m == j || elem j ms)
elem-add_member m j ms = ground (arith, elem-append_self m j ms, elem_of_eq m j ms)

abbrev pub added : String → String → Contents → Contents
added k m c = record c { members = put k (add_member m (c.members k)) c.members }

pub elem-added :
    (k m : String) (c : Contents) (k' j : String)
    → elem j ((added k m c).members k') ≡ ((k == k' && m == j) || elem j (c.members k'))
elem-added k m c k' j = ground (arith, elem-add_member m j (c.members k), ==_iff k k')

pub others-added :
    (k m : String) (c : Contents) (k' : String)
    → (k == k') ≡ false
    → (added k m c).members k' ≡ c.members k'
others-added k m c k' other = rw other refl

abbrev pub memory : Env
memory = record {
  Db = Contents;
  observe = λ c. c;
  get = λ k c. c.strings k;
  set = λ k v c. with_string k (some v) none c;
  set_nx = λ k v c. (not (has k c), if has k c then c else with_string k (some v) none c);
  set_nx_ex =
      λ k v ttl c. (not (has k c), if has k c then c else with_string k (some v) (some ttl) c);
  del = λ k c. with_string k none none c;
  expire = λ k ttl c. (has k c, if has k c then with_string k (c.strings k) (some ttl) c else c);
  sadd = added;
  smembers = λ k c. c.members k;
  lpush = λ k v c. record c { items = put k (v ∷ c.items k) c.items };
  brpop =
      λ n k c. (get_last? (c.items k), record c { items = put k (drop_last (c.items k)) c.items });
  llen = λ k c. length (c.items k);
  publish = λ k m c. record c { messages = put k (c.messages k ++ (m ∷ [])) c.messages };
  dump = dump;
  dump_event = dump_event;
  validate = validate;
  sha256 = λ s. s;
  get_law = λ k c. refl;
  set_law = λ k v c. refl;
  set_nx_law = λ k v c. refl;
  set_nx_state = λ k v c. refl;
  set_nx_ex_law = λ k v ttl c. refl;
  set_nx_ex_state = λ k v ttl c. refl;
  del_law = λ k c. refl;
  expire_law = λ k ttl c. refl;
  expire_state = λ k ttl c. refl;
  sadd_strings = λ k m c j. refl;
  sadd_expiry = λ k m c j. refl;
  sadd_items = λ k m c j. refl;
  sadd_messages = λ k m c j. refl;
  sadd_members = elem-added;
  sadd_others = others-added;
  smembers_law = λ k c. refl;
  lpush_law = λ k v c. refl;
  brpop_law = λ n k c. refl;
  brpop_state = λ n k c. refl;
  llen_law = λ k c. refl;
  publish_law = λ k m c. refl;
  validate_law = validate-dump;
}

abbrev pub empty : Contents
empty = record {
  strings = λ k. none;
  expiry = λ k. none;
  members = λ k. [];
  items = λ k. [];
  messages = λ k. [];
}
