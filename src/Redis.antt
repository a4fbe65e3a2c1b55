-- ===== src/Redis.antt =====
-- The services and packages that the program calls: a Redis server, pydantic's text form of a task,
-- and SHA-256. They are parameters, with their documented behaviour as laws. Below them stands
-- src/redis_client.py.
pub mod Demo
use cio_run_auto_orchestrato.Prelude.{
  String, ℕ, Bool, true, false, Option, none, some, List, [], ◌∷◌, ◌++◌, ◌≡◌, ◌==◌, ◌&&◌, ◌||◌, not,
  elem, length, if◌then◌else◌,
}
use cio_run_auto_orchestrato.Effect.{Exn, runtime_error, Result, ok, err, Action, ◌>>=◌, ◌>>◌}
use cio_run_auto_orchestrato.Models.{Task, Payload}

-- What a client can read of a server: the texts and their expiry times, the sets, the lists from
-- their heads, and the messages of each channel.
pub record Contents : Type 0 where
  pub strings : String → Option String
  pub expiry : String → Option ℕ
  pub members : String → List String
  pub items : String → List String
  pub messages : String → List String

abbrev pub put {ℓ} : {A : Type ℓ} → String → A → (String → A) → String → A
put k v f j = if k == j then v else f j

abbrev pub is_some {ℓ} : {A : Type ℓ} → Option A → Bool
is_some none = false
is_some (some a) = true

abbrev pub get_last? {ℓ} : {A : Type ℓ} → List A → Option A
get_last? [] = none
get_last? (x ∷ []) = some x
get_last? (x ∷ y ∷ xs) = get_last? (y ∷ xs)

abbrev pub drop_last {ℓ} : {A : Type ℓ} → List A → List A
drop_last [] = []
drop_last (x ∷ []) = []
drop_last (x ∷ y ∷ xs) = x ∷ drop_last (y ∷ xs)

abbrev pub has : String → Contents → Bool
has k c = is_some (c.strings k)

abbrev pub with_string : String → Option String → Option ℕ → Contents → Contents
with_string k v ttl c = record c { strings = put k v c.strings; expiry = put k ttl c.expiry }

pub record Env : Type 1 where
  pub Db : Type 0
  pub observe : Db → Contents
  -- GET, SET, SET NX, SET NX EX, DEL, EXPIRE.
  pub get : String → Db → Option String
  pub set : String → String → Db → Db
  pub set_nx : String → String → Db → Bool × Db
  pub set_nx_ex : String → String → ℕ → Db → Bool × Db
  pub del : String → Db → Db
  pub expire : String → ℕ → Db → Bool × Db
  -- SADD, SMEMBERS, LPUSH, BRPOP with its limit in seconds, LLEN, PUBLISH.
  pub sadd : String → String → Db → Db
  pub smembers : String → Db → List String
  pub lpush : String → String → Db → Db
  pub brpop : ℕ → String → Db → Option String × Db
  pub llen : String → Db → ℕ
  pub publish : String → String → Db → Db
  -- `model_dump_json`, `json.dumps` of an event, `model_validate_json` (`none`: a
  -- ValidationError), and the hex digest.
  pub dump : Task → String
  pub dump_event : Payload → String
  pub validate : String → Option Task
  pub sha256 : String → String
  -- Their documented behaviour. A SET without an expiry drops the old one. SMEMBERS promises no
  -- order. BRPOP takes the last item, and finds none when it times out.
  pub get_law : (k : String) (s : Db) → get k s ≡ (observe s).strings k
  pub set_law :
      (k v : String) (s : Db) → observe (set k v s) ≡ with_string k (some v) none (observe s)
  pub set_nx_law : (k v : String) (s : Db) → (set_nx k v s).0 ≡ not (has k (observe s))
  pub set_nx_state :
      (k v : String) (s : Db)
      → observe (set_nx k v s).1
        ≡ (if has k (observe s) then observe s else with_string k (some v) none (observe s))
  pub set_nx_ex_law :
      (k v : String) (ttl : ℕ) (s : Db) → (set_nx_ex k v ttl s).0 ≡ not (has k (observe s))
  pub set_nx_ex_state :
      (k v : String) (ttl : ℕ) (s : Db)
      → observe (set_nx_ex k v ttl s).1
        ≡ (if has k (observe s) then observe s else with_string k (some v) (some ttl) (observe s))
  pub del_law : (k : String) (s : Db) → observe (del k s) ≡ with_string k none none (observe s)
  pub expire_law : (k : String) (ttl : ℕ) (s : Db) → (expire k ttl s).0 ≡ has k (observe s)
  pub expire_state :
      (k : String) (ttl : ℕ) (s : Db)
      → observe (expire k ttl s).1 ≡ (
          if has k (observe s)
          then with_string k ((observe s).strings k) (some ttl) (observe s)
          else observe s)
  pub sadd_strings :
      (k m : String) (s : Db) (j : String)
      → (observe (sadd k m s)).strings j ≡ (observe s).strings j
  pub sadd_expiry :
      (k m : String) (s : Db) (j : String) → (observe (sadd k m s)).expiry j ≡ (observe s).expiry j
  pub sadd_items :
      (k m : String) (s : Db) (j : String) → (observe (sadd k m s)).items j ≡ (observe s).items j
  pub sadd_messages :
      (k m : String) (s : Db) (j : String)
      → (observe (sadd k m s)).messages j ≡ (observe s).messages j
  pub sadd_members :
      (k m : String) (s : Db) (k' j : String)
      → elem j ((observe (sadd k m s)).members k')
        ≡ ((k == k' && m == j) || elem j ((observe s).members k'))
  pub sadd_others :
      (k m : String) (s : Db) (k' : String)
      → (k == k') ≡ false
      → (observe (sadd k m s)).members k' ≡ (observe s).members k'
  pub smembers_law : (k : String) (s : Db) → smembers k s ≡ (observe s).members k
  pub lpush_law :
      (k v : String) (s : Db)
      → observe (lpush k v s)
        ≡ record (observe s) { items = put k (v ∷ (observe s).items k) (observe s).items }
  pub brpop_law : (n : ℕ) (k : String) (s : Db) → (brpop n k s).0 ≡ get_last? ((observe s).items k)
  pub brpop_state :
      (n : ℕ) (k : String) (s : Db)
      → observe (brpop n k s).1
        ≡ record (observe s) { items = put k (drop_last ((observe s).items k)) (observe s).items }
  pub llen_law : (k : String) (s : Db) → llen k s ≡ length ((observe s).items k)
  pub publish_law :
      (k m : String) (s : Db)
      → observe (publish k m s) ≡ record (observe s) {
        messages = put k ((observe s).messages k ++ (m ∷ [])) (observe s).messages;
      }
  pub validate_law : (t : Task) → validate (dump t) ≡ some t
