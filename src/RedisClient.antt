-- ===== src/RedisClient.antt =====
-- src/redis_client.py: the module's `_client`, and the process that holds it.
use cio_run_auto_orchestrato.Prelude.{String, ℕ, Bool, true, false, Option, none, some}
use cio_run_auto_orchestrato.Effect.{runtime_error, other_error, ok, err, Action}
use cio_run_auto_orchestrato.Redis.{Env}

-- `client` is the address that the module's client was made for. `clock` is what `datetime.now`
-- returns.
pub record World (e : Env) : Type 0 where
  pub client : Option String
  pub db : e.Db
  pub clock : ℕ

-- The client is kept even where the `ping` behind it raises.
unfoldable pub init_redis : {e : Env} → Bool → String → Action (World e) String
init_redis reachable url w =
    let w' = record w { client = some url } in
    elim reachable [ true ↦ (ok url, w') | false ↦ (err (other_error "connection refused"), w') ]

unfoldable pub close_redis : {e : Env} → Action (World e) (Unit {0})
close_redis w = elim w.client [ none ↦ (ok tt, w) | some url ↦ (ok tt, record w { client = none }) ]

abbrev pub not_initialised : String
not_initialised = "Redis client is not initialised. Call `await init_redis(url)` first."

abbrev pub get_redis : {e : Env} → Action (World e) (Unit {0})
get_redis w = elim w.client [
  | none ↦ (err (runtime_error not_initialised), w)
  | some url ↦ (ok tt, w)
]

-- A command that reads, one that writes, and one that does both.
abbrev pub query : {e : Env} {A : Type 0} → (e.Db → A) → Action (World e) A
query f w = (ok (f w.db), w)

abbrev pub mutate : {e : Env} → (e.Db → e.Db) → Action (World e) (Unit {0})
mutate f w = (ok tt, record w { db = f w.db })

abbrev pub command : {e : Env} {A : Type 0} → (e.Db → A × e.Db) → Action (World e) A
command f w = let (a, db') = f w.db in (ok a, record w { db = db' })
