-- ===== src/WorkerLocks.antt =====
-- src/worker_locks.py: one lock for each project, a text that holds the owner's token and expires.
pub mod Ownership
pub mod Mutex
use cio_run_auto_orchestrato.Prelude.{
  String, ℕ, Bool, false, Option, none, some, ◌==◌, if◌then◌else◌,
}
use cio_run_auto_orchestrato.Effect.{Action, ◌>>◌}
use cio_run_auto_orchestrato.Redis.{Env}
use cio_run_auto_orchestrato.RedisClient.{World, get_redis, mutate, command}
use cio_run_auto_orchestrato.TaskQueue.Keys.{lock_key}

-- `redis.call("get", KEYS[1]) == ARGV[1]`: a missing key is `false` in Lua, and equals no text.
abbrev pub equals : Option String → String → Bool
equals none token = false
equals (some v) token = v == token

module _ (e : Env) where
  unfoldable pub acquire_lock : String → String → ℕ → Action (World e) Bool
  acquire_lock project_name token ttl = do
    get_redis
    command (e.set_nx_ex (lock_key project_name) token ttl)

  -- The two Lua scripts, each of which the server runs as one step.
  abbrev pub release_script : String → String → e.Db → e.Db
  release_script key token db = if equals (e.get key db) token then e.del key db else db

  abbrev pub refresh_script : String → String → ℕ → e.Db → Bool × e.Db
  refresh_script key token ttl db =
      if equals (e.get key db) token then e.expire key ttl db else (false, db)

  unfoldable pub release_lock : String → String → Action (World e) (Unit {0})
  release_lock project_name token = do
    get_redis
    mutate (release_script (lock_key project_name) token)

  unfoldable pub refresh_lock : String → String → ℕ → Action (World e) Bool
  refresh_lock project_name token ttl = do
    get_redis
    command (refresh_script (lock_key project_name) token ttl)
