-- ===== src/Config/Heartbeat.antt =====
-- src/config.py: how the interval of the heartbeat stands to the lifetime of a lock.
use cio_run_auto_orchestrato.Prelude.{
  String, ℕ, ◌*◌, ◌≤◌, ◌<◌, Option, none, some, ◌≡◌, ap, ◌∙◌, subst, arith,
}
use cio_run_auto_orchestrato.Effect.{Result, ok, err, and_then_gives, ok_injective}
use cio_run_auto_orchestrato.ConfigSchema.Json.{ℤ, pos}
use cio_run_auto_orchestrato.Config.{
  Fraction, Settings, environ, int_setting, float_setting, interval_or, heartbeat_interval,
  read_settings,
}

module _ (float : String → Result Fraction) (env : String → Option String) where
  interval_or_lem :
      (o : Option String) (r : Result ℤ) {ttl : ℤ} {interval : Fraction}
      → o ≡ none
      → r ≡ ok ttl
      → interval_or float env o r ≡ ok interval
      → interval ≡ record { numerator = ttl; denominator = 3 }
  interval_or_lem none (ok ttl) unset read h = ground arith
  interval_or_lem none (err x) unset read h = ground arith
  interval_or_lem (some s) r unset read h = ground arith

  -- The two settings of the lock as `read_settings` has read them.
  abbrev IsRead : Settings → Type 0
  IsRead s =
      (int_setting float env "LOCK_TTL" "3600" ≡ ok s.lock_ttl)
      × (heartbeat_interval float env ≡ ok s.lock_heartbeat_interval)

  read_settings-IsRead : (s : Settings) → read_settings float env ≡ ok s → IsRead s
  unfolding read_settings
  read_settings-IsRead =
      and_then_gives IsRead (environ "CIO_API_KEY" (env "CIO_API_KEY")) _ λ key q.
        and_then_gives IsRead (int_setting float env "WORKER_CONCURRENCY" "4") _ λ concurrency q.
          and_then_gives IsRead (float_setting float env "WORKER_POLL_INTERVAL" "0.5") _ λ poll q.
            and_then_gives IsRead (int_setting float env "MAX_RETRIES" "3") _ λ retries q.
              and_then_gives IsRead (int_setting float env "API_PORT" "1577") _ λ port q.
                and_then_gives IsRead (int_setting float env "LOCK_TTL" "3600") _ λ ttl lifetime.
                  and_then_gives IsRead (heartbeat_interval float env) _ λ interval beats.
                    and_then_gives IsRead (float_setting float env "STREAM_TIMEOUT" "0") _
                      λ timeout q.
                        and_then_gives IsRead
                          (float_setting float env "SSE_KEEPALIVE_INTERVAL" "20.0") _
                          λ alive q.
                            and_then_gives IsRead (float_setting float env "SSE_MAX_DURATION" "0") _
                              λ duration q. λ s h. subst IsRead (ok_injective h) (lifetime, beats)

  -- Where LOCK_HEARTBEAT_INTERVAL is not set and the settings can be read with a positive lifetime
  -- of locks: the heartbeat's interval is positive, and two intervals are shorter than the lifetime,
  -- so that one beat that comes late does not lose the lock.
  pub heartbeat_within_lifetime :
      {s : Settings} {n : ℕ}
      → read_settings float env ≡ ok s
      → env "LOCK_HEARTBEAT_INTERVAL" ≡ none
      → s.lock_ttl ≡ pos n
      → 1 ≤ n
      → (m : ℕ) × (s.lock_heartbeat_interval.numerator ≡ pos m)
        × (1 ≤ m)
        × (2 * m < n * s.lock_heartbeat_interval.denominator)
  heartbeat_within_lifetime {s} {n} h unset lifetime positive =
      let (ttl, interval) = read_settings-IsRead s h in
      let third =
        interval_or_lem (env "LOCK_HEARTBEAT_INTERVAL") (int_setting float env "LOCK_TTL" "3600")
          unset ttl interval in
      (
        n,
        ap (λ (f : Fraction). f.numerator) third ∙ lifetime,
        positive,
        rw third (omega (arith, positive)),
      )
