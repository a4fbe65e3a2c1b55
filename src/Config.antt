-- ===== src/Config.antt =====
-- src/config.py: the settings, read from the environment in the order of the fields. What `float`
-- reads from a text is a parameter; a float is given by a fraction.
pub mod Heartbeat
use cio_run_auto_orchestrato.Prelude.{String, ℕ, Option, none, some}
use cio_run_auto_orchestrato.Effect.{Result, ok, err, other_error, and_then}
use cio_run_auto_orchestrato.ConfigSchema.Json.{ℤ, string, int}

pub record Fraction : Type 0 where
  pub numerator : ℤ
  pub denominator : ℕ

pub record Settings : Type 0 where
  pub cio_api_key : String
  pub cio_model : String
  pub cio_llm_url : String
  pub cio_work_dir : String
  pub cio_config_path : String
  pub worker_concurrency : ℤ
  pub worker_poll_interval : Fraction
  pub max_retries : ℤ
  pub api_host : String
  pub api_port : ℤ
  pub redis_url : String
  pub lock_ttl : ℤ
  pub lock_heartbeat_interval : Fraction
  pub stream_timeout : Fraction
  pub sse_keepalive_interval : Fraction
  pub sse_max_duration : Fraction

-- `os.getenv(name, default)`.
abbrev pub or_default : String → Option String → String
or_default default none = default
or_default default (some s) = s

-- `os.environ[name]`.
abbrev pub environ : String → Option String → Result String
environ name none = err (other_error name)
environ name (some s) = ok s

module _ (float : String → Result Fraction) (env : String → Option String) where
  abbrev pub getenv : String → String → String
  getenv name default = or_default default (env name)

  abbrev pub int_setting : String → String → Result ℤ
  int_setting name default = int (string (getenv name default))

  abbrev pub float_setting : String → String → Result Fraction
  float_setting name default = float (getenv name default)

  -- The default is the float of the text of a third of LOCK_TTL, which is read first; that text
  -- gives the same float back.
  abbrev pub interval_or : Option String → Result ℤ → Result Fraction
  interval_or given (err x) = err x
  interval_or none (ok ttl) = ok record { numerator = ttl; denominator = 3 }
  interval_or (some s) (ok ttl) = float s

  abbrev pub heartbeat_interval : Result Fraction
  heartbeat_interval = interval_or (env "LOCK_HEARTBEAT_INTERVAL") (int_setting "LOCK_TTL" "3600")

  unfoldable pub read_settings : Result Settings
  read_settings = and_then (environ "CIO_API_KEY" (env "CIO_API_KEY")) λ api_key.
      and_then (int_setting "WORKER_CONCURRENCY" "4") λ concurrency.
        and_then (float_setting "WORKER_POLL_INTERVAL" "0.5") λ poll_interval.
          and_then (int_setting "MAX_RETRIES" "3") λ retries.
            and_then (int_setting "API_PORT" "1577") λ port.
              and_then (int_setting "LOCK_TTL" "3600") λ ttl.
                and_then heartbeat_interval λ interval.
                  and_then (float_setting "STREAM_TIMEOUT" "0") λ timeout.
                    and_then (float_setting "SSE_KEEPALIVE_INTERVAL" "20.0") λ keepalive.
                      and_then (float_setting "SSE_MAX_DURATION" "0") λ duration. ok record {
                        cio_api_key = api_key;
                        cio_model = getenv "CIO_MODEL" "GPT-4.1";
                        cio_llm_url = getenv "CIO_LLM_URL" "https://api.poe.com";
                        cio_work_dir = getenv "CIO_WORK_DIR" "./workspace/solutions";
                        cio_config_path = getenv "CIO_CONFIG_PATH" "";
                        worker_concurrency = concurrency;
                        worker_poll_interval = poll_interval;
                        max_retries = retries;
                        api_host = getenv "API_HOST" "0.0.0.0";
                        api_port = port;
                        redis_url = getenv "REDIS_URL" "redis://localhost:6379/0";
                        lock_ttl = ttl;
                        lock_heartbeat_interval = interval;
                        stream_timeout = timeout;
                        sse_keepalive_interval = keepalive;
                        sse_max_duration = duration;
                      }
