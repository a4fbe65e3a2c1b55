-- ===== src/EngineFactory/Directory.antt =====
-- src/engine_factory.py: the directory of the engine and of the scheduler that a call is answered
-- with, and the correlation id of the engine's logger.
use cio_run_auto_orchestrato.Prelude.{
  String, Bool, ◌&&◌, if◌then◌else◌, true, false, Option, none, some, ◌≡◌, refl, sym, ap, ◌∙◌,
  arith, Dict, lookup, lookup-insert, is_truthy,
}
use cio_run_auto_orchestrato.Effect.{Result, ok, err, ok_injective}
use cio_run_auto_orchestrato.EngineFactory.{
  Value, text, text_or_empty, non_empty, work_dir_in, Loaded, bad_json, not_a_dict, a_dict,
  Settings, resolve_work_dir, constructed, parsed_config, yaml_config, baseline,
  build_engine_and_scheduler,
}
use cio_run_auto_orchestrato.EngineFactory.Strip.{strip}
use cio_run_auto_orchestrato.EngineFactory.Merge.{merge_with_env_defaults-Passes}
use cio_run_auto_orchestrato.EngineFactory.Cache.{
  Cache, Coherent, effective_config, cache_is_transparent,
}
use cio_run_auto_orchestrato.EngineFactory.Build.{get}

module _ (settings : Settings) (loads : String → Loaded) (from_yaml : String → Result (Dict Value))
    {A : Type 0} (construct : Dict Value → Result A) (sha256 : String → String)
    (directory_of : A → String)
    (copied : (d : Dict Value) (x : A) (dir : String)
      → construct d ≡ ok x
      → lookup "work_dir" d ≡ some (text dir)
      → directory_of x ≡ dir) where
  of_config :
      (r : Result (Dict Value)) (dir : String) (x : A)
      → ((d : Dict Value) → r ≡ ok d → lookup "work_dir" d ≡ some (text dir))
      → constructed settings loads from_yaml construct r ≡ ok x
      → directory_of x ≡ dir
  of_config (err y) dir x has q = ground arith
  of_config (ok d) dir x has q = copied d x dir q (has d refl)

  parsed_has :
      (dir : String) (l : Loaded) (d : Dict Value)
      → parsed_config settings loads from_yaml construct dir l ≡ ok d
      → lookup "work_dir" d ≡ some (text dir)
  parsed_has dir bad_json d q = ground arith
  parsed_has dir not_a_dict d q = ground arith
  parsed_has dir (a_dict parsed) d q = (merge_with_env_defaults-Passes settings parsed dir q).2

  yaml_has :
      (dir : String) (r : Result (Dict Value)) (d : Dict Value)
      → yaml_config settings loads from_yaml construct dir r ≡ ok d
      → lookup "work_dir" d ≡ some (text dir)
  yaml_has dir (err y) d q = ground arith
  yaml_has dir (ok base) d q =
      ap (lookup "work_dir") (sym (ok_injective q))
      ∙ lookup-insert "work_dir" "work_dir" (text dir) base

  env_has : (dir : String) → lookup "work_dir" (baseline settings dir) ≡ some (text dir)
  unfolding lookup
  env_has dir = refl

  or_env :
      (b : Bool) (dir : String) (x : A)
      → (if b
          then constructed settings loads from_yaml construct (
              yaml_config settings loads from_yaml construct dir
                (from_yaml settings.cio_config_path))
          else construct (baseline settings dir))
        ≡ ok x
      → directory_of x ≡ dir
  or_env true dir x q =
      of_config
        (yaml_config settings loads from_yaml construct dir (from_yaml settings.cio_config_path))
        dir x (yaml_has dir (from_yaml settings.cio_config_path)) q
  or_env false dir x q = copied (baseline settings dir) x dir q (env_has dir)

  built_in :
      (dir : String) (config : Option String) (x : A)
      → build_engine_and_scheduler settings loads from_yaml construct dir config ≡ ok x
      → directory_of x ≡ dir
  unfolding build_engine_and_scheduler
  built_in dir (some config_json) x q =
      of_config (parsed_config settings loads from_yaml construct dir (loads config_json)) dir x
        (parsed_has dir (loads config_json)) q
  built_in dir none x q = or_env (is_truthy settings.cio_config_path) dir x q

  pub get_uses_resolved_directory :
      (request_dir config_json : Option String) (c : Cache A) {x : A}
      → Coherent settings loads from_yaml construct sha256 c
      → ((other : String)
          → sha256 other
            ≡ sha256 (effective_config settings loads from_yaml construct sha256 config_json)
          → other ≡ effective_config settings loads from_yaml construct sha256 config_json)
      → (get settings loads from_yaml construct sha256 request_dir config_json c).0 ≡ ok x
      → let asked = strip (text_or_empty request_dir) in
        let given = work_dir_in (loads (strip (text_or_empty config_json))) in
        directory_of x ≡ (
          if is_truthy asked
          then asked
          else (if is_truthy (strip (text_or_empty config_json)) && is_truthy given
              then given
              else settings.cio_work_dir))
  unfolding get resolve_work_dir
  get_uses_resolved_directory request_dir config_json c {x} coherent unique q =
      let config = effective_config settings loads from_yaml construct sha256 config_json in
      let answer =
        cache_is_transparent settings loads from_yaml construct sha256 request_dir config_json c
          coherent unique in
      built_in (resolve_work_dir settings loads request_dir config) (non_empty config) x
        (sym answer.0 ∙ q)

-- The directory of a request: its own, or else that of its configuration, or else that of the
-- settings.
abbrev pub directory_for : Settings → (String → Loaded) → Option String → Option String → String
directory_for settings loads request_dir config_json =
    let asked = strip (text_or_empty request_dir) in
    let given = work_dir_in (loads (strip (text_or_empty config_json))) in
    if is_truthy asked
    then asked
    else (if is_truthy (strip (text_or_empty config_json)) && is_truthy given
        then given
        else settings.cio_work_dir)
