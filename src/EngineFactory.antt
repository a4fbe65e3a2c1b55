-- ===== src/EngineFactory.antt =====
-- src/engine_factory.py: the working directory and the configuration of an engine, and the cache of
-- engines. `json.loads` and the construction of an engine from a configuration, with its logger,
-- its stores and its checks, are parameters.
pub mod Strip
pub mod Merge
pub mod Cache
pub mod Correlation
pub mod Build
pub mod Directory
pub mod Assembled
use cio_run_auto_orchestrato.Prelude.{
  String, Bool, true, false, Option, none, some, List, [], ◌∷◌, ◌==◌, ◌&&◌, concat, is_truthy,
  if◌then◌else◌, Dict, lookup, insert,
}
use cio_run_auto_orchestrato.Effect.{value_error, other_error, Result, ok, err, Action}
use cio_run_auto_orchestrato.EngineFactory.Strip.{strip}

-- A value in a configuration: a text, or another value, which is false (null, 0, an empty list) or
-- true as a condition.
pub data Value : Type 0 where
  text : String → Value
  falsy : Value
  truthy : String → Value

-- What `json.loads` returns or raises.
pub data Loaded : Type 0 where
  bad_json : Loaded
  not_a_dict : Loaded
  a_dict : Dict Value → Loaded

-- The settings that the module reads.
pub record Settings : Type 0 where
  pub cio_model : String
  pub cio_api_key : String
  pub cio_llm_url : String
  pub cio_work_dir : String
  pub cio_config_path : String

-- `(value or "").strip()` of a value that may be missing.
abbrev pub stripped : Option Value → Result String
stripped none = ok ""
stripped (some (text s)) = ok (strip s)
stripped (some falsy) = ok ""
stripped (some (truthy v)) = err (other_error "object has no attribute 'strip'")

abbrev pub or_blank : Result String → String
or_blank (ok s) = s
or_blank (err x) = ""

abbrev pub work_dir_in : Loaded → String
work_dir_in bad_json = ""
work_dir_in not_a_dict = ""
work_dir_in (a_dict d) = or_blank (stripped (lookup "work_dir" d))

abbrev pub text_or_empty : Option String → String
text_or_empty none = ""
text_or_empty (some s) = s

abbrev pub non_empty : String → Option String
non_empty s = if is_truthy s then some s else none

-- `{**a, **b}`.
unfoldable pub merge_dicts : Dict Value → Dict Value → Dict Value
merge_dicts a [] = a
merge_dicts a ((k, v) ∷ b) = merge_dicts (insert k v a) b

module _ (settings : Settings) where
  unfoldable pub resolve_work_dir : (String → Loaded) → Option String → String → String
  resolve_work_dir loads request_work_dir config_json =
      let requested = strip (text_or_empty request_work_dir) in
      let configured = work_dir_in (loads config_json) in
      if is_truthy requested
      then requested
      else (if is_truthy config_json && is_truthy configured
          then configured
          else settings.cio_work_dir)

  abbrev pub baseline : String → Dict Value
  baseline resolved_work_dir =
      ("model", text settings.cio_model)
      ∷ ("api_key", text settings.cio_api_key)
      ∷ ("llm_url", text settings.cio_llm_url)
      ∷ ("work_dir", text resolved_work_dir)
      ∷ ("file_limit", truthy "20")
      ∷ []

  abbrev pub missing_model : String → String
  missing_model model =
      if is_truthy model
      then ""
      else "\n  • model: value is empty in config_json and CIO_MODEL env var is not set"

  abbrev pub missing_api_key : String → String
  missing_api_key api_key =
      if is_truthy api_key
      then ""
      else "\n  • api_key: value is empty in config_json and CIO_API_KEY env var is not set"

  abbrev pub required : String → String → Dict Value → Result (Dict Value)
  required model api_key merged =
      if is_truthy model && is_truthy api_key
      then ok merged
      else err (
          value_error (
            concat "config_json cannot be used — required fields missing after env-var fallback:"
              (concat (missing_model model) (missing_api_key api_key))))

  -- The last two steps, behind `strip` of the model and of the key.
  abbrev pub with_api_key : String → Dict Value → Result String → Result (Dict Value)
  with_api_key model merged (err x) = err x
  with_api_key model merged (ok api_key) =
      required model api_key (insert "api_key" (text api_key) merged)

  abbrev pub with_model : Dict Value → Result String → Result (Dict Value)
  with_model merged (err x) = err x
  with_model merged (ok model) =
      let merged' = insert "model" (text model) merged in
      with_api_key model merged' (stripped (lookup "api_key" merged'))

  unfoldable pub merge_with_env_defaults : Dict Value → String → Result (Dict Value)
  merge_with_env_defaults parsed resolved_work_dir =
      let merged =
        insert "work_dir" (text resolved_work_dir)
          (merge_dicts (baseline resolved_work_dir) parsed) in
      with_model merged (stripped (lookup "model" merged))

module _ (settings : Settings) (loads : String → Loaded) (from_yaml : String → Result (Dict Value))
    {A : Type 0} (construct : Dict Value → Result A) where
  abbrev pub constructed : Result (Dict Value) → Result A
  constructed (err x) = err x
  constructed (ok config) = construct config

  abbrev pub parsed_config : String → Loaded → Result (Dict Value)
  parsed_config resolved_work_dir bad_json = err (value_error "invalid JSON")
  parsed_config resolved_work_dir not_a_dict = err (other_error "not a mapping")
  parsed_config resolved_work_dir (a_dict d) = merge_with_env_defaults settings d resolved_work_dir

  abbrev pub yaml_config : String → Result (Dict Value) → Result (Dict Value)
  yaml_config resolved_work_dir (err x) = err x
  yaml_config resolved_work_dir (ok base) = ok (insert "work_dir" (text resolved_work_dir) base)

  unfoldable pub build_engine_and_scheduler : String → Option String → Result A
  build_engine_and_scheduler resolved_work_dir (some config_json) =
      constructed (parsed_config resolved_work_dir (loads config_json))
  build_engine_and_scheduler resolved_work_dir none =
      if is_truthy settings.cio_config_path
      then constructed (yaml_config resolved_work_dir (from_yaml settings.cio_config_path))
      else construct (baseline settings resolved_work_dir)
