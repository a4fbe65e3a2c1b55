-- ===== src/Tests/Engines.antt =====
-- Runs of src/engine_factory.py.
use cio_run_auto_orchestrato.Prelude.{
  String, true, false, some, [], ◌∷◌, ◌≡◌, refl, ◌==◌, is_truthy, Dict, lookup, insert,
}
use cio_run_auto_orchestrato.Effect.{Result, ok}
use cio_run_auto_orchestrato.EngineFactory.{
  Value, text, truthy, Loaded, a_dict, Settings, merge_dicts, merge_with_env_defaults, baseline,
  resolve_work_dir,
}
use cio_run_auto_orchestrato.EngineFactory.Strip.{strip, strip_left, strip_right}
use cio_run_auto_orchestrato.EngineFactory.Merge.{last_value, merge_with_env_defaults-Passes}
use cio_run_auto_orchestrato.EngineFactory.Cache.{
  Coherent, build, effective_config, get_engine_and_scheduler, cache_is_transparent,
}

abbrev pub settings : Settings
settings = record {
  cio_model = "m1";
  cio_api_key = "";
  cio_llm_url = "http://llm";
  cio_work_dir = "/work";
  cio_config_path = "";
}

abbrev caller : Dict Value
caller = ("api_key", text " key ") ∷ ("file_limit", truthy "30") ∷ []

abbrev merged : Dict Value
merged =
    ("model", text "m1")
    ∷ ("api_key", text "key")
    ∷ ("llm_url", text "http://llm")
    ∷ ("work_dir", text "/w")
    ∷ ("file_limit", truthy "30")
    ∷ []

merges : merge_with_env_defaults settings caller "/w" ≡ ok merged
unfolding merge_with_env_defaults merge_dicts lookup insert strip strip_left strip_right
merges = refl

merge_with_env_defaults-Passes_example :
    ((model : String) × (lookup "model" merged ≡ some (text model)) × (is_truthy model ≡ true))
    × ((api_key : String) × (lookup "api_key" merged ≡ some (text api_key))
        × (is_truthy api_key ≡ true))
    × (lookup "work_dir" merged ≡ some (text "/w"))
    × ((k : String)
        → ("model" == k) ≡ false
        → ("api_key" == k) ≡ false
        → ("work_dir" == k) ≡ false
        → lookup k merged ≡ last_value k (lookup k (baseline settings "/w")) caller)
merge_with_env_defaults-Passes_example = merge_with_env_defaults-Passes settings caller "/w" merges

abbrev loads : String → Loaded
loads s = a_dict caller

abbrev pub from_yaml : String → Result (Dict Value)
from_yaml s = ok []

abbrev pub construct : Dict Value → Result (Dict Value)
construct d = ok d

cache_is_transparent_example :
    let config = effective_config settings loads from_yaml construct (λ s. s) (some "{}") in
    let z =
      get_engine_and_scheduler settings loads from_yaml construct
        (λ s. s)
        (some "/w")
        (some "{}")
        [] in
    (z.0
      ≡ build settings loads from_yaml construct
          (λ s. s)
          (resolve_work_dir settings loads (some "/w") config)
          config)
    × Coherent settings loads from_yaml construct (λ s. s) z.1
    × ((x : Dict Value)
        → z.0 ≡ ok x
        → get_engine_and_scheduler settings loads from_yaml construct
            (λ s. s)
            (some "/w")
            (some "{}")
            z.1
          ≡ (ok x, z.1))
cache_is_transparent_example =
    cache_is_transparent settings loads from_yaml construct (λ s. s) (some "/w") (some "{}") [] tt
      (λ other q. q)
