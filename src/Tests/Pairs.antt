-- ===== src/Tests/Pairs.antt =====
-- Runs of src/engine_factory.py with an engine whose configuration is the dictionary it is made from.
use cio_run_auto_orchestrato.Prelude.{
  String, ℕ, true, Option, none, some, [], ◌∷◌, ◌≡◌, refl, sym, ap, ◌∙◌, ◌||◌, ◌==◌, arith, nat_eq,
  Dict, lookup, insert, if◌then◌else◌,
}
use cio_run_auto_orchestrato.Effect.{Result, ok, ok_injective}
use cio_run_auto_orchestrato.EngineFactory.{
  Value, text, falsy, truthy, Loaded, a_dict, resolve_work_dir, merge_dicts,
  build_engine_and_scheduler, merge_with_env_defaults,
}
use cio_run_auto_orchestrato.EngineFactory.Strip.{strip, strip_left, strip_right}
use cio_run_auto_orchestrato.EngineFactory.Cache.{cached, get_engine_and_scheduler}
use cio_run_auto_orchestrato.EngineFactory.Correlation.{
  Objects, absent, a_logger, sets, refuses, ensure_correlation_id, inject_at, inject_correlation_id,
  inject_attributes,
}
use cio_run_auto_orchestrato.EngineFactory.Correlation.Injected.{AreMild, among}
use cio_run_auto_orchestrato.EngineFactory.Build.{
  Agent, new_scheduler, wire, Pair, assemble, construct_pair, get,
}
use cio_run_auto_orchestrato.EngineFactory.Directory.{directory_for}
use cio_run_auto_orchestrato.EngineFactory.Assembled.{
  Copies, Wires, Settable, inner_loggers, pair_uses_resolved_directory, engine_logger_has_id,
}
use cio_run_auto_orchestrato.Tests.Engines.{settings, from_yaml}

abbrev text_of : Option Value → String
text_of none = ""
text_of (some (text s)) = s
text_of (some falsy) = ""
text_of (some (truthy s)) = s

abbrev agent : Agent
agent = record {
  CioConfig = Dict Value;
  ProjectStore = String;
  ProjectNamer = String;
  StateTracker = ℕ;
  WorkflowEngine = Option String;
  from_dict = λ d. ok d;
  validate = λ d. ok tt;
  work_dir = λ d. text_of (lookup "work_dir" d);
  api_key = λ d. text_of (lookup "api_key" d);
  cio_logger = λ dir objects. (ok 0, objects);
  getattr = λ i name. if name == "logger" then a_logger 1 else absent;
  project_store = λ dir. ok dir;
  project_namer = λ key. ok key;
  state_tracker = λ dir i objects. (ok i, objects);
  workflow_engine = λ d i s n objects. (ok (objects i).correlation_id, objects);
}

-- The logger of the standard library refuses the assignment.
abbrev bare : Objects
bare i = record {
  correlation_id = none;
  direct = if nat_eq i 1 then refuses else sets;
  override = sets;
}

copies : Copies agent
copies d config dir q has =
    ap (λ c. text_of (lookup "work_dir" c)) (sym (ok_injective q)) ∙ ap text_of has

abbrev config : Dict Value
config = ("work_dir", text "/w") ∷ ("api_key", text "k") ∷ []

abbrev pair : Pair agent
pair = (some "c1", record { directory = "/w"; store = "/w"; tracker = 0 })

assembled : (assemble agent "c1" config bare).0 ≡ ok pair
unfolding assemble wire new_scheduler lookup ensure_correlation_id inject_at inject_correlation_id
    inject_attributes
assembled = refl

mild : AreMild bare
mild i = (λ x q. ground arith, λ x q. ground arith)

engine_logger_has_id_example :
    (logger : ℕ) × (found : Objects) × (◌≡◌ {A = Result ℕ} (ok 0) (ok logger))
    × Wires agent config logger found pair
    × ((j : ℕ)
        → (nat_eq logger j || among (inner_loggers (agent.getattr logger)) j) ≡ true
        → Settable (bare j)
        → ¬ ((found j).correlation_id ≡ none))
engine_logger_has_id_example =
    engine_logger_has_id agent "c1" config bare {pair = pair} mild
      (ap (λ r. (r, (assemble agent "c1" config bare).1)) assembled)

abbrev loads : String → Loaded
loads s = a_dict config

-- The configuration has the directory.
answered :
    (get settings loads from_yaml
      (λ d. (construct_pair agent "c1" d bare).0)
      (λ s. s)
      (some " ")
      (some "{}")
      []).0
    ≡ ok pair
unfolding get get_engine_and_scheduler cached resolve_work_dir build_engine_and_scheduler
    merge_with_env_defaults merge_dicts lookup insert strip strip_left strip_right construct_pair
    assemble wire new_scheduler ensure_correlation_id inject_at inject_correlation_id
    inject_attributes
answered = refl

pair_uses_resolved_directory_example : "/w" ≡ directory_for settings loads (some " ") (some "{}")
pair_uses_resolved_directory_example =
    pair_uses_resolved_directory agent copies settings loads from_yaml (λ s. s) "c1" bare (some " ")
      (some "{}") [] {pair = pair} tt (λ other q. q) answered
