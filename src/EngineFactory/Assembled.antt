-- ===== src/EngineFactory/Assembled.antt =====
-- src/engine_factory.py and src/scheduler.py: the engine and the scheduler as they are put together from
-- the classes of CIO-Agent.
use cio_run_auto_orchestrato.Prelude.{
  String, ℕ, true, Option, none, some, List, ◌∷◌, [], ◌≡◌, sym, ap, ◌∙◌, ◌||◌, ◌⊎◌, arith, Dict,
  lookup, nat_eq, if◌then◌else◌,
}
use cio_run_auto_orchestrato.Effect.{Result, ok, ok_injective, continue_returns}
use cio_run_auto_orchestrato.EngineFactory.{Value, text, Loaded, Settings}
use cio_run_auto_orchestrato.EngineFactory.Cache.{Cache, Coherent, effective_config}
use cio_run_auto_orchestrato.EngineFactory.Correlation.{
  Object, Objects, Attribute, Assignment, sets, refuses, raises, ensure_correlation_id,
}
use cio_run_auto_orchestrato.EngineFactory.Correlation.Injected.{
  AreMild, among, injected, chosen_id, ensure_correlation_id-Injects,
}
use cio_run_auto_orchestrato.EngineFactory.Build.{
  Agent, Scheduler, new_scheduler, Pair, wire, assemble, construct_pair, get,
}
use cio_run_auto_orchestrato.EngineFactory.Directory.{directory_for, get_uses_resolved_directory}

-- The attributes that may be the wrapped loggers.
abbrev pub inner_loggers : (String → Attribute) → List Attribute
inner_loggers getattr = getattr "logger" ∷ getattr "_logger" ∷ getattr "log" ∷ getattr "_log" ∷ []

-- The assignment sets the attribute, or is refused with an AttributeError or a TypeError and
-- `object.__setattr__` sets it.
abbrev pub Settable : Object → Type 0
Settable o = (o.direct ≡ sets) ⊎ ((o.direct ≡ refuses) × (o.override ≡ sets))

id_set :
    (cid : String) (own : Option String) (direct override : Assignment)
    → (direct ≡ sets) ⊎ ((direct ≡ refuses) × (override ≡ sets))
    → ¬ (chosen_id cid own direct override ≡ none)
id_set cid (some own) direct override q missing = ground arith
id_set cid none sets override q missing = ground arith
id_set cid none refuses sets q missing = ground arith
id_set cid none refuses refuses q missing = ground arith
id_set cid none refuses (raises x) q missing = ground arith
id_set cid none (raises x) override q missing = ground arith

module _ (agent : Agent) where
  open agent use {
    CioConfig, from_dict, validate, work_dir, api_key, cio_logger, getattr, project_store,
    project_namer, state_tracker, workflow_engine,
  }

  -- `CIOConfig.from_dict` takes the directory from the entry `work_dir`.
  abbrev pub Copies : Type 0
  Copies =
      (d : Dict Value) (config : CioConfig) (dir : String)
      → from_dict d ≡ ok config
      → lookup "work_dir" d ≡ some (text dir)
      → work_dir config ≡ dir

  new_scheduler_directory :
      (dir : String) (objects : Objects) {sched : Scheduler agent} {after : Objects}
      → new_scheduler agent dir objects ≡ (ok sched, after)
      → sched.directory ≡ dir
  unfolding new_scheduler
  new_scheduler_directory dir objects q =
      let (store, _, q1) = continue_returns (project_store dir) _ objects q in
      let (logger, _, q2) = continue_returns (cio_logger dir objects).0 _ _ q1 in
      let (tracker, _, q3) =
        continue_returns (state_tracker dir logger (cio_logger dir objects).1).0 _ _ q2 in
      ap (λ (r : Scheduler agent). r.directory) (sym (ok_injective (ap (λ z. z.0) q3)))

  -- The wrapper and its attributes, as `_ensure_correlation_id` leaves them.
  abbrev pub patched : String → ℕ → Objects → Objects
  patched cid logger objects = (ensure_correlation_id cid logger (getattr logger) objects).1

  -- What the engine and the scheduler of a pair are made of.
  abbrev pub Wires : CioConfig → ℕ → Objects → Pair agent → Type 0
  Wires config logger objects pair =
      (store : agent.ProjectStore) × (namer : agent.ProjectNamer) × (project_store (work_dir config)
        ≡ ok store)
      × (project_namer (api_key config) ≡ ok namer)
      × ((workflow_engine config logger store namer objects).0 ≡ ok pair.0)
      × (pair.1.directory ≡ work_dir config)

  wire_lem :
      (config : CioConfig) (logger : ℕ) (objects : Objects) {pair : Pair agent} {after : Objects}
      → wire agent config logger objects ≡ (ok pair, after)
      → Wires config logger objects pair
  unfolding wire
  wire_lem config logger objects {pair} q =
      let (store, store_ok, q1) = continue_returns (project_store (work_dir config)) _ objects q in
      let (namer, namer_ok, q2) = continue_returns (project_namer (api_key config)) _ objects q1 in
      let built = workflow_engine config logger store namer objects in
      let (engine, engine_ok, q3) = continue_returns built.0 _ built.1 q2 in
      let planned = new_scheduler agent (work_dir config) built.1 in
      let (sched, sched_ok, q4) = continue_returns planned.0 _ planned.1 q3 in
      let same : (engine, sched) ≡ pair = ok_injective (ap (λ z. z.0) q4) in
      let dir : sched.directory ≡ work_dir config =
        new_scheduler_directory (work_dir config) built.1 (ap (λ r. (r, planned.1)) sched_ok) in
      (
        store,
        namer,
        store_ok,
        namer_ok,
        engine_ok ∙ ap (λ (x : Pair agent). ok x.0) same,
        ap (λ (x : Pair agent). x.1.directory) (sym same) ∙ dir,
      )

  assemble_lem :
      (cid : String) (config : CioConfig) (objects : Objects) {pair : Pair agent} {after : Objects}
      → assemble agent cid config objects ≡ (ok pair, after)
      → let made = cio_logger (work_dir config) objects in
        (logger : ℕ) × (made.0 ≡ ok logger) × Wires config logger (patched cid logger made.1) pair
  unfolding assemble
  assemble_lem cid config objects {pair} q =
      let made = cio_logger (work_dir config) objects in
      let (_, _, q1) = continue_returns (validate config) _ objects q in
      let (logger, made_ok, q2) = continue_returns made.0 _ made.1 q1 in
      let tuned = ensure_correlation_id cid logger (getattr logger) made.1 in
      let (_, _, q3) = continue_returns tuned.0 _ tuned.1 q2 in
      (logger, made_ok, wire_lem config logger tuned.1 q3)

  construct_directory :
      (cid : String) (objects : Objects)
      → Copies
      → (d : Dict Value) (pair : Pair agent) (dir : String)
      → (construct_pair agent cid d objects).0 ≡ ok pair
      → lookup "work_dir" d ≡ some (text dir)
      → pair.1.directory ≡ dir
  unfolding construct_pair
  construct_directory cid objects copies d pair dir q has =
      let whole = construct_pair agent cid d objects in
      let (config, config_ok, q1) =
        continue_returns (from_dict d) (assemble agent cid) objects (ap (λ r. (r, whole.1)) q) in
      (assemble_lem cid config objects q1).2.5 ∙ copies d config dir config_ok has

  -- With `CIOConfig.from_dict` taking the directory from the configuration: where `EngineFactory.get`
  -- answers a request with a pair, its scheduler is made for the request's own directory, or else
  -- that of its configuration, or else that of the settings, whatever the source of the
  -- configuration and whether the pair comes from the cache. The cache is coherent, and no other
  -- configuration has the digest of this one.
  pub pair_uses_resolved_directory :
      Copies
      → (settings : Settings) (loads : String → Loaded) (from_yaml : String → Result (Dict Value))
        (sha256 : String → String) (cid : String) (objects : Objects)
        (request_dir config_json : Option String) (c : Cache (Pair agent)) {pair : Pair agent}
      → let construct = λ (d : Dict Value). (construct_pair agent cid d objects).0 in
        let config = effective_config settings loads from_yaml construct sha256 config_json in
        Coherent settings loads from_yaml construct sha256 c
        → ((other : String) → sha256 other ≡ sha256 config → other ≡ config)
        → (get settings loads from_yaml construct sha256 request_dir config_json c).0 ≡ ok pair
        → pair.1.directory ≡ directory_for settings loads request_dir config_json
  pair_uses_resolved_directory copies settings loads from_yaml sha256 cid objects request_dir
        config_json c coherent unique q =
      get_uses_resolved_directory settings loads from_yaml
        (λ d. (construct_pair agent cid d objects).0) sha256 (λ pair. pair.1.directory)
        (construct_directory cid objects copies) request_dir config_json c coherent unique q

  -- The engine of a pair is constructed with a logger that has a correlation id, and so has each of
  -- the logger's four attributes that is a `logging.Logger`: where no assignment raises anything but
  -- an AttributeError or a TypeError, the constructor of the engine is given the store of the
  -- configuration's directory and the namer of its key, and finds an id on each of these objects on
  -- which the assignment sets it, or is refused and `object.__setattr__` sets it.
  pub engine_logger_has_id :
      (cid : String) (config : CioConfig) (objects : Objects) {pair : Pair agent} {after : Objects}
      → let made = cio_logger (work_dir config) objects in
        AreMild made.1
        → assemble agent cid config objects ≡ (ok pair, after)
        → (logger : ℕ) × (found : Objects) × (made.0 ≡ ok logger)
          × Wires config logger found pair
          × ((j : ℕ)
              → (nat_eq logger j || among (inner_loggers (getattr logger)) j) ≡ true
              → Settable (made.1 j)
              → ¬ ((found j).correlation_id ≡ none))
  engine_logger_has_id cid config objects mild q =
      let (logger, made_ok, wired) = assemble_lem cid config objects q in
      let made = cio_logger (work_dir config) objects in
      let each = (ensure_correlation_id-Injects cid logger (getattr logger) made.1 mild).1 in
      (
        logger,
        patched cid logger made.1,
        made_ok,
        wired,
        λ j reached set missing.
            id_set cid (made.1 j).correlation_id (made.1 j).direct (made.1 j).override set (
              ap (λ (o : Object). o.correlation_id)
                (sym (each j ∙ ap (λ b. if b then injected cid (made.1 j) else made.1 j) reached))
              ∙ missing),
      )
