-- ===== src/EngineFactory/Build.antt =====
-- src/engine_factory.py and src/scheduler.py: the second half of `_build_engine_and_scheduler`, with
-- `Scheduler.__init__`, and `EngineFactory.get`. The classes of CIO-Agent are a parameter: what their
-- constructors return or raise, and which loggers they make.
use cio_run_auto_orchestrato.Prelude.{String, ℕ, Option, Dict}
use cio_run_auto_orchestrato.Effect.{Result, Action, ◌>>=◌, ◌>>◌, pure}
use cio_run_auto_orchestrato.EngineFactory.{Value, Loaded, Settings}
use cio_run_auto_orchestrato.EngineFactory.Cache.{Cache, get_engine_and_scheduler}
use cio_run_auto_orchestrato.EngineFactory.Correlation.{Attribute, Objects, ensure_correlation_id}

-- `CIOConfig`, `CIOLogger`, `ProjectStore`, `ProjectNamer`, `StateTracker` and `WorkflowEngine`. A
-- logger is found by its identity, and a constructor that is given one may look at its attributes.
pub record Agent : Type 1 where
  pub CioConfig : Type 0
  pub ProjectStore : Type 0
  pub ProjectNamer : Type 0
  pub StateTracker : Type 0
  pub WorkflowEngine : Type 0
  pub from_dict : Dict Value → Result CioConfig
  pub validate : CioConfig → Result (Unit {0})
  pub work_dir : CioConfig → String
  pub api_key : CioConfig → String
  pub cio_logger : String → Action Objects ℕ
  pub getattr : ℕ → String → Attribute
  pub project_store : String → Result ProjectStore
  pub project_namer : String → Result ProjectNamer
  pub state_tracker : String → ℕ → Action Objects StateTracker
  pub workflow_engine : CioConfig → ℕ → ProjectStore → ProjectNamer → Action Objects WorkflowEngine

abbrev pub lift : {A : Type 0} → Result A → Action Objects A
lift r objects = (r, objects)

module _ (agent : Agent) where
  open agent use {
    CioConfig, ProjectStore, StateTracker, WorkflowEngine, from_dict, validate, work_dir, api_key,
    cio_logger, getattr, project_store, project_namer, state_tracker, workflow_engine,
  }

  pub record Scheduler : Type 0 where
    pub directory : String
    pub store : ProjectStore
    pub tracker : StateTracker

  -- `Scheduler.__init__`.
  unfoldable pub new_scheduler : String → Action Objects Scheduler
  new_scheduler dir = do
    store ← lift (project_store dir)
    logger ← cio_logger dir
    tracker ← state_tracker dir logger
    pure (record { directory = dir; store = store; tracker = tracker })

  abbrev pub Pair : Type 0
  Pair = WorkflowEngine × Scheduler

  -- The stores, the engine and the scheduler, around a logger.
  unfoldable pub wire : CioConfig → ℕ → Action Objects Pair
  wire config logger = do
    store ← lift (project_store (work_dir config))
    namer ← lift (project_namer (api_key config))
    engine ← workflow_engine config logger store namer
    scheduler ← new_scheduler (work_dir config)
    pure (engine, scheduler)

  -- What follows `CIOConfig.from_dict`; `cid` is what `uuid4` makes.
  unfoldable pub assemble : String → CioConfig → Action Objects Pair
  assemble cid config = do
    lift (validate config)
    logger ← cio_logger (work_dir config)
    ensure_correlation_id cid logger (getattr logger)
    wire config logger

  unfoldable pub construct_pair : String → Dict Value → Action Objects Pair
  construct_pair cid d = do config ← lift (from_dict d); assemble cid config

-- `EngineFactory.get`.
unfoldable pub get :
    Settings
    → (String → Loaded)
    → (String → Result (Dict Value))
    → {A : Type 0} → (Dict Value → Result A)
    → (String → String)
    → Option String
    → Option String
    → Action (Cache A) A
get settings loads from_yaml construct sha256 work_dir config_json =
    get_engine_and_scheduler settings loads from_yaml construct sha256 work_dir config_json
