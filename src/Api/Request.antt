-- ===== src/Api/Request.antt =====
-- `TaskCreateRequest` of src/models/api_schemas.py as it is read from the body of a request, and
-- POST /tasks of src/api.py behind it. Where the class refuses the body, FastAPI answers with
-- status 422, which is a `validation_error` here.
use Prim.Native.String.{count}
use cio_run_auto_orchestrato.Prelude.{
  String, Bool, true, Option, none, some, List, [], ◌∷◌, ◌&&◌, leb, elem, is_truthy, if◌then◌else◌,
  Dict, lookup,
}
use cio_run_auto_orchestrato.Effect.{
  Result, ok, err, value_error, validation_error, and_then, Action, continue,
}
use cio_run_auto_orchestrato.Redis.{Env}
use cio_run_auto_orchestrato.RedisClient.{World}
use cio_run_auto_orchestrato.EngineFactory.Strip.{strip}
use cio_run_auto_orchestrato.ConfigSchema.Json.{Json, null}
use cio_run_auto_orchestrato.ConfigSchema.Check.{Pydantic, validate_config_json}
use cio_run_auto_orchestrato.Api.{TaskCreateRequest, TaskResponse, or_empty, create_task}

abbrev pub request_fields : List String
request_fields = "project_name" ∷ "requirement" ∷ "work_dir" ∷ "config_json" ∷ []

-- `extra="forbid"`.
unfoldable pub only_known : Dict Json → Bool
only_known [] = true
only_known ((k, v) ∷ d) = elem k request_fields && only_known d

abbrev pub body_of :
    String
    → Result String
    → Result (Option String)
    → Result (Option String)
    → Result TaskCreateRequest
body_of project_name (err x) w c = err x
body_of project_name (ok requirement) (err x) c = err x
body_of project_name (ok requirement) (ok work_dir) (err x) = err x
body_of project_name (ok requirement) (ok work_dir) (ok config_json) = ok record {
  project_name = project_name;
  requirement = requirement;
  work_dir = work_dir;
  config_json = config_json;
}

module _ (p : Pydantic) where
  abbrev as_text : Json → Option String → Result String
  as_text v none = ok (p.str_value v)
  as_text v (some message) = err validation_error

  abbrev pub str_field : Json → Result String
  str_field v = as_text v (p.str_error v)

  -- `min_length=1` and `max_length=128`.
  abbrev pub bounded : String → Result String
  bounded s = if leb 1 (count s) && leb (count s) 128 then ok s else err validation_error

  abbrev pub project_name_field : Option Json → Result String
  project_name_field none = err validation_error
  project_name_field (some v) = and_then (str_field v) bounded

  abbrev pub requirement_field : Option Json → Result String
  requirement_field none = ok ""
  requirement_field (some v) = str_field v

  abbrev pub optional_field : Option Json → Result (Option String)
  optional_field none = ok none
  optional_field (some null) = ok none
  optional_field (some v) = and_then (str_field v) (λ s. ok (some s))

  abbrev pub fields_of : Dict Json → Result TaskCreateRequest
  fields_of d = and_then (project_name_field (lookup "project_name" d)) λ project_name.
      body_of project_name (requirement_field (lookup "requirement" d))
        (optional_field (lookup "work_dir" d)) (optional_field (lookup "config_json" d))

  module _ (loads : String → Result Json) where
    abbrev pub accepted : TaskCreateRequest → Result (Unit {0}) → Result TaskCreateRequest
    accepted body (ok u) = ok body
    accepted body (err (value_error m)) = err validation_error
    accepted body (err x) = err x

    -- `_validate_config_json`.
    unfoldable pub validate_request : TaskCreateRequest → Result TaskCreateRequest
    validate_request body =
        let raw = strip (or_empty body.config_json) in
        if is_truthy raw then accepted body (validate_config_json p loads raw) else ok body

    unfoldable pub read_body : Dict Json → Result TaskCreateRequest
    read_body d =
        if only_known d then and_then (fields_of d) validate_request else err validation_error

    unfoldable pub post_task : (e : Env) → String → Dict Json → Action (World e) TaskResponse
    post_task e uuid d w = continue (read_body d) (create_task e uuid) w
