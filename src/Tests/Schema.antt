-- ===== src/Tests/Schema.antt =====
-- Runs of src/models/config_schema.py and of the request in front of it.
use Prim.Native.Nat.{◌≤◌}
use Prim.Native.String.{count}
use cio_run_auto_orchestrato.Prelude.{
  String, ℕ, true, Option, none, some, [], ◌∷◌, ◌≡◌, refl, ◌↔◌, ◌==◌, ◌≢◌, is_truthy, elem, arith,
  Dict, lookup, insert, concat, if◌then◌else◌,
}
use cio_run_auto_orchestrato.Effect.{Result, ok, err, value_error, other_error}
use cio_run_auto_orchestrato.ConfigSchema.Json.{
  pos, Json, null, boolean, integer, floating, string, array, object, no_elements, element, Members,
  member, no_members, members, members_onto, digits, int,
}
use cio_run_auto_orchestrato.EngineFactory.{
  Value, text, falsy, stripped, merge_dicts, merge_with_env_defaults,
}
use cio_run_auto_orchestrato.EngineFactory.Strip.{strip, strip_left, strip_right}
use cio_run_auto_orchestrato.EngineFactory.Merge.{merged_with, blank_model_refused}
use cio_run_auto_orchestrato.Tests.Engines.{settings, from_yaml, construct}
use cio_run_auto_orchestrato.ConfigSchema.Classes.{config_json_schema}
use cio_run_auto_orchestrato.ConfigSchema.Conforms.{Has, validate_config_json_iff}
use cio_run_auto_orchestrato.ConfigSchema.Fields.{target_coverage-InRange}
use cio_run_auto_orchestrato.Api.{TaskCreateRequest}
use cio_run_auto_orchestrato.Api.Request.{read_body, request_fields, only_known, validate_request}
use cio_run_auto_orchestrato.Api.Admitted.{IsChecked, config_text, read_body-Admitted}
use cio_run_auto_orchestrato.Api.Configured.{admitted_config_builds, BuildsOrRefuses, engine_of}
use cio_run_auto_orchestrato.ConfigSchema.Check.{
  Pydantic, validate_config_json, check, check_fields, check_texts, join,
}

-- The conversions of pydantic, without those of texts to numbers.
abbrev text_error : Json → Option String
text_error (string s) = none
text_error v = some "Input should be a valid string"

abbrev number_error : Json → Option String
number_error (integer z) = none
number_error (boolean b) = none
number_error (floating negative whole true) = none
number_error v = some "Input should be a valid integer"

abbrev truth_error : Json → Option String
truth_error (boolean b) = none
truth_error v = some "Input should be a valid boolean"

abbrev text_value : Json → String
text_value (string s) = s
text_value v = ""

abbrev pub pydantic : Pydantic
pydantic = record {
  str_error = text_error;
  str_value = text_value;
  int_error = number_error;
  bool_error = truth_error;
  list_message = "Input should be a valid list";
  dict_message = "Input should be a valid dictionary";
  model_message = "Input should be a valid dictionary or instance";
  value_error_message = λ m. concat "Value error, " m;
}

abbrev validation : Members
validation =
    member "target_coverage" (integer (pos 80))
      (member "step_filter" (array (element (string "lint") no_elements)) no_members)

abbrev git : Members
git = member "push_strategy" (string "manual") (member "branch_strategy" null no_members)

abbrev config : Members
config =
    member "model" (string "m2")
      (member "validation" (object validation) (member "git" (object git) no_members))

-- The configurations that the tests load, by their texts.
abbrev pub loads : String → Result Json
loads s =
    if s == "{}"
    then ok (object config)
    else (if s == "extended"
        then ok (object (member "extra" null config))
        else err (value_error "no"))

accepts : validate_config_json pydantic loads "{}" ≡ ok tt
unfolding validate_config_json check check_fields check_texts members_onto lookup insert digits elem
accepts = refl

abbrev over : Members
over = member "file_limit" (string "many") (
    member "validation" (object (member "target_coverage" (integer (pos 101)) no_members))
      no_members)

abbrev message : String
message = concat "config_json failed schema validation:\n" (
    concat "  • file_limit: Input should be a valid integer\n"
      "  • validation → target_coverage: Value error, target_coverage must be between 0 and 100")

refuses : validate_config_json pydantic (λ s. ok (object over)) "" ≡ err (value_error message)
unfolding validate_config_json check check_fields check_texts members_onto lookup insert join concat
refuses = refl

-- A list in place of a strategy has no hash: the TypeError passes the handler for ValueError.
unhashable :
    validate_config_json pydantic
      (λ s. ok (
        object (
          member "git"
            (object (member "push_strategy" (array no_elements) no_members))
            no_members)))
      ""
    ≡ err (other_error "TypeError")
unfolding validate_config_json check check_fields check_texts members_onto lookup insert
unhashable = refl

validate_config_json_iff_example : (validate_config_json pydantic loads "{}" ≡ ok tt) ↔ (
    (ps : Members) × (loads "{}" ≡ ok (object ps)) × Has pydantic config_json_schema (members ps))
validate_config_json_iff_example = validate_config_json_iff pydantic loads "{}"

has_validation : lookup "validation" (members config) ≡ some (object validation)
unfolding lookup members_onto insert
has_validation = refl

has_coverage : lookup "target_coverage" (members validation) ≡ some (integer (pos 80))
unfolding lookup members_onto insert
has_coverage = refl

not_null : integer (pos 80) ≢ null
not_null q = ground arith

target_coverage-InRange_example : (n : ℕ) × (int (integer (pos 80)) ≡ ok (pos n)) × (n ≤ 100)
target_coverage-InRange_example =
    target_coverage-InRange pydantic loads "{}" refl accepts has_validation has_coverage not_null

has_git : lookup "git" (members config) ≡ some (object git)
unfolding lookup members_onto insert
has_git = refl

abbrev pub request : Dict Json
request = ("project_name", string "shop") ∷ ("config_json", string " {} ") ∷ []

abbrev read_request : TaskCreateRequest
read_request = record {
  project_name = "shop";
  requirement = "";
  work_dir = none;
  config_json = some " {} ";
}

reads : read_body pydantic loads request ≡ ok read_request
unfolding read_body validate_request only_known validate_config_json check check_fields check_texts
    members_onto lookup insert elem digits strip strip_left strip_right
reads = refl

read_body-Admitted_example :
    ((k : String) (v : Json) → lookup k request ≡ some v → elem k request_fields ≡ true)
    × ((1 ≤ count "shop") × (count "shop" ≤ 128))
    × IsChecked pydantic loads read_request
read_body-Admitted_example = read_body-Admitted pydantic loads request reads

only_texts : (v : Json) → text_error v ≡ none → (s : String) × (v ≡ string s)
only_texts (string s) q = (s, refl)
only_texts v q = ground arith

abbrev repr : Json → String
repr v = "value"

set : is_truthy (config_text read_request) ≡ true
unfolding strip strip_left strip_right
set = refl

admitted_config_builds_example :
    BuildsOrRefuses pydantic loads only_texts repr settings from_yaml construct "/w" (
      engine_of pydantic loads only_texts repr settings from_yaml construct "/w"
        (config_text read_request))
admitted_config_builds_example =
    admitted_config_builds pydantic loads only_texts repr settings from_yaml construct request "/w"
      reads set

abbrev blank : Dict Value
blank = ("model", falsy) ∷ ("api_key", text "key") ∷ []

merged_key : stripped (lookup "api_key" (merged_with settings blank "/w")) ≡ ok "key"
unfolding lookup insert merge_dicts strip strip_left strip_right
merged_key = refl

blank_model_refused_example :
    (m : String) × (merge_with_env_defaults settings blank "/w" ≡ err (value_error m))
blank_model_refused_example = blank_model_refused settings blank "/w" refl refl merged_key
