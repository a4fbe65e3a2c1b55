-- ===== src/ConfigSchema/Classes.antt =====
-- The classes of src/models/config_schema.py: the fields with their annotations, in order, and the
-- validators that run before the annotation is checked.
use cio_run_auto_orchestrato.Prelude.{String, Bool, false, List, [], ◌∷◌, leb, elem, if◌then◌else◌}
use cio_run_auto_orchestrato.Effect.{Result, ok, err, value_error, other_error}
use cio_run_auto_orchestrato.ConfigSchema.Json.{
  ℤ, pos, negsuc, Json, null, string, array, object, int,
}

-- What stands in `Optional[...]`, and the fields of a class: a name, the validator in the mode
-- "before", and the annotation.
mutual
  pub data Annotation : Type 0 where
    str_type int_type bool_type : Annotation
    str_list any_dict : Annotation
    model : Fields → Annotation

  pub data Fields : Type 0 where
    no_fields : Fields
    field : String → (Json → Result Json) → Annotation → Fields → Fields

-- A field without a validator.
abbrev pub plain : String → Annotation → Fields → Fields
plain name annotation fs = field name ok annotation fs

abbrev pub in_range : ℤ → Bool
in_range (pos n) = leb n 100
in_range (negsuc n) = false

abbrev pub coverage_of : Json → Result ℤ → Result Json
coverage_of v (err x) = err x
coverage_of v (ok z) =
    if in_range z then ok v else err (value_error "target_coverage must be between 0 and 100")

abbrev pub coverage_range : Json → Result Json
coverage_range null = ok null
coverage_range v = coverage_of v (int v)

-- `v in` a set of texts: a list or a dict has no hash.
abbrev pub is_in : Json → List String → Result Bool
is_in (string s) names = ok (elem s names)
is_in (array vs) names = err (other_error "TypeError")
is_in (object ps) names = err (other_error "TypeError")
is_in v names = ok false

abbrev pub member_or : String → Json → Result Bool → Result Json
member_or message v (err x) = err x
member_or message v (ok b) = if b then ok v else err (value_error message)

abbrev pub valid_push_strategies : List String
valid_push_strategies = "never" ∷ "on_complete" ∷ "on_phase" ∷ "manual" ∷ []

abbrev pub valid_branch_strategies : List String
valid_branch_strategies = "feature_branch" ∷ "direct_main" ∷ []

abbrev pub push_message : String
push_message = "push_strategy must be one of ['manual', 'never', 'on_complete', 'on_phase']"

abbrev pub push_strategy_enum : Json → Result Json
push_strategy_enum null = ok null
push_strategy_enum v = member_or push_message v (is_in v valid_push_strategies)

abbrev pub branch_message : String
branch_message = "branch_strategy must be one of ['direct_main', 'feature_branch']"

abbrev pub branch_strategy_enum : Json → Result Json
branch_strategy_enum null = ok null
branch_strategy_enum v = member_or branch_message v (is_in v valid_branch_strategies)

abbrev pub models_schema : Fields
models_schema = plain "cio_naming_model" str_type (
    plain "cio_decision_model" str_type (
      plain "cio_executor_model" str_type (
        plain "architect_model" str_type
          (plain "engineer_model" str_type (plain "documenter_model" str_type no_fields)))))

abbrev pub validation_schema : Fields
validation_schema = plain "validate_after_run" bool_type (
    plain "max_fix_rounds" int_type (
      plain "model" str_type (
        plain "step_filter" str_list (
          plain "stdout_preview_limit" int_type
            (field "target_coverage" coverage_range int_type no_fields)))))

abbrev pub claude_md_schema : Fields
claude_md_schema =
    plain "enabled" bool_type (plain "model" str_type (plain "memory_model" str_type no_fields))

abbrev pub git_user_schema : Fields
git_user_schema = plain "name" str_type (plain "email" str_type no_fields)

abbrev pub git_lab_schema : Fields
git_lab_schema =
    plain "token" str_type
      (plain "base_url" str_type (plain "namespace" str_type (plain "branch" str_type no_fields)))

abbrev pub git_schema : Fields
git_schema = plain "enabled" bool_type (
    plain "user" (model git_user_schema) (
      plain "gitlab" (model git_lab_schema) (
        field "push_strategy" push_strategy_enum str_type (
          field "branch_strategy" branch_strategy_enum str_type (
            plain "feature_branch_prefix" str_type (
              plain "init_on_new_project" bool_type (
                plain "commit_on_phase" bool_type (
                  plain "tag_on_validate" bool_type
                    (plain "gitignore_cio_logs" bool_type no_fields)))))))))

abbrev pub nested_sections : Fields
nested_sections = plain "models" (model models_schema) (
    plain "validation" (model validation_schema)
      (plain "claude_md" (model claude_md_schema) (plain "git" (model git_schema) no_fields)))

abbrev pub cio_settings : Fields
cio_settings = plain "work_dir" str_type (
    plain "file_limit" int_type (
      plain "architect_prompt" str_type (
        plain "engineer_prompt" str_type (
          plain "claude_alias" str_type (
            plain "cio_prompts" any_dict (
              plain "execution_context_max_turns" int_type
                (plain "execution_context_content_limit" int_type nested_sections)))))))

abbrev pub config_json_schema : Fields
config_json_schema =
    plain "model" str_type (plain "api_key" str_type (plain "llm_url" str_type cio_settings))
