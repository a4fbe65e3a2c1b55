-- ===== src/ConfigSchema/Check.antt =====
-- `ConfigJsonSchema.model_validate` and `validate_config_json`. A class is read as its fields say:
-- each one that is given is checked, in order, every error is collected, and other names pass. What
-- pydantic does with a single text, number or truth value, its messages, and `json.loads` are
-- parameters.
use cio_run_auto_orchestrato.Prelude.{
  String, ℕ, suc, Option, none, some, List, [], ◌∷◌, ◌++◌, map, concat, decimal, Dict, lookup,
}
use cio_run_auto_orchestrato.Effect.{Result, ok, err, value_error, Exn}
use cio_run_auto_orchestrato.ConfigSchema.Json.{Json, null, array, object, elements, members}
use cio_run_auto_orchestrato.ConfigSchema.Classes.{
  Annotation, str_type, int_type, bool_type, str_list, any_dict, model, Fields, no_fields, field,
  config_json_schema,
}

-- The message of a value that is refused, and none where it is taken; the text that is made of a
-- value which a field of texts takes.
pub record Pydantic : Type 0 where
  pub str_error : Json → Option String
  pub str_value : Json → String
  pub int_error : Json → Option String
  pub bool_error : Json → Option String
  pub list_message : String
  pub dict_message : String
  pub model_message : String
  pub value_error_message : String → String

pub record FieldError : Type 0 where
  pub loc : List String
  pub msg : String

-- The errors of a value, or an exception that is not one of a validator's own.
pub data Checked : Type 0 where
  errors : List FieldError → Checked
  raised : Exn → Checked

abbrev pub both : Checked → Checked → Checked
both (raised x) c = raised x
both (errors es) (raised x) = raised x
both (errors es) (errors fs) = errors (es ++ fs)

abbrev pub refused : List String → Option String → Checked
refused loc none = errors []
refused loc (some msg) = errors (record { loc = loc; msg = msg } ∷ [])

unfoldable pub join : String → List String → String
join sep [] = ""
join sep (s ∷ []) = s
join sep (s ∷ t ∷ ts) = concat s (concat sep (join sep (t ∷ ts)))

abbrev pub location : List String → String
location [] = "(root)"
location (s ∷ ss) = join " → " (s ∷ ss)

abbrev pub error_line : FieldError → String
error_line e = concat "  • " (concat (location e.loc) (concat ": " e.msg))

abbrev pub report : Checked → Result (Unit {0})
report (raised x) = err x
report (errors []) = ok tt
report (errors (e ∷ es)) = err (
    value_error
      (concat "config_json failed schema validation:\n" (join "\n" (map error_line (e ∷ es)))))

module _ (p : Pydantic) where
  unfoldable pub check_texts : List String → ℕ → List Json → Checked
  check_texts loc i [] = errors []
  check_texts loc i (v ∷ vs) =
      both (refused (loc ++ decimal i ∷ []) (p.str_error v)) (check_texts loc (suc i) vs)

  -- What follows the validator of a field.
  abbrev pub validated : List String → (Json → Checked) → Result Json → Checked
  validated loc check (ok v) = check v
  validated loc check (err (value_error m)) = refused loc (some (p.value_error_message m))
  validated loc check (err x) = raised x

  abbrev pub given : List String → (Json → Result Json) → (Json → Checked) → Option Json → Checked
  given loc before check none = errors []
  given loc before check (some v) = validated loc check (before v)

  unfoldable mutual
    pub check : Annotation → List String → Json → Checked
    check a loc null = errors []
    check str_type loc v = refused loc (p.str_error v)
    check int_type loc v = refused loc (p.int_error v)
    check bool_type loc v = refused loc (p.bool_error v)
    check str_list loc (array vs) = check_texts loc 0 (elements vs)
    check str_list loc v = refused loc (some p.list_message)
    check any_dict loc (object ps) = errors []
    check any_dict loc v = refused loc (some p.dict_message)
    check (model fs) loc (object ps) = check_fields fs loc (members ps)
    check (model fs) loc v = refused loc (some p.model_message)

    pub check_fields : Fields → List String → Dict Json → Checked
    check_fields no_fields loc d = errors []
    check_fields (field name before a fs) loc d =
        both (given (loc ++ name ∷ []) before (check a (loc ++ name ∷ [])) (lookup name d))
          (check_fields fs loc d)

  abbrev pub model_validate : Result Json → Result (Unit {0})
  model_validate (err (value_error m)) =
      err (value_error (concat "config_json is not valid JSON: " m))
  model_validate (err x) = err x
  model_validate (ok (object ps)) = report (check_fields config_json_schema [] (members ps))
  model_validate (ok v) =
      err (value_error "config_json must be a JSON object (dict), not a list or scalar")

  unfoldable pub validate_config_json : (String → Result Json) → String → Result (Unit {0})
  validate_config_json loads config_json = model_validate (loads config_json)
