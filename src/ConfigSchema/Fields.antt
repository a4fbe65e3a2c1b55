-- ===== src/ConfigSchema/Fields.antt =====
-- What an accepted configuration says of one declared field, and of names that are not declared.
use cio_run_auto_orchestrato.Prelude.{
  String, ℕ, ◌≤◌, true, false, some, List, [], ◌∷◌, ◌≡◌, refl, sym, ap, subst, ◌∙◌, ◌==◌, ◌≢◌,
  arith, elem, Dict, lookup, insert, lookup-insert,
}
use cio_run_auto_orchestrato.Effect.{Result, ok, err}
use cio_run_auto_orchestrato.ConfigSchema.Json.{
  ℤ, pos, negsuc, Json, null, string, object, Members, member, no_members, members, members_onto,
  int,
}
use cio_run_auto_orchestrato.ConfigSchema.Classes.{
  Annotation, model, Fields, no_fields, field, config_json_schema, coverage_range, push_message,
  branch_message, nested_sections, coverage_of, push_strategy_enum, branch_strategy_enum,
  valid_branch_strategies, valid_push_strategies, in_range, member_or, is_in,
}
use cio_run_auto_orchestrato.ConfigSchema.Check.{
  Pydantic, check_fields, validate_config_json, report,
}
use cio_run_auto_orchestrato.ConfigSchema.Conforms.{
  Fits, an_object, Has, enough, omitted, present, validate_config_json_iff,
}

abbrev pub Validator : Type 0
Validator = Json → Result Json

pub data Declares (name : String) (before : Validator) (a : Annotation) : Fields → Type 0 where
  here : {fs : Fields} → Declares name before a (field name before a fs)
  there :
      {other : String} {f : Validator} {b : Annotation} {fs : Fields}
      → Declares name before a fs
      → Declares name before a (field other f b fs)

module _ {p : Pydantic} {name : String} {before : Validator} {a : Annotation} where
  pub field_fits :
      {fs : Fields} {d : Dict Json} {v : Json}
      → Has p fs d
      → Declares name before a fs
      → lookup name d ≡ some v
      → (w : Json) × (before v ≡ ok w) × Fits p a w
  field_fits enough i found = elim i [ ]
  field_fits (omitted q h) here found = ground arith
  field_fits (present {v = u} {w} q passed t h) here found =
      let same : u ≡ _ = ground arith in (w, ap before (sym same) ∙ passed, t)
  field_fits (omitted q h) (there i) found = field_fits h i found
  field_fits (present q passed t h) (there i) found = field_fits h i found

module _ {p : Pydantic} where
  object-Has : {gs : Fields} {ps : Members} → Fits p (model gs) (object ps) → Has p gs (members ps)
  object-Has (an_object h) = h

  section_fits :
      {name : String} {fs gs : Fields} {d : Dict Json} {ps : Members}
      → Has p fs d
      → Declares name ok (model gs) fs
      → lookup name d ≡ some (object ps)
      → Has p gs (members ps)
  section_fits {gs} {ps} h i found =
      let (w, passed, t) = field_fits h i found in
      let same : w ≡ object ps = ground arith in object-Has (subst (Fits p (model gs)) same t)

in_range-≤ : (n : ℕ) → in_range (pos n) ≡ true → n ≤ 100
in_range-≤ n h = ground arith

coverage_of_InRange :
    (v w : Json) (r : Result ℤ) → coverage_of v r ≡ ok w → (n : ℕ) × (r ≡ ok (pos n)) × (n ≤ 100)
coverage_of_InRange v w (ok (pos n)) h = (n, refl, ground arith)
coverage_of_InRange v w (ok (negsuc n)) h = ground arith
coverage_of_InRange v w (err x) h = ground arith

coverage_range_InRange :
    (v w : Json) → v ≢ null → coverage_range v ≡ ok w → (n : ℕ) × (int v ≡ ok (pos n)) × (n ≤ 100)
coverage_range_InRange null w set h = elim (set refl) [ ]
coverage_range_InRange v w set h = coverage_of_InRange v w (int v) h

-- The value of a strategy that is one of a set of texts.
abbrev pub IsOneOf : List String → Json → Type 0
IsOneOf names v = (s : String) × (v ≡ string s) × (elem s names ≡ true)

member_or-IsOneOf :
    (message : String) (names : List String) (v w : Json)
    → member_or message v (is_in v names) ≡ ok w
    → IsOneOf names v
member_or-IsOneOf message names (string s) w h = (s, refl, ground arith)
member_or-IsOneOf message names v w h = ground arith

push_strategy_enum-IsOneOf :
    (v w : Json) → v ≢ null → push_strategy_enum v ≡ ok w → IsOneOf valid_push_strategies v
push_strategy_enum-IsOneOf null w set h = elim (set refl) [ ]
push_strategy_enum-IsOneOf v w set h = member_or-IsOneOf push_message valid_push_strategies v w h

branch_strategy_enum-IsOneOf :
    (v w : Json) → v ≢ null → branch_strategy_enum v ≡ ok w → IsOneOf valid_branch_strategies v
branch_strategy_enum-IsOneOf null w set h = elim (set refl) [ ]
branch_strategy_enum-IsOneOf v w set h =
    member_or-IsOneOf branch_message valid_branch_strategies v w h

nested :
    {name : String} {before : Validator} {a : Annotation}
    → Declares name before a nested_sections
    → Declares name before a config_json_schema
nested i = there (there (there (there (there (there (there (there (there (there (there i))))))))))

module _ (p : Pydantic) (loads : String → Result Json) (config_json : String) {ps : Members}
    (read : loads config_json ≡ ok (object ps)) where
  accepted-Has :
      validate_config_json p loads config_json ≡ ok tt → Has p config_json_schema (members ps)
  accepted-Has h =
      let (qs, q, fits) = (validate_config_json_iff p loads config_json).0 h in
      let same : qs ≡ ps = ground arith in
      subst (λ z. Has p config_json_schema (members z)) same fits

  -- An accepted configuration with a section "validation" that sets target_coverage has a value
  -- there that `int` reads as a number from 0 to 100.
  pub target_coverage-InRange :
      {vs : Members} {v : Json}
      → validate_config_json p loads config_json ≡ ok tt
      → lookup "validation" (members ps) ≡ some (object vs)
      → lookup "target_coverage" (members vs) ≡ some v
      → v ≢ null
      → (n : ℕ) × (int v ≡ ok (pos n)) × (n ≤ 100)
  target_coverage-InRange {v} h found found' set =
      let (w, passed, t) =
        field_fits (section_fits (accepted-Has h) (nested (there here)) found)
          (there (there (there (there (there here))))) found' in
      coverage_range_InRange v w set passed

  -- In an accepted configuration with a section "git", a push_strategy that is set is one of the
  -- four names of push strategies, and a branch_strategy that is set one of the two names of branch
  -- strategies.
  strategies-IsOneOf :
      {gs : Members}
      → validate_config_json p loads config_json ≡ ok tt
      → lookup "git" (members ps) ≡ some (object gs)
      → ((v : Json)
          → lookup "push_strategy" (members gs) ≡ some v
          → v ≢ null
          → IsOneOf valid_push_strategies v)
        × ((v : Json)
            → lookup "branch_strategy" (members gs) ≡ some v
            → v ≢ null
            → IsOneOf valid_branch_strategies v)
  strategies-IsOneOf h found =
      let git = section_fits (accepted-Has h) (nested (there (there (there here)))) found in
      (
        λ v set other.
            let (w, passed, t) = field_fits git (there (there (there here))) set in
            push_strategy_enum-IsOneOf v w other passed,
        λ v set other.
            let (w, passed, t) = field_fits git (there (there (there (there here)))) set in
            branch_strategy_enum-IsOneOf v w other passed,
      )

lookup-members_onto :
    (k j : String) (v : Json) (ps : Members) (d e : Dict Json)
    → lookup j d ≡ lookup j e
    → lookup j (members_onto d ps) ≡ lookup j (members_onto e ps)
unfolding members_onto
lookup-members_onto k j v no_members d e h = h
lookup-members_onto k j v (member i w ps) d e h =
    lookup-members_onto k j v ps (insert i w d) (insert i w e)
      (ground (arith, lookup-insert i j w d, lookup-insert i j w e))

abbrev pub Undeclared : String → Fields → Type 0
Undeclared k no_fields = Unit {0}
Undeclared k (field name before a fs) = ((k == name) ≡ false) × Undeclared k fs

module _ (p : Pydantic) (k : String) (v : Json) (ps : Members) where
  check_fields-member :
      (fs : Fields) (loc : List String)
      → Undeclared k fs
      → check_fields p fs loc (members (member k v ps)) ≡ check_fields p fs loc (members ps)
  unfolding check_fields members_onto lookup insert
  check_fields-member no_fields loc h = refl
  check_fields-member (field name before a fs) loc (other, h) = rw (
    lookup-members_onto k name v ps ((k, v) ∷ []) [] (rw other refl),
    check_fields-member fs loc h,
  )

  -- A member whose name the schema does not declare is let through, whatever its value: a
  -- configuration with it is accepted, refused with the same message, or raises the same exception
  -- as the configuration without it.
  validate_config_json-Undeclared :
      (loads : String → Result Json) (config_json extended : String)
      → Undeclared k config_json_schema
      → loads config_json ≡ ok (object ps)
      → loads extended ≡ ok (object (member k v ps))
      → validate_config_json p loads extended ≡ validate_config_json p loads config_json
  unfolding validate_config_json
  validate_config_json-Undeclared loads config_json extended h read read' =
      rw (read, read') (ap report (check_fields-member config_json_schema [] h))
