-- ===== src/ConfigSchema/Conforms.antt =====
-- Which values fit the classes of src/models/config_schema.py, as a relation, and that
-- `validate_config_json` accepts these and no others.
use cio_run_auto_orchestrato.Prelude.{
  String, ℕ, suc, Option, none, some, List, [], ◌∷◌, ◌++◌, ◌≡◌, refl, ap, ◌↔◌, inl, inr, arith,
  decimal, Option-cases, Dict, lookup,
}
use cio_run_auto_orchestrato.Effect.{Result, ok, err, value_error}
use cio_run_auto_orchestrato.ConfigSchema.Json.{
  Json, null, array, object, elements, members, Members, Elements,
}
use cio_run_auto_orchestrato.ConfigSchema.Classes.{
  Annotation, str_type, int_type, bool_type, str_list, any_dict, model, Fields, no_fields, field,
  config_json_schema,
}
use cio_run_auto_orchestrato.ConfigSchema.Check.{
  Pydantic, Checked, errors, raised, both, refused, check_texts, validated, check, check_fields,
  report, model_validate, validate_config_json,
}

mutual
  pub data Fits (p : Pydantic) : Annotation → Json → Type 0 where
    absent : {a : Annotation} → Fits p a null
    a_text : {v : Json} → p.str_error v ≡ none → Fits p str_type v
    a_number : {v : Json} → p.int_error v ≡ none → Fits p int_type v
    a_truth : {v : Json} → p.bool_error v ≡ none → Fits p bool_type v
    texts : {vs : Elements} → Texts p (elements vs) → Fits p str_list (array vs)
    a_dict : {ps : Members} → Fits p any_dict (object ps)
    an_object : {fs : Fields} {ps : Members} → Has p fs (members ps) → Fits p (model fs) (object ps)

  pub data Texts (p : Pydantic) : List Json → Type 0 where
    done : Texts p []
    more : {v : Json} {vs : List Json} → p.str_error v ≡ none → Texts p vs → Texts p (v ∷ vs)

  -- Each field is missing, or has a value that its validator passes on and that fits.
  pub data Has (p : Pydantic) : Fields → Dict Json → Type 0 where
    enough : {d : Dict Json} → Has p no_fields d
    omitted :
        {name : String} {before : Json → Result Json} {a : Annotation} {fs : Fields} {d : Dict Json}
        → lookup name d ≡ none
        → Has p fs d
        → Has p (field name before a fs) d
    present :
        {name : String} {before : Json → Result Json} {a : Annotation} {fs : Fields} {d : Dict Json}
        {v w : Json}
        → lookup name d ≡ some v
        → before v ≡ ok w
        → Fits p a w
        → Has p fs d
        → Has p (field name before a fs) d

both_clean : (c d : Checked) → both c d ≡ errors [] → (c ≡ errors []) × (d ≡ errors [])
both_clean (errors []) (errors es) h = (refl, h)
both_clean (errors []) (raised x) h = ground arith
both_clean (errors (e ∷ es)) (errors fs) h = ground arith
both_clean (errors (e ∷ es)) (raised x) h = ground arith
both_clean (raised x) d h = ground arith

refused_clean : (loc : List String) (o : Option String) → refused loc o ≡ errors [] → o ≡ none
refused_clean loc none h = refl
refused_clean loc (some m) h = ground arith

report_clean : (c : Checked) → report c ≡ ok tt → c ≡ errors []
report_clean (errors []) h = refl
report_clean (errors (e ∷ es)) h = ground arith
report_clean (raised x) h = ground arith

module _ (p : Pydantic) where
  check_texts-Texts :
      (loc : List String) (i : ℕ) (vs : List Json) → check_texts p loc i vs ≡ errors [] → Texts p vs
  unfolding check_texts
  check_texts-Texts loc i [] h = done
  check_texts-Texts loc i (v ∷ vs) h =
      let (here, later) = both_clean _ _ h in
      more (refused_clean (loc ++ decimal i ∷ []) (p.str_error v) here)
        (check_texts-Texts loc (suc i) vs later)

  validated_sound :
      (loc : List String) (f : Json → Checked) (r : Result Json)
      → validated p loc f r ≡ errors []
      → (w : Json) × (r ≡ ok w) × (f w ≡ errors [])
  validated_sound loc f (ok w) h = (w, refl, h)
  validated_sound loc f (err (value_error m)) h = ground arith
  validated_sound loc f (err x) h = ground arith

  mutual
    unfolding check check_fields

    check_sound :
        (a : Annotation) (loc : List String) (v : Json) → check p a loc v ≡ errors [] → Fits p a v
    check_sound a loc null h = absent
    check_sound str_type loc v h = a_text (refused_clean loc _ h)
    check_sound int_type loc v h = a_number (refused_clean loc _ h)
    check_sound bool_type loc v h = a_truth (refused_clean loc _ h)
    check_sound str_list loc (array vs) h = texts (check_texts-Texts loc 0 (elements vs) h)
    check_sound any_dict loc (object ps) h = a_dict
    check_sound (model fs) loc (object ps) h = an_object (fields_sound fs loc (members ps) h)
    check_sound a loc v h = ground arith

    fields_sound :
        (fs : Fields) (loc : List String) (d : Dict Json)
        → check_fields p fs loc d ≡ errors []
        → Has p fs d
    fields_sound no_fields loc d h = enough
    fields_sound (field name before a fs) loc d h =
        let (here, later) = both_clean _ _ h in
        elim (Option-cases (lookup name d)) [
          | inl q ↦ omitted q (fields_sound fs loc d later)
          | inr (v, q) ↦
              let (w, passed, clean) =
                validated_sound (loc ++ name ∷ []) _ (before v) (rw q at here) in
              present q passed (check_sound a (loc ++ name ∷ []) w clean)
                (fields_sound fs loc d later)
        ]

  Texts-check_texts :
      {vs : List Json} (loc : List String) (i : ℕ) → Texts p vs → check_texts p loc i vs ≡ errors []
  unfolding check_texts
  Texts-check_texts loc i done = refl
  Texts-check_texts loc i (more q t) = rw (q, Texts-check_texts loc (suc i) t)

  check-str :
      (loc : List String) (v : Json) → p.str_error v ≡ none → check p str_type loc v ≡ errors []
  unfolding check
  check-str loc null q = refl
  check-str loc v q = ap (refused loc) q

  check-int :
      (loc : List String) (v : Json) → p.int_error v ≡ none → check p int_type loc v ≡ errors []
  unfolding check
  check-int loc null q = refl
  check-int loc v q = ap (refused loc) q

  check-bool :
      (loc : List String) (v : Json) → p.bool_error v ≡ none → check p bool_type loc v ≡ errors []
  unfolding check
  check-bool loc null q = refl
  check-bool loc v q = ap (refused loc) q

  mutual
    unfolding check check_fields

    check_complete :
        {a : Annotation} {v : Json} (loc : List String) → Fits p a v → check p a loc v ≡ errors []
    check_complete loc absent = refl
    check_complete loc (a_text q) = check-str loc _ q
    check_complete loc (a_number q) = check-int loc _ q
    check_complete loc (a_truth q) = check-bool loc _ q
    check_complete loc (texts t) = Texts-check_texts loc 0 t
    check_complete loc a_dict = refl
    check_complete loc (an_object h) = fields_complete loc h

    fields_complete :
        {fs : Fields} {d : Dict Json} (loc : List String)
        → Has p fs d
        → check_fields p fs loc d ≡ errors []
    fields_complete loc enough = refl
    fields_complete loc (omitted q h) = rw (q, fields_complete loc h)
    fields_complete loc (present q passed t h) =
        rw (q, passed, check_complete (loc ++ _ ∷ []) t, fields_complete loc h)

  model_validate_sound :
      (r : Result Json)
      → model_validate p r ≡ ok tt
      → (ps : Members) × (r ≡ ok (object ps)) × Has p config_json_schema (members ps)
  model_validate_sound (ok (object ps)) h =
      (ps, refl, fields_sound config_json_schema [] (members ps) (report_clean _ h))
  model_validate_sound (err (value_error m)) h = ground arith
  model_validate_sound (err x) h = ground arith
  model_validate_sound (ok v) h = ground arith

  -- `validate_config_json` accepts a text exactly if `json.loads` reads an object from it in which
  -- every declared field, at every depth, is missing, null, or of its annotated type, and has
  -- passed its validator. What it accepts of a single text, number or truth value is what pydantic
  -- accepts.
  pub validate_config_json_iff :
      (loads : String → Result Json) (config_json : String)
      → (validate_config_json p loads config_json ≡ ok tt) ↔ (
          (ps : Members) × (loads config_json ≡ ok (object ps))
          × Has p config_json_schema (members ps))
  unfolding validate_config_json
  validate_config_json_iff loads config_json = (
    λ h. model_validate_sound (loads config_json) h,
    λ (ps, q, h). rw (q, fields_complete [] h) refl,
  )
