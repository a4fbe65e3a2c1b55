-- ===== src/Api/Admitted.antt =====
-- src/models/api_schemas.py and src/engine_factory.py: what a request that was let through
-- guarantees, up to the construction of its engine.
use Prim.Native.String.{count}
use cio_run_auto_orchestrato.Prelude.{
  String, ◌≤◌, true, Option, none, some, [], ◌∷◌, ◌≡◌, refl, sym, ap, subst, ◌∙◌, ◌==◌, ◌&&◌, inl,
  inr, arith, elem, leb, is_truthy, Bool-cases, ==_iff, Dict, lookup,
}
use cio_run_auto_orchestrato.Effect.{Result, ok, err, value_error, and_then_ok}
use cio_run_auto_orchestrato.EngineFactory.Strip.{strip}
use cio_run_auto_orchestrato.ConfigSchema.Json.{Json}
use cio_run_auto_orchestrato.ConfigSchema.Check.{Pydantic, validate_config_json}
use cio_run_auto_orchestrato.Api.{TaskCreateRequest, or_empty}
use cio_run_auto_orchestrato.Api.Request.{
  request_fields, only_known, str_field, bounded, body_of, project_name_field, fields_of, accepted,
  validate_request, read_body,
}

only_known_lem :
    (d : Dict Json) (k : String) {v : Json}
    → only_known d ≡ true
    → lookup k d ≡ some v
    → elem k request_fields ≡ true
unfolding only_known lookup
only_known_lem [] k h found = ground arith
only_known_lem ((j, w) ∷ d) k h found = elim (Bool-cases (j == k)) [
  | inl q ↦
      let same : j ≡ k = (==_iff j k).0 q in
      let listed : elem j request_fields ≡ true = ground arith in
      ap (λ i. elem i request_fields) (sym same) ∙ listed
  | inr q ↦ only_known_lem d k (ground arith) (rw q at found)
]

-- The configuration of a request, as it is validated and as the factory reads it.
abbrev pub config_text : TaskCreateRequest → String
config_text body = strip (or_empty body.config_json)

module _ (p : Pydantic) where
  abbrev IsBounded : String → Type 0
  IsBounded s = (1 ≤ count s) × (count s ≤ 128)

  project_name_field-IsBounded :
      (o : Option Json) {s : String} → project_name_field p o ≡ ok s → IsBounded s
  project_name_field-IsBounded none h = ground arith
  project_name_field-IsBounded (some v) {s} h =
      let (t, q, r) = and_then_ok (str_field p v) (bounded p) h in
      elim (Bool-cases (leb 1 (count t) && leb (count t) 128)) [
        | inl fits ↦
            let same : t ≡ s = ground arith in subst IsBounded same (ground arith, ground arith)
        | inr q ↦ ground arith
      ]

  body_of_lem :
      (name : String) (r : Result String) (w c : Result (Option String)) {body : TaskCreateRequest}
      → body_of name r w c ≡ ok body
      → name ≡ body.project_name
  body_of_lem name (err x) w c h = ground arith
  body_of_lem name (ok r) (err x) c h = ground arith
  body_of_lem name (ok r) (ok w) (err x) h = ground arith
  body_of_lem name (ok r) (ok w) (ok c) h = ground arith

  fields_of-IsBounded :
      (d : Dict Json) {body : TaskCreateRequest}
      → fields_of p d ≡ ok body
      → IsBounded body.project_name
  fields_of-IsBounded d h =
      let (name, q, r) = and_then_ok (project_name_field p (lookup "project_name" d)) _ h in
      subst IsBounded (body_of_lem name _ _ _ r) (project_name_field-IsBounded _ q)

  module _ (loads : String → Result Json) where
    accepted_ok :
        (body : TaskCreateRequest) (r : Result (Unit {0})) {b : TaskCreateRequest}
        → accepted p loads body r ≡ ok b
        → (r ≡ ok tt) × (body ≡ b)
    accepted_ok body (ok u) h = (refl, ground arith)
    accepted_ok body (err (value_error m)) h = ground arith
    accepted_ok body (err x) h = ground arith

    -- A configuration that was accepted, if the text of one is there.
    abbrev pub IsChecked : TaskCreateRequest → Type 0
    IsChecked body =
        is_truthy (config_text body) ≡ true
        → validate_config_json p loads (config_text body) ≡ ok tt

    validate_request_ok :
        (body : TaskCreateRequest) {b : TaskCreateRequest}
        → validate_request p loads body ≡ ok b
        → IsChecked body × (body ≡ b)
    unfolding validate_request
    validate_request_ok body {b} h = elim (Bool-cases (is_truthy (config_text body))) [
      | inl q ↦ let (r, same) = accepted_ok body _ (rw q at h) in (λ _. r, same)
      | inr q ↦ let same : body ≡ b = ground arith in (λ yes. ground arith, same)
    ]

    -- A body that is read as a request has no name but the four fields', a project name of 1 to 128
    -- characters, and a configuration that is blank or missing or that `validate_config_json`
    -- accepts.
    pub read_body-Admitted :
        (d : Dict Json) {body : TaskCreateRequest}
        → read_body p loads d ≡ ok body
        → ((k : String) (v : Json) → lookup k d ≡ some v → elem k request_fields ≡ true)
          × ((1 ≤ count body.project_name) × (count body.project_name ≤ 128))
          × IsChecked body
    unfolding read_body
    read_body-Admitted d {body} h = elim (Bool-cases (only_known d)) [
      | inr q ↦ ground arith
      | inl known ↦
          let (b, fields, valid) =
            and_then_ok (fields_of p d) (validate_request p loads) (rw known at h) in
          let (checked, same) = validate_request_ok b valid in
          (
            λ k v found. only_known_lem d k known found,
            subst (λ x. IsBounded x.project_name) same (fields_of-IsBounded d fields),
            subst IsChecked same checked,
          )
    ]
