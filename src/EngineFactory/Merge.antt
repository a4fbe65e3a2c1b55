-- ===== src/EngineFactory/Merge.antt =====
-- src/engine_factory.py: what `_merge_with_env_defaults` leaves of a caller's configuration.
use cio_run_auto_orchestrato.Prelude.{
  String, true, false, Option, none, some, [], ◌∷◌, ◌≡◌, refl, sym, ap, subst, ◌∙◌, ◌==◌, ◌&&◌,
  arith, is_truthy, if◌then◌else◌, Bool-cases, inl, inr, Dict, lookup, insert, lookup-insert,
}
use cio_run_auto_orchestrato.Effect.{Result, ok, err, value_error}
use cio_run_auto_orchestrato.EngineFactory.{
  Value, text, Settings, stripped, merge_dicts, baseline, required, with_api_key, with_model,
  merge_with_env_defaults,
}

-- The last value for a key, as a dict has it, or a default.
abbrev pub last_value : String → Option Value → Dict Value → Option Value
last_value k d [] = d
last_value k d ((j, v) ∷ ps) = last_value k (if j == k then some v else d) ps

lookup-merge_dicts :
    (k : String) (a b : Dict Value) → lookup k (merge_dicts a b) ≡ last_value k (lookup k a) b
unfolding merge_dicts
lookup-merge_dicts k a [] = refl
lookup-merge_dicts k a ((j, v) ∷ b) =
    lookup-merge_dicts k (insert j v a) b ∙ ap (λ o. last_value k o b) (lookup-insert j k v a)

-- A configuration that has passed: the two required texts, and the rest as it was merged.
abbrev pub Passes : Dict Value → Result (Dict Value) → Type 0
Passes merged (err x) = Unit {0}
Passes merged (ok d) =
    (model : String) × (api_key : String) × (lookup "model" d ≡ some (text model))
    × (is_truthy model ≡ true)
    × (lookup "api_key" d ≡ some (text api_key))
    × (is_truthy api_key ≡ true)
    × ((k : String)
        → ("model" == k) ≡ false
        → ("api_key" == k) ≡ false
        → lookup k d ≡ lookup k merged)

module _ (settings : Settings) where
  required-Passes :
      (model api_key : String) (merged : Dict Value)
      → Passes merged (
          required settings model api_key
            (insert "api_key" (text api_key) (insert "model" (text model) merged)))
  required-Passes model api_key merged = elim (Bool-cases (is_truthy model && is_truthy api_key)) [
    | inl q ↦ rw q (
      model,
      api_key,
      lookup-insert "api_key" "model" (text api_key) (insert "model" (text model) merged)
          ∙ lookup-insert "model" "model" (text model) merged,
      ground arith,
      lookup-insert "api_key" "api_key" (text api_key) (insert "model" (text model) merged),
      ground arith,
      λ k other other'. rw (lookup-insert, other', lookup-insert, other),
    )
    | inr q ↦ rw q tt
  ]

  abbrev pub merged_with : Dict Value → String → Dict Value
  merged_with parsed work_dir =
      insert "work_dir" (text work_dir) (merge_dicts (baseline settings work_dir) parsed)

  with_api_key-Passes :
      (model : String) (merged : Dict Value) (r : Result String)
      → Passes merged (with_api_key settings model (insert "model" (text model) merged) r)
  with_api_key-Passes model merged (err x) = tt
  with_api_key-Passes model merged (ok api_key) = required-Passes model api_key merged

  with_model-Passes :
      (merged : Dict Value) (r : Result String) → Passes merged (with_model settings merged r)
  with_model-Passes merged (err x) = tt
  with_model-Passes merged (ok model) = with_api_key-Passes model merged _

  pub lookup-merged :
      (parsed : Dict Value) (work_dir k : String)
      → lookup k (merged_with parsed work_dir) ≡ (
          if "work_dir" == k
          then some (text work_dir)
          else last_value k (lookup k (baseline settings work_dir)) parsed)
  lookup-merged parsed work_dir k =
      lookup-insert "work_dir" k (text work_dir) (merge_dicts (baseline settings work_dir) parsed)
      ∙ rw (lookup-merge_dicts k (baseline settings work_dir) parsed)

  -- A configuration that `_merge_with_env_defaults` lets through has a model and a key that are not
  -- empty, the working directory that it was given, and for every other name the caller's last
  -- value, or else the default.
  pub merge_with_env_defaults-Passes :
      (parsed : Dict Value) (work_dir : String) {d : Dict Value}
      → merge_with_env_defaults settings parsed work_dir ≡ ok d
      → ((model : String) × (lookup "model" d ≡ some (text model)) × (is_truthy model ≡ true))
        × ((api_key : String) × (lookup "api_key" d ≡ some (text api_key))
            × (is_truthy api_key ≡ true))
        × (lookup "work_dir" d ≡ some (text work_dir))
        × ((k : String)
            → ("model" == k) ≡ false
            → ("api_key" == k) ≡ false
            → ("work_dir" == k) ≡ false
            → lookup k d ≡ last_value k (lookup k (baseline settings work_dir)) parsed)
  unfolding merge_with_env_defaults
  merge_with_env_defaults-Passes parsed work_dir {d} q =
      let merged = merged_with parsed work_dir in
      let (model, api_key, m, m_set, a, a_set, rest) =
        subst (Passes merged) q (with_model-Passes merged (stripped (lookup "model" merged))) in
      (
        (model, m, m_set),
        (api_key, a, a_set),
        rest "work_dir" refl refl ∙ lookup-merged parsed work_dir "work_dir",
        λ k not_model not_key other.
            rest k not_model not_key ∙ lookup-merged parsed work_dir k ∙ rw other,
      )

last_value-set :
    (k : String) (d : Option Value) (ps : Dict Value) {v : Value}
    → last_value k none ps ≡ some v
    → last_value k d ps ≡ some v
last_value-set k d [] h = ground arith
last_value-set k d ((j, w) ∷ ps) {v} h = elim (Bool-cases (j == k)) [
  | inl q ↦
      subst (λ b. last_value k (if b then some w else d) ps ≡ some v) (sym q)
        (subst (λ b. last_value k (if b then some w else none) ps ≡ some v) q h)
  | inr q ↦
      subst (λ b. last_value k (if b then some w else d) ps ≡ some v) (sym q)
        (last_value-set k d ps
          (subst (λ b. last_value k (if b then some w else none) ps ≡ some v) q h))
]

-- A caller's model that is null or blank is not filled from the environment: it stands over the
-- default, and, where the key can be stripped, the merge raises a ValueError whatever model the
-- settings have.
pub blank_model_refused :
    (settings : Settings) (parsed : Dict Value) (work_dir : String) {v : Value} {key : String}
    → last_value "model" none parsed ≡ some v
    → stripped (some v) ≡ ok ""
    → stripped (lookup "api_key" (merged_with settings parsed work_dir)) ≡ ok key
    → (m : String) × (merge_with_env_defaults settings parsed work_dir ≡ err (value_error m))
unfolding merge_with_env_defaults
blank_model_refused settings parsed work_dir {v} {key} given blank k =
    let merged = merged_with settings parsed work_dir in
    let model : stripped (lookup "model" merged) ≡ ok "" =
      ap stripped
        (lookup-merged settings parsed work_dir "model" ∙ last_value-set "model" _ parsed given)
      ∙ blank in
    rw (model, lookup-insert "model" "api_key" (text "") merged, k) (_, refl)
