-- ===== src/ConfigSchema/Values.antt =====
-- What src/engine_factory.py sees of a configuration that `validate_config_json` has accepted: its
-- model and its key can be stripped.
use cio_run_auto_orchestrato.Prelude.{
  String, zero, true, Option, none, some, [], ◌∷◌, ◌≡◌, refl, sym, ap, ◌∙◌, ◌==◌, ◌&&◌, ◌⊎◌, inl,
  inr, arith, is_truthy, if◌then◌else◌, Bool-cases, ==_iff, Dict, lookup, insert, lookup-insert,
  IsDict, insert-IsDict,
}
use cio_run_auto_orchestrato.Effect.{Result, ok, err, value_error}
use cio_run_auto_orchestrato.ConfigSchema.Json.{
  pos, Json, null, boolean, integer, floating, string, array, object, no_elements, Members, member,
  no_members, members, members_onto,
}
use cio_run_auto_orchestrato.EngineFactory.{
  Value, text, falsy, truthy, Loaded, bad_json, not_a_dict, a_dict, Settings, stripped,
  merge_with_env_defaults, required,
}
use cio_run_auto_orchestrato.EngineFactory.Merge.{last_value, merged_with}

pub members_onto-IsDict : (d : Dict Json) (ps : Members) → IsDict d → IsDict (members_onto d ps)
unfolding members_onto
members_onto-IsDict d no_members h = h
members_onto-IsDict d (member k v ps) h =
    members_onto-IsDict (insert k v d) ps (insert-IsDict k v d h)

module _ (repr : Json → String) where
  -- A value as the merge sees it: a text, or another value with its truth.
  abbrev pub value_of : Json → Value
  value_of null = falsy
  value_of (boolean b) = if b then truthy "True" else falsy
  value_of (integer (pos zero)) = falsy
  value_of (floating negative zero true) = falsy
  value_of (string s) = text s
  value_of (array no_elements) = falsy
  value_of (object no_members) = falsy
  value_of v = truthy (repr v)

  abbrev pub values : Dict Json → Dict Value
  values [] = []
  values ((k, v) ∷ d) = (k, value_of v) ∷ values d

  -- What `json.loads` gives to the factory.
  abbrev pub loaded : Result Json → Loaded
  loaded (err x) = bad_json
  loaded (ok (object ps)) = a_dict (values (members ps))
  loaded (ok v) = not_a_dict

  abbrev or_value : Option Json → Option Value → Option Value
  or_value none o = o
  or_value (some v) o = some (value_of v)

  last_value-missing :
      (k : String) (o : Option Value) (d : Dict Json)
      → lookup k d ≡ none
      → last_value k o (values d) ≡ o
  unfolding lookup
  last_value-missing k o [] h = refl
  last_value-missing k o ((j, v) ∷ d) h = elim (Bool-cases (j == k)) [
    | inl q ↦ ground arith
    | inr q ↦
        ap (λ c. last_value k (if c then some (value_of v) else o) (values d)) q
        ∙ last_value-missing k o d (rw q at h)
  ]

  pub last_value-values :
      (k : String) (o : Option Value) (d : Dict Json)
      → IsDict d
      → last_value k o (values d) ≡ or_value (lookup k d) o
  unfolding lookup
  last_value-values k o [] h = refl
  last_value-values k o ((j, v) ∷ d) (new, h) = elim (Bool-cases (j == k)) [
    | inl q ↦
        let same : j ≡ k = (==_iff j k).0 q in
        ap (λ c. last_value k (if c then some (value_of v) else o) (values d)) q
        ∙ last_value-missing k (some (value_of v)) d (ap (λ i. lookup i d) (sym same) ∙ new)
        ∙ rw q refl
    | inr q ↦
        ap (λ c. last_value k (if c then some (value_of v) else o) (values d)) q
        ∙ last_value-values k o d h
        ∙ rw q refl
  ]

abbrev pub Strippable : Option Value → Type 0
Strippable o = (s : String) × (stripped o ≡ ok s)

module _ (settings : Settings) where
  abbrev pub Settled : Result (Dict Value) → Type 0
  Settled r = ((d : Dict Value) × (r ≡ ok d)) ⊎ ((m : String) × (r ≡ err (value_error m)))

  required-Settled :
      (model api_key : String) (merged : Dict Value)
      → Settled (required settings model api_key merged)
  required-Settled model api_key merged = elim (Bool-cases (is_truthy model && is_truthy api_key)) [
    | inl q ↦ rw q (inl (merged, refl))
    | inr q ↦ rw q (inr (_, refl))
  ]

  -- Where the merged model and key can be stripped, the merge returns or raises a ValueError.
  pub merge-Settled :
      (parsed : Dict Value) (work_dir : String)
      → Strippable (lookup "model" (merged_with settings parsed work_dir))
      → Strippable (lookup "api_key" (merged_with settings parsed work_dir))
      → Settled (merge_with_env_defaults settings parsed work_dir)
  unfolding merge_with_env_defaults
  merge-Settled parsed work_dir (model, m) (api_key, a) =
      let merged = merged_with settings parsed work_dir in
      rw (m, lookup-insert "model" "api_key" (text model) merged, a)
        (required-Settled model api_key
          (insert "api_key" (text api_key) (insert "model" (text model) merged)))
