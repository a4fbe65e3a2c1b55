-- ===== src/Api/Configured.antt =====
-- src/models/api_schemas.py and src/engine_factory.py together: the configuration of a request that
-- was let through, up to the construction of its engine.
use cio_run_auto_orchestrato.Api.Admitted.{config_text, read_body-Admitted}
use cio_run_auto_orchestrato.Prelude.{
  String, true, Option, none, some, [], ◌≡◌, refl, sym, subst, ◌⊎◌, inl, inr, arith, is_truthy,
  Option-cases, Dict, lookup,
}
use cio_run_auto_orchestrato.Effect.{Result, ok, err, value_error}
use cio_run_auto_orchestrato.EngineFactory.{
  Value, text, Settings, build_engine_and_scheduler, merge_with_env_defaults,
}
use cio_run_auto_orchestrato.EngineFactory.Merge.{
  lookup-merged, merge_with_env_defaults-Passes, last_value,
}
use cio_run_auto_orchestrato.EngineFactory.Strip.{strip}
use cio_run_auto_orchestrato.ConfigSchema.Json.{Json, string, Members, members}
use cio_run_auto_orchestrato.ConfigSchema.Classes.{str_type, config_json_schema}
use cio_run_auto_orchestrato.ConfigSchema.Check.{Pydantic}
use cio_run_auto_orchestrato.ConfigSchema.Conforms.{
  Fits, absent, a_text, Has, validate_config_json_iff,
}
use cio_run_auto_orchestrato.ConfigSchema.Fields.{Declares, here, there, field_fits}
use cio_run_auto_orchestrato.ConfigSchema.Values.{
  value_of, values, loaded, Strippable, last_value-values, members_onto-IsDict, merge-Settled,
  Settled,
}
use cio_run_auto_orchestrato.Api.{TaskCreateRequest}
use cio_run_auto_orchestrato.Api.Request.{read_body}

module _ (p : Pydantic) (loads : String → Result Json) where
  module _ (only_texts : (v : Json) → p.str_error v ≡ none → (s : String) × (v ≡ string s))
      (repr : Json → String) where
    backwards : {v w : Json} → ok v ≡ ok w → w ≡ v
    backwards q = ground arith

    textual : {v : Json} → Fits p str_type v → Strippable (some (value_of repr v))
    textual absent = ("", refl)
    textual (a_text {v} q) = let (s, same) = only_texts v q in rw same (strip s, refl)

    field_Strippable :
        (ps : Members) {name : String} (o : Option Value)
        → Has p config_json_schema (members ps)
        → Declares name ok str_type config_json_schema
        → Strippable o
        → Strippable (last_value name o (values repr (members ps)))
    field_Strippable ps {name} o h i s =
        rw (last_value-values repr name o (members ps) (members_onto-IsDict [] ps tt))
          (elim (Option-cases (lookup name (members ps))) [
            | inl q ↦ rw q s
            | inr (v, q) ↦
                let (w, same, t) = field_fits h i q in
                rw q (textual (subst (Fits p str_type) (backwards same) t))
          ])

    module _ (settings : Settings) where
      accepted-Settled :
          (ps : Members) (work_dir : String)
          → Has p config_json_schema (members ps)
          → Settled settings (merge_with_env_defaults settings (values repr (members ps)) work_dir)
      unfolding lookup
      accepted-Settled ps work_dir h =
          let parsed = values repr (members ps) in
          merge-Settled settings parsed work_dir
            (subst Strippable (sym (lookup-merged settings parsed work_dir "model")) (
              field_Strippable ps (some (text settings.cio_model)) h here
                (strip settings.cio_model, refl)))
            (subst Strippable (sym (lookup-merged settings parsed work_dir "api_key")) (
              field_Strippable ps (some (text settings.cio_api_key)) h (there here)
                (strip settings.cio_api_key, refl)))

      -- What the factory is to be given: the model and the key, and the working directory.
      abbrev IsUsable : String → Dict Value → Type 0
      IsUsable work_dir config =
          ((model : String) × (lookup "model" config ≡ some (text model))
            × (is_truthy model ≡ true))
          × ((api_key : String) × (lookup "api_key" config ≡ some (text api_key))
              × (is_truthy api_key ≡ true))
          × (lookup "work_dir" config ≡ some (text work_dir))

      module _ (from_yaml : String → Result (Dict Value)) {A : Type 0}
          (construct : Dict Value → Result A) where
        abbrev pub engine_of : String → String → Result A
        engine_of work_dir config =
            build_engine_and_scheduler settings (λ s. loaded repr (loads s)) from_yaml construct
              work_dir (some config)

        abbrev pub BuildsOrRefuses : String → Result A → Type 0
        BuildsOrRefuses work_dir r =
            ((config : Dict Value) × IsUsable work_dir config × (r ≡ construct config))
            ⊎ ((m : String) × (r ≡ err (value_error m)))

        -- Where a field of texts takes only texts: for a request that was let through with a
        -- configuration, the factory either constructs the engine from a configuration with a model
        -- and a key that are not empty and the given working directory, or raises a ValueError. In
        -- particular the configuration is read again, and no value in it lacks `strip`.
        pub admitted_config_builds :
            (d : Dict Json) {body : TaskCreateRequest} (work_dir : String)
            → read_body p loads d ≡ ok body
            → is_truthy (config_text body) ≡ true
            → BuildsOrRefuses work_dir (engine_of work_dir (config_text body))
        unfolding build_engine_and_scheduler
        admitted_config_builds d {body} work_dir h set =
            let (known, bounds, checked) = read_body-Admitted p loads d h in
            let (ps, read, has) =
              (validate_config_json_iff p loads (config_text body)).0 (checked set) in
            let parsed = values repr (members ps) in
            elim (accepted-Settled ps work_dir has) [
              | inl (config, q) ↦
                  let (m, a, w, others) =
                    merge_with_env_defaults-Passes settings parsed work_dir q in
                  inl (config, (m, a, w), rw (read, q) refl)
              | inr (m, q) ↦ inr (m, rw (read, q) refl)
            ]
