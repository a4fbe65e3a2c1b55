-- ===== src/EngineFactory/Cache.antt =====
-- src/engine_factory.py: `get_engine_and_scheduler` with its cache, which `EngineFactory.get` calls.
use cio_run_auto_orchestrato.Prelude.{
  String, Option, none, some, List, [], ◌∷◌, ◌≡◌, refl, sym, ap, ◌∙◌, ◌==◌, ◌&&◌, ==_iff, ==_refl,
  arith, if◌then◌else◌, Bool-cases, inl, inr, Dict,
}
use cio_run_auto_orchestrato.Effect.{Result, ok, err, Action}
use cio_run_auto_orchestrato.EngineFactory.{
  Value, Loaded, Settings, text_or_empty, non_empty, resolve_work_dir, build_engine_and_scheduler,
}
use cio_run_auto_orchestrato.EngineFactory.Strip.{strip}

-- The entries of `_cache`: a working directory, the digest of a configuration, and the engine.
abbrev pub Cache : Type 0 → Type 0
Cache A = List (String × String × A)

unfoldable pub cached : {A : Type 0} → String → String → Cache A → Option A
cached work_dir digest [] = none
cached work_dir digest ((d, g, x) ∷ c) =
    let rest = cached work_dir digest c in if d == work_dir && g == digest then some x else rest

unfoldable pub clear_cache : {A : Type 0} → Action (Cache A) (Unit {0})
clear_cache c = (ok tt, [])

module _ (settings : Settings) (loads : String → Loaded) (from_yaml : String → Result (Dict Value))
    {A : Type 0} (construct : Dict Value → Result A) (sha256 : String → String) where
  abbrev pub build : String → String → Result A
  build work_dir config_json =
      build_engine_and_scheduler settings loads from_yaml construct work_dir (non_empty config_json)

  abbrev pub stored : String → String → Result A → Action (Cache A) A
  stored work_dir digest (err x) c = (err x, c)
  stored work_dir digest (ok pair) c = (ok pair, (work_dir, digest, pair) ∷ c)

  abbrev pub hit_or_build : String → String → Option A → Action (Cache A) A
  hit_or_build work_dir config_json (some pair) c = (ok pair, c)
  hit_or_build work_dir config_json none c =
      stored work_dir (sha256 config_json) (build work_dir config_json) c

  abbrev pub get_resolved : String → String → Action (Cache A) A
  get_resolved work_dir config_json c =
      hit_or_build work_dir config_json (cached work_dir (sha256 config_json) c) c

  abbrev pub effective_config : Option String → String
  effective_config config_json = strip (text_or_empty config_json)

  unfoldable pub get_engine_and_scheduler : Option String → Option String → Action (Cache A) A
  get_engine_and_scheduler work_dir config_json =
      get_resolved (resolve_work_dir settings loads work_dir (effective_config config_json))
        (effective_config config_json)

  -- Every entry is what is built for its directory and some configuration with its digest.
  abbrev pub Coherent : Cache A → Type 0
  Coherent [] = Unit {0}
  Coherent ((d, g, x) ∷ c) =
      ((config : String) × (sha256 config ≡ g) × (build d config ≡ ok x)) × Coherent c

  cached_built :
      (work_dir config : String) (c : Cache A) {x : A}
      → Coherent c
      → ((other : String) → sha256 other ≡ sha256 config → other ≡ config)
      → cached work_dir (sha256 config) c ≡ some x
      → build work_dir config ≡ ok x
  unfolding cached
  cached_built work_dir config [] h unique q = ground arith
  cached_built work_dir config ((d, g, y) ∷ c) {x} ((cfg, digest, built), h) unique q =
      elim (Bool-cases (d == work_dir && g == sha256 config)) [
        | inl same ↦
            let d_eq : d ≡ work_dir = (==_iff d work_dir).0 (ground arith) in
            let g_eq : g ≡ sha256 config = (==_iff g (sha256 config)).0 (ground arith) in
            let same_pair : y ≡ x = ground arith in
            ap (λ z. build z config) (sym d_eq)
            ∙ ap (build d) (sym (unique cfg (digest ∙ g_eq)))
            ∙ built
            ∙ ap ok same_pair
        | inr other ↦ cached_built work_dir config c h unique (ground arith)
      ]

  abbrev Transparent : String → String → Result A × Cache A → Type 0
  Transparent work_dir config (res, c) =
      (res ≡ build work_dir config)
      × Coherent c
      × ((x : A) → res ≡ ok x → get_resolved work_dir config c ≡ (ok x, c))

  stored-Transparent :
      (work_dir config : String) (c : Cache A) (r : Result A)
      → Coherent c
      → r ≡ build work_dir config
      → Transparent work_dir config (stored work_dir (sha256 config) r c)
  unfolding cached
  stored-Transparent work_dir config c (err y) h q = (q, h, λ x no. ground arith)
  stored-Transparent work_dir config c (ok pair) h q = (
    q,
    ((config, refl, sym q), h),
    λ x yes.
        rw (==_refl work_dir, ==_refl (sha256 config))
          (ap (λ r. (r, (work_dir, sha256 config, pair) ∷ c)) yes),
  )

  hit_or_build-Transparent :
      (work_dir config : String) (c : Cache A) (o : Option A)
      → Coherent c
      → ((other : String) → sha256 other ≡ sha256 config → other ≡ config)
      → cached work_dir (sha256 config) c ≡ o
      → Transparent work_dir config (hit_or_build work_dir config o c)
  hit_or_build-Transparent work_dir config c none h unique q =
      stored-Transparent work_dir config c (build work_dir config) h refl
  hit_or_build-Transparent work_dir config c (some pair) h unique q =
      (sym (cached_built work_dir config c h unique q), h, λ x yes. rw q (ap (λ r. (r, c)) yes))

  -- The cache is never seen in an answer: where its entries are what was built for their keys, and
  -- no other configuration has the digest of this one, a call returns or raises what the
  -- construction does for the resolved directory and the stripped configuration; the entries are
  -- again what was built; and a call that has returned, made again, returns the same and leaves the
  -- cache as it is.
  pub cache_is_transparent :
      (work_dir config_json : Option String) (c : Cache A)
      → Coherent c
      → ((other : String)
          → sha256 other ≡ sha256 (effective_config config_json)
          → other ≡ effective_config config_json)
      → let z = get_engine_and_scheduler work_dir config_json c in
        (z.0
          ≡ build
              (resolve_work_dir settings loads work_dir (effective_config config_json))
              (effective_config config_json))
        × Coherent z.1
        × ((x : A) → z.0 ≡ ok x → get_engine_and_scheduler work_dir config_json z.1 ≡ (ok x, z.1))
  unfolding get_engine_and_scheduler
  cache_is_transparent work_dir config_json c h unique =
      let config = effective_config config_json in
      let resolved = resolve_work_dir settings loads work_dir config in
      hit_or_build-Transparent resolved config c (cached resolved (sha256 config) c) h unique refl
