-- ===== src/EngineFactory/Correlation/Injected.antt =====
-- src/engine_factory.py: which objects have a correlation id behind `_ensure_correlation_id`.
use cio_run_auto_orchestrato.Prelude.{
  String, ℕ, Bool, true, false, Option, none, some, List, [], ◌∷◌, ◌≡◌, refl, sym, ap, ◌∙◌, subst,
  ◌||◌, inl, inr, arith, nat_eq, if◌then◌else◌, Bool-cases,
}
use cio_run_auto_orchestrato.Effect.{Exn, Result, ok, Action, ◌>>◌}
use cio_run_auto_orchestrato.EngineFactory.Correlation.{
  Assignment, sets, refuses, raises, Object, Attribute, absent, other, a_logger, unless_there,
  inject_correlation_id, Objects, inject_at, inject_inner, inject_attributes, ensure_correlation_id,
}

-- An object with an id keeps it; one without gets the new one if either assignment sets it.
abbrev pub chosen_id : String → Option String → Assignment → Assignment → Option String
chosen_id cid (some own) direct override = some own
chosen_id cid none sets override = some cid
chosen_id cid none direct sets = some cid
chosen_id cid none direct override = none

abbrev pub injected : String → Object → Object
injected cid o = record o { correlation_id = chosen_id cid o.correlation_id o.direct o.override }

-- No assignment raises anything but an AttributeError or a TypeError.
abbrev IsMild : Assignment → Type 0
IsMild a = (x : Exn) → ¬ (a ≡ raises x)

abbrev pub AreMild : Objects → Type 0
AreMild objects = (i : ℕ) → IsMild (objects i).direct × IsMild (objects i).override

inject_lem :
    (cid : String) (o : Object)
    → IsMild o.direct
    → IsMild o.override
    → inject_correlation_id cid o ≡ (ok tt, injected cid o)
unfolding inject_correlation_id
inject_lem cid o mild mild' = go o.correlation_id o.direct o.override mild mild'
  where
    object : Option String → Assignment → Assignment → Object
    object own direct override = record {
      correlation_id = own;
      direct = direct;
      override = override;
    }

    go :
        (own : Option String) (direct override : Assignment)
        → IsMild direct
        → IsMild override
        → unless_there cid own (object own direct override)
          ≡ (ok tt, injected cid (object own direct override))
    go (some own) direct override m m' = refl
    go none sets override m m' = refl
    go none refuses sets m m' = refl
    go none refuses refuses m m' = refl
    go none refuses (raises x) m m' = elim (m' x refl) [ ]
    go none (raises x) override m m' = elim (m x refl) [ ]

injected_twice : (cid : String) (o : Object) → injected cid (injected cid o) ≡ injected cid o
injected_twice cid o =
    ap (λ c. record o { correlation_id = c }) (go o.correlation_id o.direct o.override)
  where
    go :
        (own : Option String) (direct override : Assignment)
        → chosen_id cid (chosen_id cid own direct override) direct override
          ≡ chosen_id cid own direct override
    go (some own) direct override = refl
    go none sets override = refl
    go none refuses sets = refl
    go none refuses refuses = refl
    go none refuses (raises x) = refl
    go none (raises x) sets = refl
    go none (raises x) refuses = refl
    go none (raises x) (raises y) = refl

-- The objects behind injections into some of them.
abbrev pub Injects : String → (ℕ → Bool) → Objects → Result (Unit {0}) × Objects → Type 0
Injects cid reached objects z =
    (z.0 ≡ ok tt) × ((j : ℕ) → z.1 j ≡ (if reached j then injected cid (objects j) else objects j))

-- The objects that are a given logger, or one among some attributes.
abbrev pub is_logger : Attribute → ℕ → Bool
is_logger absent j = false
is_logger other j = false
is_logger (a_logger i) j = nat_eq i j

abbrev pub among : List Attribute → ℕ → Bool
among [] j = false
among (a ∷ rest) j = is_logger a j || among rest j

module _ (cid : String) where
  inject_at-Injects :
      (i : ℕ) (objects : Objects)
      → AreMild objects
      → Injects cid (λ j. nat_eq i j) objects (inject_at cid i objects)
  unfolding inject_at
  inject_at-Injects i objects mild =
      let (direct, override) = mild i in
      rw (inject_lem cid (objects i) direct override) (
        refl,
        λ j. elim (Bool-cases (nat_eq i j)) [
          | inl q ↦
              let same : i ≡ j = ground (arith, q) in rw q (ap (λ k. injected cid (objects k)) same)
          | inr q ↦ rw q refl
        ],
      )

  either-IsMild :
      (b : Bool) (o : Object)
      → IsMild o.direct × IsMild o.override
      → let o' = if b then injected cid o else o in IsMild o'.direct × IsMild o'.override
  either-IsMild true o mild = mild
  either-IsMild false o mild = mild

  AreMild-Injects :
      (reached : ℕ → Bool) (objects : Objects) (z : Result (Unit {0}) × Objects)
      → AreMild objects
      → Injects cid reached objects z
      → AreMild z.1
  AreMild-Injects reached objects z mild (done, each) j =
      subst (λ (o : Object). IsMild o.direct × IsMild o.override) (sym (each j))
        (either-IsMild (reached j) (objects j) (mild j))

  in_two_steps :
      (a b : Bool) (o u v : Object)
      → u ≡ (if a then injected cid o else o)
      → v ≡ (if b then injected cid u else u)
      → v ≡ (if a || b then injected cid o else o)
  in_two_steps true true o u v p q = q ∙ ap (injected cid) p ∙ injected_twice cid o
  in_two_steps true false o u v p q = q ∙ p
  in_two_steps false true o u v p q = q ∙ ap (injected cid) p
  in_two_steps false false o u v p q = q ∙ p

  then-Injects :
      (first second : ℕ → Bool) (m n : Action Objects (Unit {0})) (objects : Objects)
      → Injects cid first objects (m objects)
      → Injects cid second (m objects).1 (n (m objects).1)
      → Injects cid (λ j. first j || second j) objects ((m >> n) objects)
  then-Injects first second m n objects (done, each) (done', each') = rw done (
    done',
    λ j.
        in_two_steps (first j) (second j) (objects j) ((m objects).1 j) ((n (m objects).1).1 j)
          (each j) (each' j),
  )

  inject_inner-Injects :
      (a : Attribute) (objects : Objects)
      → AreMild objects
      → Injects cid (is_logger a) objects (inject_inner cid a objects)
  inject_inner-Injects absent objects mild = (refl, λ j. refl)
  inject_inner-Injects other objects mild = (refl, λ j. refl)
  inject_inner-Injects (a_logger i) objects mild = inject_at-Injects i objects mild

  inject_attributes-Injects :
      (attributes : List Attribute) (objects : Objects)
      → AreMild objects
      → Injects cid (among attributes) objects (inject_attributes cid attributes objects)
  unfolding inject_attributes
  inject_attributes-Injects [] objects mild = (refl, λ j. refl)
  inject_attributes-Injects (a ∷ rest) objects mild =
      let here = inject_inner-Injects a objects mild in
      let objects' = (inject_inner cid a objects).1 in
      then-Injects (is_logger a) (among rest) (inject_inner cid a) (inject_attributes cid rest)
        objects here
        (inject_attributes-Injects rest objects'
          (AreMild-Injects (is_logger a) objects (inject_inner cid a objects) mild here))

  -- Where no assignment raises anything but an AttributeError or a TypeError,
  -- `_ensure_correlation_id` returns; the wrapper and each of its four attributes that is a
  -- `logging.Logger` keep the id that they had, or else have the new one where an assignment can
  -- set it, two attributes that are one object included; and every other object is as it was.
  pub ensure_correlation_id-Injects :
      (cio_logger : ℕ) (getattr : String → Attribute) (objects : Objects)
      → AreMild objects
      → Injects cid
          (λ j.
            nat_eq cio_logger j
            || among (getattr "logger" ∷ getattr "_logger" ∷ getattr "log" ∷ getattr "_log" ∷ []) j)
          objects
          (ensure_correlation_id cid cio_logger getattr objects)
  unfolding ensure_correlation_id
  ensure_correlation_id-Injects cio_logger getattr objects mild =
      let attributes = getattr "logger" ∷ getattr "_logger" ∷ getattr "log" ∷ getattr "_log" ∷ [] in
      let here = inject_at-Injects cio_logger objects mild in
      let z = inject_at cid cio_logger objects in
      then-Injects (λ j. nat_eq cio_logger j) (among attributes) (inject_at cid cio_logger)
        (inject_attributes cid attributes) objects here
        (inject_attributes-Injects attributes z.1
          (AreMild-Injects (λ j. nat_eq cio_logger j) objects z mild here))
