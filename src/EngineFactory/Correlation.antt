-- ===== src/EngineFactory/Correlation.antt =====
-- src/engine_factory.py: `_inject_correlation_id` and `_ensure_correlation_id`. Objects are found by
-- their identity, since the loggers that a wrapper holds may be one object.
pub mod Injected
use cio_run_auto_orchestrato.Prelude.{
  String, ℕ, Option, none, some, List, [], ◌∷◌, nat_eq, if◌then◌else◌,
}
use cio_run_auto_orchestrato.Effect.{Exn, Result, ok, err, Action, pure, ◌>>◌}

-- What an assignment of the attribute does: it sets it, raises an AttributeError or a TypeError, or
-- raises another exception.
pub data Assignment : Type 0 where
  sets refuses : Assignment
  raises : Exn → Assignment

pub record Object : Type 0 where
  pub correlation_id : Option String
  -- `obj.correlation_id = ...`, and `object.__setattr__` of it.
  pub direct : Assignment
  pub override : Assignment

-- `getattr(cio_logger, attr, None)`: nothing, a `logging.Logger`, or something else.
pub data Attribute : Type 0 where
  absent other : Attribute
  a_logger : ℕ → Attribute

abbrev pub with_id : String → Object → Object
with_id cid o = record o { correlation_id = some cid }

abbrev pub override_id : String → Assignment → Action Object (Unit {0})
override_id cid sets o = (ok tt, with_id cid o)
override_id cid refuses o = (ok tt, o)
override_id cid (raises x) o = (err x, o)

abbrev pub assign_id : String → Assignment → Action Object (Unit {0})
assign_id cid sets o = (ok tt, with_id cid o)
assign_id cid refuses o = override_id cid o.override o
assign_id cid (raises x) o = (err x, o)

abbrev pub unless_there : String → Option String → Action Object (Unit {0})
unless_there cid (some own) o = (ok tt, o)
unless_there cid none o = assign_id cid o.direct o

unfoldable pub inject_correlation_id : String → Action Object (Unit {0})
inject_correlation_id cid o = unless_there cid o.correlation_id o

abbrev pub Objects : Type 0
Objects = ℕ → Object

abbrev pub put_object : ℕ → Objects → Result (Unit {0}) × Object → Result (Unit {0}) × Objects
put_object i objects (res, o) = (res, λ j. if nat_eq i j then o else objects j)

unfoldable pub inject_at : String → ℕ → Action Objects (Unit {0})
inject_at cid i objects = put_object i objects (inject_correlation_id cid (objects i))

abbrev pub inject_inner : String → Attribute → Action Objects (Unit {0})
inject_inner cid absent = pure tt
inject_inner cid other = pure tt
inject_inner cid (a_logger i) = inject_at cid i

unfoldable pub inject_attributes : String → List Attribute → Action Objects (Unit {0})
inject_attributes cid [] = pure tt
inject_attributes cid (a ∷ rest) = inject_inner cid a >> inject_attributes cid rest

-- The wrapper `cio_logger` and its attributes; `cid` is what `uuid4` makes.
unfoldable pub ensure_correlation_id : String → ℕ → (String → Attribute) → Action Objects (Unit {0})
ensure_correlation_id cid cio_logger getattr =
    inject_at cid cio_logger
    >> inject_attributes cid
        (getattr "logger" ∷ getattr "_logger" ∷ getattr "log" ∷ getattr "_log" ∷ [])
