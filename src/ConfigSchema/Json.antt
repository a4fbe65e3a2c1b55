-- ===== src/ConfigSchema/Json.antt =====
-- The values that `json.loads` returns, and `int(v)` of such a value.
use Prim.Native.Char.{code}
use cio_run_auto_orchestrato.Prelude.{
  String, ℕ, ◌+◌, ◌-◌, ◌*◌, Bool, true, false, Option, none, some, List, [], ◌∷◌, ◌&&◌, ◌||◌, leb,
  nat_eq, if◌then◌else◌, Dict, insert,
}
use cio_run_auto_orchestrato.Effect.{Result, ok, err, value_error, other_error}
use cio_run_auto_orchestrato.EngineFactory.Strip.{strip}

pub data ℤ : Type 0 where
  pos negsuc : ℕ → ℤ

-- A float is what `int` and a test for a whole number see of it: the sign, the part before the
-- point, and whether the rest is 0.
mutual
  pub data Json : Type 0 where
    null not_a_number infinite : Json
    boolean : Bool → Json
    string : String → Json
    integer : ℤ → Json
    floating : (negative : Bool) (whole : ℕ) (exact : Bool) → Json
    object : Members → Json
    array : Elements → Json

  pub data Members : Type 0 where
    no_members : Members
    member : (name : String) (value : Json) (others : Members) → Members

  pub data Elements : Type 0 where
    no_elements : Elements
    element : (value : Json) (others : Elements) → Elements

abbrev pub elements : Elements → List Json
elements no_elements = []
elements (element v vs) = v ∷ elements vs

-- The dict of the members of an object: the last value of a name, at the place of its first.
unfoldable pub members_onto : Dict Json → Members → Dict Json
members_onto d no_members = d
members_onto d (member k v ps) = members_onto (insert k v d) ps

abbrev pub members : Members → Dict Json
members ps = members_onto [] ps

abbrev pub negate : ℕ → ℤ
negate n = if nat_eq n 0 then pos 0 else negsuc (n - 1)

-- Decimal digits, with single underscores between them.
unfoldable pub digits : Bool → ℕ → String → Option ℕ
digits after_digit n String.[] = if after_digit then some n else none
digits after_digit n (String.◌∷◌ c s) =
    let is_digit = leb 48 (code c) && leb (code c) 57 in
    let rest = digits is_digit (if is_digit then n * 10 + (code c - 48) else n) s in
    if is_digit || (nat_eq (code c) 95 && after_digit) then rest else none

abbrev signed : Bool → Option ℕ → Result ℤ
signed negative none = err (value_error "invalid literal for int() with base 10")
signed negative (some n) = ok (if negative then negate n else pos n)

-- A stripped text with its sign, in ASCII digits.
abbrev parse_int : String → Result ℤ
parse_int String.[] = signed false none
parse_int (String.◌∷◌ c s) =
    if nat_eq (code c) 45
    then signed true (digits false 0 s)
    else (if nat_eq (code c) 43
        then signed false (digits false 0 s)
        else signed false (digits false 0 (String.◌∷◌ c s)))

abbrev pub int : Json → Result ℤ
int null = err (other_error "TypeError")
int (boolean b) = ok (pos (if b then 1 else 0))
int (integer z) = ok z
int (floating negative whole exact) = ok (if negative then negate whole else pos whole)
int not_a_number = err (value_error "cannot convert float NaN to integer")
int infinite = err (other_error "OverflowError")
int (string s) = parse_int (strip s)
int (array vs) = err (other_error "TypeError")
int (object ps) = err (other_error "TypeError")
