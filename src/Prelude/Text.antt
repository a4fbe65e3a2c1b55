-- ===== src/Prelude/Text.antt =====
-- Texts: equality tests, concatenation, and the key prefixes that tell families of keys apart.
use Prim.Native.Char.{code}
use Prim.Native.Nat.{ℕ, zero, suc, ◌/◌, ◌%◌}
use Prim.Native.String.{String}
use mathlib.Core.Path.{◌≡◌, ap}
use mathlib.Core.Bool.{Bool, true, false, ◌&&◌}
use mathlib.Core.Logic.{◌≢◌}
use native.Mathlib.Omega.{arith}
use cio_run_auto_orchestrato.Prelude.Tests.{nat_eq, ltb, if◌then◌else◌}
use text.Mathlib.Text as Texts
use text.Mathlib.TextEquality as TextEquality
use text.Mathlib.TextPositions as TextPositions

infix 50 ◌==◌
abbrev pub ◌==◌ : String → String → Bool
s == t = Texts.◌==◌ s t

-- `if s` for a Python text: the empty text is false.
abbrev pub is_truthy : String → Bool
is_truthy String.[] = false
is_truthy (String.◌∷◌ c s) = true

-- `s + t`, or what a format string makes of a literal prefix and a field.
unfoldable pub concat : String → String → String
concat String.[] t = t
concat (String.◌∷◌ c s) t = String.◌∷◌ c (concat s t)

-- `s.startswith(p)`.
unfoldable pub starts_with : String → String → Bool
starts_with s String.[] = true
starts_with String.[] (String.◌∷◌ c p) = false
starts_with (String.◌∷◌ d s) (String.◌∷◌ c p) = nat_eq (code d) (code c) && starts_with s p

-- The code of a character, or 0 behind the end.
unfoldable pub code_at : String → ℕ → ℕ
code_at String.[] i = 0
code_at (String.◌∷◌ c s) zero = code c
code_at (String.◌∷◌ c s) (suc i) = code_at s i

abbrev rest : String → String
rest String.[] = String.[]
rest (String.◌∷◌ c s) = s

pub ==_refl : (s : String) → (s == s) ≡ true
==_refl s = TextPositions.eq_refl s

pub ==_iff : (s t : String) → ((s == t) ≡ true → s ≡ t) × (s ≡ t → (s == t) ≡ true)
==_iff s t = TextEquality.eq_iff s t

pub ==_of_ne : (s t : String) → s ≢ t → (s == t) ≡ false
==_of_ne s t h = ground (arith, ==_iff s t)

pub concat_injective : (p s t : String) → concat p s ≡ concat p t → s ≡ t
unfolding concat
concat_injective String.[] s t h = h
concat_injective (String.◌∷◌ c p) s t h = concat_injective p s t (ap rest h)

-- Two keys of one family are the same key exactly if they are made from the same text.
pub concat-== : (p s t : String) → (concat p s == concat p t) ≡ (s == t)
concat-== p s t =
    ground (arith, ==_iff s t, ==_iff (concat p s) (concat p t), concat_injective p s t, ap_concat)
  where
    ap_concat : s ≡ t → concat p s ≡ concat p t
    ap_concat e = ap (concat p) e

-- Keys whose prefixes differ at some place are different keys.
pub ==_of_code : (s t : String) (i : ℕ) → code_at s i ≢ code_at t i → (s == t) ≡ false
==_of_code s t i h = ==_of_ne s t (λ e. h (ap (λ u. code_at u i) e))

abbrev digit : ℕ → String
digit zero = "0"
digit (suc zero) = "1"
digit (suc (suc zero)) = "2"
digit (suc (suc (suc zero))) = "3"
digit (suc (suc (suc (suc zero)))) = "4"
digit (suc (suc (suc (suc (suc zero))))) = "5"
digit (suc (suc (suc (suc (suc (suc zero)))))) = "6"
digit (suc (suc (suc (suc (suc (suc (suc zero))))))) = "7"
digit (suc (suc (suc (suc (suc (suc (suc (suc zero)))))))) = "8"
digit _ = "9"

-- `n` digits at most, from the last on.
decimal_digits : ℕ → ℕ → String → String
unfolding concat
decimal_digits zero n suffix = suffix
decimal_digits (suc fuel) n suffix =
    let s = concat (digit (n % 10)) suffix in
    let longer = decimal_digits fuel (n / 10) s in if ltb n 10 then s else longer

-- The text of a number: `n + 1` digits are enough for `n`.
unfoldable pub decimal : ℕ → String
unfolding decimal_digits
decimal n = decimal_digits (suc n) n ""
