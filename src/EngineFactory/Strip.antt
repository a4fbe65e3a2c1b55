-- ===== src/EngineFactory/Strip.antt =====
-- `str.strip` as src/engine_factory.py uses it.
use Prim.Native.Char.{Char, code}
use cio_run_auto_orchestrato.Prelude.{
  String, Bool, ◌&&◌, ◌||◌, not, leb, nat_eq, is_truthy, if◌then◌else◌,
}

-- The white space of Python, by code points.
abbrev is_space : Char → Bool
is_space c =
    let n = code c in
    (leb 9 n && leb n 13)
    || (leb 28 n && leb n 32)
    || nat_eq n 133
    || nat_eq n 160
    || nat_eq n 5760
    || (leb 8192 n && leb n 8202)
    || nat_eq n 8232
    || nat_eq n 8233
    || nat_eq n 8239
    || nat_eq n 8287
    || nat_eq n 12288

unfoldable pub strip_left : String → String
strip_left String.[] = String.[]
strip_left (String.◌∷◌ c s) = let rest = strip_left s in if is_space c then rest else String.◌∷◌ c s

unfoldable pub strip_right : String → String
strip_right String.[] = String.[]
strip_right (String.◌∷◌ c s) =
    let rest = strip_right s in
    if is_space c && not (is_truthy rest) then String.[] else String.◌∷◌ c rest

unfoldable pub strip : String → String
strip s = strip_right (strip_left s)
