-- ===== src/TaskQueue/Digest.antt =====
-- src/task_queue/store.py: when two digest keys, or two sets of tasks, are one.
use Prim.Native.Char.{Char, code}
use cio_run_auto_orchestrato.Prelude.{
  String, ℕ, suc, ◌+◌, false, ◌≡◌, refl, sym, ap, concat, concat_injective, code_at, nat_eq, arith,
}
use cio_run_auto_orchestrato.Redis.{Env}
use cio_run_auto_orchestrato.TaskQueue.Keys.{digest_key, project_tasks_key}

-- No character of a text is NUL.
abbrev pub IsNulFree : String → Type 0
IsNulFree String.[] = Unit {0}
IsNulFree (String.◌∷◌ c s) = (nat_eq (code c) 0 ≡ false) × IsNulFree s

abbrev first : Char → String → Char
first d String.[] = d
first d (String.◌∷◌ c s) = c

abbrev tail : String → String
tail String.[] = String.[]
tail (String.◌∷◌ c s) = s

abbrev size : String → ℕ
size String.[] = 0
size (String.◌∷◌ c s) = suc (size s)

size-concat : (s t : String) → size (concat s t) ≡ size s + size t
unfolding concat
size-concat String.[] t = omega arith
size-concat (String.◌∷◌ c s) t = omega (arith, size-concat s t)

same_cons : {c d : Char} {s t : String} → c ≡ d → s ≡ t → String.◌∷◌ c s ≡ String.◌∷◌ d t
same_cons p q = cc

-- What stands before a suffix.
concat_injective_right : (s t suffix : String) → concat s suffix ≡ concat t suffix → s ≡ t
unfolding concat
concat_injective_right String.[] String.[] suffix h = refl
concat_injective_right String.[] (String.◌∷◌ d t) suffix h =
    absurd (omega (arith, ap size h, size-concat t suffix))
concat_injective_right (String.◌∷◌ c s) String.[] suffix h =
    absurd (omega (arith, ap size h, size-concat s suffix))
concat_injective_right (String.◌∷◌ c s) (String.◌∷◌ d t) suffix h =
    same_cons (ap (first c) h) (concat_injective_right s t suffix (ap tail h))

is_nul : (n : ℕ) → 0 ≡ n → ¬ (nat_eq n 0 ≡ false)
is_nul n q h = ground arith

-- The parts of a text with a NUL between them.
joined_injective :
    (p q r s : String)
    → IsNulFree p
    → IsNulFree q
    → concat p (concat "\0" r) ≡ concat q (concat "\0" s)
    → (p ≡ q) × (r ≡ s)
unfolding concat code_at
joined_injective String.[] String.[] r s free free' h = (refl, concat_injective "\0" r s h)
joined_injective String.[] (String.◌∷◌ d q) r s free free' h =
    absurd (is_nul (code d) (ap (λ u. code_at u 0) h) free'.0)
joined_injective (String.◌∷◌ c p) String.[] r s free free' h =
    absurd (is_nul (code c) (ap (λ u. code_at u 0) (sym h)) free.0)
joined_injective (String.◌∷◌ c p) (String.◌∷◌ d q) r s free free' h =
    let (same, behind) = joined_injective p q r s free.1 free'.1 (ap tail h) in
    (same_cons (ap (first c) h) same, behind)

pub project_tasks_key_injective : (p q : String) → project_tasks_key p ≡ project_tasks_key q → p ≡ q
unfolding project_tasks_key
project_tasks_key_injective p q h =
    concat_injective_right p q ":tasks"
      (concat_injective "cio:project:" (concat p ":tasks") (concat q ":tasks") h)

-- Where SHA-256 has no collision, two pairs of a project name without NUL and a requirement have one
-- digest key only if they are one pair.
pub digest_key_injective :
    (e : Env)
    → ((s t : String) → e.sha256 s ≡ e.sha256 t → s ≡ t)
    → (p q r s : String) → IsNulFree p
    → IsNulFree q
    → digest_key e p r ≡ digest_key e q s
    → (p ≡ q) × (r ≡ s)
unfolding digest_key
digest_key_injective e no_collision p q r s free free' h =
    joined_injective p q r s free free'
      (no_collision _ _ (concat_injective "cio:task:digest:" _ _ h))
