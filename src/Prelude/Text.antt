-- ===== src/Prelude/Text.antt =====
-- `String.prototype.trim` and emptiness of native strings.
use Prim.Native.Char.{Char, code}
use Prim.Native.String.{String, [], ◌∷◌}
use mathlib.Core.Path.{◌≡◌, ap, refl}
use native.Mathlib.Omega.{arith}
use mathlib.Core.Bool.{Bool, true, false, ◌&&◌, ◌||◌}
use text.Mathlib.Text.{◌==◌}
use text.Mathlib.TextEquality.{eq_iff}
use webmeow.Prelude.Tests.{leb, eqb, if◌then◌else◌}

-- The code points that ECMAScript trims: white space and line terminators.
unfoldable pub is_space : Char → Bool
is_space ch =
    let c = code ch in
    (leb 9 c && leb c 13)
    || eqb c 32
    || eqb c 160
    || eqb c 0x1680
    || (leb 0x2000 c && leb c 0x200a)
    || eqb c 0x2028
    || eqb c 0x2029
    || eqb c 0x202f
    || eqb c 0x205f
    || eqb c 0x3000
    || eqb c 0xfeff

-- `!s`
abbrev pub is_empty : String → Bool
is_empty [] = true
is_empty (c ∷ s) = false

unfoldable pub trim_start : String → String
trim_start [] = []
trim_start (c ∷ s) = if is_space c then trim_start s else c ∷ s

unfoldable pub trim_end : String → String
trim_end [] = []
trim_end (c ∷ s) = let rest = trim_end s in if is_space c && is_empty rest then [] else c ∷ rest

unfoldable pub trim : String → String
unfolding trim_start trim_end
trim s = trim_end (trim_start s)

-- `s.startsWith(prefix)`
unfoldable pub starts_with : String → String → Bool
starts_with s [] = true
starts_with [] (b ∷ prefix) = false
starts_with (a ∷ s) (b ∷ prefix) = eqb (code a) (code b) && starts_with s prefix

pub is_empty_of_eq : (a b : String) → (a == b) ≡ true → is_empty a ≡ is_empty b
is_empty_of_eq a b h = ap is_empty ((eq_iff a b).0 h)

pub eq_of_is_empty : (s : String) → is_empty s ≡ true → s ≡ ""
eq_of_is_empty [] h = refl
eq_of_is_empty (c ∷ s) h = absurd (ground arith)

all_spaces : String → Bool
all_spaces [] = true
all_spaces (c ∷ s) = is_space c && all_spaces s

trim_start-all_spaces : (s : String) → all_spaces (trim_start s) ≡ all_spaces s
unfolding all_spaces trim_start
trim_start-all_spaces [] = refl
trim_start-all_spaces (c ∷ s) = ground (arith, trim_start-all_spaces s)

is_empty-trim_end : (s : String) → is_empty (trim_end s) ≡ all_spaces s
unfolding all_spaces trim_end
is_empty-trim_end [] = refl
is_empty-trim_end (c ∷ s) = ground (arith, is_empty-trim_end s)

trim_end-all_spaces : (s : String) → all_spaces (trim_end s) ≡ all_spaces s
unfolding all_spaces trim_end
trim_end-all_spaces [] = refl
trim_end-all_spaces (c ∷ s) = ground (arith, trim_end-all_spaces s, is_empty-trim_end s)

-- A text that was trimmed is blank only if it was before.
pub is_empty-trim-trim : (s : String) → is_empty (trim (trim s)) ≡ is_empty (trim s)
unfolding trim
is_empty-trim-trim s = ground (
  arith,
  is_empty-trim_end (trim_start (trim s)),
  trim_start-all_spaces (trim s),
  trim_end-all_spaces (trim_start s),
  is_empty-trim_end (trim_start s),
)
