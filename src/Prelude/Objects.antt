-- ===== src/Prelude/Objects.antt =====
-- A JavaScript object with string keys, in the order of its keys, for code that goes through all of
-- them.
use Prim.Native.Nat.{ℕ, ◌+◌}
use Prim.Native.String.{String}
use mathlib.Core.Path.{◌≡◌}
use mathlib.Core.Bool.{false}
use mathlib.Core.Option.{Option, none, some}
use mathlib.Core.List.{List, [], ◌∷◌}
use native.Mathlib.Omega.{arith}
use text.Mathlib.Text.{◌==◌}
use text.Mathlib.TextEquality.{eq_iff}
use text.Mathlib.TextPositions.{eq_refl}
use webmeow.Prelude.Tests.{if◌then◌else◌}

abbrev pub Entries {ℓ} : Type ℓ → Type ℓ
Entries V = List (String × V)

module _ {ℓ} {V : Type ℓ} where
  -- `entries[key]`
  abbrev pub value_of : String → Entries V → Option V
  value_of key [] = none
  value_of key ((name, held) ∷ rest) = if name == key then some held else value_of key rest

  -- `entries[key] = held`
  abbrev pub assign : String → V → Entries V → Entries V
  assign key held [] = (key, held) ∷ []
  assign key held ((name, old) ∷ rest) =
      if name == key then (name, held) ∷ rest else (name, old) ∷ assign key held rest

  pub value_of-assign :
      (key : String) (held : V) (es : Entries V) → value_of key (assign key held es) ≡ some held
  value_of-assign key held [] = ground (arith, eq_refl key)
  value_of-assign key held ((name, old) ∷ rest) = ground (arith, value_of-assign key held rest)

  pub value_of-assign_other :
      (key other : String) (held : V) (es : Entries V)
      → (key == other) ≡ false
      → value_of other (assign key held es) ≡ value_of other es
  value_of-assign_other key other held [] h = ground arith
  value_of-assign_other key other held ((name, old) ∷ rest) h =
      ground (arith, value_of-assign_other key other held rest, eq_iff name key)

  -- How much the values weigh together.
  abbrev pub weight_of : (V → ℕ) → Option V → ℕ
  weight_of w none = 0
  weight_of w (some v) = w v

  abbrev pub total : (V → ℕ) → Entries V → ℕ
  total w [] = 0
  total w ((name, held) ∷ rest) = w held + total w rest

  pub total-assign :
      (w : V → ℕ) (key : String) (held : V) (es : Entries V)
      → total w (assign key held es) + weight_of w (value_of key es) ≡ total w es + w held
  total-assign w key held [] = omega arith
  total-assign w key held ((name, old) ∷ rest) = ground (arith, total-assign w key held rest)
