-- ===== src/Prelude/Records.antt =====
-- A JavaScript object or `Map` with string keys that the code reads and writes key by key.
use Prim.Native.String.{String}
use mathlib.Core.Option.{Option, none, some}
use text.Mathlib.Text.{◌==◌}
use webmeow.Prelude.Tests.{if◌then◌else◌}

abbrev pub Dict {ℓ} : Type ℓ → Type ℓ
Dict V = String → Option V

module _ {ℓ} {V : Type ℓ} where
  -- `{}`
  abbrev pub empty : Dict V
  empty k = none

  -- `{ ...m, [k]: v }` and `m.set(k, v)`
  abbrev pub put : Dict V → String → V → Dict V
  put m k v j = if k == j then some v else m j

  -- `m.delete(k)`
  abbrev pub remove : Dict V → String → Dict V
  remove m k j = if k == j then none else m j

  -- `a ?? b`
  abbrev pub or_default : Option V → V → V
  or_default none d = d
  or_default (some v) d = v
