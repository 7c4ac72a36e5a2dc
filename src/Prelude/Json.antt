-- ===== src/Prelude/Json.antt =====
-- Parsed JSON: what `JSON.parse` and the body parsers hand to the program.
use Prim.Native.String.{String}
use mathlib.Core.Bool.{Bool}
use mathlib.Core.Option.{Option, none, some}
use text.Mathlib.Text.{◌==◌}
use webmeow.Prelude.Int.{ℤ}
use webmeow.Prelude.Tests.{if◌then◌else◌}

mutual
  pub data Json : Type 0 where
    null : Json
    bool : Bool → Json
    num : ℤ → Json
    str : String → Json
    arr : Items → Json
    obj : Fields → Json

  pub data Items : Type 0 where
    nil : Items
    cons : Json → Items → Items

  pub data Fields : Type 0 where
    end : Fields
    field : String → Json → Fields → Fields

-- The value of a key, `none` for `undefined`. The keys of an object are distinct.
abbrev pub field_of : String → Fields → Option Json
field_of k end = none
field_of k (field j v fs) = if j == k then some v else field_of k fs

-- `value.key`: no field on a value that is not an object.
abbrev pub get_field : String → Json → Option Json
get_field k (obj fs) = field_of k fs
get_field k _ = none

-- The text of a string value.
abbrev pub text_of : Option Json → Option String
text_of (some (str s)) = some s
text_of _ = none
