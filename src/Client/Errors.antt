-- ===== src/Client/Errors.antt =====
-- frontend/src/lib/api-client.ts: the message of a failed request. `String(value)` is written out for
-- the values that JSON has; numbers are those below 10^21 with no fraction, and no object brings a
-- `toString` of its own.
mod Decimal
pub mod Messages
unfoldable pub use Decimal.{decimal}
use Prim.Native.String
use webmeow.Prelude.{
  ℕ, suc, ◌+◌, String, Bool, true, false, not, Option, none, some, List, [], ◌∷◌, if◌then◌else◌,
  is_empty, or_default,
}
use webmeow.Prelude.Int.{pos, negsuc}
use webmeow.Prelude.Json.{Json, null, bool, num, str, arr, obj, Items, nil, cons, get_field}

-- `text || null`
abbrev pub unless_empty : String → Option String
unless_empty text = if is_empty text then none else some text

-- `a ?? b` on texts that may be missing.
abbrev pub or_else : Option String → Option String → Option String
or_else none other = other
or_else (some text) other = some text

abbrev is_null : Json → Bool
is_null null = true
is_null _ = false

unfoldable mutual
  unfolding decimal

  -- `String(value)`
  pub text_of_value : Json → String
  text_of_value null = "null"
  text_of_value (bool true) = "true"
  text_of_value (bool false) = "false"
  text_of_value (num (pos n)) = decimal (suc n) n ""
  text_of_value (num (negsuc n)) = String.◌++◌ "-" (decimal (suc (suc n)) (suc n) "")
  text_of_value (str text) = text
  text_of_value (arr items) = text_of_items items
  text_of_value (obj fields) = "[object Object]"

  -- `items.join(",")`, which is what an array is turned into: nothing for `null`.
  pub text_of_items : Items → String
  text_of_items nil = ""
  text_of_items (cons item nil) = if is_null item then "" else text_of_value item
  text_of_items (cons item (cons next rest)) =
      String.◌++◌ (if is_null item then "" else text_of_value item)
        (String.◌++◌ "," (text_of_items (cons next rest)))

-- What an element of an error field says: its `msg`, where it is an object that has one.
abbrev pub part_of : Json → Option Json → String
part_of item none = text_of_value item
part_of item (some msg) = text_of_value msg

-- `value.map(...)`
abbrev pub parts_of : Items → List String
parts_of nil = []
parts_of (cons item rest) = part_of item (get_field "msg" item) ∷ parts_of rest

-- `parts.join("; ")`
abbrev pub join : List String → String
join [] = ""
join (part ∷ []) = part
join (part ∷ next ∷ rest) = String.◌++◌ part (String.◌++◌ "; " (join (next ∷ rest)))

abbrev pub extract_field : Option Json → Option String
extract_field (some (str text)) = unless_empty text
extract_field (some (arr items)) = unless_empty (join (parts_of items))
extract_field _ = none

-- `extractField(detail) ?? extractField(message) ?? extractField(error)`
abbrev pub field_message : Json → Option String
field_message body =
    or_else
      (or_else (extract_field (get_field "detail" body)) (extract_field (get_field "message" body)))
      (extract_field (get_field "error" body))

-- Past the fields: the body itself, where it is a text, or else the fallback.
abbrev pub body_message : Option Json → String → String
body_message (some (str text)) fallback =
    if is_empty text then or_default (unless_empty fallback) "Request failed" else text
body_message _ fallback = or_default (unless_empty fallback) "Request failed"

-- `data && typeof data === "object"`
abbrev pub object_message : Option Json → Option String
object_message (some (arr items)) = field_message (arr items)
object_message (some (obj fields)) = field_message (obj fields)
object_message _ = none

unfoldable pub get_error_message : Option Json → String → String
get_error_message body fallback = or_default (object_message body) (body_message body fallback)
