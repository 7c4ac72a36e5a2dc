-- ===== src/Client/Errors/Messages.antt =====
-- frontend/src/lib/api-client.ts: what the message of a failed request says.
use Prim.Native.String
use text.Mathlib.TextLemmas.{append_assoc, append-nil, nil-append, append-eq-nil_iff}
use mathlib.Core.List.{Memᴰ}
use webmeow.Prelude.{
  String, ◌≡◌, refl, ap, sym, ◌∙◌, true, false, Option, none, some, List, [], ◌∷◌, if_cases,
  is_empty, eq_of_is_empty, or_default, Bool-cases,
}
use webmeow.Prelude.{inl, inr}
use webmeow.Prelude.Json.{Json, str, arr, obj, Items, Fields, get_field}
use webmeow.Client.Errors.{
  unless_empty, or_else, join, parts_of, extract_field, field_message, object_message, body_message,
  get_error_message,
}

IsSaid : Option String → Type 0
IsSaid none = Unit
IsSaid (some text) = is_empty text ≡ false

unless_empty-IsSaid : (text : String) → IsSaid (unless_empty text)
unfolding IsSaid
unless_empty-IsSaid text = if_cases IsSaid (is_empty text) _ _ (λ e. tt) (λ e. e)

or_else-IsSaid : (a b : Option String) → IsSaid a → IsSaid b → IsSaid (or_else a b)
or_else-IsSaid none b h k = k
or_else-IsSaid (some text) b h k = h

extract-IsSaid : (value : Option Json) → IsSaid (extract_field value)
unfolding IsSaid
extract-IsSaid none = tt
extract-IsSaid (some (str text)) = unless_empty-IsSaid text
extract-IsSaid (some (arr items)) = unless_empty-IsSaid (join (parts_of items))
extract-IsSaid (some Json.null) = tt
extract-IsSaid (some (Json.bool b)) = tt
extract-IsSaid (some (Json.num n)) = tt
extract-IsSaid (some (obj fields)) = tt

fields-IsSaid : (body : Json) → IsSaid (field_message body)
fields-IsSaid body =
    or_else-IsSaid _ _
      (or_else-IsSaid _ _ (extract-IsSaid (get_field "detail" body))
        (extract-IsSaid (get_field "message" body)))
      (extract-IsSaid (get_field "error" body))

object-IsSaid : (body : Option Json) → IsSaid (object_message body)
unfolding IsSaid
object-IsSaid none = tt
object-IsSaid (some (str text)) = tt
object-IsSaid (some (arr items)) = fields-IsSaid (arr items)
object-IsSaid (some Json.null) = tt
object-IsSaid (some (Json.bool b)) = tt
object-IsSaid (some (Json.num n)) = tt
object-IsSaid (some (obj fields)) = fields-IsSaid (obj fields)

default_said :
    (o : Option String) (text : String)
    → IsSaid o
    → is_empty text ≡ false
    → is_empty (or_default o text) ≡ false
unfolding IsSaid
default_said none text h k = k
default_said (some said) text h k = h

fallback_said :
    (fallback : String) → is_empty (or_default (unless_empty fallback) "Request failed") ≡ false
fallback_said fallback =
    default_said (unless_empty fallback) "Request failed" (unless_empty-IsSaid fallback) refl

body_said : (body : Option Json) (fallback : String) → is_empty (body_message body fallback) ≡ false
body_said none fallback = fallback_said fallback
body_said (some (str text)) fallback =
    if_cases (λ t. is_empty t ≡ false) (is_empty text) _ _ (λ e. fallback_said fallback) (λ e. e)
body_said (some (arr items)) fallback = fallback_said fallback
body_said (some Json.null) fallback = fallback_said fallback
body_said (some (Json.bool b)) fallback = fallback_said fallback
body_said (some (Json.num n)) fallback = fallback_said fallback
body_said (some (obj fields)) fallback = fallback_said fallback

-- Whatever the service answers and whatever the fallback is, the message of a failed request is not
-- empty.
pub get_error_message-is_empty :
    (body : Option Json) (fallback : String) → is_empty (get_error_message body fallback) ≡ false
unfolding get_error_message
get_error_message-is_empty body fallback =
    default_said (object_message body) (body_message body fallback) (object-IsSaid body)
      (body_said body fallback)

-- A text stands somewhere in another.
abbrev pub Occurs : String → String → Type 0
Occurs part whole =
    (before : String) × (after : String) × (whole ≡ String.◌++◌ before (String.◌++◌ part after))

found_alone : (part : String) → Occurs part part
found_alone part = ("", "", sym (nil-append _ ∙ append-nil part))

found_after :
    (part first whole : String) → Occurs part whole → Occurs part (String.◌++◌ first whole)
found_after part first whole (before, after, e) = (
  String.◌++◌ first before,
  after,
  ap (String.◌++◌ first) e ∙ sym (append_assoc first before (String.◌++◌ part after)),
)

found_before : (part rest : String) → Occurs part (String.◌++◌ part rest)
found_before part rest = ("", rest, sym (nil-append _))

join-Occurs : (parts : List String) (part : String) → Memᴰ part parts → Occurs part (join parts)
join-Occurs [] part m = elim m [ ]
join-Occurs (p ∷ []) part (Memᴰ.head e) = rw e (found_alone p)
join-Occurs (p ∷ []) part (Memᴰ.tail m) = elim m [ ]
join-Occurs (p ∷ next ∷ rest) part (Memᴰ.head e) = rw e (found_before p _)
join-Occurs (p ∷ next ∷ rest) part (Memᴰ.tail m) =
    found_after part p _ (found_after part "; " _ (join-Occurs (next ∷ rest) part m))

found_nowhere :
    (part text whole : String) → Occurs part text → is_empty text ≡ true → Occurs part whole
found_nowhere part text whole (before, after, e) h =
    let none_left = (append-eq-nil_iff.0 (sym e ∙ eq_of_is_empty text h)).1 in
    rw (append-eq-nil_iff.0 none_left).0 ("", whole, sym (nil-append _ ∙ nil-append whole))

-- What each element of the `detail` array of an answer says, its `msg` or the element as a text,
-- stands in the message of the failed request.
pub get_error_message-Occurs :
    (fields : Fields) (items : Items) (part fallback : String)
    → get_field "detail" (obj fields) ≡ some (arr items)
    → Memᴰ part (parts_of items)
    → Occurs part (get_error_message (some (obj fields)) fallback)
unfolding get_error_message
get_error_message-Occurs fields items part fallback h m =
    rw h (elim (Bool-cases (is_empty (join (parts_of items)))) [
      | inl e ↦ found_nowhere part _ _ (join-Occurs (parts_of items) part m) e
      | inr e ↦ rw e (join-Occurs (parts_of items) part m)
    ])
