-- ===== src/Hotel/Airport.antt =====
-- services/hotel/src/airport/airport.service.ts: has a guest cleared passport control?
-- The HTTP request is a parameter, a function from the URL to what came back.
use Prim.Native.String
use webmeow.Prelude.{
  String, Bool, true, false, Option, none, some, ◌==◌, if◌then◌else◌, is_empty, not,
}
use webmeow.Prelude.Json.{Json, null, text_of, get_field}

-- `fetch` or reading the body may throw; otherwise there is `response.ok` and the parsed body,
-- `none` where `JSON.parse` throws.
pub data Reply : Type 0 where
  failed : Reply
  answered : Bool → Option Json → Reply

-- A variable of the environment that is set and not the empty text.
abbrev pub is_set : Option String → Bool
is_set none = false
is_set (some s) = not (is_empty s)

abbrev pub env_text : Option String → String
env_text none = ""
env_text (some s) = s

-- `value === 'processed'`
abbrev pub is_text : Option String → String → Bool
is_text none t = false
is_text (some s) t = s == t

-- Reading a property of `null` throws, which the handler catches.
abbrev status_of : Json → Option Bool
status_of null = none
status_of body = some (is_text (text_of (get_field "status" body)) "processed")

unfoldable pub read_reply : Reply → Option Bool
read_reply failed = none
read_reply (answered false body) = none
read_reply (answered true none) = none
read_reply (answered true (some body)) = status_of body

unfoldable pub arrivals_url : String → String → String
arrivals_url base guest_id = String.◌++◌ base (String.◌++◌ "/arrivals/" guest_id)

unfoldable pub has_guest_cleared_processing :
    Option String → (String → Reply) → String → Option Bool
unfolding read_reply
has_guest_cleared_processing url fetch guest_id =
    if not (is_set url) then none else read_reply (fetch (arrivals_url (env_text url) guest_id))
