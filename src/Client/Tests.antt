-- ===== src/Client/Tests.antt =====
-- The client of the services' APIs (frontend/src/lib/api-client.ts) at concrete inputs.
use Prim.Native.String
use webmeow.Prelude.{String, ◌≡◌, refl, none, some, List, [], ◌∷◌}
use webmeow.Prelude.Int.{pos, negsuc}
use webmeow.Prelude.Json.{null, num, str, arr, obj, Items, nil, cons, Fields, end, field}
use webmeow.Client.Errors.{decimal, text_of_value, get_error_message}
use webmeow.Client.Sharing.{
  resolved, answer, other_error, create_json_api, Event, gets, receives, finishes, happen_all,
}
use webmeow.Client.Sharing.InFlight.{IsShared, happen_all-IsShared}
use webmeow.Client.Sharing.Drain.{closing, closing-in_flight_gets}

-- What the validation of a body answers.
abbrev invalid : Items
invalid =
    cons (obj (field "loc" (num (pos 1)) (field "msg" (str "Field required") end)))
      (cons (arr (cons (num (negsuc 41)) (cons null (cons (num (pos 107)) nil)))) nil)

abbrev refusal : Fields
refusal = field "message" (str "Bad Request") (field "detail" (arr invalid) end)

refusal_message :
    get_error_message (some (obj refusal)) "Request failed with status code 422"
    ≡ "Field required; -42,,107"
unfolding get_error_message text_of_value decimal
refusal_message = refl

abbrev address : String → String
address url = String.◌++◌ "/api/hotel" url

abbrev traffic : List (Event address resolved)
traffic =
    gets "/rooms"
    ∷ gets "/rooms"
    ∷ gets "/reservations"
    ∷ receives 0 (answer null)
    ∷ finishes 0 "/api/hotel/rooms"
    ∷ gets "/rooms"
    ∷ []

happen_all-IsShared_example :
    IsShared "/api/hotel/rooms" (happen_all address resolved traffic create_json_api)
happen_all-IsShared_example = happen_all-IsShared address resolved traffic "/api/hotel/rooms"

closing-in_flight_gets_example :
    ((happen_all address resolved
        (closing address resolved
          (λ key. other_error key)
          (happen_all address resolved traffic create_json_api).running)
        (happen_all address resolved traffic create_json_api)).running
      ≡ [])
    × ((happen_all address resolved
            (closing address resolved
              (λ key. other_error key)
              (happen_all address resolved traffic create_json_api).running)
            (happen_all address resolved traffic create_json_api)).in_flight_gets
          "/api/hotel/rooms"
        ≡ none)
closing-in_flight_gets_example =
    closing-in_flight_gets address resolved traffic (λ key. other_error key) "/api/hotel/rooms"
