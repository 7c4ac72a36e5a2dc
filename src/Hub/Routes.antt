-- ===== src/Hub/Routes.antt =====
-- services/broadcast/src/routes/airport.ts, beach.ts, hotel.ts, public.ts and events.ts. A handler gets
-- the identifier that `uuid()` makes, the instant of `new Date()` and the parsed body; the JSON body
-- parser gives it an object or an array.
use webmeow.Prelude.{ℕ, String, true, some}
use webmeow.Prelude.Json.{Json, bool, str, obj, end, field, get_field}
use webmeow.Hub.Bus.{
  EventType, airport_arrival, hotel_confirm, hotel_cancel, beach_full, beach_available,
  public_announcement, optional, IslandEvent, Bus, add_client, remove_client, broadcast,
}

pub record Reply : Type 0 where
  pub status : ℕ
  pub answer : Json

abbrev pub success : Reply
success = record { status = 200; answer = obj (field "success" (bool true) end) }

-- The event that a service's handler makes of the request's body.
unfoldable pub body_event : String → String → EventType → String → Json → IslandEvent
body_event id now t source body = record {
  id = id;
  event_type = t;
  timestamp = now;
  source = some (str source);
  payload = obj (field "body" body end);
}

unfoldable pub post_airport_arrival : String → String → Json → Bus → Reply × Bus
post_airport_arrival id now body bus =
    (success, broadcast (body_event id now airport_arrival "airport" body) bus)

unfoldable pub post_hotel_confirm : String → String → Json → Bus → Reply × Bus
post_hotel_confirm id now body bus =
    (success, broadcast (body_event id now hotel_confirm "hotel" body) bus)

unfoldable pub post_hotel_cancel : String → String → Json → Bus → Reply × Bus
post_hotel_cancel id now body bus =
    (success, broadcast (body_event id now hotel_cancel "hotel" body) bus)

unfoldable pub post_beach_full : String → String → Json → Bus → Reply × Bus
post_beach_full id now body bus =
    (success, broadcast (body_event id now beach_full "beach" body) bus)

unfoldable pub post_beach_available : String → String → Json → Bus → Reply × Bus
post_beach_available id now body bus =
    (success, broadcast (body_event id now beach_available "beach" body) bus)

unfoldable pub public_event : String → String → Json → IslandEvent
public_event id now body = record {
  id = id;
  event_type = public_announcement;
  timestamp = now;
  source = get_field "guestName" body;
  payload = obj (optional "message" (get_field "message" body) end);
}

unfoldable pub post_public : String → String → Json → Bus → Reply × Bus
post_public id now body bus = (success, broadcast (public_event id now body) bus)

-- A client opens the event stream, and the connection closes: the request's `close` and the
-- response's `close` each remove the client.
unfoldable pub get_events : ℕ → Bus → Bus
get_events c bus = add_client c bus

unfoldable pub close_events : ℕ → Bus → Bus
close_events c bus = remove_client c (remove_client c bus)
