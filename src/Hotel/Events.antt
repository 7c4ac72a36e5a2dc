-- ===== src/Hotel/Events.antt =====
-- services/hotel/src/broadcast: the events that the hotel posts to the broadcast service. What the
-- service answers is only logged, so the model keeps the requests that were made.
use Prim.Native.String
use webmeow.Prelude.{ℕ, String, Option, List, [], ◌∷◌, if◌then◌else◌, not}
use webmeow.Prelude.Int.{ℤ}
use webmeow.Hotel.Types.{RoomType}
use webmeow.Hotel.Airport.{is_set, env_text}

pub data HotelBroadcastEventType : Type 0 where
  reservation_confirmed reservation_cancelled : HotelBroadcastEventType

-- The values of the enumeration.
unfoldable pub event_name : HotelBroadcastEventType → String
event_name reservation_confirmed = "hotel.reservation_confirmed"
event_name reservation_cancelled = "hotel.reservation_cancelled"

pub record HotelBroadcastEvent : Type 0 where
  pub message : String
  pub reservation_id : String
  pub guest_id : String
  pub party_guest_ids : List String
  pub room_type : RoomType
  pub guest_count : ℕ
  pub check_in_day : ℤ
  pub check_out_day : ℤ

pub record Post : Type 0 where
  pub url : String
  pub event_type : HotelBroadcastEventType
  pub payload : HotelBroadcastEvent

unfoldable pub endpoint_for_event : HotelBroadcastEventType → String
endpoint_for_event reservation_confirmed = "/hotel/confirm"
endpoint_for_event reservation_cancelled = "/hotel/cancel"

-- The requests of one call: none without the address of the broadcast service.
unfoldable pub publish_hotel_event :
    Option String → HotelBroadcastEventType → HotelBroadcastEvent → List Post
unfolding endpoint_for_event
publish_hotel_event base event_type event =
    if not (is_set base)
    then []
    else record {
      url = String.◌++◌ (env_text base) (endpoint_for_event event_type);
      event_type = event_type;
      payload = event;
    }
      ∷ []
