-- ===== src/Hub/Bus.antt =====
-- services/broadcast/src/eventBus.ts and types.ts. A client is named by a number that stands for its
-- response object; what is written to the clients is kept in the order of the writes.
pub mod Delivery
use webmeow.Prelude.{ℕ, String, Option, none, some, List, [], ◌∷◌, ◌++◌, map, eqb, if◌then◌else◌}
use webmeow.Prelude.Json.{Json, Fields, null, str, obj, end, field}

pub data EventType : Type 0 where
  airport_arrival hotel_confirm hotel_cancel beach_full beach_available : EventType
  public_announcement resort_announcement : EventType

unfoldable pub type_name : EventType → String
type_name airport_arrival = "airport.arrival"
type_name hotel_confirm = "hotel.reservation_confirmed"
type_name hotel_cancel = "hotel.reservation_cancelled"
type_name beach_full = "beach.activity_full"
type_name beach_available = "beach.activity_available"
type_name public_announcement = "public.announcement"
type_name resort_announcement = "resort.announcement"

-- `source` is missing where a public announcement names no guest.
pub record IslandEvent : Type 0 where
  pub id : String
  pub event_type : EventType
  pub timestamp : String
  pub source : Option Json
  pub payload : Json

-- A field of an object that is sent: `undefined` is left out.
abbrev pub optional : String → Option Json → Fields → Fields
optional k none fs = fs
optional k (some v) fs = field k v fs

-- `JSON.stringify(event)`, as the client parses it.
unfoldable pub event_json : IslandEvent → Json
unfolding type_name
event_json e = obj (
    field "id" (str e.id) (
      field "type" (str (type_name e.event_type)) (
        field "timestamp" (str e.timestamp)
          (optional "source" e.source (field "payload" e.payload end)))))

-- One message of the event stream: the greeting, or an event's name and data.
pub data Frame : Type 0 where
  connected : Frame
  message : String → Json → Frame

pub record Bus : Type 0 where
  pub clients : List ℕ
  pub written : List (ℕ × Frame)

abbrev pub empty_bus : Bus
empty_bus = record { clients = []; written = [] }

unfoldable pub add_client : ℕ → Bus → Bus
add_client c bus = record {
  clients = bus.clients ++ c ∷ [];
  written = bus.written ++ (c, connected) ∷ [];
}

-- `splice(indexOf(c), 1)`, if there is such an index.
unfoldable pub remove_first : ℕ → List ℕ → List ℕ
remove_first c [] = []
remove_first c (d ∷ ds) = if eqb d c then ds else d ∷ remove_first c ds

unfoldable pub remove_client : ℕ → Bus → Bus
unfolding remove_first
remove_client c bus = record bus { clients = remove_first c bus.clients }

unfoldable pub broadcast : IslandEvent → Bus → Bus
broadcast e bus = record bus {
  written =
      bus.written ++ map (λ c. (c, message (type_name e.event_type) (event_json e))) bus.clients;
}
