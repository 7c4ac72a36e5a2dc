-- ===== src/Island/Zones.antt =====
-- frontend/src/features/map/constants.ts, zone-registry.ts, hooks/use-zone-events.ts and
-- hooks/use-zone-activity-tick.ts. An imported picture is its file; icons, the islands' titles and
-- decorations are left out. A marker's scale is in hundredths.
use webmeow.Prelude.{ℕ, ◌≤◌, String, ◌≡◌, refl, ap, some, List, arith}
use webmeow.Prelude.Json.{Json}
use webmeow.Hub.Bus.{beach_full, event_json, type_name}
use webmeow.Hub.Routes.{body_event}
use webmeow.Feed.Channels.{ChannelId, same, BroadcastEvent}
use webmeow.Feed.Journey.{shown, handle_message-shown}
use webmeow.Feed.Normalize.{Schema, island_event, channel_from_source, as_record, handle_message}
use webmeow.Feed.Store.{EventsState, ingest_event, file_event, prepend_event}

pub data ZoneId : Type 0 where
  airport hotel beach parrot broadcast : ZoneId

pub data IslandId : Type 0 where
  purrlington alien : IslandId

pub record Position : Type 0 where
  pub x : ℕ
  pub y : ℕ

pub record ZoneDefinition : Type 0 where
  pub id : ZoneId
  pub label : String
  pub description : String
  pub admin_description : String
  pub channel : ChannelId
  pub position : Position
  pub accent : String
  pub marker_src : String
  pub marker_scale : ℕ

pub record IslandZonePlacement : Type 0 where
  pub position : Position
  pub marker_src : String
  pub marker_scale : ℕ

-- `ZONE_REGISTRY`
abbrev pub zone_registry : ZoneId → ZoneDefinition
zone_registry airport = record {
  id = airport;
  label = "Airport";
  description =
      "Join the departure queue and clear passport control. You can't check in anywhere until you've landed.";
  admin_description = "Observe airport arrivals, queue movement, and passport-control events.";
  channel = ChannelId.airport;
  position = record { x = 1600; y = 320 };
  accent = "#38bdf8";
  marker_src = "@/assets/zones/airport.svg";
  marker_scale = 200;
}
zone_registry hotel = record {
  id = hotel;
  label = "Hotel";
  description = "Reserve a room for your stay. The hotel checks you've cleared the airport first.";
  admin_description = "Observe hotel room, reservation, and cancellation events.";
  channel = ChannelId.hotel;
  position = record { x = 1720; y = 900 };
  accent = "#34d399";
  marker_src = "@/assets/zones/hotel.svg";
  marker_scale = 165;
}
zone_registry beach = record {
  id = beach;
  label = "Beach";
  description =
      "Browse activities and grab a spot. Each has limited capacity and guests can only join one at a time.";
  admin_description = "Observe beach activity capacity, booking, and cancellation events.";
  channel = ChannelId.hotel;
  position = record { x = 580; y = 1400 };
  accent = "#fbbf24";
  marker_src = "@/assets/zones/beach.svg";
  marker_scale = 100;
}
zone_registry parrot = record {
  id = parrot;
  label = "Parrot";
  description =
      "Chat with the resort's AI parrot for island guidance, recommendations, and quick answers.";
  admin_description =
      "Observe the AI parrot's activity: chat volume, tool usage, and conversation transcripts.";
  channel = ChannelId.parrot;
  position = record { x = 2380; y = 1560 };
  accent = "#a78bfa";
  marker_src = "@/assets/zones/parrot.svg";
  marker_scale = 100;
}
zone_registry broadcast = record {
  id = broadcast;
  label = "Lighthouse";
  description = "Resort-wide announcements broadcast to every guest on the island.";
  admin_description = "Observe the full island-wide event stream from every service.";
  channel = ChannelId.resort_wide;
  position = record { x = 375; y = 890 };
  accent = "#22d3ee";
  marker_src = "@/assets/zones/lighthouse.svg";
  marker_scale = 200;
}

abbrev pub get_zone_placement : ZoneDefinition → IslandZonePlacement
get_zone_placement zone = record {
  position = zone.position;
  marker_src = zone.marker_src;
  marker_scale = zone.marker_scale;
}

-- `ISLAND_REGISTRY`, the zones of each island.
abbrev pub island_zones : IslandId → ZoneId → IslandZonePlacement
island_zones purrlington zone = get_zone_placement (zone_registry zone)
island_zones alien airport = record {
  position = record { x = 1600; y = 330 };
  marker_src = "assets/island/space-airport.svg";
  marker_scale = 200;
}
island_zones alien hotel = record {
  position = record { x = 1740; y = 890 };
  marker_src = "assets/island/space-hotel.svg";
  marker_scale = 165;
}
island_zones alien beach = record {
  position = record { x = 580; y = 1410 };
  marker_src = "assets/island/space-beach.svg";
  marker_scale = 100;
}
island_zones alien parrot = record {
  position = record { x = 2380; y = 1560 };
  marker_src = "assets/island/space-parrot.svg";
  marker_scale = 100;
}
island_zones alien broadcast = record {
  position = record { x = 375; y = 890 };
  marker_src = "assets/island/space-lighthouse.svg";
  marker_scale = 180;
}

abbrev pub get_zone : ZoneId → ZoneDefinition
get_zone id = zone_registry id

-- The zone, with its place on the island.
abbrev pub get_island_zone : ZoneId → IslandId → ZoneDefinition
get_island_zone id island =
    let placement = island_zones island id in
    record (get_zone id) {
      position = placement.position;
      marker_src = placement.marker_src;
      marker_scale = placement.marker_scale;
    }

-- `useZoneEvents` and `useZoneActivityTick`, on a state of the store.
abbrev pub zone_events : ZoneId → EventsState → List BroadcastEvent
zone_events id s = s.events (get_zone id).channel

abbrev pub zone_activity_tick : ZoneId → EventsState → ℕ
zone_activity_tick id s = s.activity_tick (get_zone id).channel

-- `MAP_W` and `MAP_H`
abbrev pub map_w : ℕ
map_w = 3200

abbrev pub map_h : ℕ
map_h = 2000

-- Every zone of every island lies on the map, and has the identity, the label and the channel that
-- it has on the other island.
pub get_island_zone_on_map :
    (id : ZoneId) (island : IslandId)
    → ((get_island_zone id island).position.x ≤ map_w)
      × ((get_island_zone id island).position.y ≤ map_h)
      × ((get_island_zone id island).id ≡ id)
      × ((get_island_zone id island).label ≡ (get_zone id).label)
      × ((get_island_zone id island).channel ≡ (get_zone id).channel)
get_island_zone_on_map id island = (across id island, down id island, own id, refl, refl)
  where
    across : (id : ZoneId) (island : IslandId) → (get_island_zone id island).position.x ≤ map_w
    across airport purrlington = omega arith
    across airport alien = omega arith
    across hotel purrlington = omega arith
    across hotel alien = omega arith
    across beach purrlington = omega arith
    across beach alien = omega arith
    across parrot purrlington = omega arith
    across parrot alien = omega arith
    across broadcast purrlington = omega arith
    across broadcast alien = omega arith

    down : (id : ZoneId) (island : IslandId) → (get_island_zone id island).position.y ≤ map_h
    down airport purrlington = omega arith
    down airport alien = omega arith
    down hotel purrlington = omega arith
    down hotel alien = omega arith
    down beach purrlington = omega arith
    down beach alien = omega arith
    down parrot purrlington = omega arith
    down parrot alien = omega arith
    down broadcast purrlington = omega arith
    down broadcast alien = omega arith

    own : (id : ZoneId) → (get_zone id).id ≡ id
    own airport = refl
    own hotel = refl
    own beach = refl
    own parrot = refl
    own broadcast = refl

-- The event of a full activity, posted by the beach, is not shown by the beach zone of the map: neither its events nor
-- its tick change when the client reads the event.
pub beach_zone_misses :
    (z : Schema) (fresh : ChannelId → String) (id now : String) (body : Json) (s : EventsState)
    → (zone_events beach
          (handle_message z fresh (some (event_json (body_event id now beach_full "beach" body))) s)
        ≡ zone_events beach s)
      × (zone_activity_tick beach (
            handle_message z fresh
              (some (event_json (body_event id now beach_full "beach" body)))
              s)
          ≡ zone_activity_tick beach s)
unfolding ingest_event file_event prepend_event same shown island_event channel_from_source
    event_json body_event type_name as_record
beach_zone_misses z fresh id now body s =
    let read = handle_message-shown z fresh id now "beach" beach_full body s in
    (ap (zone_events beach) read, ap (zone_activity_tick beach) read)
