-- ===== src/Feed/Tests/Examples.antt =====
-- The feed's theorems (frontend/src/stores/events-store.ts and features/broadcast) at concrete
-- inputs.
use webmeow.Prelude.{◌+◌, ◌≡◌, refl, true, none, some, List, [], ◌∷◌, take, arith}
use webmeow.Prelude.Json.{Json, str, obj, end, field}
use webmeow.Hub.Bus.{Bus}
use webmeow.Feed.Channels.{airport, resort_wide, same, BroadcastEvent}
use webmeow.Feed.Store.{empty_events}
use webmeow.Feed.Store.Delivery.{delivery}
use webmeow.Feed.Store.History.{Call, ingests, clears, run, log, arrivals, run-log}
use webmeow.Feed.Journey.{hotel_confirms, IsPosted, handle_message-event_json}
use webmeow.Feed.Tests.{schema, fresh}

abbrev landing : BroadcastEvent
landing = record {
  id = "e1";
  channel = airport;
  event_type = "airport.arrival";
  message = "landed";
  sender = "airport";
  guest_id = some "ann";
  guest_name = none;
  data_fields = none;
}

abbrev calls : List Call
calls = ingests fresh landing true ∷ clears airport ∷ ingests fresh landing true ∷ []

run-log_example :
    ((run calls empty_events).events resort_wide ≡ take 100 (log calls resort_wide []))
    × ((run calls empty_events).activity_tick resort_wide ≡ 0 + arrivals calls resort_wide)
run-log_example = run-log calls empty_events resort_wide (omega arith)

resort_wide_ticks : arrivals calls resort_wide ≡ 2
unfolding arrivals delivery same
resort_wide_ticks = refl

abbrev guest : Json
guest = obj (field "guest_id" (str "ann") end)

abbrev streams : Bus
streams = record { clients = 3 ∷ 5 ∷ []; written = [] }

handle_message-event_json_example :
    IsPosted hotel_confirms "e2" "t2" guest streams schema fresh empty_events
handle_message-event_json_example =
    handle_message-event_json hotel_confirms "e2" "t2" guest streams schema fresh empty_events
      (λ c. omega arith)
