-- ===== src/Hub/Tests.antt =====
-- The broadcast service (services/broadcast/src) at concrete inputs.
use webmeow.Prelude.{◌≡◌, refl, false, some, List, [], ◌∷◌, ◌++◌, trim, is_space}
use webmeow.Prelude.Json.{Json, str, obj, end, field}
use webmeow.Hub.Bus.{
  airport_arrival, IslandEvent, Frame, connected, Bus, empty_bus, add_client, remove_client,
  broadcast,
}
use webmeow.Hub.Bus.Delivery.{frames, has}
use webmeow.Hub.Routes.{body_event, post_airport_arrival, get_events, close_events}
use webmeow.Hub.Admin.{Env, announcement, post_announcement}
use webmeow.Prelude.{ℕ, String}
use webmeow.Hub.Publishing.{Panel}
use webmeow.Hub.Streams.{
  Request, opens, closes, airport_arrives, admin_posts, serve_all, expected, frame_of,
}
use webmeow.Hub.Streams.Frames.{frames-serve_all}

abbrev two_clients : Bus
two_clients = record { clients = 1 ∷ 2 ∷ []; written = [] }

abbrev body : Json
body = obj (field "guest_id" (str "ann") end)

abbrev landed : IslandEvent
landed = body_event "e1" "t1" airport_arrival "airport" body

abbrev env : Env
env = record { admin_passcode = some ""; vite_admin_passcode = some "meow" }

abbrev notice : Json
notice = obj (field "message" (str "  Fire drill ") end)

abbrev requests : List Request
requests =
    opens 1
    ∷ airport_arrives "e1" "t1" body
    ∷ opens 2
    ∷ closes 1
    ∷ admin_posts env (some "meow") "e2" "t2" notice
    ∷ []

abbrev first_frames : List Frame
first_frames = connected ∷ frame_of landed ∷ []

abbrev second_frames : List Frame
second_frames = connected ∷ frame_of (announcement "e2" "t2" notice) ∷ []

requests_runs :
    (frames 1 (serve_all requests empty_bus).written ≡ first_frames)
    × (frames 2 (serve_all requests empty_bus).written ≡ second_frames)
unfolding serve_all frames post_announcement trim is_space broadcast close_events remove_client
    get_events add_client post_airport_arrival frame_of
requests_runs = (refl, refl)

frames-serve_all_example :
    frames 2 (serve_all requests empty_bus).written
    ≡ frames 2 empty_bus.written ++ expected 2 (has 2 empty_bus.clients) requests
unfolding serve_all has post_airport_arrival broadcast get_events add_client
frames-serve_all_example = frames-serve_all requests empty_bus 2 tt (refl, (refl, tt))

abbrev panel : Panel
panel = record { message = " Fire drill "; is_publishing = false; toasts = [] }

abbrev status_message : ℕ → String
status_message status = "Request failed"
