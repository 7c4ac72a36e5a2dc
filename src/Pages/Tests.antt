-- ===== src/Pages/Tests.antt =====
-- The pages of the web app at concrete inputs.
mod Lighthouse
use webmeow.Prelude.{
  All, put, arith, Option, ◌≡◌, refl, true, false, none, some, List, [], ◌∷◌, ◌||◌, not, empty,
  trim, is_space,
}
use webmeow.Island.Session.{
  GuestProfile, eu, standard, empty_session_state, guest_session_state, admin_session_state,
  derive_guest, has_admin_role,
}
use webmeow.Island.Zones.{hotel, broadcast, alien}
use webmeow.Island.Quests.{
  visited_zones, mark_zone_visited, use_quest_progress, completed_by_id, Facts, QuestStepDefinition,
  hotel_step, left_hand, empty_quests, empty_visited_zones,
}
use webmeow.Parrot.Chat.{opened as chat_of, ChatHistoryResponse}
use webmeow.Pages.Panels.{
  ArrivalStatus, ArrivalStatusValue, queued, processing, processed, Answers, zone_panel_content,
  is_locked, use_landed,
}
use webmeow.Pages.Panels.Gates.{is_gate, zone_panel_content-is_locked, is_locked-active_step}
use webmeow.Pages.Visit.{
  navigate, open_zone, handle_select_guest, handle_admin_login, check_login, handle_submit, App,
  start_page, Event, selects_guest, enters_passcode, opens_zone, opens_pass, returns_to_map,
  switches_session, quits, goes_to, map_route, happen, happen_all,
}
use webmeow.Pages.Visit.Routes.{IsGuarded}
use webmeow.Pages.Visit.Entrance.{IsEarned, happen_all-IsGuarded}
use webmeow.Pages.Visit.Quest.{opened, visited_zones-happen_all}
use webmeow.Pages.Conversation.{Desk, is_disabled}
use webmeow.Pages.Conversation.Submitting.{IsAsking, clicks_send-IsAsking}
use webmeow.Pages.Guide.Steps.{IsGuiding, guide_of-IsGuiding}
use webmeow.Pages.MapView.Extent.{IsCovering, IsOnMap, zone_layer-IsOnMap}
use webmeow.Pages.MapView.{compute, zone_layer}

abbrev ann : GuestProfile
ann = record {
  id = "ann";
  name = "Ann";
  surname = "Lee";
  age = 30;
  passport = eu;
  priority = standard;
  disability = false;
  avatar = "";
  personality = "Curious.";
}

abbrev landed_only : Facts
landed_only = record {
  arrival_processed = true;
  has_reservation = false;
  has_booked_activity = false;
  asked_parrot = false;
}

abbrev hotel_quest : QuestStepDefinition
hotel_quest = record {
  id = hotel_step;
  zone_id = hotel;
  title = "Book a room";
  description = "Check into the hotel so the rest of the resort opens up.";
  action_label = "Go to Hotel";
  completed_label = "Room booked";
  reward = some record {
    label = "Hotel badge";
    asset_file_name = "2 hotel.svg";
    fallback_asset_file_name = some "hotel.svg";
    placement = left_hand;
    layer = record { left = "5%"; top = "55%"; width = "30%" };
  };
}

-- What the hooks answer while Ann waits at gate 2.
abbrev at_gate : ArrivalStatusValue → ArrivalStatus
at_gate status = record { guest_id = "ann"; status = status; gate = "G2"; position = none }

abbrev answers : Option ArrivalStatus → Answers
answers arrival = record {
  arrival = arrival;
  is_boarding = false;
  boarded = false;
  reservation = none;
  is_loading_reservation = false;
  is_cancelling = false;
  is_submitting = false;
  confirmed = none;
  thread_items = [];
  history_error = none;
  is_loading_history = false;
  is_history_ready = true;
  is_sending = false;
  events = λ zone. [];
}

zone_panel_content-is_locked_example :
    (is_gate (zone_panel_content hotel (guest_session_state ann) (answers none))
      ≡ is_locked hotel (guest_session_state ann) (answers none))
    × (is_locked broadcast (guest_session_state ann) (answers none)
        ≡ not (use_landed (answers none).arrival))
zone_panel_content-is_locked_example = zone_panel_content-is_locked hotel ann (answers none)

is_locked-active_step_example :
    is_locked hotel (guest_session_state ann) (answers (some (at_gate processed))) ≡ false
unfolding use_quest_progress completed_by_id use_landed
is_locked-active_step_example =
    is_locked-active_step ann (answers (some (at_gate processed))) none [] empty_visited_zones
      hotel_quest refl refl

-- Ann looks at the lighthouse and leaves; then somebody tries two passcodes.
abbrev at_start : App
at_start = record {
  place = start_page false none;
  session = empty_session_state;
  quests = empty_quests;
}

abbrev visit : List Event
visit =
    selects_guest ann
    ∷ opens_zone broadcast
    ∷ opens_pass
    ∷ returns_to_map
    ∷ switches_session
    ∷ goes_to map_route
    ∷ enters_passcode "guess"
    ∷ enters_passcode " purr "
    ∷ opens_zone hotel
    ∷ quits
    ∷ []

happen_all-IsGuarded_example :
    IsGuarded (happen_all "purr" visit at_start)
    × IsEarned "purr" visit at_start (happen_all "purr" visit at_start)
unfolding derive_guest has_admin_role
happen_all-IsGuarded_example = happen_all-IsGuarded "purr" visit at_start ((refl, refl), tt)

visited_zones-happen_all_example :
    visited_zones (some "ann") (happen_all "purr" visit at_start).quests broadcast ≡ (
      opened "purr" visit at_start "ann" broadcast
      || visited_zones (some "ann") at_start.quests broadcast)
visited_zones-happen_all_example =
    visited_zones-happen_all "purr" visit at_start "ann" broadcast refl

abbrev no_history : ChatHistoryResponse
no_history = record { guest_id = "ann"; messages = [] }

abbrev desk : Desk
desk = record {
  value = " Where is the beach? ";
  chat = chat_of (some "ann") (put empty "ann" no_history);
  is_loading_history = false;
}

clicks_send-IsAsking_example : IsAsking ann no_history "m1" desk
unfolding is_disabled trim is_space
clicks_send-IsAsking_example =
    clicks_send-IsAsking ann no_history "m1" desk refl refl refl refl refl

guide_of-IsGuiding_example : IsGuiding landed_only empty_visited_zones
guide_of-IsGuiding_example = guide_of-IsGuiding landed_only empty_visited_zones

zone_layer-IsOnMap_example :
    IsCovering 1280 720 (compute 1280 720)
    × All
        (IsOnMap (compute 1280 720))
        (zone_layer alien (compute 1280 720) (some hotel) (guest_session_state ann) (answers none))
zone_layer-IsOnMap_example =
    zone_layer-IsOnMap 1280 720 alien (some hotel) (guest_session_state ann) (answers none)
      (omega arith) (omega arith)

the_map_is_wide :
    compute 1280 720
    ≡ record { w = 358400; h = 224000; min_scale = record { over = 128000; under = 358400 } }
unfolding compute
the_map_is_wide = refl

ann_has_seen_the_lighthouse :
    visited_zones (some "ann") (happen_all "purr" visit at_start).quests broadcast ≡ true
unfolding visited_zones happen_all happen navigate open_zone handle_select_guest handle_admin_login
    check_login handle_submit mark_zone_visited guest_session_state admin_session_state trim
    is_space
ann_has_seen_the_lighthouse = refl
