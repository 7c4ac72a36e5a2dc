-- ===== src/Island/Tests.antt =====
-- The zones, sessions, quests and simulated guests of the island at concrete inputs.
mod Simulated
use webmeow.Prelude.{
  ℕ, String, Option, ◌≤◌, ◌≡◌, refl, true, false, ◌&&◌, ◌↔◌, ◌⊎◌, none, some, List, [], ◌∷◌,
}
use webmeow.Hub.Bus.{beach_full, event_json}
use webmeow.Hub.Routes.{body_event}
use webmeow.Feed.Normalize.{handle_message}
use webmeow.Feed.Store.{empty_events}
use webmeow.Feed.Tests.{schema, fresh}
use webmeow.Prelude.Json.{null}
use webmeow.Island.Zones.{beach, broadcast, zone_events, zone_activity_tick, beach_zone_misses}
use webmeow.Island.Session.{
  GuestProfile, eu, standard, derive_guest, has_admin_role, empty_session_state,
  guest_session_state, partialize, merge, Action, selects_guest, logs_admin_in, reloads, upgrades,
  run, IsConsistent, run-IsConsistent, merge-partialize,
}
use webmeow.Island.Quests.{Facts, empty_visited_zones, use_quest_progress, use_quest_progress_iff}
use webmeow.Island.Simulation.{
  SimGuestState, new, hotel_booked, beach_booked, Answers, step, handle_new, handle_arrived,
  handle_hotel_booked, handle_beach_booked, Reply, thrown, returned, Activity, book_hotel,
}
use webmeow.Island.Simulation.Ledger.{
  walk, reservation_of, activity_of, reservation_after, activity_after, reservation_after-walk,
  book_hotel-eq-some,
}

beach_zone_misses_example :
    (zone_events beach (
        handle_message schema fresh
          (some (event_json (body_event "e1" "t1" beach_full "beach" null)))
          empty_events)
      ≡ [])
    × (zone_activity_tick beach (
          handle_message schema fresh
            (some (event_json (body_event "e1" "t1" beach_full "beach" null)))
            empty_events)
        ≡ 0)
beach_zone_misses_example = beach_zone_misses schema fresh "e1" "t1" null empty_events

abbrev ann : GuestProfile
ann = record {
  id = "ann";
  name = "Ann";
  surname = "Lee";
  age = 31;
  passport = eu;
  priority = standard;
  disability = false;
  avatar = "cat";
  personality = "calm";
}

abbrev actions : List Action
actions =
    selects_guest ann
    ∷ reloads
    ∷ logs_admin_in none
    ∷ upgrades (some record { session = none; guest = some ann })
    ∷ []

abbrev facts : Facts
facts = record {
  arrival_processed = true;
  has_reservation = true;
  has_booked_activity = true;
  asked_parrot = true;
}

abbrev answers : Answers
answers = record { gate = some "G1"; reservation_id = some "r1"; activity_id = some "a1" }

abbrev draws : List (Answers × ℕ)
draws = (answers, 0) ∷ (answers, 0) ∷ (answers, 0) ∷ (answers, 12) ∷ []

walk_ends : (walk draws new).1 ≡ hotel_booked "G1" "r1"
unfolding walk step handle_new handle_arrived handle_hotel_booked handle_beach_booked
walk_ends = refl

abbrev arrival : Reply String
arrival = returned "processed"

abbrev existing : Reply (Option String)
existing = returned none

abbrev posted : Reply String
posted = returned "r2"

abbrev again : Reply (Option String)
again = thrown

abbrev offered : List Activity
offered =
    record { activity_id = "full"; remaining = 0 }
    ∷ record { activity_id = "yoga"; remaining = 3 }
    ∷ []

abbrev has_room : Reply (Option String)
has_room = returned (some "r1")

abbrev done : Reply (Unit {0})
done = returned tt

abbrev offers : Reply (List Activity)
offers = returned offered
