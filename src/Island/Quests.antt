-- ===== src/Island/Quests.antt =====
-- frontend/src/features/quests/quest-definitions.ts, quest-store.ts and hooks/use-quest-progress.ts. Of
-- a step its icon is left out.
use webmeow.Prelude.{
  ℕ, ◌≤◌, String, ◌≡◌, refl, Bool, true, false, ◌==◌, ◌&&◌, ◌||◌, not, ◌↔◌, Option, none, some,
  List, [], ◌∷◌, Dict, empty, put, or_default, length, keep, find, is_empty, eqb, if◌then◌else◌,
  arith, eq_refl,
}
use webmeow.Island.Zones.{ZoneId, airport, hotel, beach, parrot, broadcast}

pub data QuestStepId : Type 0 where
  airport_step hotel_step beach_step parrot_step broadcast_step : QuestStepId

pub data Placement : Type 0 where
  head neck body left_hand right_hand : Placement

pub record Layer : Type 0 where
  pub left : String
  pub top : String
  pub width : String

pub record QuestRewardDefinition : Type 0 where
  pub label : String
  pub asset_file_name : String
  pub fallback_asset_file_name : Option String
  pub placement : Placement
  pub layer : Layer

pub record QuestStepDefinition : Type 0 where
  pub id : QuestStepId
  pub zone_id : ZoneId
  pub title : String
  pub description : String
  pub action_label : String
  pub completed_label : String
  pub reward : Option QuestRewardDefinition

-- `QUEST_STEPS`
abbrev pub quest_steps : List QuestStepDefinition
quest_steps =
    record {
      id = airport_step;
      zone_id = airport;
      title = "Clear passport control";
      description = "Open the airport and board the flight to enter the island.";
      action_label = "Go to Airport";
      completed_label = "Landed";
      reward = none;
    }
    ∷ record {
      id = hotel_step;
      zone_id = hotel;
      title = "Book a room";
      description = "Check into the hotel so the rest of the resort opens up.";
      action_label = "Go to Hotel";
      completed_label = "Room booked";
      reward = some record {
        label = "Hotel badge";
        asset_file_name = "2 hotel.svg";
        fallback_asset_file_name = some "hotel.svg";
        placement = left_hand;
        layer = record { left = "5%"; top = "55%"; width = "30%" };
      };
    }
    ∷ record {
      id = beach_step;
      zone_id = beach;
      title = "Choose a beach activity";
      description = "Pick any available beach activity and claim a spot.";
      action_label = "Go to Beach";
      completed_label = "Activity booked";
      reward = some record {
        label = "Beach garland";
        asset_file_name = "2 beach.svg";
        fallback_asset_file_name = none;
        placement = neck;
        layer = record { left = "13%"; top = "37%"; width = "74%" };
      };
    }
    ∷ record {
      id = parrot_step;
      zone_id = parrot;
      title = "Ask the island assistant";
      description = "Send the parrot one question about queues, rooms, or plans.";
      action_label = "Go to Parrot";
      completed_label = "Question asked";
      reward = some record {
        label = "Parrot plume";
        asset_file_name = "2 parrot.svg";
        fallback_asset_file_name = none;
        placement = head;
        layer = record { left = "5%"; top = "-2%"; width = "90%" };
      };
    }
    ∷ record {
      id = broadcast_step;
      zone_id = broadcast;
      title = "Check live announcements";
      description = "Open the lighthouse feed to see island-wide resort events.";
      action_label = "Go to Lighthouse";
      completed_label = "Feed checked";
      reward = some record {
        label = "Lighthouse charm";
        asset_file_name = "2 lighthouse.svg";
        fallback_asset_file_name = none;
        placement = right_hand;
        layer = record { left = "57%"; top = "53%"; width = "35%" };
      };
    }
    ∷ []

-- `Partial<Record<ZoneId, boolean>>`: a zone that is missing is not visited.
abbrev pub VisitedZones : Type 0
VisitedZones = ZoneId → Bool

abbrev pub place : ZoneId → ℕ
place airport = 0
place hotel = 1
place beach = 2
place parrot = 3
place broadcast = 4

abbrev pub empty_visited_zones : VisitedZones
empty_visited_zones z = false

pub record QuestStore : Type 0 where
  pub visited_zones_by_guest : Dict VisitedZones
  pub completion_dismissed_by_guest : Dict Bool

abbrev pub empty_quests : QuestStore
empty_quests = record { visited_zones_by_guest = empty; completion_dismissed_by_guest = empty }

-- `{ ...zones, [zoneId]: true }`
abbrev pub with_zone : VisitedZones → ZoneId → VisitedZones
with_zone zones zone z = if eqb (place zone) (place z) then true else zones z

unfoldable pub mark_zone_visited : String → ZoneId → QuestStore → QuestStore
mark_zone_visited guest_id zone_id s = record s {
  visited_zones_by_guest =
      put s.visited_zones_by_guest guest_id
        (with_zone (or_default (s.visited_zones_by_guest guest_id) empty_visited_zones) zone_id);
}

unfoldable pub set_completion_dismissed : String → Bool → QuestStore → QuestStore
set_completion_dismissed guest_id dismissed s = record s {
  completion_dismissed_by_guest = put s.completion_dismissed_by_guest guest_id dismissed;
}

-- `guestId ? (visitedZonesByGuest[guestId] ?? EMPTY_VISITED_ZONES) : EMPTY_VISITED_ZONES`
unfoldable pub visited_zones : Option String → QuestStore → VisitedZones
visited_zones none s = empty_visited_zones
visited_zones (some guest_id) s =
    if is_empty guest_id
    then empty_visited_zones
    else or_default (s.visited_zones_by_guest guest_id) empty_visited_zones

-- What the other services say of the guest.
pub record Facts : Type 0 where
  pub arrival_processed : Bool
  pub has_reservation : Bool
  pub has_booked_activity : Bool
  pub asked_parrot : Bool

unfoldable pub completed_by_id : Facts → VisitedZones → QuestStepId → Bool
completed_by_id facts zones airport_step = facts.arrival_processed
completed_by_id facts zones hotel_step = facts.has_reservation
completed_by_id facts zones beach_step = facts.has_booked_activity
completed_by_id facts zones parrot_step = facts.asked_parrot
completed_by_id facts zones broadcast_step = zones broadcast

pub record QuestProgress : Type 0 where
  pub active_step : Option QuestStepDefinition
  pub completed_count : ℕ
  pub is_complete : Bool

-- `find` and `filter` over the steps, each with its `completed`.
unfoldable pub use_quest_progress : Facts → VisitedZones → QuestProgress
unfolding completed_by_id
use_quest_progress facts zones =
    let completed = λ (step : QuestStepDefinition). completed_by_id facts zones step.id in
    let count = length (keep completed quest_steps) in
    record {
      active_step = find (λ step. not (completed step)) quest_steps;
      completed_count = count;
      is_complete = eqb count (length quest_steps);
    }

-- The quest is complete exactly where no step is left to do, which is where the guest has passed the
-- airport, has a room and an activity, has asked the parrot and has seen the announcements; never
-- more than five steps are counted.
pub use_quest_progress_iff :
    (facts : Facts) (zones : VisitedZones)
    → ((use_quest_progress facts zones).is_complete ≡ true
        ↔ (use_quest_progress facts zones).active_step ≡ none)
      × ((use_quest_progress facts zones).is_complete ≡ (
          facts.arrival_processed
          && facts.has_reservation
          && facts.has_booked_activity
          && facts.asked_parrot
          && zones broadcast))
      × ((use_quest_progress facts zones).completed_count ≤ 5)
unfolding use_quest_progress completed_by_id
use_quest_progress_iff facts zones = ground arith

-- A zone that is visited is remembered for the guest who visited it, in addition to what that guest
-- had visited; other guests' zones and all dismissals are as they were. The guest's identifier is
-- not empty.
pub visited_zones-mark_zone_visited :
    (guest other : String) (zone z : ZoneId) (s : QuestStore)
    → is_empty guest ≡ false
    → (visited_zones (some guest) (mark_zone_visited guest zone s) z
        ≡ (eqb (place zone) (place z) || visited_zones (some guest) s z))
      × ((guest == other) ≡ false
          → visited_zones (some other) (mark_zone_visited guest zone s) z
            ≡ visited_zones (some other) s z)
      × ((mark_zone_visited guest zone s).completion_dismissed_by_guest
          ≡ s.completion_dismissed_by_guest)
unfolding visited_zones mark_zone_visited
visited_zones-mark_zone_visited guest other zone z s h =
    (ground (arith, eq_refl guest), (λ n. ground arith), refl)
