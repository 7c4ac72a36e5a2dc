-- ===== src/Pages/Guide/Steps.antt =====
-- frontend/src/features/quests/components/quest-guide.tsx and quest-reward-cat.tsx: the guide against
-- what the guest has done.
use webmeow.Prelude.{
  ℕ, ◌+◌, ◌≡◌, Bool, false, ◌&&◌, ◌||◌, not, Option, none, some, String, length, keep, arith,
  if◌then◌else◌,
}
use webmeow.Island.Zones.{ZoneId, airport, hotel, beach, parrot, broadcast}
use webmeow.Island.Quests.{Facts, VisitedZones, completed_by_id}
use webmeow.Pages.RewardCat.{steps_of, quest_reward_cat, earned_rewards}
use webmeow.Pages.Guide.{Body, StepEntry, guide_of, step_entries}

-- The rewards earned, the hands shown and the steps that are marked as active.
abbrev active_entries : Option Body → ℕ
active_entries none = 0
active_entries (some b) = length (keep (λ (e : StepEntry). e.is_active) b.entries)

abbrev can_hide : Option Body → Bool
can_hide none = false
can_hide (some b) = b.hide_button

abbrev opened_zone : Option (ZoneId × String) → Option ZoneId
opened_zone none = none
opened_zone (some (zone, label)) = some zone

abbrev opens : Option Body → Option ZoneId
opens none = none
opens (some b) = opened_zone b.open_button

-- Where the first thing that the guest has not done is done.
abbrev next_zone : Facts → VisitedZones → Option ZoneId
next_zone f zones =
    if not f.arrival_processed
    then some airport
    else if not f.has_reservation
    then some hotel
    else if not f.has_booked_activity
    then some beach
    else if not f.asked_parrot
    then some parrot
    else if not (zones broadcast)
    then some broadcast
    else none

abbrev all_done : Facts → VisitedZones → Bool
all_done f zones =
    f.arrival_processed
    && f.has_reservation
    && f.has_booked_activity
    && f.asked_parrot
    && zones broadcast

-- The ways on that the guide offers, and what the cat wears.
abbrev pub IsGuiding : Facts → VisitedZones → Type 0
IsGuiding f zones =
    (let g = guide_of false (steps_of f zones) in
      (can_hide g.body ≡ all_done f zones)
      × (opens g.body ≡ next_zone f zones)
      × (active_entries g.body ≡ (if all_done f zones then 0 else 1))
      × (length g.cat.earned + (if f.arrival_processed then 1 else 0) ≡ g.completed_count)
      × (g.cat.left_hand_shown ≡ (f.arrival_processed || f.has_reservation))
      × (g.cat.right_hand_shown ≡ (
          (f.arrival_processed && f.has_reservation && f.has_booked_activity && f.asked_parrot)
          || zones broadcast)))

-- Whatever the guest has done, the guide that is not collapsed either leads on, with one step marked as
-- active and a button that opens the zone of the first thing that the guest has not done (landing, a
-- reservation, an activity, asking the parrot, visiting the lighthouse), or, once everything is done,
-- has no such button and can be hidden.
-- The cat wears a reward for each completed step but the airport's. Its left hand is drawn once the
-- guest has landed or has a room, its right hand once only the lighthouse is left or it has been
-- visited.
pub guide_of-IsGuiding : (f : Facts) (zones : VisitedZones) → IsGuiding f zones
unfolding guide_of steps_of completed_by_id quest_reward_cat step_entries earned_rewards
guide_of-IsGuiding f zones = ground arith
