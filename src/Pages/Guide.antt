-- ===== src/Pages/Guide.antt =====
-- frontend/src/features/quests/components/quest-guide.tsx, with what quests/hooks/use-quest-progress.ts
-- gives it: the guide of the quest. The progress bar is the pair that it is computed from.
pub mod Steps
use webmeow.Prelude.{
  ℕ, zero, suc, ◌+◌, String, Bool, true, false, ◌&&◌, ◌||◌, not, Option, none, some, List, [], ◌∷◌,
  ◌++◌, map, find, any, keep, length, eqb, or_default, is_empty, if◌then◌else◌,
}
use Prim.Native.String
use webmeow.Island.Session.{SessionState, GuestProfile, has_admin_role}
use webmeow.Island.Zones.{ZoneId, zone_registry}
use webmeow.Island.Quests.{
  QuestStepId, airport_step, hotel_step, beach_step, parrot_step, broadcast_step,
  QuestStepDefinition, QuestRewardDefinition, Placement, left_hand, right_hand, Layer, QuestStore,
  VisitedZones, Facts, quest_steps, completed_by_id, visited_zones,
}
use webmeow.Pages.Panels.{is_there}
use webmeow.Pages.RewardCat.{QuestStep, steps_of, active_step_of, Cat, quest_reward_cat}

abbrev pub guest_id_of : Option GuestProfile → Option String
guest_id_of none = none
guest_id_of (some guest) = some guest.id

-- `completionDismissed`
abbrev pub is_dismissed : Option String → QuestStore → Bool
is_dismissed none quests = false
is_dismissed (some id) quests =
    if is_empty id then false else or_default (quests.completion_dismissed_by_guest id) false

-- An entry of the list of steps.
pub record StepEntry : Type 0 where
  pub number : ℕ
  pub title : String
  pub detail : String
  pub is_active : Bool
  pub is_completed : Bool

abbrev pub id_place : QuestStepId → ℕ
id_place airport_step = 0
id_place hotel_step = 1
id_place beach_step = 2
id_place parrot_step = 3
id_place broadcast_step = 4

abbrev pub is_active_id : Option QuestStep → QuestStepId → Bool
is_active_id none id = false
is_active_id (some s) id = eqb (id_place s.step.id) (id_place id)

-- `detail`
abbrev pub detail_of : Option QuestRewardDefinition → QuestStep → String
detail_of none s =
    if s.completed then s.step.completed_label else (zone_registry s.step.zone_id).label
detail_of (some reward) s =
    if s.completed
    then String.◌++◌ "Unlocked " reward.label
    else String.◌++◌ "Reward: " reward.label

unfoldable pub step_entries : ℕ → Option QuestStep → List QuestStep → List StepEntry
step_entries index active [] = []
step_entries index active (s ∷ rest) =
    record {
      number = index + 1;
      title = s.step.title;
      detail = detail_of s.step.reward s;
      is_active = is_active_id active s.step.id;
      is_completed = s.completed;
    }
    ∷ step_entries (suc index) active rest

-- What the guide shows while it is not collapsed: its text, the reward that waits, the button that opens
-- a zone, with its label, and whether the guide can be hidden.
pub record Body : Type 0 where
  pub text : Option String
  pub reward_waiting : Option String
  pub open_button : Option (ZoneId × String)
  pub hide_button : Bool
  pub entries : List StepEntry

pub record Guide : Type 0 where
  pub title : Option String
  pub completed_count : ℕ
  pub total_count : ℕ
  pub cat : Cat
  pub body : Option Body

abbrev pub title_of : Option QuestStep → Option String
title_of none = none
title_of (some s) = some s.step.title

abbrev pub description_of : Option QuestStep → Option String
description_of none = none
description_of (some s) = some s.step.description

abbrev pub label_of : Option QuestRewardDefinition → Option String
label_of none = none
label_of (some reward) = some reward.label

abbrev pub waiting_of : Option QuestStep → Option String
waiting_of none = none
waiting_of (some s) = label_of s.step.reward

abbrev pub button_of : Option QuestStep → Option (ZoneId × String)
button_of none = none
button_of (some s) = some (s.step.zone_id, s.step.action_label)

unfoldable pub guide_of : Bool → List QuestStep → Guide
unfolding quest_reward_cat step_entries
guide_of collapsed steps =
    let active = active_step_of steps in
    let count = length (keep (λ (s : QuestStep). s.completed) steps) in
    let total = length steps in
    let is_complete = eqb count total in
    let body : Body = record {
      text =
          if is_complete
          then some "Every guest activity has been touched. The island is yours now."
          else description_of active;
      reward_waiting = waiting_of active;
      open_button = button_of active;
      hide_button = is_complete;
      entries = step_entries 0 active steps;
    } in
    record {
      title = if is_complete then some "Island tour complete" else title_of active;
      completed_count = count;
      total_count = total;
      cat = quest_reward_cat steps active;
      body = if collapsed then none else some body;
    }

-- `QuestGuide`: for a guest who has not hidden it.
unfoldable pub quest_guide : Bool → SessionState → QuestStore → Facts → Option Guide
unfolding guide_of steps_of has_admin_role visited_zones
quest_guide collapsed s quests facts =
    let available = is_there s.guest && not (has_admin_role s.session) in
    if not available || is_dismissed (guest_id_of s.guest) quests
    then none
    else some (guide_of collapsed (steps_of facts (visited_zones (guest_id_of s.guest) quests)))
