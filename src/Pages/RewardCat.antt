-- ===== src/Pages/RewardCat.antt =====
-- frontend/src/features/quests/components/quest-reward-cat.tsx, with the steps that
-- quests/hooks/use-quest-progress.ts gives it: the cat that wears the rewards. The files of the
-- pictures are functions from their names, as quest-reward-assets.ts has them from the build.
use webmeow.Prelude.{
  ℕ, String, Bool, true, false, not, Option, none, some, List, [], ◌∷◌, ◌++◌, map, find, any,
  is_empty, if◌then◌else◌,
}
use webmeow.Island.Quests.{
  QuestStepDefinition, QuestRewardDefinition, left_hand, right_hand, Layer, VisitedZones, Facts,
  quest_steps, completed_by_id,
}

pub record QuestStep : Type 0 where
  pub step : QuestStepDefinition
  pub completed : Bool

-- `steps`
unfoldable pub steps_of : Facts → VisitedZones → List QuestStep
unfolding completed_by_id
steps_of facts zones =
    map
      (λ (d : QuestStepDefinition). record {
        step = d;
        completed = completed_by_id facts zones d.id;
      })
      quest_steps

abbrev pub active_step_of : List QuestStep → Option QuestStep
active_step_of steps = find (λ (s : QuestStep). not s.completed) steps

-- `{steps.filter((step) => step.completed && step.reward).map((step) => step.reward!)}`
unfoldable pub earned_rewards : List QuestStep → List QuestRewardDefinition
earned_rewards [] = []
earned_rewards (s ∷ rest) =
    let later = earned_rewards rest in
    elim s.step.reward [
      | none ↦ later
      | some reward ↦ if s.completed then reward ∷ later else later
    ]

-- `previewReward`
abbrev pub preview_reward : Option QuestStep → Option QuestRewardDefinition
preview_reward none = none
preview_reward (some s) = if s.completed then none else s.step.reward

abbrev pub with_preview :
    List QuestRewardDefinition → Option QuestRewardDefinition → List QuestRewardDefinition
with_preview earned none = earned
with_preview earned (some reward) = earned ++ (reward ∷ [])

abbrev pub uses_left_hand : QuestRewardDefinition → Bool
uses_left_hand reward = elim reward.placement [ left_hand ↦ true | _ ↦ false ]

abbrev pub uses_right_hand : QuestRewardDefinition → Bool
uses_right_hand reward = elim reward.placement [ right_hand ↦ true | _ ↦ false ]

-- The layers of the cat, each with its place, and whether its hands are drawn over them.
pub record Cat : Type 0 where
  pub earned : List QuestRewardDefinition
  pub preview : Option QuestRewardDefinition
  pub left_hand_shown : Bool
  pub right_hand_shown : Bool

unfoldable pub quest_reward_cat : List QuestStep → Option QuestStep → Cat
unfolding earned_rewards
quest_reward_cat steps active =
    let earned = earned_rewards steps in
    let preview = preview_reward active in
    let visible = with_preview earned preview in
    record {
      earned = earned;
      preview = preview;
      left_hand_shown = any uses_left_hand visible;
      right_hand_shown = any uses_right_hand visible;
    }

-- The pictures that the build finds, by the names of their files.
module _ (reward_assets zone_assets : String → Option String) where
  abbrev pub fallback_asset : Option String → Option String
  fallback_asset none = none
  fallback_asset (some file_name) = if is_empty file_name then none else zone_assets file_name

  abbrev pub or_else : Option String → Option String → Option String
  or_else none other = other
  or_else (some file) other = some file

  unfoldable pub get_reward_asset : String → Option String → Option String
  get_reward_asset file_name fallback = or_else (reward_assets file_name) (fallback_asset fallback)

  -- `RewardLayer`: nothing without a picture; a preview is drawn under the earned rewards.
  abbrev pub drawn : Option String → Layer → Bool → Option (String × Layer × ℕ)
  drawn none layer preview = none
  drawn (some src) layer preview = some (src, layer, if preview then 2 else 3)

  unfoldable pub reward_layer : QuestRewardDefinition → Bool → Option (String × Layer × ℕ)
  unfolding get_reward_asset
  reward_layer reward preview =
      drawn (get_reward_asset reward.asset_file_name reward.fallback_asset_file_name) reward.layer
        preview
