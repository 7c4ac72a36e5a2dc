-- ===== src/Beach/Listing.antt =====
-- frontend/src/features/beach/components/activities-list.tsx, activity-card.tsx and
-- activity-action.tsx: what the page shows of the activities, and what its buttons do. A view is a
-- value: the texts, the buttons and whether they can be pressed; the styles are left out. The places
-- of an activity are natural numbers, as the beach answers them.
pub mod Enabled
pub mod Presses
use webmeow.Prelude.{
  ℕ, ◌-◌, ◌*◌, String, Bool, true, false, ◌==◌, ◌&&◌, ◌||◌, not, Option, none, some, List, [], ◌∷◌,
  map, eqb, ltb, leb, if◌then◌else◌,
}
use webmeow.Prelude.Int.{ℤ, pos, ◌+ℤ◌, leb_ℤ}
use webmeow.Tokens.Rules.{get_activity_token_cost}
use webmeow.Tokens.Wallet.{Booking, Wallet, balance, tracked, cost_if}
use webmeow.Beach.Activities.{Activity}
use webmeow.Beach.Booking.{BeachService, Page, book_from_page, cancel_from_page}

-- What a button shows: the loader or a text.
pub data Face : Type 0 where
  loader : Face
  reads : String → Face

-- The button of a card, and whether it can be pressed.
pub data ActionButton : Type 0 where
  book_button cancel_button : Bool → Face → ActionButton

unfoldable pub activity_action : Bool → Bool → Bool → Bool → Bool → Bool → ActionButton
activity_action is_booked is_replacing is_full is_affordable is_booking is_cancelling =
    let is_mutating = is_booking || is_cancelling in
    if is_booked
    then cancel_button (not is_mutating) (if is_cancelling then loader else reads "Cancel")
    else book_button (not (is_full || is_mutating || not is_affordable)) (
        if is_booking
        then loader
        else if not is_affordable
        then reads "Need tokens"
        else if is_replacing
        then reads "Switch booking"
        else reads "Book")

-- `barColor`, by how much of the activity is taken.
pub data Bar : Type 0 where
  taken nearly_taken available : Bar

-- `filled >= 1` and `filled >= 0.8`, without the division.
unfoldable pub bar_color : Activity → Bar
bar_color a =
    let filled = a.capacity - a.remaining in
    if not (ltb 0 a.capacity)
    then taken
    else if leb a.capacity filled
    then taken
    else if leb (8 * a.capacity) (10 * filled)
    then nearly_taken
    else available

-- "Full" or the number of places left.
pub data Places : Type 0 where
  full : Places
  left : ℕ → Places

pub record ActivityCard : Type 0 where
  pub activity : Activity
  pub is_booked : Bool
  pub token_cost : ℕ
  pub bar : Bar
  pub places : Places
  pub action : ActionButton

-- What the hooks give the list.
pub record ListState : Type 0 where
  pub guest : Option String
  pub wallet : Wallet
  pub activities : List Activity
  pub is_loading : Bool
  pub booked_activity_id : Option String
  pub is_loading_booked : Bool
  pub is_booking : Bool
  pub is_cancelling : Bool

-- `guest ? (s.balances[guest.id] ?? 0) : 0`, and the guest's tracked booking.
abbrev pub token_balance : Option String → Wallet → ℤ
token_balance none w = pos 0
token_balance (some g) w = balance w g

abbrev pub tracked_activity_booking : Option String → Wallet → Option Booking
tracked_activity_booking none w = none
tracked_activity_booking (some g) w = tracked w g

-- `bookedActivityId === activity.activity_id`
abbrev pub is_booked_id : Option String → String → Bool
is_booked_id none id = false
is_booked_id (some b) id = b == id

-- `bookedActivityId !== null && !isBooked`
abbrev pub replaces : Option String → Bool → Bool
replaces none is_booked = false
replaces (some b) is_booked = not is_booked

-- The card of an activity.
unfoldable pub card_of : ListState → Activity → ActivityCard
unfolding bar_color
card_of s a =
    let is_booked = is_booked_id s.booked_activity_id a.activity_id in
    let is_replacing = replaces s.booked_activity_id is_booked in
    let cost = get_activity_token_cost a.activity_id a.activity_name in
    let refundable =
      if is_replacing
      then cost_if (tracked_activity_booking s.guest s.wallet) s.booked_activity_id
      else pos 0 in
    let is_affordable = leb_ℤ (pos cost) (token_balance s.guest s.wallet +ℤ refundable) in
    let is_full = eqb a.remaining 0 in
    record {
      activity = a;
      is_booked = is_booked;
      token_cost = cost;
      bar = bar_color a;
      places = if is_full then full else left a.remaining;
      action =
          activity_action is_booked is_replacing is_full (is_booked || is_affordable) s.is_booking
            s.is_cancelling;
    }

pub data ListView : Type 0 where
  spinner no_activities : ListView
  cards : ℤ → List ActivityCard → ListView

abbrev list_or_notice : ListState → List Activity → ListView
list_or_notice s [] = no_activities
list_or_notice s (a ∷ rest) = cards (token_balance s.guest s.wallet) (map (card_of s) (a ∷ rest))

unfoldable pub activities_list : ListState → ListView
activities_list s =
    if s.is_loading || s.is_loading_booked then spinner else list_or_notice s s.activities

module _ (B : BeachService) where
  -- `onBook` and `onCancel`: a button that is disabled does nothing.
  unfoldable pub press : Option String → Option String → ActivityCard → Page B → Page B
  press guest current card p = elim card.action [
    | book_button true face ↦
        book_from_page B guest card.activity.activity_id (pos card.token_cost) current p
    | book_button false face ↦ p
    | cancel_button true face ↦
        cancel_from_page B guest card.activity.activity_id (pos card.token_cost) p
    | cancel_button false face ↦ p
  ]
