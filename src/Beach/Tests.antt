-- ===== src/Beach/Tests.antt =====
-- The beach's handlers and the booking page (frontend/src/mocks/handlers/beach.ts, features/beach) at
-- concrete inputs.
use webmeow.Prelude.{◌≡◌, refl, if◌then◌else◌, true, false, none, some, List, [], ◌∷◌}
use webmeow.Prelude.Int.{pos, ◌+ℤ◌, ◌-ℤ◌}
use webmeow.Tokens.Wallet.{
  empty_wallet, credit_reservation_tokens, can_afford_activity, get_refundable_cost,
  spend_activity_tokens,
}
use webmeow.Tokens.Wallet.Exchange.{worth}
use webmeow.Beach.Activities.{
  Activity, Storage, empty_storage, listed, load_bookings, booking_of, book_activity, book_found,
  status_code, load_activities, save_activities, save_bookings, change_remaining, cancel_activity,
}
use webmeow.Beach.Activities.Counting.{remaining_of, is_listed, guests_of, places}
use webmeow.Beach.Activities.Places.{
  IsOffered, Request, books, cancels, serve_all, places-serve_all,
}
use webmeow.Beach.Booking.{BeachService, Page, request_failed, tokens_spent, book_from_page}
use webmeow.Beach.Booking.Agreement.{IsAgreed, IsShownAll, Action, act, act_all, act_all-IsAgreed}
use webmeow.Beach.Booking.Mock.{mock_service}
use webmeow.Tokens.Rules.{get_activity_token_cost, look_up}
use webmeow.Beach.Listing.{
  ListState, book_button, cancel_button, reads, nearly_taken, card_of, activity_action, bar_color,
}
use webmeow.Beach.Listing.Enabled.{Press, press_shown, is_offered, press_shown-is_offered}
use webmeow.Beach.Listing.Presses.{IsSound, press_all, press_all-IsSound}

-- Bob's booking is from an older version.
abbrev stored : Storage
stored = record {
  activities = none;
  bookings = some (("bob", listed ("activity-kayaking" ∷ "activity-beach-yoga" ∷ [])) ∷ []);
}

abbrev requests : List Request
requests =
    books "activity-beach-yoga" "ann"
    ∷ books "activity-snorkeling" "ann"
    ∷ cancels "activity-beach-yoga" "bob"
    ∷ []

places-serve_all_example :
    (places "activity-beach-yoga" (serve_all requests stored) ≡ places "activity-beach-yoga" stored)
    × IsOffered "activity-beach-yoga" (serve_all requests stored)
unfolding is_listed
places-serve_all_example = places-serve_all "activity-beach-yoga" requests stored (refl, refl)

yoga_has_twelve : places "activity-beach-yoga" stored ≡ 12
unfolding places remaining_of guests_of load_bookings
yoga_has_twelve = refl

abbrev page : Page mock_service
unfolding mock_service
page = record {
  store = empty_storage;
  wallet = (credit_reservation_tokens empty_wallet "ann" "r1" (pos 8)).1;
  toasts = [];
}

abbrev actions : List (Action mock_service)
actions =
    Action.books "ann" "activity-kayaking" (pos 4) none
    ∷ Action.books "ann" "activity-beach-yoga" (pos 2) (some "activity-kayaking")
    ∷ Action.cancels "ann" "activity-beach-yoga" (pos 2)
    ∷ []

actions_shown : IsShownAll mock_service "ann" actions page
unfolding IsShownAll page credit_reservation_tokens mock_service load_bookings booking_of
    book_from_page act can_afford_activity get_refundable_cost ◌+ℤ◌ book_activity book_found
    status_code load_activities save_activities save_bookings change_remaining cancel_activity
    spend_activity_tokens ◌-ℤ◌
actions_shown = ((λ e. refl), ((λ e. refl), ((λ e. refl), tt)))

act_all-IsAgreed_example :
    IsAgreed mock_service "ann" (act_all mock_service actions page)
    × (worth (act_all mock_service actions page).wallet "ann" ≡ worth page.wallet "ann")
unfolding page credit_reservation_tokens mock_service load_bookings booking_of
act_all-IsAgreed_example = act_all-IsAgreed mock_service actions "ann" page actions_shown refl

-- Ann goes from kayaking to yoga, cannot afford the cruise, and cancels.
abbrev kayaking : Activity
kayaking = record {
  activity_id = "activity-kayaking";
  activity_name = "Kayaking";
  description = none;
  capacity = 6;
  remaining = 4;
}

abbrev cruise : Activity
cruise = record {
  activity_id = "activity-sunset-cruise";
  activity_name = "Sunset Cruise";
  description = none;
  capacity = 10;
  remaining = 2;
}

abbrev pressed_on : Activity → Press
pressed_on a = record {
  activities = kayaking ∷ cruise ∷ [];
  pressed = a;
  is_booking = false;
  is_cancelling = false;
}

abbrev presses : List Press
presses =
    pressed_on kayaking
    ∷ record (pressed_on cruise) { is_booking = true }
    ∷ pressed_on cruise
    ∷ pressed_on cruise
    ∷ []

press_all-IsSound_example :
    IsSound mock_service "ann" page (press_all mock_service "ann" presses page)
unfolding page credit_reservation_tokens mock_service load_bookings booking_of
press_all-IsSound_example = press_all-IsSound mock_service "ann" presses page refl tt

press_shown-is_offered_example :
    ((press_shown mock_service "ann" (pressed_on kayaking) page).store ≡ (
      if is_offered mock_service "ann" (pressed_on kayaking) page
      then (BeachService.book mock_service "activity-kayaking" "ann" page.store).1
      else page.store))
    × ((press_shown mock_service "ann" (pressed_on kayaking) page).toasts ≡ (
        if is_offered mock_service "ann" (pressed_on kayaking) page
        then (if (BeachService.book mock_service "activity-kayaking" "ann" page.store).0
            then tokens_spent (pos 4)
            else request_failed)
          ∷ page.toasts
        else page.toasts))
unfolding page mock_service load_bookings booking_of get_activity_token_cost look_up
press_shown-is_offered_example =
    press_shown-is_offered mock_service "ann" (pressed_on kayaking) page refl

-- With 8 tokens the cruise can be booked, without tokens it cannot; what is booked can be cancelled.
abbrev list_of_ann : ListState
list_of_ann = record {
  guest = some "ann";
  wallet = page.wallet;
  activities = kayaking ∷ cruise ∷ [];
  is_loading = false;
  booked_activity_id = none;
  is_loading_booked = false;
  is_booking = false;
  is_cancelling = false;
}

cruise_buttons :
    ((card_of list_of_ann cruise).action ≡ book_button true (reads "Book"))
    × ((card_of (record list_of_ann { wallet = empty_wallet }) cruise).action
        ≡ book_button false (reads "Need tokens"))
    × ((card_of
          (record list_of_ann { booked_activity_id = some "activity-sunset-cruise" })
          cruise).action
        ≡ cancel_button true (reads "Cancel"))
    × ((card_of list_of_ann cruise).bar ≡ nearly_taken)
unfolding page credit_reservation_tokens card_of activity_action bar_color get_activity_token_cost
    look_up ◌+ℤ◌
cruise_buttons = (refl, refl, refl, refl)
