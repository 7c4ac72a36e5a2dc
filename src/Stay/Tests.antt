-- ===== src/Stay/Tests.antt =====
-- Reservations at the desk (frontend/src/features/hotel/hooks) at concrete inputs.
use webmeow.Stay.Form.{
  DateFns, FormValues, validate, reservation_form, form_to_request, nights_of,
  date_to_simulation_day,
}
use webmeow.Stay.Form.Nights.{IsShown, form_to_request-IsShown}
use webmeow.Prelude.{
  All, ℕ, ◌+◌, ◌*◌, ◌/◌, ◌%◌, leb, if◌then◌else◌, if_of_true, arith, true, false, String, ◌≡◌, refl,
  none, some, List, [], ◌∷◌,
}
use webmeow.Prelude.Int.{ℤ, pos, ◌+ℤ◌, ◌-ℤ◌}
use webmeow.Hotel.Types.{standard, confirmed}
use webmeow.Tokens.Rules.{
  get_package_token_allowance, room_token_allowance_per_night, at_least_one,
  get_reservation_token_allowance,
}
use webmeow.Tokens.Wallet.{balance, empty_wallet, credit_reservation_tokens, reservation_credit_key}
use webmeow.Tokens.Wallet.Exchange.{worth}
use webmeow.Stay.{
  Reservation, answered, failed, opened, reservation_guest_ids, Event, submits, loads, cancels,
  happen_all,
}
use webmeow.Stay.Earnings.{earned, brought, IsPlainIf, happen_all-worth}
use webmeow.Stay.Keys.{has_colon}

abbrev stay : String → Reservation
stay id = record {
  id = id;
  guest_id = "ann";
  party_guest_ids = some ("ann" ∷ "bob" ∷ []);
  room_id = "room-standard-01";
  room_type = standard;
  guest_count = 2;
  check_in_day = pos 3;
  check_out_day = pos 5;
  status = confirmed;
}

-- Ann's form is answered, the reservation is read twice and cancelled, and another follows.
abbrev events : List Event
events =
    submits (some "ann") (answered (stay "r1"))
    ∷ loads "ann" (some (stay "r1"))
    ∷ loads "ann" (some (stay "r1"))
    ∷ cancels (some "ann") none
    ∷ submits (some "ann") (failed "Room not available")
    ∷ submits (some "ann") (answered (stay "r2"))
    ∷ []

all_plain : All (λ e. IsPlainIf (brought e)) events
unfolding has_colon
all_plain = (refl, (refl, (refl, (tt, (tt, (refl, tt))))))

happen_all-worth_example :
    worth (happen_all events (opened empty_wallet)).wallet "ann"
    ≡ worth empty_wallet "ann" +ℤ pos (earned "ann" [] events)
happen_all-worth_example = happen_all-worth events "ann" empty_wallet all_plain (λ key. refl)

two_stays_are_earned : earned "ann" [] events ≡ 16
unfolding earned get_reservation_token_allowance ◌-ℤ◌
two_stays_are_earned = refl

cancelled_stay_is_paid : balance (happen_all events (opened empty_wallet)).wallet "ann" ≡ pos 16
unfolding happen_all reservation_guest_ids credit_reservation_tokens get_reservation_token_allowance
    ◌-ℤ◌ reservation_credit_key ◌+ℤ◌
cancelled_stay_is_paid = refl

-- The calendar of universal time.
abbrev day_millis : ℕ
day_millis = 86400000

abbrev full_days : ℕ → ℕ → ℤ
full_days a b =
    pos (a / day_millis)
    -ℤ pos (b / day_millis + (if leb (b % day_millis) (a % day_millis) then 0 else 1))

abbrev difference : ℕ → ℕ → ℤ
difference a b = if leb b a then full_days a b else pos 0 -ℤ full_days b a

universal_time : DateFns
universal_time = record {
  local_day = λ t. t / day_millis;
  local_time = λ t. t % day_millis;
  start_of_day = λ t. t / day_millis * day_millis;
  difference_in_days = difference;
  start_day = λ t. omega arith;
  start_time = λ t. omega arith;
  ordered = λ a b h. ground (arith, h);
  later = λ a b h. if_of_true (leb b a) _ _ (ground (arith, h));
  earlier = λ a b h.
      let e : leb b a ≡ false = ground (arith, h) in
      let k : leb a b ≡ true = ground (arith, h) in rw (e, k) refl;
}

-- The first check-in of the form is the present instant, here 15 o'clock; the check-out that is picked
-- begins a day.
abbrev two_nights : FormValues
two_nights = record {
  room_type = standard;
  guest_count = 1;
  check_in_date = 20781 * 86400000 + 54000000;
  check_out_date = 20783 * 86400000;
}

form_to_request-IsShown_example : IsShown universal_time two_nights "ann" false
unfolding universal_time validate
form_to_request-IsShown_example = form_to_request-IsShown universal_time two_nights "ann" false refl

-- One night is shown, with 4 tokens, and two nights are asked for.
two_nights_are_shown_as_one :
    ((reservation_form universal_time two_nights false).nights ≡ some (pos 1))
    × ((reservation_form universal_time two_nights false).package_tokens ≡ 4)
    × ((form_to_request universal_time two_nights "ann").check_out_day
          -ℤ (form_to_request universal_time two_nights "ann").check_in_day
        ≡ pos 2)
unfolding universal_time reservation_form form_to_request nights_of date_to_simulation_day ◌-ℤ◌
    get_package_token_allowance room_token_allowance_per_night at_least_one
two_nights_are_shown_as_one = (refl, refl, refl)
