-- ===== src/Stay/Form.antt =====
-- The reservation form: frontend/src/features/hotel/components/reservation-form.tsx with
-- guest-stepper.tsx and room-type-picker.tsx, hotel/schemas/reservation-form-schema.ts, and
-- dateToSimulationDay of lib/simulation-time.ts. An instant is a number of milliseconds since 1970.
-- date-fns in the browser's time zone is an interface, with laws for a zone that does not change its
-- clocks.
pub mod Nights
use webmeow.Prelude.{
  ℕ, zero, suc, ◌+◌, ◌-◌, ◌<◌, ◌≤◌, String, ◌≡◌, ◌⊎◌, Bool, true, false, ◌||◌, not, Option, none,
  some, List, [], ◌∷◌, map, leb, ltb, eqb, if◌then◌else◌,
}
use webmeow.Prelude.Int.{ℤ, pos, negsuc, pos_part, ◌-ℤ◌, leb_ℤ, ltb_ℤ}
use webmeow.Hotel.Types.{RoomType, standard, deluxe, suite}
use webmeow.Island.Days.{anchor}
use webmeow.Tokens.Rules.{
  room_price_per_night, room_token_allowance_per_night, get_package_price,
  get_package_token_allowance,
}

-- `startOfDay` and `differenceInDays`, by the local day of an instant and its time in that day: the
-- difference counts full days, and is negative for an earlier instant.
pub record DateFns : Type 0 where
  pub local_day : ℕ → ℕ
  pub local_time : ℕ → ℕ
  pub start_of_day : ℕ → ℕ
  pub difference_in_days : ℕ → ℕ → ℤ
  pub start_day : (t : ℕ) → local_day (start_of_day t) ≡ local_day t
  pub start_time : (t : ℕ) → local_time (start_of_day t) ≡ 0
  pub ordered :
      (a b : ℕ)
      → a < b
      → (local_day a < local_day b) ⊎ ((local_day a ≡ local_day b) × (local_time a < local_time b))
  pub later :
      (a b : ℕ)
      → b ≤ a
      → difference_in_days a b
        ≡ pos (local_day a)
          -ℤ pos (local_day b + (if leb (local_time b) (local_time a) then 0 else 1))
  pub earlier : (a b : ℕ) → a < b → difference_in_days a b ≡ pos 0 -ℤ difference_in_days b a

-- `ReservationFormValues`
pub record FormValues : Type 0 where
  pub room_type : RoomType
  pub guest_count : ℕ
  pub check_in_date : ℕ
  pub check_out_date : ℕ

-- `ReservationFormSchema`: what it refuses of values whose types are right.
pub data FormError : Type 0 where
  too_few_guests check_out_not_after_check_in : FormError

unfoldable pub validate : FormValues → Option FormError
validate v =
    if not (leb 1 v.guest_count)
    then some too_few_guests
    else if not (ltb v.check_in_date v.check_out_date)
    then some check_out_not_after_check_in
    else none

pub record PostReservationRequest : Type 0 where
  pub guest_id : String
  pub room_type : RoomType
  pub guest_count : ℕ
  pub check_in_day : ℤ
  pub check_out_day : ℤ

-- `GuestStepper`: its two buttons, which are `none` while they are disabled, and its text.
pub record Stepper : Type 0 where
  pub minus : Option ℕ
  pub value : ℕ
  pub plus : Option ℕ
  pub unit : String

unfoldable pub guest_stepper : ℕ → Bool → Stepper
guest_stepper value disabled = record {
  minus = if disabled || leb value 1 then none else some (value - 1);
  value = value;
  plus = if disabled then none else some (value + 1);
  unit = if eqb value 1 then "guest" else "guests";
}

-- A choice of `RoomTypePicker`.
pub record RoomChoice : Type 0 where
  pub label : String
  pub bed : String
  pub price : ℕ
  pub tokens : ℕ

unfoldable pub room_choice : RoomType → RoomChoice
unfolding room_price_per_night room_token_allowance_per_night
room_choice t = record {
  label = elim t [ standard ↦ "Standard" | deluxe ↦ "Deluxe" | suite ↦ "Suite" ];
  bed = elim t [ standard ↦ "1 queen bed" | deluxe ↦ "1 king bed" | suite ↦ "King lounge" ];
  price = room_price_per_night t;
  tokens = room_token_allowance_per_night t;
}

-- What the submit button reads: for a number of nights, or for none.
pub data SubmitLabel : Type 0 where
  booking book_room : SubmitLabel
  book_nights : ℤ → Bool → SubmitLabel

pub record FormView : Type 0 where
  pub nights : Option ℤ
  pub stepper : Stepper
  pub choices : List RoomChoice
  pub package_price : ℕ
  pub package_tokens : ℕ
  pub submit_label : SubmitLabel

-- `nights ?? 1`
abbrev pub package_nights : Option ℤ → ℤ
package_nights none = pos 1
package_nights (some n) = n

-- `nights ? ... : "Book room"`: zero nights are like none.
abbrev pub label_for : Option ℤ → SubmitLabel
label_for none = book_room
label_for (some (pos zero)) = book_room
label_for (some (pos (suc n))) = book_nights (pos (suc n)) (ltb_ℤ (pos 1) (pos (suc n)))
label_for (some (negsuc n)) = book_nights (negsuc n) false

module _ (D : DateFns) where
  -- `dateToSimulationDay`
  unfoldable pub date_to_simulation_day : ℕ → ℤ
  date_to_simulation_day date =
      D.difference_in_days (D.start_of_day date) (D.start_of_day (pos_part anchor))

  unfoldable pub form_to_request : FormValues → String → PostReservationRequest
  unfolding date_to_simulation_day
  form_to_request v guest_id = record {
    guest_id = guest_id;
    room_type = v.room_type;
    guest_count = v.guest_count;
    check_in_day = date_to_simulation_day v.check_in_date;
    check_out_day = date_to_simulation_day v.check_out_date;
  }

  -- `nights`, for dates that are filled in.
  unfoldable pub nights_of : ℕ → ℕ → Option ℤ
  nights_of check_in check_out =
      if ltb check_in check_out then some (D.difference_in_days check_out check_in) else none

  unfoldable pub reservation_form : FormValues → Bool → FormView
  unfolding nights_of guest_stepper room_choice get_package_price get_package_token_allowance
  reservation_form v is_submitting =
      let nights = nights_of v.check_in_date v.check_out_date in
      record {
        nights = nights;
        stepper = guest_stepper v.guest_count is_submitting;
        choices = map room_choice (standard ∷ deluxe ∷ suite ∷ []);
        package_price = get_package_price v.room_type (package_nights nights);
        package_tokens = get_package_token_allowance v.room_type (package_nights nights);
        submit_label = if is_submitting then booking else label_for nights;
      }
