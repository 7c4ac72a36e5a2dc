-- ===== src/Island/Simulation.antt =====
-- frontend/src/features/simulation/machine.ts and the decisions of actions.ts: the simulated guests.
-- A draw of `Math.random()` is given in hundredths, rounded down; what the services answer to the calls
-- is given too. The gate of a guest who has arrived, and the identifiers, are texts.
pub mod Ledger
pub mod Choice
pub mod Guests
pub mod Traffic
pub mod Requests
pub mod Parrot
use webmeow.Prelude.{
  zero, suc, not, keep, ℕ, String, Bool, true, false, Option, none, some, List, [], ◌∷◌, ltb,
  if◌then◌else◌, is_empty, ◌==◌, or_default,
}

pub data SimGuestState : Type 0 where
  new : SimGuestState
  arrived : String → SimGuestState
  hotel_booked : String → String → SimGuestState
  beach_booked : String → String → String → SimGuestState

-- The calls of a step with the answers they got, in order.
pub data Call : Type 0 where
  arrives books_hotel books_activity : Option String → Call
  asks_parrot : Call
  cancels_activity cancels_reservation : String → Call

-- What `arrive`, `bookHotel` and `bookRandomActivity` answer, if they are called.
pub record Answers : Type 0 where
  pub gate : Option String
  pub reservation_id : Option String
  pub activity_id : Option String

abbrev pub has_text : Option String → Bool
has_text none = false
has_text (some v) = not (is_empty v)

-- `if (value) setState(next)`: the state that is set, if one is.
abbrev pub set_if : Option String → (String → SimGuestState) → Option SimGuestState
set_if none next = none
set_if (some v) next = if is_empty v then none else some (next v)

unfoldable pub handle_new : Answers → List Call × Option SimGuestState
handle_new a = (arrives a.gate ∷ [], set_if a.gate arrived)

unfoldable pub handle_arrived : Answers → ℕ → String → List Call × Option SimGuestState
handle_arrived a draw gate =
    if ltb draw 80
    then (books_hotel a.reservation_id ∷ [], set_if a.reservation_id (hotel_booked gate))
    else (asks_parrot ∷ [], none)

unfoldable pub handle_hotel_booked :
    Answers → ℕ → String → String → List Call × Option SimGuestState
handle_hotel_booked a draw gate reservation_id =
    if ltb draw 25
    then (
      books_activity a.activity_id ∷ [],
      set_if a.activity_id (beach_booked gate reservation_id),
    )
    else if ltb draw 65
    then (asks_parrot ∷ [], none)
    else ([], none)

unfoldable pub handle_beach_booked : ℕ → String → String → String → List Call × Option SimGuestState
handle_beach_booked draw gate reservation_id activity_id =
    if ltb draw 10
    then (cancels_activity activity_id ∷ cancels_reservation reservation_id ∷ [], some new)
    else if ltb draw 25
    then (cancels_activity activity_id ∷ [], some (hotel_booked gate reservation_id))
    else if ltb draw 45
    then (asks_parrot ∷ [], none)
    else ([], none)

-- `STAGE_HANDLERS[state.stage]`
unfoldable pub stage_handler : Answers → ℕ → SimGuestState → List Call × Option SimGuestState
unfolding handle_new handle_arrived handle_hotel_booked handle_beach_booked
stage_handler a draw new = handle_new a
stage_handler a draw (arrived gate) = handle_arrived a draw gate
stage_handler a draw (hotel_booked gate r) = handle_hotel_booked a draw gate r
stage_handler a draw (beach_booked gate r act) = handle_beach_booked draw gate r act

-- A step that nothing interleaves with.
unfoldable pub step : Answers → ℕ → SimGuestState → List Call × SimGuestState
unfolding stage_handler
step a draw state =
    ((stage_handler a draw state).0, or_default (stage_handler a draw state).1 state)

-- A request to a service throws or returns.
pub data Reply {ℓ} (A : Type ℓ) : Type ℓ where
  thrown : Reply A
  returned : A → Reply A

-- `bookHotel`'s last attempt.
unfoldable pub recover : Reply (Option String) → Option String
recover (returned (some id)) = some id
recover _ = none

-- `bookHotel`: the arrival's status, the reservation there is, the one that is made, and the
-- reservation there is when one of these threw. A reservation is its identifier.
unfoldable pub book_hotel :
    Reply String → Reply (Option String) → Reply String → Reply (Option String) → Option String
unfolding recover
book_hotel thrown existing posted again = recover again
book_hotel (returned status) existing posted again =
    if status == "processed"
    then elim existing [
      | thrown ↦ recover again
      | returned e ↦ elim e [
        | some id ↦ some id
        | none ↦ elim posted [ thrown ↦ recover again | returned id ↦ some id ]
      ]
    ]
    else none

pub record Activity : Type 0 where
  pub activity_id : String
  pub remaining : ℕ

-- `sample(items)`: the draw is `Math.floor(Math.random() * items.length)`.
unfoldable pub sample {ℓ} : {A : Type ℓ} → ℕ → List A → Option A
sample n [] = none
sample zero (x ∷ xs) = some x
sample (suc n) (x ∷ xs) = sample n xs

-- `bookRandomActivity` with the activity that was drawn, if any is available.
unfoldable pub book_sample : Option Activity → Reply (Unit {0}) → Option String
book_sample none booked = none
book_sample (some a) thrown = none
book_sample (some a) (returned u) = some a.activity_id

-- `bookRandomActivity` for a guest who has checked in, with the guest's current activity.
unfoldable pub book_if_none :
    Reply (Option String) → Reply (List Activity) → ℕ → Reply (Unit {0}) → Option String
unfolding sample book_sample
book_if_none thrown activities draw booked = none
book_if_none (returned current) activities draw booked =
    if has_text current then current else elim activities [
      | thrown ↦ none
      | returned all ↦ book_sample (sample draw (keep (λ a. ltb 0 a.remaining) all)) booked
    ]

-- `bookRandomActivity`: the guest's reservation, the check-in, the guest's activity, the list of
-- activities, the draw, and the booking.
unfoldable pub book_random_activity :
    Reply (Option String)
    → Reply (Unit {0})
    → Reply (Option String)
    → Reply (List Activity)
    → ℕ
    → Reply (Unit {0})
    → Option String
unfolding book_if_none
book_random_activity (returned (some r)) (returned u) current activities draw booked =
    book_if_none current activities draw booked
book_random_activity _ _ current activities draw booked = none
