-- ===== src/Stay.antt =====
-- frontend/src/features/hotel/hooks (use-reservation-form.ts, use-active-reservation.ts) with the calls
-- of features/hotel/api/hotel-client.ts: a guest reserves a room, sees the reservation and cancels it.
-- What the services answer is given. The calls to the beach service about visitors are kept, the last
-- one first; whether they fail does not matter, since each failure is caught.
pub mod Visitors
pub mod Keys
pub mod Credits
pub mod Earnings
pub mod Form
mod Tests
use webmeow.Prelude.{
  ℕ, String, Bool, true, false, Option, none, some, List, [], ◌∷◌, if◌then◌else◌, Dict, empty, put,
  or_default,
}
use webmeow.Prelude.Int.{ℤ, pos, ltb_ℤ}
use webmeow.Hotel.Types.{RoomType, ReservationStatus}
use webmeow.Tokens.Rules.{get_reservation_token_allowance}
use webmeow.Tokens.Wallet.{
  Booking, Wallet, tracked, credit_reservation_tokens, refund_activity_tokens,
}

pub record Reservation : Type 0 where
  pub id : String
  pub guest_id : String
  pub party_guest_ids : Option (List String)
  pub room_id : String
  pub room_type : RoomType
  pub guest_count : ℕ
  pub check_in_day : ℤ
  pub check_out_day : ℤ
  pub status : ReservationStatus

pub data VisitorCall : Type 0 where
  check_in check_out : String → VisitorCall

pub data Toast : Type 0 where
  tokens_added tokens_returned : ℤ → Toast
  failed_with : String → Toast

-- A request is answered, or fails with a message.
pub data Reply (A : Type 0) : Type 0 where
  answered : A → Reply A
  failed : String → Reply A

-- The query cache has for a guest the reservation in force, if it was read and there is one.
pub record Desk : Type 0 where
  pub wallet : Wallet
  pub cached : Dict (Option Reservation)
  pub confirmed : Option Reservation
  pub visitor_calls : List VisitorCall
  pub toasts : List Toast

abbrev pub opened : Wallet → Desk
opened wallet = record {
  wallet = wallet;
  cached = empty;
  confirmed = none;
  visitor_calls = [];
  toasts = [];
}

-- `query.data` of a guest.
abbrev pub active_reservation : String → Desk → Option Reservation
active_reservation guest d = or_default (d.cached guest) none

abbrev pub ids_or : Option (List String) → String → List String
ids_or none guest = guest ∷ []
ids_or (some []) guest = guest ∷ []
ids_or (some (g ∷ rest)) guest = g ∷ rest

unfoldable pub reservation_guest_ids : Reservation → List String
reservation_guest_ids r = ids_or r.party_guest_ids r.guest_id

-- `Promise.all(ids.map(call))`
abbrev pub call_all : (String → VisitorCall) → List String → List VisitorCall → List VisitorCall
call_all call [] calls = calls
call_all call (g ∷ rest) calls = call_all call rest (call g ∷ calls)

abbrev pub allowance : Reservation → ℕ
allowance r = get_reservation_token_allowance r.room_type r.check_in_day r.check_out_day

abbrev pub credit : Reservation → Wallet → Bool × Wallet
credit r w = credit_reservation_tokens w r.guest_id r.id (pos (allowance r))

-- `postReservation` and `onSuccess` of the form.
abbrev pub reserve : Reservation → Desk → Desk
reserve r d =
    let (credited, w) = credit r d.wallet in
    record d {
      wallet = w;
      confirmed = some r;
      visitor_calls = call_all check_in (reservation_guest_ids r) d.visitor_calls;
      toasts = if credited then tokens_added (pos (allowance r)) ∷ d.toasts else d.toasts;
    }

-- The form is submitted.
unfoldable pub submit : Option String → Reply Reservation → Desk → Desk
unfolding reservation_guest_ids
submit none reply d = record d { toasts = failed_with "No active session" ∷ d.toasts }
submit (some guest) (answered r) d = reserve r d
submit (some guest) (failed message) d = record d { toasts = failed_with message ∷ d.toasts }

-- The effect on the reservation that was read.
abbrev pub see : Option Reservation → Desk → Desk
see none d = d
see (some r) d = record d {
  wallet = (credit r d.wallet).1;
  visitor_calls = check_in r.guest_id ∷ d.visitor_calls;
}

-- The guest's reservation is read, or read anew.
unfoldable pub load : String → Option Reservation → Desk → Desk
load guest reservation d = see reservation (record d { cached = put d.cached guest reservation })

abbrev pub check_out_of : Option Reservation → String → List VisitorCall → List VisitorCall
check_out_of none guest calls = check_out guest ∷ calls
check_out_of (some r) guest calls = call_all check_out (reservation_guest_ids r) calls

-- The refund of the activity that the wallet tracks, with no fallback.
abbrev pub refund_tracked : Option Booking → String → Desk → Desk
refund_tracked none guest d = d
refund_tracked (some b) guest d =
    let (refunded, w) = refund_activity_tokens d.wallet guest b.activity_id (pos 0) in
    record d {
      wallet = w;
      toasts = if ltb_ℤ (pos 0) refunded then tokens_returned refunded ∷ d.toasts else d.toasts;
    }

-- `onSuccess` of the cancellation.
abbrev pub release : String → Desk → Desk
release guest d = refund_tracked (tracked d.wallet guest) guest (record d {
  visitor_calls = check_out_of (active_reservation guest d) guest d.visitor_calls;
  cached = put d.cached guest none;
})

-- The reservation is cancelled: the answer is not read.
unfoldable pub cancel : Option String → Option String → Desk → Desk
unfolding reservation_guest_ids
cancel guest (some message) d = record d { toasts = failed_with message ∷ d.toasts }
cancel none none d = d
cancel (some guest) none d = release guest d

-- What happens at the desk: a submitted form is answered, the reservation of a guest is read, a
-- cancellation is answered, with an error's message if it failed.
pub data Event : Type 0 where
  submits : Option String → Reply Reservation → Event
  loads : String → Option Reservation → Event
  cancels : Option String → Option String → Event

unfoldable pub happen : Event → Desk → Desk
unfolding submit load cancel
happen (submits guest reply) d = submit guest reply d
happen (loads guest reservation) d = load guest reservation d
happen (cancels guest error) d = cancel guest error d

unfoldable pub happen_all : List Event → Desk → Desk
unfolding happen
happen_all [] d = d
happen_all (e ∷ rest) d = happen_all rest (happen e d)
