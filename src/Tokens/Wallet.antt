-- ===== src/Tokens/Wallet.antt =====
-- frontend/src/features/tokens/token-store.ts. Amounts and balances are integers. The persistence of
-- the store in the browser's session storage is not modelled.
pub mod Solvency
pub mod Exchange
use Prim.Native.String
use webmeow.Prelude.{
  String, Bool, true, false, ◌==◌, Option, none, some, if◌then◌else◌, Dict, empty, put, or_default,
}
use webmeow.Prelude.Int.{ℤ, pos, negsuc, ◌+ℤ◌, ◌-ℤ◌, leb_ℤ, ltb_ℤ}

pub record Booking : Type 0 where
  pub activity_id : String
  pub cost : ℤ

-- A booking that was cancelled is `some none`, the `null` of the source.
pub record Wallet : Type 0 where
  pub balances : Dict ℤ
  pub credited_reservations : Dict Bool
  pub activity_bookings : Dict (Option Booking)

abbrev pub empty_wallet : Wallet
empty_wallet = record { balances = empty; credited_reservations = empty; activity_bookings = empty }

unfoldable pub reservation_credit_key : String → String → String
reservation_credit_key guest_id reservation_id =
    String.◌++◌ guest_id (String.◌++◌ ":" reservation_id)

-- `balances[guestId] ?? 0`
abbrev pub balance : Wallet → String → ℤ
balance w g = or_default (w.balances g) (pos 0)

-- `activityBookings[guestId]`, with `undefined` and `null` alike.
abbrev pub tracked : Wallet → String → Option Booking
tracked w g = or_default (w.activity_bookings g) none

abbrev pub is_credited : Wallet → String → Bool
is_credited w key = or_default (w.credited_reservations key) false

-- `trackedBooking?.activityId === id` for a text, and for a text or `null`.
abbrev pub is_for : Option Booking → String → Bool
is_for none id = false
is_for (some b) id = b.activity_id == id

abbrev pub cost_if : Option Booking → Option String → ℤ
cost_if none current = pos 0
cost_if (some b) none = pos 0
cost_if (some b) (some id) = if b.activity_id == id then b.cost else pos 0

unfoldable pub get_refundable_cost : Wallet → String → Option String → ℤ
get_refundable_cost w g current = cost_if (tracked w g) current

unfoldable pub credit_reservation_tokens : Wallet → String → String → ℤ → Bool × Wallet
credit_reservation_tokens w g reservation_id amount =
    let key = reservation_credit_key g reservation_id in
    if leb_ℤ amount (pos 0) then (false, w) else if is_credited w key then (false, w) else (
      true,
      record w {
        balances = put w.balances g (balance w g +ℤ amount);
        credited_reservations = put w.credited_reservations key true;
      },
    )

unfoldable pub can_afford_activity : Wallet → String → ℤ → Option String → Bool
unfolding get_refundable_cost
can_afford_activity w g cost current = leb_ℤ cost (balance w g +ℤ get_refundable_cost w g current)

unfoldable pub spend_activity_tokens : Wallet → String → String → ℤ → Option String → Bool × Wallet
unfolding get_refundable_cost
spend_activity_tokens w g activity_id cost current =
    let next_balance = balance w g +ℤ get_refundable_cost w g current -ℤ cost in
    if is_for (tracked w g) activity_id
    then (true, w)
    else if ltb_ℤ next_balance (pos 0)
    then (false, w)
    else (
      true,
      record w {
        balances = put w.balances g next_balance;
        activity_bookings =
            put w.activity_bookings g (some (record { activity_id = activity_id; cost = cost }));
      },
    )

-- The writes of a refund.
abbrev pub give_back : Wallet → String → ℤ → ℤ × Wallet
give_back w g amount = (
  amount,
  record w {
    balances = put w.balances g (balance w g +ℤ amount);
    activity_bookings = put w.activity_bookings g none;
  },
)

abbrev pub refund_by : Option Booking → Wallet → String → String → ℤ → ℤ × Wallet
refund_by none w g activity_id fallback_cost =
    if leb_ℤ fallback_cost (pos 0) then (pos 0, w) else give_back w g fallback_cost
refund_by (some b) w g activity_id fallback_cost =
    if b.activity_id == activity_id then give_back w g b.cost else (pos 0, w)

unfoldable pub refund_activity_tokens : Wallet → String → String → ℤ → ℤ × Wallet
refund_activity_tokens w g activity_id fallback_cost =
    refund_by (tracked w g) w g activity_id fallback_cost
