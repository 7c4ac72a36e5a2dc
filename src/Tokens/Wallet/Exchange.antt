-- ===== src/Tokens/Wallet/Exchange.antt =====
-- frontend/src/features/tokens/token-store.ts, call by call: crediting, affording, spending,
-- changing and cancelling.
use webmeow.Prelude.{
  String, ◌≡◌, ◌≢◌, refl, ◌∙◌, true, false, eq_iff, Option, none, some, arith, not, eq_refl,
}
use webmeow.Prelude.Int.{ℤ, pos, ◌<ℤ◌, ◌+ℤ◌, ◌-ℤ◌, +ℤ_parts, -ℤ_parts, leb_ℤ, ltb_ℤ, int_laws}
use webmeow.Tokens.Wallet.{
  Booking, Wallet, balance, tracked, is_for, cost_if, credit_reservation_tokens,
  can_afford_activity, spend_activity_tokens, refund_activity_tokens, refund_by,
  reservation_credit_key,
}

-- The tokens of a guest, with those that the tracked booking is worth.
abbrev pub worth_of : Option Booking → ℤ → ℤ
worth_of none b = b
worth_of (some k) b = b +ℤ k.cost

unfoldable pub worth : Wallet → String → ℤ
worth w g = worth_of (tracked w g) (balance w g)

-- The activity that the page shows as booked is the tracked one, if any is tracked.
abbrev pub IsCurrent : Option Booking → Option String → Type 0
IsCurrent none current = Unit
IsCurrent (some b) current = current ≡ some b.activity_id

-- A reservation is credited once: a second call for it answers false and changes nothing.
pub credit_twice :
    (w : Wallet) (g r : String) (amount again : ℤ)
    → (credit_reservation_tokens w g r amount).0 ≡ true
    → credit_reservation_tokens (credit_reservation_tokens w g r amount).1 g r again
      ≡ (false, (credit_reservation_tokens w g r amount).1)
unfolding credit_reservation_tokens
credit_twice w g r amount again h =
    ground (arith, eq_iff (reservation_credit_key g r) (reservation_credit_key g r))

afford_lem :
    (balance back cost : ℤ)
    → leb_ℤ cost (balance +ℤ back) ≡ not (ltb_ℤ (balance +ℤ back -ℤ cost) (pos 0))
afford_lem b k c = ground (arith, +ℤ_parts b k, -ℤ_parts (b +ℤ k) c)

-- Spending on an activity that is not the tracked one succeeds exactly when the page's test says
-- that the guest can afford it.
pub spend-can_afford :
    (w : Wallet) (g a : String) (cost : ℤ) (current : Option String)
    → is_for (tracked w g) a ≡ false
    → (spend_activity_tokens w g a cost current).0 ≡ can_afford_activity w g cost current
unfolding spend_activity_tokens can_afford_activity
spend-can_afford w g a cost current h =
    ground (arith, afford_lem (balance w g) (cost_if (tracked w g) current) cost)

worth_put : (b k c : ℤ) → (b +ℤ k -ℤ c) +ℤ c ≡ b +ℤ k
worth_put b k c = omega int_laws

worth_zero : (b c : ℤ) → (b +ℤ pos 0 -ℤ c) +ℤ c ≡ b
worth_zero b c = omega int_laws

spend_worth :
    (w : Wallet) (g a : String) (cost : ℤ) (current : Option String) (o : Option Booking)
    → tracked w g ≡ o
    → IsCurrent o current
    → worth (spend_activity_tokens w g a cost current).1 g ≡ worth_of o (balance w g)
unfolding worth spend_activity_tokens
spend_worth w g a cost current none e c =
    ground (arith, e, eq_refl g, worth_zero (balance w g) cost)
spend_worth w g a cost current (some b) e c =
    ground (arith, e, c, eq_refl g, eq_refl b.activity_id, worth_put (balance w g) b.cost cost)

-- Where the page's current activity is the tracked one, if one is tracked, spending, whether it
-- succeeds or not, keeps the guest's worth: the balance with the cost of the tracked booking.
pub spend-worth :
    (w : Wallet) (g a : String) (cost : ℤ) (current : Option String)
    → IsCurrent (tracked w g) current
    → worth (spend_activity_tokens w g a cost current).1 g ≡ worth w g
spend-worth w g a cost current c =
    spend_worth w g a cost current (tracked w g) refl c ∙ unfold worth in refl

sum_comm : (a b : ℤ) → a +ℤ b ≡ b +ℤ a
sum_comm a b = omega int_laws

refund_worth :
    (w : Wallet) (g a : String) (fallback : ℤ) (b : Booking)
    → is_for (some b) a ≡ true
    → ((refund_by (some b) w g a fallback).0 ≡ b.cost)
      × (balance (refund_by (some b) w g a fallback).1 g ≡ balance w g +ℤ b.cost)
      × (tracked (refund_by (some b) w g a fallback).1 g ≡ none)
refund_worth w g a fallback b c = ground (arith, eq_refl g)

-- Cancelling the tracked activity returns what it cost, adds that to the balance and tracks nothing
-- any more; the guest's worth stays as it was.
pub refund-worth :
    (w : Wallet) (g a : String) (fallback : ℤ) (b : Booking)
    → tracked w g ≡ some b
    → b.activity_id ≡ a
    → ((refund_activity_tokens w g a fallback).0 ≡ b.cost)
      × (balance (refund_activity_tokens w g a fallback).1 g ≡ balance w g +ℤ b.cost)
      × (tracked (refund_activity_tokens w g a fallback).1 g ≡ none)
      × (worth (refund_activity_tokens w g a fallback).1 g ≡ worth w g)
unfolding refund_activity_tokens worth
refund-worth w g a fallback b e same =
    let (paid, more, gone) = refund_worth w g a fallback b ((eq_iff b.activity_id a).1 same) in
    rw e (paid, more, gone, rw gone more)

-- Booking an activity and cancelling it again gives back every token: if nothing was tracked and the
-- spending succeeds, the refund returns the cost and leaves the balance of the start, whatever the
-- fallback is.
pub refund-spend :
    (w : Wallet) (g a : String) (cost fallback : ℤ) (current : Option String)
    → tracked w g ≡ none
    → (spend_activity_tokens w g a cost current).0 ≡ true
    → ((refund_activity_tokens (spend_activity_tokens w g a cost current).1 g a fallback).0 ≡ cost)
      × (balance
            (refund_activity_tokens (spend_activity_tokens w g a cost current).1 g a fallback).1
            g
          ≡ balance w g)
unfolding spend_activity_tokens
refund-spend w g a cost fallback current e h =
    let w' = (spend_activity_tokens w g a cost current).1 in
    let b : Booking = record { activity_id = a; cost = cost } in
    let t : tracked w' g ≡ some b = ground (arith, eq_refl g) in
    let (paid, more, gone, kept) = refund-worth w' g a fallback b t refl in
    (paid, more ∙ ground (arith, eq_refl g, worth_zero (balance w g) cost))

-- Where the page's current activity is not the tracked one, as when the booking is gone on the
-- server, a successful spending on another activity replaces the tracked booking without giving its
-- cost back: the guest's worth falls by exactly that cost.
pub spend_stale-worth :
    (w : Wallet) (g a : String) (cost : ℤ) (current : Option String) (b : Booking)
    → tracked w g ≡ some b
    → current ≢ some b.activity_id
    → b.activity_id ≢ a
    → (spend_activity_tokens w g a cost current).0 ≡ true
    → worth (spend_activity_tokens w g a cost current).1 g +ℤ b.cost ≡ worth w g
unfolding spend_activity_tokens worth
spend_stale-worth w g a cost none b e n m h =
    ground (arith, e, eq_refl g, eq_iff b.activity_id a, worth_zero (balance w g) cost)
spend_stale-worth w g a cost (some c) b e n m h = ground (
  arith,
  e,
  eq_refl g,
  eq_iff b.activity_id a,
  eq_iff b.activity_id c,
  worth_zero (balance w g) cost,
)

-- With nothing tracked, a cancellation pays the positive fallback and still tracks nothing, so a
-- second cancellation of the same activity pays it again.
pub refund_fallback_repeats :
    (w : Wallet) (g a : String) (fallback : ℤ)
    → tracked w g ≡ none
    → pos 0 <ℤ fallback
    → ((refund_activity_tokens w g a fallback).0 ≡ fallback)
      × (balance (refund_activity_tokens w g a fallback).1 g ≡ balance w g +ℤ fallback)
      × ((refund_activity_tokens (refund_activity_tokens w g a fallback).1 g a fallback).0
          ≡ fallback)
unfolding refund_activity_tokens
refund_fallback_repeats w g a fallback e h = ground (arith, eq_refl g)
