-- ===== src/Tokens/Wallet/Solvency.antt =====
-- frontend/src/features/tokens/token-store.ts over sequences of calls: the balances, and the guests
-- apart from each other.
use webmeow.Prelude.{String, ◌≡◌, ◌≢◌, eq_iff, Option, none, some, arith, List, [], ◌∷◌, All}
use webmeow.Prelude.Int.{ℤ, pos, ◌≤ℤ◌, +ℤ_parts}
use webmeow.Tokens.Wallet.{
  Booking, Wallet, empty_wallet, balance, tracked, credit_reservation_tokens, spend_activity_tokens,
  refund_activity_tokens, refund_by,
}

-- The tracked booking, if there is one, did not cost less than nothing.
abbrev pub IsCostly : Option Booking → Type 0
IsCostly none = Unit
IsCostly (some b) = pos 0 ≤ℤ b.cost

pub record IsSolvent (w : Wallet) : Type 0 where
  pub funded : (g : String) → pos 0 ≤ℤ balance w g
  pub costly : (g : String) → IsCostly (tracked w g)

pub empty-IsSolvent : IsSolvent empty_wallet
empty-IsSolvent = record { funded = λ g. omega arith; costly = λ g. tt }

credit-IsSolvent :
    (w : Wallet) (g r : String) (amount : ℤ)
    → IsSolvent w
    → IsSolvent (credit_reservation_tokens w g r amount).1
unfolding credit_reservation_tokens
credit-IsSolvent w g r amount s = record {
  funded = λ h. ground (arith, eq_iff g h, s.funded h, s.funded g, +ℤ_parts (balance w g) amount);
  costly = λ h. ground (arith, s.costly h);
}

spend-IsSolvent :
    (w : Wallet) (g a : String) (cost : ℤ) (current : Option String)
    → pos 0 ≤ℤ cost
    → IsSolvent w
    → IsSolvent (spend_activity_tokens w g a cost current).1
unfolding spend_activity_tokens
spend-IsSolvent w g a cost current c s = record {
  funded = λ h. ground (arith, eq_iff g h, s.funded h);
  costly = λ h. ground (arith, eq_iff g h, s.costly h);
}

refund_by-funded :
    (o : Option Booking) (w : Wallet) (g a : String) (fallback : ℤ) (h : String)
    → IsSolvent w
    → IsCostly o
    → pos 0 ≤ℤ balance (refund_by o w g a fallback).1 h
refund_by-funded none w g a fallback h s c =
    ground (arith, eq_iff g h, s.funded h, s.funded g, +ℤ_parts (balance w g) fallback)
refund_by-funded (some b) w g a fallback h s c =
    ground (arith, eq_iff g h, s.funded h, s.funded g, +ℤ_parts (balance w g) b.cost)

refund_by-IsCostly :
    (o : Option Booking) (w : Wallet) (g a : String) (fallback : ℤ) (h : String)
    → IsSolvent w
    → IsCostly (tracked (refund_by o w g a fallback).1 h)
refund_by-IsCostly none w g a fallback h s = ground (arith, s.costly h)
refund_by-IsCostly (some b) w g a fallback h s = ground (arith, s.costly h)

refund-IsSolvent :
    (w : Wallet) (g a : String) (fallback : ℤ)
    → IsSolvent w
    → IsSolvent (refund_activity_tokens w g a fallback).1
unfolding refund_activity_tokens
refund-IsSolvent w g a fallback s = record {
  funded = λ h. refund_by-funded (tracked w g) w g a fallback h s (s.costly g);
  costly = λ h. refund_by-IsCostly (tracked w g) w g a fallback h s;
}

-- The calls that the web app makes of a wallet.
pub data Call : Type 0 where
  credits : String → String → ℤ → Call
  spends : String → String → ℤ → Option String → Call
  refunds : String → String → ℤ → Call

abbrev pub caller : Call → String
caller (credits g r amount) = g
caller (spends g a cost current) = g
caller (refunds g a fallback) = g

unfoldable pub apply : Wallet → Call → Wallet
apply w (credits g r amount) = (credit_reservation_tokens w g r amount).1
apply w (spends g a cost current) = (spend_activity_tokens w g a cost current).1
apply w (refunds g a fallback) = (refund_activity_tokens w g a fallback).1

pub run : Wallet → List Call → Wallet
run w [] = w
run w (c ∷ cs) = run (apply w c) cs

-- Only spending needs an assumption: activities are not sold below zero.
abbrev pub IsPriced : Call → Type 0
IsPriced (spends g a cost current) = pos 0 ≤ℤ cost
IsPriced _ = Unit

apply-IsSolvent : (w : Wallet) (c : Call) → IsPriced c → IsSolvent w → IsSolvent (apply w c)
unfolding apply
apply-IsSolvent w (credits g r amount) p s = credit-IsSolvent w g r amount s
apply-IsSolvent w (spends g a cost current) p s = spend-IsSolvent w g a cost current p s
apply-IsSolvent w (refunds g a fallback) p s = refund-IsSolvent w g a fallback s

-- From a wallet in which no balance and no tracked cost is negative, whatever amounts are credited,
-- spent and refunded, if no spent cost is negative, no balance and no tracked cost becomes negative.
pub run-IsSolvent :
    (w : Wallet) (cs : List Call) → All IsPriced cs → IsSolvent w → IsSolvent (run w cs)
unfolding run
run-IsSolvent w [] p s = s
run-IsSolvent w (c ∷ cs) p s = run-IsSolvent (apply w c) cs p.1 (apply-IsSolvent w c p.0 s)

refund_by-other :
    (o : Option Booking) (w : Wallet) (g a : String) (fallback : ℤ) (h : String)
    → g ≢ h
    → (balance (refund_by o w g a fallback).1 h ≡ balance w h)
      × (tracked (refund_by o w g a fallback).1 h ≡ tracked w h)
refund_by-other none w g a fallback h n = ground (arith, eq_iff g h)
refund_by-other (some b) w g a fallback h n = ground (arith, eq_iff g h)

-- A call for one guest changes neither the balance nor the tracked booking of another.
pub apply-other :
    (w : Wallet) (c : Call) (h : String)
    → caller c ≢ h
    → (balance (apply w c) h ≡ balance w h) × (tracked (apply w c) h ≡ tracked w h)
unfolding apply credit_reservation_tokens spend_activity_tokens refund_activity_tokens
apply-other w (credits g r amount) h n = ground (arith, eq_iff g h)
apply-other w (spends g a cost current) h n = ground (arith, eq_iff g h)
apply-other w (refunds g a fallback) h n = refund_by-other (tracked w g) w g a fallback h n
