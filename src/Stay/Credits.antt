-- ===== src/Stay/Credits.antt =====
-- frontend/src/features/hotel/hooks: what one reservation credits.
use webmeow.Prelude.{
  ℕ, String, ◌≡◌, refl, ap, sym, ◌∙◌, subst, Bool, true, false, ◌==◌, Option, none, some, List, ◌∷◌,
  if◌then◌else◌, if_cases, put, includes, includes_again, Bool-cases, inl, inr, eq_iff, arith,
}
use webmeow.Prelude.Int.{ℤ, pos, ◌+ℤ◌, leb_ℤ, int_laws}
use webmeow.Tokens.Rules.{get_reservation_token_allowance_lem}
use webmeow.Tokens.Wallet.{
  Booking, Wallet, balance, tracked, is_credited, reservation_credit_key, credit_reservation_tokens,
}
use webmeow.Tokens.Wallet.Exchange.{worth, worth_of}
use webmeow.Stay.{Reservation, allowance, credit}

abbrev pub key_of : Reservation → String
key_of r = reservation_credit_key r.guest_id r.id

-- What a reservation earns a guest, where it has not been brought before.
abbrev pub earned_by : String → List String → Reservation → ℕ
earned_by guest known r =
    if includes known (key_of r) then 0 else if r.guest_id == guest then allowance r else 0

abbrev pub IsKnown : List String → Wallet → Type 0
IsKnown known w = (key : String) → is_credited w key ≡ includes known key

-- The wallet once an amount is credited.
abbrev credited_to : String → String → ℤ → Wallet → Wallet
credited_to guest key amount w = record w {
  balances = put w.balances guest (balance w guest +ℤ amount);
  credited_reservations = put w.credited_reservations key true;
}

credit_new :
    (r : Reservation) (w : Wallet)
    → is_credited w (key_of r) ≡ false
    → (credit r w).1 ≡ credited_to r.guest_id (key_of r) (pos (allowance r)) w
unfolding credit_reservation_tokens
credit_new r w h =
    let enough =
      (get_reservation_token_allowance_lem r.room_type r.check_in_day r.check_out_day).1 in
    let positive : leb_ℤ (pos (allowance r)) (pos 0) ≡ false = ground (arith, enough) in
    rw (positive, h) refl

credit_known : (r : Reservation) (w : Wallet) → is_credited w (key_of r) ≡ true → (credit r w).1 ≡ w
unfolding credit_reservation_tokens
credit_known r w h =
    if_cases (λ (p : Bool × Wallet). p.1 ≡ w) (leb_ℤ (pos (allowance r)) (pos 0)) _ _ (λ e. refl)
      (λ e. rw h refl)

worth_more : (o : Option Booking) (b amount : ℤ) → worth_of o (b +ℤ amount) ≡ worth_of o b +ℤ amount
worth_more none b amount = refl
worth_more (some k) b amount = omega int_laws

pub worth_same : (b : ℤ) → b ≡ b +ℤ pos 0
worth_same b = omega int_laws

paid-worth :
    (to guest key : String) (amount : ℕ) (w : Wallet)
    → worth (credited_to to key (pos amount) w) guest
      ≡ worth w guest +ℤ pos (if to == guest then amount else 0)
unfolding worth
paid-worth to guest key amount w = elim (Bool-cases (to == guest)) [
  | inl e ↦ rw e (
      subst
        (λ g. worth_of (tracked w guest) (balance w g +ℤ pos amount) ≡ worth w guest +ℤ pos amount)
        (sym ((eq_iff to guest).0 e)) (worth_more (tracked w guest) (balance w guest) (pos amount)))
  | inr e ↦ rw e (worth_same (worth w guest))
]

pub credit-worth :
    (r : Reservation) (guest : String) (known : List String) (w : Wallet)
    → IsKnown known w
    → worth (credit r w).1 guest ≡ worth w guest +ℤ pos (earned_by guest known r)
credit-worth r guest known w h = elim (Bool-cases (includes known (key_of r))) [
  | inl old ↦
      rw old (
        ap (λ v. worth v guest) (credit_known r w (h (key_of r) ∙ old))
        ∙ worth_same (worth w guest))
  | inr new ↦ rw new (
      ap (λ v. worth v guest) (credit_new r w (h (key_of r) ∙ new))
      ∙ paid-worth r.guest_id guest (key_of r) (allowance r) w)
]

pub credit-IsKnown :
    (r : Reservation) (known : List String) (w : Wallet)
    → IsKnown known w
    → IsKnown (key_of r ∷ known) (credit r w).1
credit-IsKnown r known w h key = elim (Bool-cases (includes known (key_of r))) [
  | inl old ↦
      ap (λ v. is_credited v key) (credit_known r w (h (key_of r) ∙ old))
      ∙ h key
      ∙ includes_again known (key_of r) key old
  | inr new ↦
      ap (λ v. is_credited v key) (credit_new r w (h (key_of r) ∙ new)) ∙ ground (arith, h key)
]
