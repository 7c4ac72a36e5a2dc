-- ===== src/Stay/Earnings.antt =====
-- frontend/src/features/hotel/hooks: the tokens that reservations bring.
use webmeow.Prelude.{
  ℕ, ◌+◌, String, ◌≡◌, ◌≢◌, refl, ap, ◌∙◌, subst, false, ◌==◌, Option, none, some, List, [], ◌∷◌,
  put, Bool-cases, inl, inr, eq_iff, arith, Bool, ◌&&◌, any, map, includes, All, if◌then◌else◌,
}
use webmeow.Prelude.Int.{ℤ, pos, ◌+ℤ◌, int_laws}
use webmeow.Tokens.Wallet.{Booking, Wallet, tracked, is_credited, refund_activity_tokens}
use webmeow.Tokens.Wallet.Exchange.{worth, refund-worth}
use webmeow.Tokens.Wallet.Solvency.{apply, refunds, apply-other}
use webmeow.Stay.{
  opened, allowance, check_out_of, active_reservation, Reservation, Reply, answered, failed, Desk,
  submit, see, load, refund_tracked, cancel, Event, submits, loads, cancels, happen, happen_all,
}
use webmeow.Stay.Keys.{has_colon, reservation_credit_key-==}
use webmeow.Stay.Credits.{key_of, earned_by, IsKnown, credit-worth, credit-IsKnown, worth_same}

-- The reservations that an event brings to the desk.
abbrev pub brought : Event → Option Reservation
brought (submits (some guest) (answered r)) = some r
brought (loads guest reservation) = reservation
brought _ = none

abbrev pub known_with : Option Reservation → List String → List String
known_with none known = known
known_with (some r) known = key_of r ∷ known

abbrev earned_of_keys : String → List String → Option Reservation → ℕ
earned_of_keys guest known none = 0
earned_of_keys guest known (some r) = earned_by guest known r

-- The sum of the allowances of a guest's reservations with different keys.
unfoldable earned_keys : String → List String → List Event → ℕ
earned_keys guest known [] = 0
earned_keys guest known (e ∷ rest) =
    earned_of_keys guest known (brought e) + earned_keys guest (known_with (brought e) known) rest

-- A wallet and the events before it agree: what was brought is credited.
abbrev Earns : String → List String → Option Reservation → Desk → Desk → Type 0
Earns guest known o d d' =
    (worth d'.wallet guest ≡ worth d.wallet guest +ℤ pos (earned_of_keys guest known o))
    × IsKnown (known_with o known) d'.wallet

see-Earns :
    (o : Option Reservation) (guest : String) (known : List String) (d : Desk)
    → IsKnown known d.wallet
    → Earns guest known o d (see o d)
see-Earns none guest known d h = (worth_same (worth d.wallet guest), h)
see-Earns (some r) guest known d h =
    (credit-worth r guest known d.wallet h, credit-IsKnown r known d.wallet h)

submit-Earns :
    (o : Option String) (reply : Reply Reservation) (guest : String) (known : List String)
    (d : Desk)
    → IsKnown known d.wallet
    → Earns guest known (brought (submits o reply)) d (submit o reply d)
unfolding submit
submit-Earns none reply guest known d h = (worth_same (worth d.wallet guest), h)
submit-Earns (some g) (answered r) guest known d h =
    (credit-worth r guest known d.wallet h, credit-IsKnown r known d.wallet h)
submit-Earns (some g) (failed message) guest known d h = (worth_same (worth d.wallet guest), h)

refund_other :
    (b : Booking) (of guest : String) (w : Wallet)
    → of ≢ guest
    → worth (refund_activity_tokens w of b.activity_id (pos 0)).1 guest ≡ worth w guest
unfolding apply worth
refund_other b of guest w n =
    let (funds, booking) = apply-other w (refunds of b.activity_id (pos 0)) guest n in
    ground (arith, funds, booking)

refund_any :
    (b : Booking) (of guest : String) (w : Wallet)
    → tracked w of ≡ some b
    → worth (refund_activity_tokens w of b.activity_id (pos 0)).1 guest ≡ worth w guest
refund_any b of guest w t = elim (Bool-cases (of == guest)) [
  | inl same ↦
      subst (λ g. worth (refund_activity_tokens w of b.activity_id (pos 0)).1 g ≡ worth w g)
        ((eq_iff of guest).0 same) (refund-worth w of b.activity_id (pos 0) b t refl).3
  | inr distinct ↦ refund_other b of guest w (λ e. ground (arith, (eq_iff of guest).1 e))
]

refund-IsKnown :
    (b : Booking) (of : String) (known : List String) (w : Wallet)
    → IsKnown known w
    → IsKnown known (refund_activity_tokens w of b.activity_id (pos 0)).1
unfolding refund_activity_tokens
refund-IsKnown b of known w h key = ground (arith, h key)

refund_tracked-Earns :
    (o : Option Booking) (of guest : String) (known : List String) (d : Desk)
    → tracked d.wallet of ≡ o
    → IsKnown known d.wallet
    → Earns guest known none d (refund_tracked o of d)
refund_tracked-Earns none of guest known d t h = (worth_same (worth d.wallet guest), h)
refund_tracked-Earns (some b) of guest known d t h = (
  refund_any b of guest d.wallet t ∙ worth_same (worth d.wallet guest),
  refund-IsKnown b of known d.wallet h,
)

cancel-Earns :
    (o error : Option String) (guest : String) (known : List String) (d : Desk)
    → IsKnown known d.wallet
    → Earns guest known none d (cancel o error d)
unfolding cancel
cancel-Earns none none guest known d h = (worth_same (worth d.wallet guest), h)
cancel-Earns (some g) none guest known d h =
    refund_tracked-Earns (tracked d.wallet g) g guest known
      (record d {
        visitor_calls = check_out_of (active_reservation g d) g d.visitor_calls;
        cached = put d.cached g none;
      })
      refl h
cancel-Earns o (some message) guest known d h = (worth_same (worth d.wallet guest), h)

happen-Earns :
    (e : Event) (guest : String) (known : List String) (d : Desk)
    → IsKnown known d.wallet
    → Earns guest known (brought e) d (happen e d)
unfolding happen
happen-Earns (submits o reply) guest known d h = submit-Earns o reply guest known d h
happen-Earns (loads g reservation) guest known d h =
    unfold load in
    see-Earns reservation guest known (record d { cached = put d.cached g reservation }) h
happen-Earns (cancels o error) guest known d h = cancel-Earns o error guest known d h

add_up : (a : ℤ) (m n : ℕ) → (a +ℤ pos m) +ℤ pos n ≡ a +ℤ pos (m + n)
add_up a m n = omega int_laws

all-worth :
    (es : List Event) (guest : String) (known : List String) (d : Desk)
    → IsKnown known d.wallet
    → worth (happen_all es d).wallet guest
      ≡ worth d.wallet guest +ℤ pos (earned_keys guest known es)
unfolding happen_all earned_keys
all-worth [] guest known d h = worth_same (worth d.wallet guest)
all-worth (e ∷ rest) guest known d h =
    let (more, agrees) = happen-Earns e guest known d h in
    let later = earned_keys guest (known_with (brought e) known) rest in
    all-worth rest guest (known_with (brought e) known) (happen e d) agrees
    ∙ ap (λ a. a +ℤ pos later) more
    ∙ add_up (worth d.wallet guest) (earned_of_keys guest known (brought e)) later

-- The reservation has been brought before: one of that guest with that id.
abbrev pub is_repeated : Reservation → List Reservation → Bool
is_repeated r seen = any (λ (q : Reservation). (q.guest_id == r.guest_id) && (q.id == r.id)) seen

abbrev pub see_too : Option Reservation → List Reservation → List Reservation
see_too none seen = seen
see_too (some r) seen = r ∷ seen

abbrev pub earned_of : String → List Reservation → Option Reservation → ℕ
earned_of guest seen none = 0
earned_of guest seen (some r) =
    if is_repeated r seen then 0 else if r.guest_id == guest then allowance r else 0

-- The sum of the allowances of a guest's different reservations.
unfoldable pub earned : String → List Reservation → List Event → ℕ
earned guest seen [] = 0
earned guest seen (e ∷ rest) =
    earned_of guest seen (brought e) + earned guest (see_too (brought e) seen) rest

-- The guest's id has no colon.
abbrev pub IsPlain : Reservation → Type 0
IsPlain r = has_colon r.guest_id ≡ false

abbrev pub IsPlainIf : Option Reservation → Type 0
IsPlainIf none = Unit
IsPlainIf (some r) = IsPlain r

known_iff :
    (r : Reservation) (seen : List Reservation)
    → IsPlain r
    → All IsPlain seen
    → includes (map key_of seen) (key_of r) ≡ is_repeated r seen
known_iff r [] h k = refl
known_iff r (q ∷ seen) h k =
    rw (reservation_credit_key-== q.guest_id r.guest_id q.id r.id k.0 h, known_iff r seen h k.1)
      refl

earned_of_keys-eq :
    (guest : String) (o : Option Reservation) (seen : List Reservation)
    → IsPlainIf o
    → All IsPlain seen
    → earned_of_keys guest (map key_of seen) o ≡ earned_of guest seen o
earned_of_keys-eq guest none seen h k = refl
earned_of_keys-eq guest (some r) seen h k = rw (known_iff r seen h k) refl

seen-IsPlain :
    (o : Option Reservation) (seen : List Reservation)
    → IsPlainIf o
    → All IsPlain seen
    → All IsPlain (see_too o seen) × (known_with o (map key_of seen) ≡ map key_of (see_too o seen))
seen-IsPlain none seen h k = (k, refl)
seen-IsPlain (some r) seen h k = ((h, k), refl)

earned_keys-eq :
    (guest : String) (es : List Event) (seen : List Reservation)
    → All (λ e. IsPlainIf (brought e)) es
    → All IsPlain seen
    → earned_keys guest (map key_of seen) es ≡ earned guest seen es
unfolding earned_keys earned
earned_keys-eq guest [] seen h k = refl
earned_keys-eq guest (e ∷ rest) seen h k =
    let (plain, keys) = seen-IsPlain (brought e) seen h.0 k in
    rw (earned_of_keys-eq guest (brought e) seen h.0 k, keys)
      (ap (λ n. earned_of guest seen (brought e) + n)
        (earned_keys-eq guest rest (see_too (brought e) seen) h.1 plain))

-- Where a wallet has no reservation credited, and no guest's id has a colon in it, a guest's worth, the
-- balance with the cost of the tracked activity, grows by the allowances of the guest's different
-- reservations, those with different ids, that forms or reads bring, each counted once however often
-- it is brought; what is cancelled, whatever fails, and the reservations of the other guests do not
-- change it.
pub happen_all-worth :
    (es : List Event) (guest : String) (w : Wallet)
    → All (λ e. IsPlainIf (brought e)) es
    → ((key : String) → is_credited w key ≡ false)
    → worth (happen_all es (opened w)).wallet guest ≡ worth w guest +ℤ pos (earned guest [] es)
happen_all-worth es guest w plain fresh =
    all-worth es guest [] (opened w) fresh
    ∙ ap (λ n. worth w guest +ℤ pos n) (earned_keys-eq guest es [] plain tt)
