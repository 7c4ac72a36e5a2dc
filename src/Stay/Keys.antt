-- ===== src/Stay/Keys.antt =====
-- frontend/src/features/tokens/token-store.ts, `reservationCreditKey`: which reservations have one key.
use Prim.Native.Char.{Char, code}
use Prim.Native.String.{String, [], ◌∷◌}
use Prim.Native.String
use text.Mathlib.TextLemmas.{nil-append, cons-append}
use webmeow.Prelude.{
  ◌≡◌, refl, ap, sym, ◌∙◌, Bool, false, ◌==◌, ◌&&◌, ◌||◌, eq_iff, eqb, Bool-cases, inl, inr, arith,
}
use webmeow.Tokens.Wallet.{reservation_credit_key}

-- A guest's id has no colon in it.
unfoldable pub has_colon : String → Bool
has_colon [] = false
has_colon (c ∷ s) = eqb (code c) 58 || has_colon s

abbrev tail : String → String
tail [] = []
tail (c ∷ s) = s

abbrev head : Char → String → Char
head d [] = d
head d (c ∷ s) = c

abbrev colon : Char
colon = ":"

abbrev joined : String → String → String
joined guest id = String.◌++◌ guest (String.◌++◌ ":" id)

joined-nil : (x : String) → joined [] x ≡ colon ∷ x
joined-nil x =
    nil-append (String.◌++◌ ":" x) ∙ (cons-append colon [] x ∙ ap (λ s. colon ∷ s) (nil-append x))

joined-cons : (c : Char) (a x : String) → joined (c ∷ a) x ≡ c ∷ joined a x
joined-cons c a x = cons-append c a (String.◌++◌ ":" x)

joined-inj :
    (a b x y : String)
    → has_colon a ≡ false
    → has_colon b ≡ false
    → joined a x ≡ joined b y
    → (a ≡ b) × (x ≡ y)
unfolding has_colon
joined-inj [] [] x y h k e = (refl, ap tail (sym (joined-nil x) ∙ e ∙ joined-nil y))
joined-inj [] (d ∷ b) x y h k e =
    absurd (ground (arith, ap (λ s. code (head d s)) (sym (joined-nil x) ∙ e ∙ joined-cons d b y)))
joined-inj (c ∷ a) [] x y h k e =
    absurd (ground (arith, ap (λ s. code (head c s)) (sym (joined-cons c a x) ∙ e ∙ joined-nil y)))
joined-inj (c ∷ a) (d ∷ b) x y h k e =
    let f : c ∷ joined a x ≡ d ∷ joined b y = sym (joined-cons c a x) ∙ e ∙ joined-cons d b y in
    let (same, rest) = joined-inj a b x y (ground arith) (ground arith) (ap tail f) in
    (ap (λ z. z ∷ a) (ap (head c) f) ∙ ap (λ t. d ∷ t) same, rest)

-- Two keys are equal exactly for one guest and one reservation, where the guests' ids have no colon.
pub reservation_credit_key-== :
    (a b x y : String)
    → has_colon a ≡ false
    → has_colon b ≡ false
    → (reservation_credit_key a x == reservation_credit_key b y) ≡ ((a == b) && (x == y))
unfolding reservation_credit_key
reservation_credit_key-== a b x y h k = elim (Bool-cases (joined a x == joined b y)) [
  | inl e ↦
      let (same, rest) = joined-inj a b x y h k ((eq_iff (joined a x) (joined b y)).0 e) in
      e ∙ sym (ground (arith, (eq_iff a b).1 same, (eq_iff x y).1 rest))
  | inr e ↦ elim (Bool-cases ((a == b) && (x == y))) [
    | inr f ↦ e ∙ sym f
    | inl f ↦
        let one : joined a x ≡ joined b y =
          ap (λ g. joined g x) ((eq_iff a b).0 (ground arith))
          ∙ ap (joined b) ((eq_iff x y).0 (ground arith)) in
        absurd (ground (arith, (eq_iff (joined a x) (joined b y)).1 one, e))
  ]
]
