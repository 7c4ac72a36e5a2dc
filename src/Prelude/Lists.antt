-- ===== src/Prelude/Lists.antt =====
-- Lists measured by native numbers, and searched and filtered by Boolean tests.
use Prim.Native.Nat.{ℕ, zero, suc, ◌+◌, ◌≤◌}
use Prim.Native.String.{String}
use mathlib.Core.Path.{◌≡◌, refl, ap, subst}
use mathlib.Core.Bool.{Bool, true, false, ◌||◌}
use mathlib.Core.Logic.{inl, inr}
use mathlib.Core.Option.{Option, none, some}
use mathlib.Core.List.{List, [], ◌∷◌, ◌++◌, map, Memᴰ}
use native.Mathlib.Omega.{arith}
use text.Mathlib.Text.{◌==◌}
use text.Mathlib.TextEquality.{eq_iff}
use webmeow.Prelude.Tests.{if◌then◌else◌, Bool-cases}

module _ {ℓ} {A : Type ℓ} where
  abbrev pub length : List A → ℕ
  length [] = 0
  length (x ∷ xs) = suc (length xs)

  abbrev pub take : ℕ → List A → List A
  take zero xs = []
  take (suc n) [] = []
  take (suc n) (x ∷ xs) = x ∷ take n xs

  -- `xs.filter(p)`
  abbrev pub keep : (A → Bool) → List A → List A
  keep p [] = []
  keep p (x ∷ xs) = if p x then x ∷ keep p xs else keep p xs

  -- `xs.find(p)`
  abbrev pub find : (A → Bool) → List A → Option A
  find p [] = none
  find p (x ∷ xs) = if p x then some x else find p xs

  -- `xs.some(p)`
  abbrev pub any : (A → Bool) → List A → Bool
  any p [] = false
  any p (x ∷ xs) = p x || any p xs

  abbrev pub All {κ} : (A → Type κ) → List A → Type κ
  All P [] = Unit
  All P (x ∷ xs) = P x × All P xs

module _ {ℓ} {A : Type ℓ} where
  pub length-append : (xs ys : List A) → length (xs ++ ys) ≡ length xs + length ys
  length-append [] ys = omega arith
  length-append (x ∷ xs) ys = omega (arith, length-append xs ys)

  take_nil : (k : ℕ) → take {A = A} k [] ≡ []
  take_nil zero = refl
  take_nil (suc k) = refl

  pub length-take-le : (n : ℕ) (xs : List A) → length (take n xs) ≤ n
  length-take-le zero xs = omega arith
  length-take-le (suc n) [] = omega arith
  length-take-le (suc n) (x ∷ xs) = omega (arith, length-take-le n xs)

  pub take_of_length-le : (k : ℕ) (ys : List A) → length ys ≤ k → take k ys ≡ ys
  take_of_length-le k [] h = take_nil k
  take_of_length-le zero (y ∷ ys) h = absurd (omega arith)
  take_of_length-le (suc k) (y ∷ ys) h = ap (λ zs. y ∷ zs) (take_of_length-le k ys (omega arith))

  pub All-Mem {κ} : (P : A → Type κ) {a : A} (xs : List A) → All P xs → Memᴰ a xs → P a
  All-Mem P [] h m = elim m [ ]
  All-Mem P (x ∷ xs) h (Memᴰ.head e) = rw e h.0
  All-Mem P (x ∷ xs) h (Memᴰ.tail m) = All-Mem P xs h.1 m

  pub All_map {κ} : (P Q : A → Type κ) (xs : List A) → ((a : A) → P a → Q a) → All P xs → All Q xs
  All_map P Q [] f h = tt
  All_map P Q (x ∷ xs) f h = (f x h.0, All_map P Q xs f h.1)

-- `xs.includes(a)` on strings.
abbrev pub includes : List String → String → Bool
includes [] a = false
includes (x ∷ xs) a = (x == a) || includes xs a

pub includes_again :
    (xs : List String) (a b : String)
    → includes xs a ≡ true
    → includes xs b ≡ ((a == b) || includes xs b)
includes_again xs a b h = elim (Bool-cases (a == b)) [
  | inl e ↦ rw e (subst (λ c. includes xs c ≡ true) ((eq_iff a b).0 e) h)
  | inr e ↦ rw e refl
]

pub All-map {ℓ κ} :
    {A B : Type ℓ} (Q : B → Type κ) (f : A → B) (xs : List A)
    → ((x : A) → Memᴰ x xs → Q (f x))
    → All Q (map f xs)
All-map Q f [] h = tt
All-map Q f (x ∷ xs) h = (h x (Memᴰ.head refl), All-map Q f xs (λ y m. h y (Memᴰ.tail m)))

module _ {ℓ} {A : Type ℓ} (p : A → Bool) where
  pub find-eq-none : (xs : List A) → find p xs ≡ none → All (λ x. p x ≡ false) xs
  find-eq-none [] h = tt
  find-eq-none (x ∷ xs) h = elim (Bool-cases (p x)) [
    | inl e ↦ absurd (ground arith)
    | inr e ↦ (e, find-eq-none xs (ground arith))
  ]

  pub find_of_none : (xs : List A) → All (λ x. p x ≡ false) xs → find p xs ≡ none
  find_of_none [] h = refl
  find_of_none (x ∷ xs) h = rw h.0 (find_of_none xs h.1)

  pub find-eq-some : (xs : List A) (a : A) → find p xs ≡ some a → Memᴰ a xs × (p a ≡ true)
  find-eq-some [] a h = absurd (ground arith)
  find-eq-some (x ∷ xs) a h = elim (Bool-cases (p x)) [
    | inl e ↦ (Memᴰ.head (ground arith), ground arith)
    | inr e ↦ let (m, q) = find-eq-some xs a (ground arith) in (Memᴰ.tail m, q)
  ]

  pub keep-length-zero : (xs : List A) → length (keep p xs) ≡ 0 → All (λ x. p x ≡ false) xs
  keep-length-zero [] h = tt
  keep-length-zero (x ∷ xs) h = elim (Bool-cases (p x)) [
    | inl e ↦ absurd (ground arith)
    | inr e ↦ (e, keep-length-zero xs (ground arith))
  ]

  pub keep_of_none : (xs : List A) → All (λ x. p x ≡ false) xs → keep p xs ≡ []
  keep_of_none [] h = refl
  keep_of_none (x ∷ xs) h = rw h.0 (keep_of_none xs h.1)
