-- ===== src/Island/Simulation/Choice.antt =====
-- frontend/src/features/simulation/actions.ts: which activity `bookRandomActivity` answers.
use webmeow.Prelude.{
  ℕ, zero, suc, ◌<◌, String, ◌≡◌, ◌⊎◌, inl, inr, refl, ap, Bool, true, false, Option, none, some,
  List, [], ◌∷◌, keep, ltb, ltb→lt, if◌then◌else◌, Bool-cases, arith,
}
use webmeow.Island.Simulation.{
  Reply, thrown, returned, has_text, Activity, sample, book_sample, book_if_none,
  book_random_activity,
}

-- An activity with a place left, under the given identifier, in the list.
abbrev pub IsAvailable : String → List Activity → Type 0
IsAvailable id [] = ⊥
IsAvailable id (a ∷ all) = ((a.activity_id ≡ id) × (0 < a.remaining)) ⊎ IsAvailable id all

book_first :
    (a : Activity) (booked : Reply (Unit {0})) (id : String)
    → book_sample (some a) booked ≡ some id
    → a.activity_id ≡ id
unfolding book_sample
book_first a thrown id h = cc
book_first a (returned u) id h = cc

-- A draw from a list that begins with an activity or not, as it has a place left or not.
book_next :
    (a : Activity) (all rest : List Activity) (id : String) (booked : Reply (Unit {0})) (b : Bool)
    (draw : ℕ)
    → (b ≡ true → 0 < a.remaining)
    → ((n : ℕ) → book_sample (sample n rest) booked ≡ some id → IsAvailable id all)
    → book_sample (sample draw (if b then a ∷ rest else rest)) booked ≡ some id
    → IsAvailable id (a ∷ all)
unfolding sample
book_next a all rest id booked true zero left ih h = inl (book_first a booked id h, left refl)
book_next a all rest id booked true (suc n) left ih h = inr (ih n h)
book_next a all rest id booked false draw left ih h = inr (ih draw h)

book_sample-IsAvailable :
    (all : List Activity) (id : String) (booked : Reply (Unit {0})) (draw : ℕ)
    → book_sample (sample draw (keep (λ a. ltb 0 a.remaining) all)) booked ≡ some id
    → IsAvailable id all
unfolding sample book_sample
book_sample-IsAvailable [] id booked draw h = cc
book_sample-IsAvailable (a ∷ all) id booked draw h =
    book_next a all (keep (λ a'. ltb 0 a'.remaining) all) id booked (ltb 0 a.remaining) draw
      (ltb→lt 0 a.remaining) (book_sample-IsAvailable all id booked) h

listed :
    (now : Option String) (activities : Reply (List Activity)) (draw : ℕ)
    (booked : Reply (Unit {0})) (id : String)
    → has_text now ≡ false
    → book_if_none (returned now) activities draw booked ≡ some id
    → (all : List Activity) × (activities ≡ returned all) × IsAvailable id all
unfolding book_if_none
listed now thrown draw booked id has h = absurd (ground arith)
listed now (returned all) draw booked id has h =
    (all, refl, book_sample-IsAvailable all id booked draw (ground arith))

-- The activity that `bookRandomActivity` answers is the one the guest already has, or one of the
-- listed activities with a place left; the guest then has a reservation and was checked in.
pub book_random_activity-IsAvailable :
    (reservation : Reply (Option String)) (checked : Reply (Unit {0}))
    (current : Reply (Option String)) (activities : Reply (List Activity)) (draw : ℕ)
    (booked : Reply (Unit {0})) (id : String)
    → book_random_activity reservation checked current activities draw booked ≡ some id
    → ((r : String) × (reservation ≡ returned (some r)))
      × (checked ≡ returned tt)
      × ((current ≡ returned (some id))
          ⊎ ((all : List Activity) × (activities ≡ returned all) × IsAvailable id all))
unfolding book_random_activity book_if_none
book_random_activity-IsAvailable thrown checked current activities draw booked id h = cc
book_random_activity-IsAvailable (returned none) checked current activities draw booked id h = cc
book_random_activity-IsAvailable (returned (some r)) thrown current activities draw booked id h = cc
book_random_activity-IsAvailable (returned (some r)) (returned u) thrown activities draw booked id
      h =
    cc
book_random_activity-IsAvailable (returned (some r)) (returned u) (returned now) activities draw
      booked id h =
    (
      (r, refl),
      refl,
      elim (Bool-cases (has_text now)) [
        | inl has ↦ inl (ap returned (ground arith))
        | inr has ↦ inr (listed now activities draw booked id has h)
      ],
    )
