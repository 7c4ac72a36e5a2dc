-- ===== src/Tokens/Rules.antt =====
-- frontend/src/features/tokens/token-rules.ts, and the room tables of
-- frontend/src/features/hotel/types.ts. The room types are those of the hotel service.
use webmeow.Prelude.{
  ℕ, zero, suc, ◌+◌, ◌*◌, ◌≤◌, String, ◌==◌, ◌≡◌, refl, Option, none, some, List, [], ◌∷◌,
  or_default, arith, if◌then◌else◌, Bool, true, ◌&&◌, leb,
}
use webmeow.Prelude.Int.{ℤ, pos, negsuc, ◌-ℤ◌, -ℤ_parts, pos_part, neg_part, ◌≤ℤ◌, ◌<ℤ◌}
use webmeow.Hotel.Types.{RoomType, standard, deluxe, suite}

unfoldable pub room_max_guests : RoomType → ℕ
room_max_guests standard = 2
room_max_guests deluxe = 3
room_max_guests suite = 4

unfoldable pub room_price_per_night : RoomType → ℕ
room_price_per_night standard = 100
room_price_per_night deluxe = 200
room_price_per_night suite = 400

unfoldable pub room_token_allowance_per_night : RoomType → ℕ
room_token_allowance_per_night standard = 4
room_token_allowance_per_night deluxe = 8
room_token_allowance_per_night suite = 16

abbrev pub Table : Type 0
Table = List (String × ℕ)

-- `TABLE[key]`
unfoldable pub look_up : String → Table → Option ℕ
look_up k [] = none
look_up k ((j, n) ∷ t) = if j == k then some n else look_up k t

abbrev pub activity_token_cost_by_id : Table
activity_token_cost_by_id =
    ("ACT001", 2)
    ∷ ("ACT002", 5)
    ∷ ("ACT003", 6)
    ∷ ("ACT004", 2)
    ∷ ("ACT005", 4)
    ∷ ("ACT006", 1)
    ∷ ("ACT007", 2)
    ∷ ("ACT008", 9)
    ∷ ("ACT009", 10)
    ∷ ("ACT010", 3)
    ∷ ("ACT011", 5)
    ∷ ("ACT012", 4)
    ∷ ("ACT013", 1)
    ∷ ("ACT014", 3)
    ∷ ("ACT015", 2)
    ∷ ("ACT016", 4)
    ∷ ("ACT017", 5)
    ∷ ("ACT018", 1)
    ∷ ("ACT019", 2)
    ∷ ("ACT020", 7)
    ∷ ("activity-sunset-cruise", 7)
    ∷ ("activity-snorkeling", 6)
    ∷ ("activity-glass-bottom-boat", 5)
    ∷ ("activity-beach-volleyball", 2)
    ∷ ("activity-kayaking", 4)
    ∷ ("activity-beach-yoga", 2)
    ∷ []

abbrev pub activity_token_cost_by_name : Table
activity_token_cost_by_name =
    ("Beach Volleyball", 2)
    ∷ ("Surf Lessons", 5)
    ∷ ("Snorkeling Adventure", 6)
    ∷ ("Snorkeling", 6)
    ∷ ("Sunrise Yoga", 2)
    ∷ ("Beach Yoga", 2)
    ∷ ("Kayaking Tour", 4)
    ∷ ("Kayaking", 4)
    ∷ ("Sandcastle Competition", 1)
    ∷ ("Beach Soccer", 2)
    ∷ ("Scuba Diving", 9)
    ∷ ("Jet Ski Experience", 10)
    ∷ ("Beach Bonfire", 3)
    ∷ ("Fishing Excursion", 5)
    ∷ ("Paddle Boarding", 4)
    ∷ ("Nature Walk", 1)
    ∷ ("Photography Workshop", 3)
    ∷ ("Treasure Hunt", 2)
    ∷ ("Cooking Class", 4)
    ∷ ("Sailing Basics", 5)
    ∷ ("Beach Cleanup", 1)
    ∷ ("Meditation Session", 2)
    ∷ ("Sunset Cruise", 7)
    ∷ ("Glass-Bottom Boat", 5)
    ∷ []

-- `Math.max(1, n)`
unfoldable pub at_least_one : ℤ → ℕ
at_least_one (pos zero) = 1
at_least_one (pos (suc n)) = suc n
at_least_one (negsuc n) = 1

unfoldable pub get_package_token_allowance : RoomType → ℤ → ℕ
unfolding room_token_allowance_per_night at_least_one
get_package_token_allowance t nights = room_token_allowance_per_night t * at_least_one nights

unfoldable pub get_package_price : RoomType → ℤ → ℕ
unfolding room_price_per_night at_least_one
get_package_price t nights = room_price_per_night t * at_least_one nights

-- The room type and the days of the reservation are all that is read of it.
unfoldable pub get_reservation_token_allowance : RoomType → ℤ → ℤ → ℕ
unfolding get_package_token_allowance
get_reservation_token_allowance t check_in_day check_out_day =
    get_package_token_allowance t (check_out_day -ℤ check_in_day)

-- By the id of the activity, or else by its name, or else 2.
unfoldable pub get_activity_token_cost : String → String → ℕ
unfolding look_up
get_activity_token_cost id name = elim (look_up id activity_token_cost_by_id) [
  | some n ↦ n
  | none ↦ or_default (look_up name activity_token_cost_by_name) 2
]

-- Every cost of the table is between 1 and 10.
abbrev in_bounds : Table → Bool
in_bounds [] = true
in_bounds ((k, n) ∷ t) = leb 1 n && leb n 10 && in_bounds t

look_up_bounds :
    (k : String) (t : Table) (n : ℕ)
    → in_bounds t ≡ true
    → look_up k t ≡ some n
    → (1 ≤ n) × (n ≤ 10)
unfolding look_up
look_up_bounds k [] n h e = absurd (ground arith)
look_up_bounds k ((j, m) ∷ t) n h e = ground (arith, look_up_bounds k t n)

cost_bounds :
    (a b : Option ℕ)
    → ((n : ℕ) → a ≡ some n → (1 ≤ n) × (n ≤ 10))
    → ((n : ℕ) → b ≡ some n → (1 ≤ n) × (n ≤ 10))
    → (1 ≤ elim a [ some n ↦ n | none ↦ or_default b 2 ])
      × (elim a [ some n ↦ n | none ↦ or_default b 2 ] ≤ 10)
cost_bounds (some n) b h k = h n refl
cost_bounds none (some n) h k = k n refl
cost_bounds none none h k = (omega arith, omega arith)

-- Whatever the activity, its cost is at least 1 token and at most 10.
pub get_activity_token_cost_bounds :
    (id name : String)
    → (1 ≤ get_activity_token_cost id name) × (get_activity_token_cost id name ≤ 10)
unfolding get_activity_token_cost
get_activity_token_cost_bounds id name =
    cost_bounds (look_up id activity_token_cost_by_id) (look_up name activity_token_cost_by_name)
      (λ n e. look_up_bounds id activity_token_cost_by_id n refl e)
      (λ n e. look_up_bounds name activity_token_cost_by_name n refl e)

priced :
    (t : RoomType) (n : ℕ) → room_token_allowance_per_night t * n * 25 ≡ room_price_per_night t * n
unfolding room_token_allowance_per_night room_price_per_night
priced standard n = omega arith
priced deluxe n = omega arith
priced suite n = omega arith

enough : (t : RoomType) (n : ℕ) → 1 ≤ n → 4 ≤ room_token_allowance_per_night t * n
unfolding room_token_allowance_per_night
enough standard n h = omega arith
enough deluxe n h = omega arith
enough suite n h = omega arith

one_night :
    (t : RoomType) (n : ℕ)
    → n ≡ 1
    → room_token_allowance_per_night t * n ≡ room_token_allowance_per_night t
one_night t n h = rw h (omega arith)

at_least_one_lem : (n : ℤ) → (1 ≤ at_least_one n) × (pos 0 <ℤ n → at_least_one n ≡ pos_part n)
unfolding at_least_one
at_least_one_lem n = ground arith

one_of_le : (a b : ℤ) → b ≤ℤ a → at_least_one (b -ℤ a) ≡ 1
unfolding at_least_one ◌-ℤ◌
one_of_le a b h = ground arith

nights_of :
    (a b : ℤ) → a <ℤ b → at_least_one (b -ℤ a) + pos_part a + neg_part b ≡ pos_part b + neg_part a
nights_of a b h = grind (arith, -ℤ_parts b a, at_least_one_lem (b -ℤ a))

-- A reservation that ends after it begins earns, for each of its nights, the allowance of its room
-- type; any other earns that of one night. What is earned is at least 4 tokens, and a 25th of the
-- price of the package.
pub get_reservation_token_allowance_lem :
    (t : RoomType) (check_in_day check_out_day : ℤ)
    → (get_reservation_token_allowance t check_in_day check_out_day * 25
        ≡ get_package_price t (check_out_day -ℤ check_in_day))
      × (4 ≤ get_reservation_token_allowance t check_in_day check_out_day)
      × (check_in_day <ℤ check_out_day
          → (nights : ℕ) × (nights + pos_part check_in_day + neg_part check_out_day
              ≡ pos_part check_out_day + neg_part check_in_day)
            × (get_reservation_token_allowance t check_in_day check_out_day
                ≡ room_token_allowance_per_night t * nights))
      × (check_out_day ≤ℤ check_in_day
          → get_reservation_token_allowance t check_in_day check_out_day
            ≡ room_token_allowance_per_night t)
unfolding get_reservation_token_allowance get_package_price
get_reservation_token_allowance_lem t a b = (
  priced t (at_least_one (b -ℤ a)),
  enough t _ (at_least_one_lem (b -ℤ a)).0,
  (λ h. (at_least_one (b -ℤ a), nights_of a b h, refl)),
  λ h. one_night t _ (one_of_le a b h),
)
