-- ===== src/Island/Simulation/Requests.antt =====
-- frontend/src/features/simulation/actions.ts: the requests of the simulated guests. A value of
-- `Math.random()` is given in units of 2^-53, of which it is a whole number below 2^53, and products
-- with it are exact; days are those of the frontend's simulation.
use webmeow.Prelude.{
  ℕ, ◌+◌, ◌-◌, ◌*◌, ◌/◌, ◌≤◌, ◌<◌, String, ◌≡◌, refl, Bool, List, [], ◌∷◌, or_default, arith,
}
use webmeow.Prelude.Int.{ℤ, pos_part}
use webmeow.Hotel.Types.{RoomType, standard, deluxe, suite}
use webmeow.Tokens.Rules.{room_max_guests}
use webmeow.Island.Session.{GuestProfile, GuestPassport, GuestPriority}
use webmeow.Island.Simulation.{sample}

-- 2^53
abbrev pub random_units : ℕ
random_units = 9007199254740992

-- `Math.floor(Math.random() * n)`
unfoldable pub random_below : ℕ → ℕ → ℕ
random_below random n = random * n / random_units

unfoldable pub random_int : ℕ → ℕ → ℕ → ℕ
unfolding random_below
random_int random min max = random_below random (max - min + 1) + min

abbrev pub room_types : List RoomType
room_types = standard ∷ deluxe ∷ suite ∷ []

pub record ReservationBody : Type 0 where
  pub guest_id : String
  pub room_type : RoomType
  pub guest_count : ℕ
  pub check_in_day : ℕ
  pub check_out_day : ℕ

pub record ArrivalBody : Type 0 where
  pub guest_id : String
  pub name : String
  pub surname : String
  pub age : ℕ
  pub passport_type : GuestPassport
  pub priority : GuestPriority
  pub disability : Bool

unfoldable pub guest_to_arrival_body : GuestProfile → ArrivalBody
guest_to_arrival_body guest = record {
  guest_id = guest.id;
  name = guest.name;
  surname = guest.surname;
  age = guest.age;
  passport_type = guest.passport;
  priority = guest.priority;
  disability = guest.disability;
}

-- The four values that are drawn for a body.
pub record Draws : Type 0 where
  pub check_in : ℕ
  pub room : ℕ
  pub count : ℕ
  pub check_out : ℕ

-- `Math.max(0, getCurrentSimulationDay())`
abbrev pub today : ℤ → ℕ
today day = pos_part day

abbrev pub body_of : String → ℕ → Draws → RoomType → ReservationBody
body_of guest_id check_in d room_type = record {
  guest_id = guest_id;
  room_type = room_type;
  guest_count = random_int d.count 1 (room_max_guests room_type);
  check_in_day = check_in;
  check_out_day = check_in + random_int d.check_out 1 3;
}

-- The room types are three, so one is always drawn.
unfoldable pub random_reservation_body : GuestProfile → ℤ → Draws → ReservationBody
unfolding random_int random_below sample
random_reservation_body guest day d =
    body_of guest.id (today day + random_int d.check_in 0 2) d
      (or_default (sample (random_below d.room 3) room_types) suite)

two_below : (random : ℕ) → random < random_units → random_below random 2 < 2
unfolding random_below
two_below random h = omega arith

three_below : (random : ℕ) → random < random_units → random_below random 3 < 3
unfolding random_below
three_below random h = omega arith

four_below : (random : ℕ) → random < random_units → random_below random 4 < 4
unfolding random_below
four_below random h = omega arith

-- The draws are values of `Math.random()`.
abbrev pub IsDrawn : Draws → Type 0
IsDrawn d =
    (d.check_in < random_units)
    × (d.room < random_units)
    × (d.count < random_units)
    × (d.check_out < random_units)

count_bounds :
    (random : ℕ) (t : RoomType)
    → random < random_units
    → (1 ≤ random_int random 1 (room_max_guests t))
      × (random_int random 1 (room_max_guests t) ≤ room_max_guests t)
unfolding random_int room_max_guests
count_bounds random standard h = let below = two_below random h in (omega arith, omega arith)
count_bounds random deluxe h = let below = three_below random h in (omega arith, omega arith)
count_bounds random suite h = let below = four_below random h in (omega arith, omega arith)

stay_bounds :
    (random min max : ℕ)
    → random < random_units
    → max ≡ min + 2
    → (min ≤ random_int random min max) × (random_int random min max ≤ max)
unfolding random_int
stay_bounds random min max h e =
    let n : max - min + 1 ≡ 3 = omega arith in
    let below = three_below random h in rw n (omega arith, omega arith)

-- A stay of one to three days that begins on the day, or on day 0 if that is later, or within two days
-- after it, for at least one and at most as many guests as a room of the type may have.
abbrev pub IsSensible : ℤ → ReservationBody → Type 0
IsSensible day body =
    (1 ≤ body.guest_count)
    × (body.guest_count ≤ room_max_guests body.room_type)
    × (pos_part day ≤ body.check_in_day)
    × (body.check_in_day ≤ pos_part day + 2)
    × (body.check_in_day < body.check_out_day)
    × (body.check_out_day ≤ body.check_in_day + 3)

-- Whatever is drawn, a simulated guest asks for a stay of one to three days that begins on the present
-- day, or on day 0 before the simulation starts, or within two days after it, and for at least one and
-- at most as many guests as a room of the type may have.
pub random_reservation_body-IsSensible :
    (guest : GuestProfile) (day : ℤ) (d : Draws)
    → IsDrawn d
    → IsSensible day (random_reservation_body guest day d)
unfolding random_reservation_body
random_reservation_body-IsSensible guest day d (first, room, count, last) =
    let room_type = or_default (sample (random_below d.room 3) room_types) suite in
    let (some_guests, fits) = count_bounds d.count room_type count in
    let (later, soon) = stay_bounds d.check_in 0 2 first refl in
    let (long, short) = stay_bounds d.check_out 1 3 last refl in
    (some_guests, fits, omega arith, omega arith, omega arith, omega arith)
