-- ===== src/Hotel/Prisma.antt =====
-- What the hotel service relies on of the database client that Prisma generates from
-- services/hotel/prisma/schema.prisma. `rooms` and `reservations` are the rows of the two tables,
-- the newest first; a `where` clause is a Boolean test on rows.
use webmeow.Prelude.{
  ℕ, String, ◌≡◌, ◌≢◌, Bool, true, false, Option, none, some, List, ◌∷◌, map, length, keep, All,
  ◌==◌, if◌then◌else◌,
}
use mathlib.Core.List.{Memᴰ}
use webmeow.Prelude.Int.{◌≤ℤ◌}
use webmeow.Hotel.Types.{RoomType, ReservationStatus, Room, Reservation, NewReservation}

-- A row with the status set, if it has the id.
abbrev pub set_status : String → ReservationStatus → Reservation → Reservation
set_status id st r = if r.id == id then record r { status = st } else r

pub record Prisma : Type 1 where
  pub Store : Type 0
  pub rooms : Store → List Room
  pub reservations : Store → List Reservation
  -- the queries: `findMany` of rooms ordered by id, `count`, `create`, `findUnique`, `findFirst`
  -- ordered by the check-in day, the last first, `update` of the status, `findMany`
  pub room_find_many : (Room → Bool) → Store → List Room
  pub reservation_count : (Reservation → Bool) → Store → ℕ
  pub reservation_create : String → NewReservation → Store → Reservation × Store
  pub reservation_find_unique : String → Store → Option Reservation
  pub reservation_find_first : (Reservation → Bool) → Store → Option Reservation
  pub reservation_update : String → ReservationStatus → Store → Reservation × Store
  pub reservation_find_many : (Reservation → Bool) → Store → List Reservation
  -- the type of the room that a reservation refers to, and the guests in the order of their ids
  pub room_type_of : Store → String → RoomType
  pub in_order : List String → List String
  pub find_many_sound :
      (p : Room → Bool) (s : Store) (r : Room)
      → Memᴰ r (room_find_many p s)
      → Memᴰ r (rooms s) × (p r ≡ true)
  pub find_many_complete :
      (p : Room → Bool) (s : Store) (r : Room)
      → Memᴰ r (rooms s)
      → p r ≡ true
      → Memᴰ r (room_find_many p s)
  pub count_lem :
      (p : Reservation → Bool) (s : Store)
      → reservation_count p s ≡ length (keep p (reservations s))
  pub create_row :
      (id : String) (d : NewReservation) (s : Store)
      → (reservation_create id d s).0 ≡ record {
        id = id;
        guest_id = d.guest_id;
        room_id = d.room_id;
        guest_count = d.guest_count;
        check_in_day = d.check_in_day;
        check_out_day = d.check_out_day;
        status = d.status;
        room_type = room_type_of s d.room_id;
        guests = in_order d.guests;
      }
  pub create_rows :
      (id : String) (d : NewReservation) (s : Store)
      → reservations (reservation_create id d s).1 ≡ (reservation_create id d s).0 ∷ reservations s
  pub create_rooms :
      (id : String) (d : NewReservation) (s : Store) → rooms (reservation_create id d s).1 ≡ rooms s
  pub room_type_lem : (s : Store) (r : Room) → Memᴰ r (rooms s) → room_type_of s r.id ≡ r.room_type
  pub in_order_mem : (xs : List String) (g : String) → Memᴰ g xs → Memᴰ g (in_order xs)
  pub in_order_length : (xs : List String) → length (in_order xs) ≡ length xs
  pub find_unique_sound :
      (id : String) (s : Store) (r : Reservation)
      → reservation_find_unique id s ≡ some r
      → Memᴰ r (reservations s) × (r.id ≡ id)
  pub find_unique_none :
      (id : String) (s : Store)
      → reservation_find_unique id s ≡ none
      → All (λ r. r.id ≢ id) (reservations s)
  pub find_first_sound :
      (p : Reservation → Bool) (s : Store) (r : Reservation)
      → reservation_find_first p s ≡ some r
      → Memᴰ r (reservations s)
        × (p r ≡ true)
        × All (λ q. p q ≡ true → q.check_in_day ≤ℤ r.check_in_day) (reservations s)
  pub find_first_none :
      (p : Reservation → Bool) (s : Store)
      → reservation_find_first p s ≡ none
      → All (λ q. p q ≡ false) (reservations s)
  pub update_row :
      (id : String) (st : ReservationStatus) (s : Store) (r : Reservation)
      → reservation_find_unique id s ≡ some r
      → (reservation_update id st s).0 ≡ record r { status = st }
  pub update_rows :
      (id : String) (st : ReservationStatus) (s : Store) (r : Reservation)
      → reservation_find_unique id s ≡ some r
      → reservations (reservation_update id st s).1 ≡ map (set_status id st) (reservations s)
  pub update_rooms :
      (id : String) (st : ReservationStatus) (s : Store)
      → rooms (reservation_update id st s).1 ≡ rooms s
  pub find_reservations_lem :
      (p : Reservation → Bool) (s : Store) → reservation_find_many p s ≡ keep p (reservations s)
