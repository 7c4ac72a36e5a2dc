-- ===== src/Hotel/Rooms.antt =====
-- services/hotel/src/rooms/rooms.service.ts: the rooms with the guests that are in them today.
pub mod Occupancy
use webmeow.Prelude.{
  ℕ, ◌+◌, String, Bool, true, ◌&&◌, List, [], ◌∷◌, map, length, ltb, if◌then◌else◌, Dict, empty,
  put, or_default,
}
use webmeow.Prelude.Int.{ℤ, leb_ℤ, ltb_ℤ}
use webmeow.Hotel.Types.{RoomType, is_confirmed, Room, Reservation}
use webmeow.Hotel.Prisma.{Prisma}
use webmeow.Hotel.Reservations.{Service}

pub record RoomResponse : Type 0 where
  pub id : String
  pub room_type : RoomType
  pub capacity : ℕ
  pub price_per_night : ℕ
  pub occupancy : ℕ
  pub current_guests : ℕ

-- The `where` clause: confirmed, and the day is in the stay.
unfoldable pub occupies : ℤ → Reservation → Bool
occupies day r = is_confirmed r.status && leb_ℤ r.check_in_day day && ltb_ℤ day r.check_out_day

-- `knownPartySize > 1 ? knownPartySize : reservation.guest_count`
unfoldable pub current_guests : Reservation → ℕ
current_guests r = if ltb 1 (length r.guests) then length r.guests else r.guest_count

-- One round of the `reduce`.
unfoldable pub add_guests : Dict ℕ → Reservation → Dict ℕ
unfolding current_guests
add_guests counts r = put counts r.room_id (or_default (counts r.room_id) 0 + current_guests r)

unfoldable pub count_guests : Dict ℕ → List Reservation → Dict ℕ
count_guests counts [] = counts
count_guests counts (r ∷ rs) = count_guests (add_guests counts r) rs

abbrev pub room_response : Dict ℕ → Room → RoomResponse
room_response counts room =
    let occupancy = or_default (counts room.id) 0 in
    record {
      id = room.id;
      room_type = room.room_type;
      capacity = room.capacity;
      price_per_night = room.price_per_night;
      occupancy = occupancy;
      current_guests = occupancy;
    }

module _ (P : Prisma) where
  -- `day` is `currentDay()` of the simulation clock.
  unfoldable pub find_all : ℤ → Service P → List RoomResponse
  find_all day s =
      map (room_response (count_guests empty (P.reservation_find_many (occupies day) s.db)))
        (P.room_find_many (λ r. true) s.db)
