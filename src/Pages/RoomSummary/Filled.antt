-- ===== src/Pages/RoomSummary/Filled.antt =====
-- frontend/src/features/hotel/components/hotel-admin-room-summary.tsx over the answer of
-- services/hotel/src/rooms/rooms.service.ts: the summary is the state of the reservations.
use webmeow.Prelude.{
  ℕ, ◌*◌, ◌≤◌, String, ◌≡◌, Bool, true, ◌==◌, ◌&&◌, not, List, any, eqb, leb, if◌then◌else◌, All,
}
use webmeow.Prelude.Int.{ℤ}
use webmeow.Hotel.Types.{is_confirmed, Room, Reservation}
use webmeow.Hotel.Prisma.{Prisma}
use webmeow.Hotel.Rooms.{RoomResponse, occupies, current_guests}
use webmeow.Hotel.Rooms.Occupancy.{guests_in}
use webmeow.Pages.RoomSummary.{RoomCard, destructive, amber, primary, OccupancyBar}

-- A reservation of the room takes in the day.
abbrev pub is_taken : ℤ → List Reservation → String → Bool
is_taken day rs id = any (λ (r : Reservation). r.room_id == id && occupies day r) rs

-- Every confirmed reservation counts at least one guest.
abbrev pub IsPeopled : List Reservation → Type 0
IsPeopled rs = All (λ r. is_confirmed r.status ≡ true → 1 ≤ current_guests r) rs

-- The bar of a room that is not over its capacity, without rounding or clipping.
abbrev pub whole_bar : ℕ → ℕ → OccupancyBar
whole_bar n capacity = record {
  pct = record { top = n * 100; bottom = capacity };
  color =
      if eqb n capacity then destructive else if leb (3 * capacity) (5 * n) then amber else primary;
  current = n;
  capacity = capacity;
}

abbrev pub card_on : ℤ → List Reservation → Room → RoomCard
card_on day rs room = record {
  id = room.id;
  room_type = room.room_type;
  capacity = room.capacity;
  price_per_night = room.price_per_night;
  vacant = not (is_taken day rs room.id);
  bar = whole_bar (guests_in room.id day rs) room.capacity;
}

-- What `findAll` answers of a room.
abbrev answered : ℤ → List Reservation → Room → RoomResponse
answered day rs room =
    let n = guests_in room.id day rs in
    record {
      id = room.id;
      room_type = room.room_type;
      capacity = room.capacity;
      price_per_night = room.price_per_night;
      occupancy = n;
      current_guests = n;
    }
