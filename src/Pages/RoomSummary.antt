-- ===== src/Pages/RoomSummary.antt =====
-- frontend/src/features/hotel/components/hotel-admin-room-summary.tsx: what the administrator is shown
-- of the rooms. The spinner, the notice and the cards are values; their classes are left out but for
-- the color of the bar. A percentage is the exact fraction that the numbers of the code round.
pub mod Filled
use webmeow.Prelude.{
  ℕ, ◌*◌, String, Bool, Option, none, some, List, map, keep, length, eqb, ltb, leb, or_default,
  if◌then◌else◌,
}
use webmeow.Hotel.Types.{RoomType}
use webmeow.Hotel.Rooms.{RoomResponse}

-- `top / bottom`
pub record Fraction : Type 0 where
  pub top : ℕ
  pub bottom : ℕ

-- `Math.min(..., 100)`
unfoldable pub min_100 : Fraction → Fraction
min_100 f = if ltb (100 * f.bottom) f.top then record { top = 100; bottom = 1 } else f

-- `pct >= n`
abbrev pub at_least : ℕ → Fraction → Bool
at_least n f = leb (n * f.bottom) f.top

-- `bg-destructive`, `bg-amber-500` and `bg-primary`.
pub data BarColor : Type 0 where
  destructive amber primary : BarColor

pub record OccupancyBar : Type 0 where
  pub pct : Fraction
  pub color : BarColor
  pub current : ℕ
  pub capacity : ℕ

unfoldable pub occupancy_bar : ℕ → ℕ → OccupancyBar
unfolding min_100
occupancy_bar current capacity =
    let pct =
      if ltb 0 capacity
      then min_100 (record { top = current * 100; bottom = capacity })
      else record { top = 0; bottom = 1 } in
    record {
      pct = pct;
      color = if at_least 100 pct then destructive else if at_least 60 pct then amber else primary;
      current = current;
      capacity = capacity;
    }

pub record RoomCard : Type 0 where
  pub id : String
  pub room_type : RoomType
  pub capacity : ℕ
  pub price_per_night : ℕ
  pub vacant : Bool
  pub bar : OccupancyBar

unfoldable pub room_card : RoomResponse → RoomCard
room_card room = record {
  id = room.id;
  room_type = room.room_type;
  capacity = room.capacity;
  price_per_night = room.price_per_night;
  vacant = eqb room.occupancy 0;
  bar = occupancy_bar room.occupancy room.capacity;
}

-- What `useQuery` answers.
pub record RoomsQuery : Type 0 where
  pub data_rooms : Option (List RoomResponse)
  pub is_loading : Bool
  pub error_message : Option String

pub data Summary : Type 0 where
  spinner : Summary
  notice : String → Summary
  -- The occupied rooms, all rooms, and their cards.
  rooms : ℕ → ℕ → List RoomCard → Summary

abbrev pub loaded_or_notice : Option String → Option (List RoomResponse) → Summary
loaded_or_notice error none = notice (or_default error "Room state could not be loaded.")
loaded_or_notice error (some answered) =
    rooms (length (keep (λ (r : RoomResponse). ltb 0 r.occupancy) answered)) (length answered)
      (map room_card answered)

unfoldable pub room_summary : RoomsQuery → Summary
unfolding room_card occupancy_bar
room_summary q = if q.is_loading then spinner else loaded_or_notice q.error_message q.data_rooms
