-- ===== src/Hotel/Reservations.antt =====
-- services/hotel/src/reservation/reservation.service.ts, over any database client. An operation
-- takes the service's state, the database and the requests made to the broadcast service, and
-- returns its answer with the new state. `create` reads the database (`plan`) and then writes to
-- it (`confirm`), with nothing that excludes other requests in between.
pub mod Plan
pub mod Booking
pub mod Answers
pub mod Races
pub mod Cancelling
use webmeow.Prelude.{
  ℕ, zero, suc, String, Bool, true, false, Option, none, some, List, [], ◌∷◌, ◌++◌, map, length,
  any, ◌&&◌, ◌||◌, ◌==◌, includes, ltb, leb, eqb, if◌then◌else◌, find,
}
use webmeow.Prelude.Int.{ℤ, ltb_ℤ, leb_ℤ}
use webmeow.Hotel.Types.{
  RoomType, same_type, is_confirmed, is_cancelled, confirmed, cancelled, Room, Reservation,
  NewReservation, CreateReservationDto, ReservationResponse, CancelResponse, Result, ok, err,
  dates_reversed, not_cleared, over_capacity, no_room, not_found, ◌>>=◌, ◌>>◌, throw_if,
}
use webmeow.Hotel.Prisma.{Prisma}
use webmeow.Hotel.Airport.{Reply, has_guest_cleared_processing}
use webmeow.Hotel.Events.{
  Post, HotelBroadcastEvent, reservation_confirmed, reservation_cancelled, publish_hotel_event,
}
use webmeow.Hotel.Party.{Party, resolve_party_guests}

-- The environment: the addresses of the two services, and the airport's answers.
pub record Environment : Type 0 where
  pub airport_service_url : Option String
  pub broadcast_service_url : Option String
  pub fetch : String → Reply

-- The guest is known not to have cleared the airport: `=== false`, not `null`.
abbrev pub is_known_false : Option Bool → Bool
is_known_false (some false) = true
is_known_false _ = false

unfoldable pub blocked : Environment → String → Bool
blocked env g = is_known_false (has_guest_cleared_processing env.airport_service_url env.fetch g)

abbrev pub refuse : Option String → Result (Unit {0})
refuse none = ok tt
refuse (some g) = err (not_cleared g)

unfoldable pub reject_if_party_has_not_cleared_airport :
    Environment → List String → Result (Unit {0})
reject_if_party_has_not_cleared_airport env ids = refuse (find (blocked env) ids)

-- `Math.max(...capacities)`, `none` for -Infinity.
abbrev pub max_of : ℕ → Option ℕ → Option ℕ
max_of n none = some n
max_of n (some m) = if leb m n then some n else some m

unfoldable pub max_capacity : List Room → Option ℕ
max_capacity [] = none
max_capacity (r ∷ rs) = max_of r.capacity (max_capacity rs)

abbrev pub exceeds : ℕ → Option ℕ → Bool
exceeds n none = true
exceeds n (some m) = ltb m n

-- The `where` clause of the count of overlapping reservations.
unfoldable pub overlaps : CreateReservationDto → Room → Reservation → Bool
overlaps dto room r =
    r.room_id == room.id
    && is_confirmed r.status
    && ltb_ℤ r.check_in_day dto.check_out_day
    && ltb_ℤ dto.check_in_day r.check_out_day

-- The `where` clause of the search for a guest's active reservation.
unfoldable pub is_active_of : String → Reservation → Bool
is_active_of g r = is_confirmed r.status && (r.guest_id == g || any (λ h. h == g) r.guests)

unfoldable pub party_guest_ids_from_reservation : Reservation → List String
party_guest_ids_from_reservation r = if ltb 0 (length r.guests) then r.guests else r.guest_id ∷ []

unfoldable pub to_reservation_response : Reservation → ReservationResponse
unfolding party_guest_ids_from_reservation
to_reservation_response r = record {
  id = r.id;
  guest_id = r.guest_id;
  party_guest_ids = party_guest_ids_from_reservation r;
  room_id = r.room_id;
  room_type = r.room_type;
  guest_count = r.guest_count;
  check_in_day = r.check_in_day;
  check_out_day = r.check_out_day;
  status = r.status;
}

-- The event of a reservation, with the message of the operation.
unfoldable pub event_of : String → Reservation → HotelBroadcastEvent
unfolding party_guest_ids_from_reservation
event_of message r = record {
  message = message;
  reservation_id = r.id;
  guest_id = r.guest_id;
  party_guest_ids = party_guest_ids_from_reservation r;
  room_type = r.room_type;
  guest_count = r.guest_count;
  check_in_day = r.check_in_day;
  check_out_day = r.check_out_day;
}

-- What `create` has decided when it comes to write.
pub record Decision : Type 0 where
  pub party_guest_ids : List String
  pub room : Room

abbrev pub or_no_room : CreateReservationDto → List String → Option Room → Result Decision
or_no_room dto ids none = err (no_room dto.room_type dto.check_in_day dto.check_out_day)
or_no_room dto ids (some room) = ok (record { party_guest_ids = ids; room = room })

pub record Service (P : Prisma) : Type 0 where
  pub db : P.Store
  pub posts : List Post

module _ (P : Prisma) where
  open P use {
    Store, room_find_many, reservation_count, reservation_create, reservation_find_unique,
    reservation_find_first, reservation_update,
  }

  -- The loop over the rooms: the first with enough places and no overlapping reservation.
  unfoldable pub available_room : CreateReservationDto → ℕ → Store → List Room → Option Room
  available_room dto count s [] = none
  available_room dto count s (room ∷ rooms) =
      let rest = available_room dto count s rooms in
      if ltb room.capacity count
      then rest
      else if eqb (reservation_count (overlaps dto room) s) 0
      then some room
      else rest

  -- The part of `create` after the party is known and cleared.
  unfoldable pub choose_room : CreateReservationDto → Party → Store → Result Decision
  choose_room dto party s =
      let rooms = room_find_many (λ r. same_type r.room_type dto.room_type) s in
      let most = max_capacity rooms in
      do
        throw_if (exceeds party.capacity_guest_count most) (over_capacity dto.room_type most)
        or_no_room dto party.party_guest_ids (available_room dto party.capacity_guest_count s rooms)

  -- The checks and reads of `create`.
  unfoldable pub plan : Environment → CreateReservationDto → Store → Result Decision
  unfolding choose_room
  plan env dto s = do
    throw_if (leb_ℤ dto.check_out_day dto.check_in_day) dates_reversed
    party ← resolve_party_guests dto
    reject_if_party_has_not_cleared_airport env party.party_guest_ids
    choose_room dto party s

  abbrev pub new_reservation : CreateReservationDto → Decision → NewReservation
  new_reservation dto d = record {
    guest_id = dto.guest_id;
    room_id = d.room.id;
    guest_count = dto.guest_count;
    check_in_day = dto.check_in_day;
    check_out_day = dto.check_out_day;
    status = confirmed;
    guests = d.party_guest_ids;
  }

  -- The writes of `create`; `id` is the key that the database client draws.
  unfoldable pub confirm :
      Environment
      → String
      → CreateReservationDto
      → Decision
      → Service P
      → ReservationResponse × Service P
  confirm env id dto d s =
      let (row, db) = reservation_create id (new_reservation dto d) s.db in
      (
        to_reservation_response row,
        record {
          db = db;
          posts =
              s.posts
              ++ publish_hotel_event env.broadcast_service_url reservation_confirmed
                  (event_of "Hotel reservation confirmed." row);
        },
      )

  abbrev pub confirm_or_throw :
      Environment
      → String
      → CreateReservationDto
      → Result Decision
      → Service P
      → Result ReservationResponse × Service P
  confirm_or_throw env id dto (err e) s = (err e, s)
  confirm_or_throw env id dto (ok d) s =
      let (answer, s') = confirm env id dto d s in (ok answer, s')

  unfoldable pub create :
      Environment
      → String
      → CreateReservationDto
      → Service P
      → Result ReservationResponse × Service P
  create env id dto s = confirm_or_throw env id dto (plan env dto s.db) s

  abbrev pub found_response : Option Reservation → Result ReservationResponse
  found_response none = err not_found
  found_response (some r) = ok (to_reservation_response r)

  unfoldable pub find_by_id : String → Service P → Result ReservationResponse
  find_by_id id s = found_response (reservation_find_unique id s.db)

  abbrev pub active_response : Option Reservation → Option ReservationResponse
  active_response none = none
  active_response (some r) = some (to_reservation_response r)

  unfoldable pub find_active_by_guest_id : String → Service P → Option ReservationResponse
  find_active_by_guest_id g s = active_response (reservation_find_first (is_active_of g) s.db)

  abbrev cancel_response : Reservation → CancelResponse
  cancel_response r = record { id = r.id; status = r.status }

  -- `cancel` after the search, by whether the row was found.
  unfoldable pub cancel_found :
      Environment → String → Option Reservation → Service P → Result CancelResponse × Service P
  cancel_found env id none s = (err not_found, s)
  cancel_found env id (some r) s =
      let (row, db) = reservation_update id cancelled s.db in
      if is_cancelled r.status then (ok (cancel_response r), s) else (
        ok (cancel_response row),
        record {
          db = db;
          posts =
              s.posts
              ++ publish_hotel_event env.broadcast_service_url reservation_cancelled
                  (event_of "Hotel reservation cancelled." row);
        },
      )

  unfoldable pub cancel : Environment → String → Service P → Result CancelResponse × Service P
  unfolding cancel_found
  cancel env id s = cancel_found env id (reservation_find_unique id s.db) s
