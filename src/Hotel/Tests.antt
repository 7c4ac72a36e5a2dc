-- ===== src/Hotel/Tests.antt =====
-- Runs of the hotel service at concrete inputs, over the client of `Tests/Memory`.
mod Memory
use webmeow.Prelude.{
  ℕ, suc, zero, String, ◌≡◌, ◌≢◌, refl, ◌↔◌, Option, none, some, List, [], ◌∷◌, ◌++◌, map, All, any,
  is_empty, includes, arith, true, false, ◌≤◌, ◌<◌, inl, inr, ◌+◌, ◌*◌, ◌==◌, ◌⊎◌,
}
use webmeow.Prelude.Int.{ℤ, pos, negsuc, ◌≤ℤ◌, ◌<ℤ◌, ◌-ℤ◌, pos_part, neg_part}
use webmeow.Prelude.Json.{Json, obj, str, field, end}
use mathlib.Core.List.{Memᴰ}
use webmeow.Hotel.Types.{
  standard, suite, confirmed, cancelled, Room, Reservation, CreateReservationDto,
  ReservationResponse, CancelResponse, Result, ok, err, is_confirmed, not_found,
}
use webmeow.Hotel.Prisma.{Prisma, set_status}
use webmeow.Hotel.Airport.{Reply, failed, answered, arrivals_url, has_guest_cleared_processing}
use webmeow.Hotel.Events.{Post, publish_hotel_event, reservation_confirmed, reservation_cancelled}
use webmeow.Hotel.Party.{Party, resolve_party_guests}
use webmeow.Hotel.Party.Laws.{
  IsParty, IsDistinct, resolve_party_guests-IsParty, resolve_party_guests-eq-ok_iff,
}
use webmeow.Hotel.Reservations.{
  Environment, Service, Decision, plan, confirm, create, cancel, find_by_id,
  find_active_by_guest_id, overlaps, available_room, blocked, to_reservation_response, event_of,
  is_active_of, reject_if_party_has_not_cleared_airport, max_capacity,
}
use webmeow.Hotel.Reservations.Booking.{IsDisjoint, Request, creates, cancels, run, run-IsDisjoint}
use webmeow.Hotel.Reservations.Races.{confirm_both, confirm_both-clashes, IsDoublyBooked}
use webmeow.Hotel.Reservations.Answers.{
  IsCreated, Outcome, create-Outcome, create-IsCreated, find_by_id-create,
}
use webmeow.Hotel.Reservations.Cancelling.{
  find_active_by_guest_id-create, cancel_twice, cancel-IsCancelled, IsCancelled, done, IsOf,
}
use webmeow.Hotel.Rooms.{find_all, occupies, count_guests, add_guests}
use webmeow.Hotel.Rooms.Occupancy.{
  find_all-le-capacity, find_all-occupancy, create-current_guests, Counts,
}
use webmeow.Hotel.Clock.{
  compute_current_day, compute_current_day_bounds, elapsed_game_millis, millis_per_day,
}
use webmeow.Pages.RoomSummary.{
  Summary, spinner, notice, rooms, room_summary, OccupancyBar, RoomCard, RoomsQuery, primary,
  destructive,
}
use Memory.{memory, all_rooms, standard_room, suite_room}

hotel : Unit {0}
unfolding create plan confirm cancel find_by_id find_active_by_guest_id resolve_party_guests
    available_room overlaps blocked has_guest_cleared_processing to_reservation_response event_of
    publish_hotel_event find_all arrivals_url is_active_of reject_if_party_has_not_cleared_airport
    max_capacity occupies count_guests add_guests room_summary
hotel = tt

abbrev env : Environment
env = record {
  airport_service_url = none;
  broadcast_service_url = some "http://broadcast";
  fetch = λ url. failed;
}

abbrev dto : CreateReservationDto
dto = record {
  guest_id = "ann";
  party_guest_ids = some ("bob" ∷ "ann" ∷ []);
  room_type = standard;
  guest_count = 2;
  check_in_day = pos 3;
  check_out_day = pos 5;
}

abbrev start : Service memory
start = record { db = []; posts = [] }

plan_runs :
    plan memory env dto []
    ≡ ok (record { party_guest_ids = "bob" ∷ "ann" ∷ []; room = standard_room })
unfolding hotel
plan_runs = refl

abbrev answer : ReservationResponse
answer = record {
  id = "r1";
  guest_id = "ann";
  party_guest_ids = "bob" ∷ "ann" ∷ [];
  room_id = "room-standard-01";
  room_type = standard;
  guest_count = 2;
  check_in_day = pos 3;
  check_out_day = pos 5;
  status = confirmed;
}

abbrev row : Reservation
row = record {
  id = "r1";
  guest_id = "ann";
  room_id = "room-standard-01";
  guest_count = 2;
  check_in_day = pos 3;
  check_out_day = pos 5;
  status = confirmed;
  room_type = standard;
  guests = "bob" ∷ "ann" ∷ [];
}

abbrev booked : Service memory
booked = record {
  db = row ∷ [];
  posts =
      publish_hotel_event (some "http://broadcast") reservation_confirmed
        (event_of "Hotel reservation confirmed." row);
}

create_runs : create memory env "r1" dto start ≡ (ok answer, booked)
unfolding hotel
create_runs = refl

-- The room is taken for days that overlap, and free from the day on which the stay ends.
second_guest_refused :
    (create memory env "r2" (record dto { check_in_day = pos 4; check_out_day = pos 6 }) booked).1
    ≡ booked
unfolding hotel
second_guest_refused = refl

abbrev two_guests : Party
two_guests = record { party_guest_ids = "bob" ∷ "ann" ∷ []; capacity_guest_count = 2 }

resolve_party_guests-eq-ok_example : (resolve_party_guests dto ≡ ok two_guests) ↔ (
    (two_guests ≡ record { party_guest_ids = "bob" ∷ "ann" ∷ []; capacity_guest_count = 2 })
    × (0 < 2)
    × (any is_empty ("bob" ∷ "ann" ∷ []) ≡ false)
    × IsDistinct ("bob" ∷ "ann" ∷ [])
    × (includes ("bob" ∷ "ann" ∷ []) "ann" ≡ true))
resolve_party_guests-eq-ok_example =
    resolve_party_guests-eq-ok_iff dto ("bob" ∷ "ann" ∷ []) two_guests refl

abbrev requests : List (Request memory)
requests =
    creates env "r1" dto ∷ creates env "r2" dto ∷ cancels env "r1" ∷ creates env "r3" dto ∷ []

run-IsDisjoint_example : IsDisjoint (run memory start requests).db
run-IsDisjoint_example = run-IsDisjoint memory start requests tt

abbrev decision : Decision
decision = record { party_guest_ids = "bob" ∷ "ann" ∷ []; room = standard_room }

confirm_both-clashes_example :
    IsDisjoint (confirm memory env "r1" dto decision start).1.db
    × IsDisjoint (confirm memory env "r2" dto decision start).1.db
    × ((d : Decision)
        → plan memory env dto (confirm memory env "r1" dto decision start).1.db ≡ ok d
        → d.room.id ≢ "room-standard-01")
    × IsDoublyBooked memory "room-standard-01" start
        (confirm_both memory env "r1" "r2" dto dto decision decision start)
confirm_both-clashes_example =
    confirm_both-clashes memory env "r1" "r2" dto dto decision decision start tt plan_runs plan_runs
      refl (omega arith) (omega arith)

create-Outcome_example : Outcome memory env "r1" dto start
create-Outcome_example = create-Outcome memory env "r1" dto start

find_active_by_guest_id-create_example :
    (r : Reservation) × Memᴰ r booked.db
    × (find_active_by_guest_id memory "bob" booked ≡ some (to_reservation_response r))
    × (r.status ≡ confirmed)
    × IsOf "bob" r
    × (pos 3 ≤ℤ r.check_in_day)
find_active_by_guest_id-create_example =
    find_active_by_guest_id-create memory env "r1" dto start booked answer "bob" create_runs
      (Memᴰ.head refl)

abbrev after_cancel : Service memory
after_cancel = record {
  db = record row { status = cancelled } ∷ [];
  posts =
      publish_hotel_event (some "http://broadcast") reservation_confirmed
        (event_of "Hotel reservation confirmed." row)
      ++ publish_hotel_event (some "http://broadcast") reservation_cancelled
          (event_of "Hotel reservation cancelled." (record row { status = cancelled }));
}

cancel_runs : cancel memory env "r1" booked ≡ (ok (done memory env "r1"), after_cancel)
unfolding hotel
cancel_runs = refl

cancel-IsCancelled_example :
    All (λ r. r.id ≢ "r1") booked.db × (cancel memory env "r1" booked ≡ (err not_found, booked))
    ⊎ ((s' : Service memory) × (cancel memory env "r1" booked ≡ (ok (done memory env "r1"), s'))
        × IsCancelled memory env "r1" booked s')
cancel-IsCancelled_example = cancel-IsCancelled memory env "r1" booked

find_all-occupancy_runs : map (λ r. r.occupancy) (find_all memory (pos 4) booked) ≡ 2 ∷ 0 ∷ []
unfolding hotel
find_all-occupancy_runs = refl

create-current_guests_example :
    ((room : Room) × (r : Reservation) × Memᴰ room all_rooms
      × (room.room_type ≡ standard)
      × (booked.db ≡ r ∷ [])
      × (r.room_id ≡ room.id)
      × (r.status ≡ confirmed)
      × Counts dto room.capacity dto.party_guest_ids r)
    × ((ids : List String) (n : ℕ)
        → dto.party_guest_ids ≡ some ids
        → plan memory env (record dto { guest_count = n }) [] ≡ plan memory env dto [])
create-current_guests_example =
    create-current_guests memory env "r1" dto start booked answer create_runs

abbrev rooms_query : RoomsQuery
rooms_query = record {
  data_rooms = some (find_all memory (pos 4) booked);
  is_loading = false;
  error_message = none;
}

abbrev bars : Summary → List OccupancyBar
bars (rooms occupied count cards) = map (λ (c : RoomCard). c.bar) cards
bars spinner = []
bars (notice text) = []

rooms_are_shown :
    bars (room_summary rooms_query)
    ≡ record {
      pct = record { top = 200; bottom = 2 };
      color = destructive;
      current = 2;
      capacity = 2;
    }
      ∷ record { pct = record { top = 0; bottom = 4 }; color = primary; current = 0; capacity = 4 }
      ∷ []
unfolding hotel
rooms_are_shown = refl
