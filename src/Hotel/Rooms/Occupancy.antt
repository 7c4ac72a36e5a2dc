-- ===== src/Hotel/Rooms/Occupancy.antt =====
-- services/hotel/src/rooms/rooms.service.ts: how many guests the rooms are said to hold, against
-- their capacity.
use mathlib.Core.List.{Memᴰ}
use webmeow.Prelude.{
  ℕ, ◌+◌, ◌≤◌, String, ◌≡◌, refl, fun_ext, sym, ap, ◌∙◌, true, false, ◌&&◌, ◌==◌, eq_iff, List, [],
  ◌∷◌, map, length, if◌then◌else◌, Dict, empty, Option, none, some, ltb, or_default, arith, All,
  All-map, keep, inl, inr,
}
use webmeow.Prelude.Int.{ℤ}
use webmeow.Hotel.Types.{
  is_confirmed, confirmed, Room, Reservation, ok, ReservationResponse, CreateReservationDto,
}
use webmeow.Hotel.Prisma.{Prisma}
use webmeow.Hotel.Reservations.{
  Service, Environment, plan, choose_room, available_room, overlaps, create,
  to_reservation_response,
}
use webmeow.Hotel.Reservations.Answers.{create-IsCreated}
use webmeow.Hotel.Party.{Party, check_party, resolve_party_guests}
use webmeow.Hotel.Party.Laws.{IsParty, Counted, resolve_party_guests-IsParty}
use webmeow.Hotel.Reservations.Booking.{clash, IsDisjoint}
use webmeow.Hotel.Rooms.{RoomResponse, occupies, current_guests, add_guests, count_guests, find_all}

-- The guests of the reservations of one room that take in the day, summed directly.
unfoldable pub guests_in : String → ℤ → List Reservation → ℕ
guests_in id day [] = 0
guests_in id day (r ∷ rs) =
    (if r.room_id == id && occupies day r then current_guests r else 0) + guests_in id day rs

added :
    (id : String) (counts : Dict ℕ) (r : Reservation)
    → or_default (add_guests counts r id) 0
      ≡ or_default (counts id) 0 + (if r.room_id == id then current_guests r else 0)
unfolding add_guests
added id counts r = ground (arith, eq_iff r.room_id id)

count_guests-eq :
    (id : String) (day : ℤ) (counts : Dict ℕ) (rs : List Reservation)
    → or_default (count_guests counts (keep (occupies day) rs) id) 0
      ≡ or_default (counts id) 0 + guests_in id day rs
unfolding count_guests guests_in
count_guests-eq id day counts [] = omega arith
count_guests-eq id day counts (r ∷ rs) = ground (
  arith,
  added id counts r,
  count_guests-eq id day (add_guests counts r) rs,
  count_guests-eq id day counts rs,
)

-- Two reservations of one room that both take in a day clash.
clash_of_occupies :
    (day : ℤ) (r q : Reservation)
    → occupies day r ≡ true
    → occupies day q ≡ true
    → r.room_id ≡ q.room_id
    → clash r q ≡ true
unfolding occupies clash
clash_of_occupies day r q h k e = ground (arith, eq_iff r.room_id q.room_id)

pub confirmed_of_occupies :
    (day : ℤ) (r : Reservation) → occupies day r ≡ true → is_confirmed r.status ≡ true
unfolding occupies
confirmed_of_occupies day r h = ground arith

none_beside :
    (id : String) (day : ℤ) (r : Reservation) (rs : List Reservation)
    → r.room_id ≡ id
    → occupies day r ≡ true
    → All (λ q. clash r q ≡ false) rs
    → guests_in id day rs ≡ 0
unfolding guests_in
none_beside id day r [] e o h = refl
none_beside id day r (q ∷ rs) e o h =
    ground
      (arith, eq_iff q.room_id id, clash_of_occupies day r q o, none_beside id day r rs e o h.1)

-- Every confirmed reservation of the room counts at most `most` guests.
abbrev pub IsWithin : String → ℕ → List Reservation → Type 0
IsWithin id most rs =
    All (λ r. r.room_id ≡ id → is_confirmed r.status ≡ true → current_guests r ≤ most) rs

pub guests_in-le :
    (id : String) (day : ℤ) (most : ℕ) (rs : List Reservation)
    → IsDisjoint rs
    → IsWithin id most rs
    → guests_in id day rs ≤ most
unfolding guests_in
guests_in-le id day most [] d w = omega arith
guests_in-le id day most (r ∷ rs) d w = ground (
  arith,
  eq_iff r.room_id id,
  w.0,
  confirmed_of_occupies day r,
  none_beside id day r rs,
  guests_in-le id day most rs d.1 w.1,
)

module _ (P : Prisma) (day : ℤ) (s : Service P) where
  open P use {rooms, reservations, room_find_many}

  counted :
      (id : String)
      → or_default (count_guests empty (P.reservation_find_many (occupies day) s.db) id) 0
        ≡ guests_in id day (reservations s.db)
  counted id =
      rw (P.find_reservations_lem (occupies day) s.db)
        (count_guests-eq id day empty (reservations s.db) ∙ omega arith)

  -- The occupancy that `findAll` reports of a room is the sum, over the confirmed reservations of
  -- that room that take in the day, of their guests, and `current_guests` repeats it.
  pub find_all-occupancy :
      find_all P day s
      ≡ map
          (λ room.
            let n = guests_in room.id day (reservations s.db) in
            record {
              id = room.id;
              room_type = room.room_type;
              capacity = room.capacity;
              price_per_night = room.price_per_night;
              occupancy = n;
              current_guests = n;
            })
          (room_find_many (λ r. true) s.db)
  unfolding find_all
  find_all-occupancy =
      ap (λ (f : Room → RoomResponse). map f (room_find_many (λ r. true) s.db))
        (fun_ext (λ room. cc (counted room.id)))

  -- If no two confirmed reservations of a room overlap and each counts at most as many guests as
  -- the room has places, then no reported occupancy exceeds the capacity of its room.
  pub find_all-le-capacity :
      IsDisjoint (reservations s.db)
      → ((room : Room)
          → Memᴰ room (rooms s.db)
          → IsWithin room.id room.capacity (reservations s.db))
      → All (λ a. a.occupancy ≤ a.capacity) (find_all P day s)
  find_all-le-capacity d w = rw find_all-occupancy (
      All-map _ _ (room_find_many (λ r. true) s.db) (λ room m.
        guests_in-le room.id day room.capacity (reservations s.db) d
          (w room (P.find_many_sound (λ r. true) s.db room m).0)))

-- What the guests of a row come to, by the party of the request, and what was compared with the places.
abbrev pub Counts : CreateReservationDto → ℕ → Option (List String) → Reservation → Type 0
Counts dto places none row = (current_guests row ≡ dto.guest_count) × (dto.guest_count ≤ places)
Counts dto places (some ids) row =
    (current_guests row ≡ (if ltb 1 (length ids) then length ids else dto.guest_count))
    × (length ids ≤ places)

Counts-by_party :
    (dto : CreateReservationDto) (places : ℕ) (o : Option (List String)) (p : Party)
    (row : Reservation)
    → dto.party_guest_ids ≡ o
    → IsParty dto p
    → p.capacity_guest_count ≤ places
    → length row.guests ≡ length p.party_guest_ids
    → row.guest_count ≡ dto.guest_count
    → Counts dto places o row
unfolding current_guests
Counts-by_party dto places none p row e party fits sized counted = by_none party.counted
  where
    by_none : Counted dto p → Counts dto places none row
    by_none (inl (given, n)) = absurd (ground (arith, e, given))
    by_none (inr (given, ids, n)) = (ground (arith, ap length ids), omega arith)
Counts-by_party dto places (some ids) p row e party fits sized counted = by_some party.counted
  where
    by_some : Counted dto p → Counts dto places (some ids) row
    by_some (inl (given, n)) =
        let same : length ids ≡ length p.party_guest_ids = ground (arith, e, given) in
        (ground (arith, same), omega (arith, same))
    by_some (inr (given, alone, n)) = absurd (ground (arith, e, given))

module _ (P : Prisma) (env : Environment) where
  open P use {rooms, reservations, in_order}

  -- With an explicit party the count that the request gives decides nothing.
  plan-any_count :
      (dto : CreateReservationDto) (ids : List String) (n : ℕ) (s : P.Store)
      → dto.party_guest_ids ≡ some ids
      → plan P env (record dto { guest_count = n }) s ≡ plan P env dto s
  unfolding plan choose_room resolve_party_guests available_room overlaps check_party
  plan-any_count dto ids n s e = rw e refl

  -- A reservation that `create` has made is of a room with the type asked for, and counts in `findAll`
  -- the size of a party of two or more, and else the guest_count of the request. What was compared with
  -- the places of the room is the size of an explicit party, and the guest_count only where no party is
  -- given: with an explicit party, so also for one of a single guest, the same is decided for any
  -- guest_count.
  pub create-current_guests :
      (id : String) (dto : CreateReservationDto) (s s' : Service P) (answer : ReservationResponse)
      → create P env id dto s ≡ (ok answer, s')
      → ((room : Room) × (row : Reservation) × Memᴰ room (rooms s.db)
          × (room.room_type ≡ dto.room_type)
          × (reservations s'.db ≡ row ∷ reservations s.db)
          × (row.room_id ≡ room.id)
          × (row.status ≡ confirmed)
          × Counts dto room.capacity dto.party_guest_ids row)
        × ((ids : List String) (n : ℕ)
            → dto.party_guest_ids ≡ some ids
            → plan P env (record dto { guest_count = n }) s.db ≡ plan P env dto s.db)
  unfolding to_reservation_response
  create-current_guests id dto s s' answer created =
      let (d, a, c) = create-IsCreated P env id dto s s' answer created in
      let party = resolve_party_guests-IsParty dto a.party a.resolved in
      let sized =
        ap length c.booked.1
        ∙ ap length c.same_party
        ∙ P.in_order_length d.party_guest_ids
        ∙ sym (ap length a.taken) in
      (
        (
          d.room,
          c.row,
          a.listed,
          a.typed,
          c.stored,
          ap (λ (r : ReservationResponse). r.room_id) (sym c.answered) ∙ c.same_room,
          c.booked.0,
          Counts-by_party dto d.room.capacity dto.party_guest_ids a.party c.row refl party a.fits
              sized
              (ap (λ (r : ReservationResponse). r.guest_count) (sym c.answered) ∙ c.same_count),
        ),
        λ ids n e. plan-any_count dto ids n s.db e,
      )
