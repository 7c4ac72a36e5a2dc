-- ===== src/Hotel/Reservations/Answers.antt =====
-- services/hotel/src/reservation/reservation.service.ts: the answers of the operations, what they
-- leave in the database, and the events they post.
use mathlib.Core.List.{Memᴰ}
use webmeow.Prelude.{
  ◌<◌, String, ◌≡◌, ◌≢◌, refl, ap, sym, ◌∙◌, ◌⊎◌, inl, inr, Option, none, some, ◌∷◌, ◌++◌, length,
  All, All-Mem, arith, subst,
}
use webmeow.Hotel.Types.{
  confirmed, Reservation, CreateReservationDto, ReservationResponse, HttpError, Result, ok, err,
}
use webmeow.Hotel.Prisma.{Prisma}
use webmeow.Hotel.Events.{publish_hotel_event, reservation_confirmed}
use webmeow.Hotel.Reservations.{
  Environment, Service, Decision, to_reservation_response, event_of, plan, confirm, create,
  find_by_id,
}
use webmeow.Hotel.Reservations.Plan.{IsAcceptable, plan_sound}
use webmeow.Hotel.Party.Laws.{resolve_party_guests-IsParty}

module _ (P : Prisma) (env : Environment) where
  open P use {
    Store, rooms, reservations, reservation_create, reservation_find_unique, reservation_find_first,
    in_order,
  }

  create-ok :
      (id : String) (dto : CreateReservationDto) (d : Decision) (s : Service P)
      → plan P env dto s.db ≡ ok d
      → create P env id dto s ≡ (ok (confirm P env id dto d s).0, (confirm P env id dto d s).1)
  unfolding create
  create-ok id dto d s e = rw (e, create) refl

  -- What a `create` that is accepted has done.
  pub record IsCreated (id : String) (dto : CreateReservationDto) (d : Decision) (s s' : Service P)
      (answer : ReservationResponse) : Type 0 where
    pub same_id : answer.id ≡ id
    pub same_guest : answer.guest_id ≡ dto.guest_id
    pub same_room : answer.room_id ≡ d.room.id
    pub same_type : answer.room_type ≡ dto.room_type
    pub same_count : answer.guest_count ≡ dto.guest_count
    pub same_days :
        (answer.check_in_day ≡ dto.check_in_day) × (answer.check_out_day ≡ dto.check_out_day)
    pub same_party : answer.party_guest_ids ≡ in_order d.party_guest_ids
    pub is_new : answer.status ≡ confirmed
    pub row : Reservation
    pub answered : answer ≡ to_reservation_response row
    pub booked : (row.status ≡ confirmed) × (row.guests ≡ answer.party_guest_ids)
    pub started : row.check_in_day ≡ dto.check_in_day
    pub stored : reservations s'.db ≡ row ∷ reservations s.db
    pub posted :
        s'.posts
        ≡ s.posts
          ++ publish_hotel_event env.broadcast_service_url reservation_confirmed
              (event_of "Hotel reservation confirmed." row)

  confirm-IsCreated :
      (id : String) (dto : CreateReservationDto) (d : Decision) (s : Service P)
      → IsAcceptable P dto s.db env d
      → 0 < length d.party_guest_ids
      → IsCreated id dto d s (confirm P env id dto d s).1 (confirm P env id dto d s).0
  unfolding confirm to_reservation_response
  confirm-IsCreated id dto d s a nonempty = record {
    same_id = rw P.create_row refl;
    same_guest = rw P.create_row refl;
    same_room = rw P.create_row refl;
    same_type = rw P.create_row (P.room_type_lem s.db d.room a.listed ∙ a.typed);
    same_count = rw P.create_row refl;
    same_days = rw P.create_row (refl, refl);
    same_party = rw P.create_row (ground (arith, P.in_order_length d.party_guest_ids));
    is_new = rw P.create_row refl;
    row = (reservation_create id _ s.db).0;
    answered = refl;
    booked = rw P.create_row (refl, ground (arith, P.in_order_length d.party_guest_ids));
    started = rw P.create_row refl;
    stored = P.create_rows id _ s.db;
    posted = refl;
  }

  -- What `create` can do: refuse and change nothing, or book.
  abbrev pub Outcome : String → CreateReservationDto → Service P → Type 0
  Outcome id dto s =
      ((e : HttpError) × (create P env id dto s ≡ (err e, s)))
      ⊎ ((d : Decision) × (answer : ReservationResponse) × (s' : Service P) × (create P env id dto s
            ≡ (ok answer, s'))
          × IsAcceptable P dto s.db env d
          × IsCreated id dto d s s' answer)

  Outcome-of :
      (id : String) (dto : CreateReservationDto) (s : Service P) (r : Result Decision)
      → plan P env dto s.db ≡ r
      → Outcome id dto s
  unfolding create
  Outcome-of id dto s (err e) h = inl (e, rw (h, create) refl)
  Outcome-of id dto s (ok d) h =
      let a = plan_sound P dto s.db env d h in
      let party = resolve_party_guests-IsParty dto a.party a.resolved in
      inr (
        d,
        (confirm P env id dto d s).0,
        (confirm P env id dto d s).1,
        create-ok id dto d s h,
        a,
        confirm-IsCreated id dto d s a (subst (λ ids. 0 < length ids) a.taken party.nonempty),
      )

  -- `create` either throws and leaves the database and the posted events as they were, or it had
  -- an acceptable room and party, stores one new confirmed reservation with what was asked for, posts
  -- the event of that reservation and answers with it.
  pub create-Outcome : (id : String) (dto : CreateReservationDto) (s : Service P) → Outcome id dto s
  create-Outcome id dto s = Outcome-of id dto s (plan P env dto s.db) refl

  -- A reservation whose id is new is found by it: the answer of `create` is that of `findById`.
  found_new :
      (id : String) (s s' : Service P) (row : Reservation) (o : Option Reservation)
      → reservation_find_unique id s'.db ≡ o
      → reservations s'.db ≡ row ∷ reservations s.db
      → row.id ≡ id
      → All (λ r. r.id ≢ id) (reservations s.db)
      → o ≡ some row
  found_new id s s' row none e stored same fresh =
      absurd ((subst (All (λ r. r.id ≢ id)) stored (P.find_unique_none id s'.db e)).0 same)
  found_new id s s' row (some r) e stored same fresh =
      let (m, p) = P.find_unique_sound id s'.db r e in elim_new (subst (Memᴰ r) stored m) p
    where
      elim_new : Memᴰ r (row ∷ reservations s.db) → r.id ≡ id → some r ≡ some row
      elim_new (Memᴰ.head q) p = ap some q
      elim_new (Memᴰ.tail t) p = absurd (All-Mem _ (reservations s.db) fresh t p)

  IsCreated-of :
      (id : String) (dto : CreateReservationDto) (s s' : Service P) (answer : ReservationResponse)
      → Outcome id dto s
      → create P env id dto s ≡ (ok answer, s')
      → (d : Decision) × IsAcceptable P dto s.db env d × IsCreated id dto d s s' answer
  IsCreated-of id dto s s' answer (inl (e, thrown)) h =
      absurd
        (ground (arith, ap (λ (t : Result ReservationResponse × Service P). t.0) (sym thrown ∙ h)))
  IsCreated-of id dto s s' answer (inr (d, answer', t, done, a, c)) h =
      let both = sym done ∙ h in
      (
        d,
        a,
        subst (λ u. IsCreated id dto d s u answer) (ap (λ u. u.1) both)
            (subst (λ u. IsCreated id dto d s t u)
              (ground (arith, ap (λ (u : Result ReservationResponse × Service P). u.0) both)) c),
      )

  -- A `create` that answers had an acceptable room and party, and has booked them.
  pub create-IsCreated :
      (id : String) (dto : CreateReservationDto) (s s' : Service P) (answer : ReservationResponse)
      → create P env id dto s ≡ (ok answer, s')
      → (d : Decision) × IsAcceptable P dto s.db env d × IsCreated id dto d s s' answer
  create-IsCreated id dto s s' answer = IsCreated-of id dto s s' answer (create-Outcome id dto s)

  -- If the id drawn for a new reservation is not in use, `findById` with that id returns, after a
  -- successful `create`, exactly the answer that `create` gave.
  pub find_by_id-create :
      (id : String) (dto : CreateReservationDto) (s s' : Service P) (answer : ReservationResponse)
      → All (λ r. r.id ≢ id) (reservations s.db)
      → create P env id dto s ≡ (ok answer, s')
      → find_by_id P id s' ≡ ok answer
  unfolding find_by_id to_reservation_response
  find_by_id-create id dto s s' answer fresh h =
      let (d, a, c) = create-IsCreated id dto s s' answer h in
      let same : c.row.id ≡ id =
        ap (λ (r : ReservationResponse). r.id) (sym c.answered) ∙ c.same_id in
      let found = found_new id s s' c.row _ refl c.stored same fresh in rw (found, c.answered) refl
