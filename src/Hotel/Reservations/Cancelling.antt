-- ===== src/Hotel/Reservations/Cancelling.antt =====
-- services/hotel/src/reservation/reservation.service.ts: a guest's active reservation after
-- `create`, and `cancel`.
use mathlib.Core.List.{Memᴰ}
use webmeow.Prelude.{
  String, ◌≡◌, ◌≢◌, refl, ap, sym, ◌∙◌, ◌⊎◌, inl, inr, true, false, ◌==◌, eq_iff, Option, none,
  some, List, [], ◌∷◌, ◌++◌, map, any, keep, not, All, arith, subst, Bool-cases,
}
use webmeow.Prelude.Int.{◌≤ℤ◌}
use webmeow.Hotel.Types.{
  ReservationStatus, cancelled, confirmed, Reservation, CreateReservationDto, ReservationResponse,
  CancelResponse, not_found, Result, ok, err,
}
use webmeow.Hotel.Prisma.{Prisma, set_status}
use webmeow.Hotel.Events.{publish_hotel_event, reservation_cancelled}
use webmeow.Hotel.Reservations.{
  Environment, Service, is_active_of, to_reservation_response, event_of, create, cancel,
  find_active_by_guest_id, find_by_id,
}
use webmeow.Hotel.Reservations.Answers.{create-IsCreated}

any_of_Mem : (g : String) (xs : List String) → Memᴰ g xs → any (λ h. h == g) xs ≡ true
any_of_Mem g [] m = elim m [ ]
any_of_Mem g (x ∷ xs) (Memᴰ.head e) = ground (arith, eq_iff x g)
any_of_Mem g (x ∷ xs) (Memᴰ.tail m) = ground (arith, any_of_Mem g xs m)

is_active_of_guest :
    (g : String) (r : Reservation)
    → r.status ≡ confirmed
    → Memᴰ g r.guests
    → is_active_of g r ≡ true
unfolding is_active_of
is_active_of_guest g r e m = ground (arith, any_of_Mem g r.guests m)

-- The guest made the reservation or is in its party.
abbrev pub IsOf : String → Reservation → Type 0
IsOf g r = (r.guest_id ≡ g) ⊎ Memᴰ g r.guests

Mem_of_any : (g : String) (xs : List String) → any (λ h. h == g) xs ≡ true → Memᴰ g xs
Mem_of_any g [] h = absurd (ground arith)
Mem_of_any g (x ∷ xs) h = elim (Bool-cases (x == g)) [
  | inl e ↦ Memᴰ.head (ground (arith, eq_iff x g))
  | inr e ↦ Memᴰ.tail (Mem_of_any g xs (ground arith))
]

guest-IsOf_active : (g : String) (r : Reservation) → is_active_of g r ≡ true → IsOf g r
unfolding is_active_of
guest-IsOf_active g r h = elim (Bool-cases (r.guest_id == g)) [
  | inl e ↦ inl (ground (arith, eq_iff r.guest_id g))
  | inr e ↦ inr (Mem_of_any g r.guests (ground arith))
]

status_of_active : (g : String) (r : Reservation) → is_active_of g r ≡ true → r.status ≡ confirmed
unfolding is_active_of
status_of_active g r e = ground arith

-- A row with the id is cancelled once the status of all of them has been set.
status_set :
    (id : String) (r : Reservation) (rs : List Reservation)
    → Memᴰ r (map (set_status id cancelled) rs)
    → r.id ≡ id
    → r.status ≡ cancelled
status_set id r [] m e = elim m [ ]
status_set id r (q ∷ rs) (Memᴰ.head h) e = ground (arith, eq_iff q.id id, h)
status_set id r (q ∷ rs) (Memᴰ.tail m) e = status_set id r rs m e

still_there :
    (id : String) (r : Reservation) (rs : List Reservation)
    → Memᴰ r rs
    → r.id ≡ id
    → ¬ All (λ q. q.id ≢ id) (map (set_status id cancelled) rs)
still_there id r [] m e h = elim m [ ]
still_there id r (q ∷ rs) (Memᴰ.head p) e h =
    h.0 (ground (arith, eq_iff q.id id, ap (λ (t : Reservation). t.id) p))
still_there id r (q ∷ rs) (Memᴰ.tail m) e h = still_there id r rs m e h.1

keep_others :
    (id : String) (rs : List Reservation)
    → keep (λ (r : Reservation). not (r.id == id)) (map (set_status id cancelled) rs)
      ≡ keep (λ (r : Reservation). not (r.id == id)) rs
keep_others id [] = refl
keep_others id (r ∷ rs) = ground (arith, keep_others id rs)

status_cases : (st : ReservationStatus) → (st ≡ confirmed) ⊎ (st ≡ cancelled)
status_cases confirmed = inl refl
status_cases cancelled = inr refl

abbrev result : {S : Type 0} → Result CancelResponse × S → Result CancelResponse
result u = u.0

module _ (P : Prisma) (env : Environment) where
  open P use {reservations, reservation_update, reservation_find_unique, reservation_find_first}

  active_found :
      (g : String) (s : Service P) (row : Reservation) (rest : List Reservation)
      (o : Option Reservation)
      → reservation_find_first (is_active_of g) s.db ≡ o
      → reservations s.db ≡ row ∷ rest
      → is_active_of g row ≡ true
      → (r : Reservation) × (o ≡ some r)
        × Memᴰ r (reservations s.db)
        × (is_active_of g r ≡ true)
        × (row.check_in_day ≤ℤ r.check_in_day)
  active_found g s row rest none e stored active = absurd (
      ground (
        arith,
        (subst (All (λ q. is_active_of g q ≡ false)) stored
            (P.find_first_none (is_active_of g) s.db e)).0,
      ))
  active_found g s row rest (some r) e stored active =
      let (m, found, latest) = P.find_first_sound (is_active_of g) s.db r e in
      (
        r,
        refl,
        m,
        found,
        (subst (All (λ q. is_active_of g q ≡ true → q.check_in_day ≤ℤ r.check_in_day)) stored
              latest).0
            active,
      )

  -- After a successful `create`, every guest of the party has an active reservation: the search by
  -- that guest answers with a stored confirmed reservation that the guest made or is in the party of,
  -- whose first day is not before that of the new one.
  pub find_active_by_guest_id-create :
      (id : String) (dto : CreateReservationDto) (s s' : Service P) (answer : ReservationResponse)
      (g : String)
      → create P env id dto s ≡ (ok answer, s')
      → Memᴰ g answer.party_guest_ids
      → (r : Reservation) × Memᴰ r (reservations s'.db)
        × (find_active_by_guest_id P g s' ≡ some (to_reservation_response r))
        × (r.status ≡ confirmed)
        × IsOf g r
        × (dto.check_in_day ≤ℤ r.check_in_day)
  unfolding find_active_by_guest_id to_reservation_response
  find_active_by_guest_id-create id dto s s' answer g h m =
      let (d, a, c) = create-IsCreated P env id dto s s' answer h in
      let active = is_active_of_guest g c.row c.booked.0 (subst (Memᴰ g) (sym c.booked.1) m) in
      let (r, found, stored, is_active, later) =
        active_found g s' c.row (reservations s.db) _ refl c.stored active in
      (
        r,
        stored,
        rw found refl,
        status_of_active g r is_active,
        guest-IsOf_active g r is_active,
        subst (λ n. n ≤ℤ r.check_in_day) c.started later,
      )

  -- The state after a cancellation that changes something.
  abbrev cancelled_state : String → Service P → Service P
  cancelled_state id s = record {
    db = (reservation_update id cancelled s.db).1;
    posts =
        s.posts
        ++ publish_hotel_event env.broadcast_service_url reservation_cancelled
            (event_of "Hotel reservation cancelled." (reservation_update id cancelled s.db).0);
  }

  abbrev pub done : String → CancelResponse
  done id = record { id = id; status = cancelled }

  cancel_live :
      (id : String) (r : Reservation) (s : Service P)
      → reservation_find_unique id s.db ≡ some r
      → r.status ≡ confirmed
      → cancel P env id s ≡ (ok (done id), cancelled_state id s)
  unfolding cancel
  cancel_live id r s e c =
      rw (e, cancel)
        (rw c (rw (P.update_row id cancelled s.db r e, (P.find_unique_sound id s.db r e).1) refl))

  cancel_gone :
      (id : String) (r : Reservation) (s : Service P)
      → reservation_find_unique id s.db ≡ some r
      → r.status ≡ cancelled
      → cancel P env id s ≡ (ok (done id), s)
  unfolding cancel
  cancel_gone id r s e c = rw (e, cancel) (rw c (rw ((P.find_unique_sound id s.db r e).1) refl))

  cancel-none :
      (id : String) (s : Service P)
      → reservation_find_unique id s.db ≡ none
      → cancel P env id s ≡ (err not_found, s)
  unfolding cancel
  cancel-none id s e = rw (e, cancel) refl

  cancel_again :
      (id : String) (r : Reservation) (s : Service P) (o : Option Reservation)
      → reservation_find_unique id s.db ≡ some r
      → reservation_find_unique id (cancelled_state id s).db ≡ o
      → cancel P env id (cancelled_state id s) ≡ (ok (done id), cancelled_state id s)
  cancel_again id r s none e again =
      let (m, p) = P.find_unique_sound id s.db r e in
      absurd (
        still_there id r (reservations s.db) m p (
          subst (All (λ q. q.id ≢ id)) (P.update_rows id cancelled s.db r e)
            (P.find_unique_none id (cancelled_state id s).db again)))
  cancel_again id r s (some q) e again =
      let (m, p) = P.find_unique_sound id (cancelled_state id s).db q again in
      cancel_gone id q (cancelled_state id s) again (
        status_set id q (reservations s.db) (subst (Memᴰ q) (P.update_rows id cancelled s.db r e) m)
          p)

  -- What `cancel` does by what it finds: 404 and no change where there is no such reservation, no
  -- change where it is cancelled already, and otherwise the status of that row is set and the event
  -- is posted once.
  data Cancelled (id : String) (s : Service P) : Type 0 where
    missing :
        reservation_find_unique id s.db ≡ none
        → cancel P env id s ≡ (err not_found, s)
        → Cancelled id s
    already :
        (r : Reservation)
        → reservation_find_unique id s.db ≡ some r
        → r.status ≡ cancelled
        → cancel P env id s ≡ (ok (done id), s)
        → Cancelled id s
    now :
        (r : Reservation)
        → reservation_find_unique id s.db ≡ some r
        → r.status ≡ confirmed
        → cancel P env id s ≡ (ok (done id), cancelled_state id s)
        → Cancelled id s

  cancel-Cancelled :
      (id : String) (s : Service P) (o : Option Reservation)
      → reservation_find_unique id s.db ≡ o
      → Cancelled id s
  cancel-Cancelled id s none e = missing e (cancel-none id s e)
  cancel-Cancelled id s (some r) e = elim (status_cases r.status) [
    | inl c ↦ now r e c (cancel_live id r s e c)
    | inr c ↦ already r e c (cancel_gone id r s e c)
  ]

  twice :
      (id : String) (s s' : Service P) (answer : CancelResponse)
      → Cancelled id s
      → cancel P env id s ≡ (ok answer, s')
      → (answer ≡ done id) × (cancel P env id s' ≡ (ok (done id), s'))
  twice id s s' answer (missing e c) h = absurd (ground (arith, ap result (sym c ∙ h)))
  twice id s s' answer (already r e st c) h =
      let both = sym c ∙ h in
      (
        ground (arith, ap result both),
        subst (λ t. cancel P env id t ≡ (ok (done id), t)) (ap (λ u. u.1) both) c,
      )
  twice id s s' answer (now r e st c) h =
      let both = sym c ∙ h in
      (
        ground (arith, ap result both),
        subst (λ t. cancel P env id t ≡ (ok (done id), t)) (ap (λ u. u.1) both)
            (cancel_again id r s _ e refl),
      )

  -- A `cancel` that succeeds answers with the id and CANCELLED, and a second one gives the same
  -- answer, changes nothing in the database and posts no further event.
  pub cancel_twice :
      (id : String) (s s' : Service P) (answer : CancelResponse)
      → cancel P env id s ≡ (ok answer, s')
      → (answer ≡ done id) × (cancel P env id s' ≡ (ok (done id), s'))
  cancel_twice id s s' answer = twice id s s' answer (cancel-Cancelled id s _ refl)

  -- The row of a reservation that is found is cancelled already and nothing changes, or it was
  -- confirmed and the event of the cancelled row is posted.
  abbrev pub Changed : String → Service P → Service P → Type 0
  Changed id s s' =
      (r : Reservation) × Memᴰ r (reservations s.db)
      × (r.id ≡ id)
      × ((r.status ≡ cancelled) × (s' ≡ s)
          ⊎ (r.status ≡ confirmed)
            × (s'.posts
                ≡ s.posts
                  ++ publish_hotel_event env.broadcast_service_url reservation_cancelled
                      (event_of "Hotel reservation cancelled." (record r { status = cancelled }))))

  abbrev pub others : String → Service P → List Reservation
  others id s = keep (λ (r : Reservation). not (r.id == id)) (reservations s.db)

  -- What a cancellation that succeeds leaves.
  abbrev pub IsCancelled : String → Service P → Service P → Type 0
  IsCancelled id s s' =
      ((found : ReservationResponse) × (find_by_id P id s' ≡ ok found)
        × (found.id ≡ id)
        × (found.status ≡ cancelled))
      × (others id s' ≡ others id s)
      × Changed id s s'
      × (cancel P env id s' ≡ (ok (done id), s'))

  found_cancelled :
      (id : String) (r : Reservation) (s : Service P) (o : Option Reservation)
      → reservation_find_unique id s.db ≡ some r
      → reservation_find_unique id (cancelled_state id s).db ≡ o
      → (q : Reservation) × (o ≡ some q) × (q.id ≡ id) × (q.status ≡ cancelled)
  found_cancelled id r s none e again =
      let (m, p) = P.find_unique_sound id s.db r e in
      absurd (
        still_there id r (reservations s.db) m p (
          subst (All (λ q. q.id ≢ id)) (P.update_rows id cancelled s.db r e)
            (P.find_unique_none id (cancelled_state id s).db again)))
  found_cancelled id r s (some q) e again =
      let (m, p) = P.find_unique_sound id (cancelled_state id s).db q again in
      (
        q,
        refl,
        p,
        status_set id q (reservations s.db) (subst (Memᴰ q) (P.update_rows id cancelled s.db r e) m)
            p,
      )

  now-IsCancelled :
      (id : String) (r : Reservation) (s : Service P)
      → reservation_find_unique id s.db ≡ some r
      → r.status ≡ confirmed
      → IsCancelled id s (cancelled_state id s)
  unfolding find_by_id to_reservation_response
  now-IsCancelled id r s e st =
      let (m, p) = P.find_unique_sound id s.db r e in
      let (q, found, same, gone) = found_cancelled id r s _ e refl in
      (
        (to_reservation_response q, rw found refl, same, gone),
        rw (P.update_rows id cancelled s.db r e) (keep_others id (reservations s.db)),
        (r, m, p, inr (st, rw (P.update_row id cancelled s.db r e) refl)),
        cancel_again id r s _ e refl,
      )

  already-IsCancelled :
      (id : String) (r : Reservation) (s : Service P)
      → reservation_find_unique id s.db ≡ some r
      → r.status ≡ cancelled
      → IsCancelled id s s
  unfolding find_by_id to_reservation_response
  already-IsCancelled id r s e st =
      let (m, p) = P.find_unique_sound id s.db r e in
      (
        (to_reservation_response r, rw e refl, p, st),
        refl,
        (r, m, p, inl (st, refl)),
        cancel_gone id r s e st,
      )

  -- `cancel` either finds no reservation with the id, answers 404 and changes nothing, or answers with
  -- the id and CANCELLED. Then `findById` finds the reservation cancelled, the reservations with other
  -- ids are as they were, a second `cancel` gives the same answer and changes nothing, and either the
  -- reservation was cancelled before and nothing has changed, or it was confirmed and its event is
  -- posted once.
  pub cancel-IsCancelled :
      (id : String) (s : Service P)
      → All (λ r. r.id ≢ id) (reservations s.db) × (cancel P env id s ≡ (err not_found, s))
        ⊎ ((s' : Service P) × (cancel P env id s ≡ (ok (done id), s')) × IsCancelled id s s')
  cancel-IsCancelled id s = elim (cancel-Cancelled id s _ refl) [
    | missing e c ↦ inl (P.find_unique_none id s.db e, c)
    | already r e st c ↦ inr (s, c, already-IsCancelled id r s e st)
    | now r e st c ↦ inr (cancelled_state id s, c, now-IsCancelled id r s e st)
  ]
