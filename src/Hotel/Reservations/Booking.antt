-- ===== src/Hotel/Reservations/Booking.antt =====
-- services/hotel/src/reservation/reservation.service.ts: the invariant of the reservations over
-- requests that are handled one after the other.
use webmeow.Prelude.{
  String, ◌≡◌, refl, Bool, false, ◌&&◌, ◌==◌, eq_iff, Option, none, some, List, [], ◌∷◌, map, All,
  All_map, arith, Bool-cases, inl, inr,
}
use webmeow.Prelude.Int.{ltb_ℤ}
use webmeow.Hotel.Types.{
  Room, is_confirmed, is_cancelled, cancelled, Reservation, CreateReservationDto, Result, ok, err,
}
use webmeow.Hotel.Prisma.{Prisma, set_status}
use webmeow.Hotel.Reservations.{
  Environment, Service, Decision, overlaps, plan, confirm, create, cancel, cancel_found,
}
use webmeow.Hotel.Reservations.Plan.{IsFree, plan_sound}

-- Both are confirmed, for one room, on days that overlap.
unfoldable pub clash : Reservation → Reservation → Bool
clash r q =
    r.room_id == q.room_id
    && is_confirmed r.status
    && is_confirmed q.status
    && ltb_ℤ r.check_in_day q.check_out_day
    && ltb_ℤ q.check_in_day r.check_out_day

-- No two reservations clash.
abbrev pub IsDisjoint : List Reservation → Type 0
IsDisjoint [] = Unit
IsDisjoint (r ∷ rs) = All (λ q. clash r q ≡ false) rs × IsDisjoint rs

clash-set_status :
    (id : String) (r q : Reservation)
    → clash r q ≡ false
    → clash (set_status id cancelled r) (set_status id cancelled q) ≡ false
unfolding clash
clash-set_status id r q h = ground arith

All-clash-set_status :
    (id : String) (r : Reservation) (rs : List Reservation)
    → All (λ q. clash r q ≡ false) rs
    → All (λ q. clash (set_status id cancelled r) q ≡ false) (map (set_status id cancelled) rs)
All-clash-set_status id r [] h = tt
All-clash-set_status id r (q ∷ rs) h =
    (clash-set_status id r q h.0, All-clash-set_status id r rs h.1)

IsDisjoint-set_status :
    (id : String) (rs : List Reservation)
    → IsDisjoint rs
    → IsDisjoint (map (set_status id cancelled) rs)
IsDisjoint-set_status id [] h = tt
IsDisjoint-set_status id (r ∷ rs) h =
    (All-clash-set_status id r rs h.0, IsDisjoint-set_status id rs h.1)

-- A row written from a decision clashes only with what the request overlaps.
clash_of_overlaps :
    (dto : CreateReservationDto) (room : Room) (r q : Reservation)
    → r.room_id ≡ room.id
    → r.check_in_day ≡ dto.check_in_day
    → r.check_out_day ≡ dto.check_out_day
    → overlaps dto room q ≡ false
    → clash r q ≡ false
unfolding clash overlaps
clash_of_overlaps dto room r q e i o h =
    rw (e, i, o) (ground (arith, eq_iff room.id q.room_id, eq_iff q.room_id room.id))

module _ (P : Prisma) where
  open P use {reservations, reservation_find_unique}

  pub data Request : Type 0 where
    creates : Environment → String → CreateReservationDto → Request
    cancels : Environment → String → Request

  -- One request, handled to its end.
  pub step : Service P → Request → Service P
  step s (creates env id dto) = (create P env id dto s).1
  step s (cancels env id) = (cancel P env id s).1

  pub run : Service P → List Request → Service P
  run s [] = s
  run s (r ∷ rs) = run (step s r) rs

  pub confirm-IsDisjoint :
      (env : Environment) (id : String) (dto : CreateReservationDto) (d : Decision) (s : Service P)
      → IsFree P dto s.db d.room
      → IsDisjoint (reservations s.db)
      → IsDisjoint (reservations (confirm P env id dto d s).1.db)
  unfolding confirm
  confirm-IsDisjoint env id dto d s free h =
      rw (P.create_rows, P.create_row)
        (
          All_map _ _ (reservations s.db) (λ q. clash_of_overlaps dto d.room _ q refl refl refl)
              free,
          h,
        )

  create-IsDisjoint :
      (env : Environment) (id : String) (dto : CreateReservationDto) (s : Service P)
      (r : Result Decision)
      → plan P env dto s.db ≡ r
      → IsDisjoint (reservations s.db)
      → IsDisjoint (reservations (create P env id dto s).1.db)
  unfolding create
  create-IsDisjoint env id dto s (ok d) e h =
      rw (e, create) (confirm-IsDisjoint env id dto d s (plan_sound P dto s.db env d e).free h)
  create-IsDisjoint env id dto s (err x) e h = rw (e, create) h

  cancel-IsDisjoint :
      (env : Environment) (id : String) (o : Option Reservation) (s : Service P)
      → reservation_find_unique id s.db ≡ o
      → IsDisjoint (reservations s.db)
      → IsDisjoint (reservations (cancel_found P env id o s).1.db)
  unfolding cancel_found
  cancel-IsDisjoint env id none s e h = h
  cancel-IsDisjoint env id (some r) s e h = elim (Bool-cases (is_cancelled r.status)) [
    | inl gone ↦ rw (gone, cancel_found) h
    | inr live ↦
        rw (live, cancel_found, P.update_rows id cancelled s.db r e)
          (IsDisjoint-set_status id (reservations s.db) h)
  ]

  step-IsDisjoint :
      (s : Service P) (r : Request)
      → IsDisjoint (reservations s.db)
      → IsDisjoint (reservations (step s r).db)
  unfolding step cancel
  step-IsDisjoint s (creates env id dto) h = create-IsDisjoint env id dto s _ refl h
  step-IsDisjoint s (cancels env id) h = cancel-IsDisjoint env id _ s refl h

  -- If no two confirmed reservations of one room overlap, none do after any sequence of create and
  -- cancel requests that are handled one after the other.
  pub run-IsDisjoint :
      (s : Service P) (rs : List Request)
      → IsDisjoint (reservations s.db)
      → IsDisjoint (reservations (run s rs).db)
  unfolding run
  run-IsDisjoint s [] h = h
  run-IsDisjoint s (r ∷ rs) h = run-IsDisjoint (step s r) rs (step-IsDisjoint s r h)
