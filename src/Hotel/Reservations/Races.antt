-- ===== src/Hotel/Reservations/Races.antt =====
-- `create` of services/hotel/src/reservation/reservation.service.ts where two requests are both
-- decided before either writes: nothing excludes another request between its reads and its write.
use webmeow.Prelude.{
  String, ◌≡◌, ◌≢◌, refl, ap, sym, ◌∙◌, true, false, ◌∷◌, All, subst, eq_iff, arith,
}
use webmeow.Prelude.Int.{◌<ℤ◌}
use webmeow.Hotel.Types.{Room, Reservation, CreateReservationDto, ok}
use webmeow.Hotel.Prisma.{Prisma}
use webmeow.Hotel.Reservations.{
  Environment, Service, Decision, plan, confirm, overlaps, new_reservation,
}
use webmeow.Hotel.Reservations.Plan.{plan_sound}
use webmeow.Hotel.Reservations.Booking.{clash, IsDisjoint, confirm-IsDisjoint}

module _ (P : Prisma) where
  open P use {reservations}

  -- Two requests read the same database, and then the first and the second write.
  pub confirm_both :
      Environment
      → String
      → String
      → CreateReservationDto
      → CreateReservationDto
      → Decision
      → Decision
      → Service P
      → Service P
  confirm_both env id₁ id₂ dto₁ dto₂ d₁ d₂ s =
      (confirm P env id₂ dto₂ d₂ (confirm P env id₁ dto₁ d₁ s).1).1

  -- Both rows are there, for the room, and clash.
  abbrev pub IsDoublyBooked : String → Service P → Service P → Type 0
  IsDoublyBooked room_id s s' =
      (r₁ : Reservation) × (r₂ : Reservation) × (reservations s'.db ≡ r₂ ∷ r₁ ∷ reservations s.db)
      × (r₁.room_id ≡ room_id)
      × (r₂.room_id ≡ room_id)
      × (clash r₂ r₁ ≡ true)

  both_booked :
      (env : Environment) (id₁ id₂ : String) (dto₁ dto₂ : CreateReservationDto) (d₁ d₂ : Decision)
      (s : Service P)
      → d₁.room ≡ d₂.room
      → dto₁.check_in_day <ℤ dto₂.check_out_day
      → dto₂.check_in_day <ℤ dto₁.check_out_day
      → IsDoublyBooked d₁.room.id s (confirm_both env id₁ id₂ dto₁ dto₂ d₁ d₂ s)
  unfolding confirm_both confirm clash
  both_booked env id₁ id₂ dto₁ dto₂ d₁ d₂ s same p q =
      let first = P.reservation_create id₁ (new_reservation P dto₁ d₁) s.db in
      let second = P.reservation_create id₂ (new_reservation P dto₂ d₂) first.1 in
      (
        first.0,
        second.0,
        P.create_rows id₂ (new_reservation P dto₂ d₂) first.1
            ∙ ap (◌∷◌ second.0) (P.create_rows id₁ (new_reservation P dto₁ d₁) s.db),
        rw P.create_row refl,
        rw P.create_row (ap (λ (r : Room). r.id) (sym same)),
        rw (P.create_row, P.create_row)
            (ground (arith, ap (λ (r : Room). r.id) same, eq_iff d₂.room.id d₁.room.id)),
      )

  -- Once the first request has written, the second one is not given its room.
  other_room :
      (env : Environment) (id₁ : String) (dto₁ dto₂ : CreateReservationDto) (d₁ d : Decision)
      (s : Service P)
      → dto₁.check_in_day <ℤ dto₂.check_out_day
      → dto₂.check_in_day <ℤ dto₁.check_out_day
      → plan P env dto₂ (confirm P env id₁ dto₁ d₁ s).1.db ≡ ok d
      → d.room.id ≢ d₁.room.id
  unfolding confirm overlaps
  other_room env id₁ dto₁ dto₂ d₁ d s p q h same =
      let first = P.reservation_create id₁ (new_reservation P dto₁ d₁) s.db in
      let free =
        subst (All (λ r. overlaps dto₂ d.room r ≡ false))
          (P.create_rows id₁ (new_reservation P dto₁ d₁) s.db)
          (plan_sound P dto₂ first.1 env d h).free in
      let clear =
        subst (λ r. overlaps dto₂ d.room r ≡ false)
          (P.create_row id₁ (new_reservation P dto₁ d₁) s.db) free.0 in
      ground (arith, clear, eq_iff d₁.room.id d.room.id)

  -- Two requests for overlapping days are both decided on the same database, in which no two confirmed
  -- reservations of a room overlap, and with the same room. Whichever of them writes alone keeps that
  -- so, and once the first has written the second would not be given that room. But where both write,
  -- that room has their two reservations, which are confirmed and overlap.
  pub confirm_both-clashes :
      (env : Environment) (id₁ id₂ : String) (dto₁ dto₂ : CreateReservationDto) (d₁ d₂ : Decision)
      (s : Service P)
      → IsDisjoint (reservations s.db)
      → plan P env dto₁ s.db ≡ ok d₁
      → plan P env dto₂ s.db ≡ ok d₂
      → d₁.room ≡ d₂.room
      → dto₁.check_in_day <ℤ dto₂.check_out_day
      → dto₂.check_in_day <ℤ dto₁.check_out_day
      → IsDisjoint (reservations (confirm P env id₁ dto₁ d₁ s).1.db)
        × IsDisjoint (reservations (confirm P env id₂ dto₂ d₂ s).1.db)
        × ((d : Decision)
            → plan P env dto₂ (confirm P env id₁ dto₁ d₁ s).1.db ≡ ok d
            → d.room.id ≢ d₁.room.id)
        × IsDoublyBooked d₁.room.id s (confirm_both env id₁ id₂ dto₁ dto₂ d₁ d₂ s)
  confirm_both-clashes env id₁ id₂ dto₁ dto₂ d₁ d₂ s h h₁ h₂ same p q = (
    confirm-IsDisjoint P env id₁ dto₁ d₁ s (plan_sound P dto₁ s.db env d₁ h₁).free h,
    confirm-IsDisjoint P env id₂ dto₂ d₂ s (plan_sound P dto₂ s.db env d₂ h₂).free h,
    λ d. other_room env id₁ dto₁ dto₂ d₁ d s p q,
    both_booked env id₁ id₂ dto₁ dto₂ d₁ d₂ s same p q,
  )
