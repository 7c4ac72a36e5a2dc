-- ===== src/Hotel/Reservations/Plan.antt =====
-- `create` of services/hotel/src/reservation/reservation.service.ts: which requests are accepted,
-- and with which room.
use mathlib.Core.List.{Memᴰ}
use webmeow.Prelude.{
  ℕ, ◌≤◌, String, ◌≡◌, refl, sym, ap, ◌∙◌, ◌↔◌, inl, inr, false, Option, none, some, List, [], ◌∷◌,
  length, All, subst, find-eq-none, keep-length-zero, keep_of_none, eqb, ltb, arith, Bool-cases,
}
use webmeow.Prelude.Int.{◌<ℤ◌, leb_ℤ, leb_ℤ-false}
use webmeow.Hotel.Types.{
  Room, CreateReservationDto, same_type, same_type→eq, Result, ok, >>=-eq-ok, throw_if->>-eq-ok,
  dates_reversed, ◌>>=◌, ◌>>◌,
}
use webmeow.Hotel.Prisma.{Prisma}
use webmeow.Hotel.Party.{Party, resolve_party_guests}
use webmeow.Hotel.Reservations.{
  Environment, blocked, refuse, reject_if_party_has_not_cleared_airport, max_capacity, exceeds,
  overlaps, Decision, or_no_room, available_room, choose_room, plan,
}

refuse-eq-ok : (o : Option String) {u : Unit {0}} → refuse o ≡ ok u → o ≡ none
refuse-eq-ok none h = refl
refuse-eq-ok (some g) h = cc

reject-eq-ok :
    (env : Environment) (ids : List String) {u : Unit {0}}
    → reject_if_party_has_not_cleared_airport env ids ≡ ok u
    → All (λ g. blocked env g ≡ false) ids
unfolding reject_if_party_has_not_cleared_airport
reject-eq-ok env ids h = find-eq-none (blocked env) ids (refuse-eq-ok _ h)

module _ (P : Prisma) (dto : CreateReservationDto) (s : P.Store) where
  open P use {rooms, reservations, room_find_many, reservation_count}

  -- No confirmed reservation of the room overlaps the request's days.
  abbrev pub IsFree : Room → Type 0
  IsFree room = All (λ r. overlaps dto room r ≡ false) (reservations s)

  IsFree-iff : (room : Room) → (reservation_count (overlaps dto room) s ≡ 0) ↔ IsFree room
  IsFree-iff room = (
    λ h. keep-length-zero _ (reservations s) (sym (P.count_lem _ s) ∙ h),
    λ h. P.count_lem _ s ∙ ap length (keep_of_none _ (reservations s) h),
  )

  available_room_sound :
      (c : ℕ) (rs : List Room) (room : Room)
      → available_room P dto c s rs ≡ some room
      → Memᴰ room rs × (c ≤ room.capacity) × (reservation_count (overlaps dto room) s ≡ 0)
  unfolding available_room
  available_room_sound c [] room h = absurd (ground arith)
  available_room_sound c (r ∷ rs) room h = elim (Bool-cases (ltb r.capacity c)) [
    | inl small ↦ later (available_room_sound c rs room (rw (small, available_room) at h))
    | inr big ↦ elim (Bool-cases (eqb (reservation_count (overlaps dto r) s) 0)) [
      | inl free ↦ (Memᴰ.head (ground arith), ground arith, ground arith)
      | inr taken ↦ later (available_room_sound c rs room (rw (big, taken, available_room) at h))
    ]
  ]
    where
      later :
          Memᴰ room rs × (c ≤ room.capacity) × (reservation_count (overlaps dto room) s ≡ 0)
          → Memᴰ room (r ∷ rs) × (c ≤ room.capacity) × (reservation_count (overlaps dto room) s ≡ 0)
      later (m, q, z) = (Memᴰ.tail m, q, z)

  -- What `create` has checked when it goes on to write.
  pub record IsAcceptable (env : Environment) (d : Decision) : Type 0 where
    pub dates : dto.check_in_day <ℤ dto.check_out_day
    pub party : Party
    pub resolved : resolve_party_guests dto ≡ ok party
    pub taken : party.party_guest_ids ≡ d.party_guest_ids
    pub cleared : All (λ g. blocked env g ≡ false) d.party_guest_ids
    pub listed : Memᴰ d.room (rooms s)
    pub typed : d.room.room_type ≡ dto.room_type
    pub fits : party.capacity_guest_count ≤ d.room.capacity
    pub free : IsFree d.room

  or_no_room-eq-ok :
      (ids : List String) (o : Option Room) (d : Decision)
      → or_no_room dto ids o ≡ ok d
      → (o ≡ some d.room) × (ids ≡ d.party_guest_ids)
  or_no_room-eq-ok ids none d h = cc
  or_no_room-eq-ok ids (some room) d h = ground arith

  abbrev candidates : List Room
  candidates = room_find_many (λ r. same_type r.room_type dto.room_type) s

  choose_room-eq-ok :
      (party : Party) (d : Decision)
      → choose_room P dto party s ≡ ok d
      → or_no_room dto party.party_guest_ids
          (available_room P dto party.capacity_guest_count s candidates)
        ≡ ok d
  unfolding choose_room
  choose_room-eq-ok party d h =
      (throw_if->>-eq-ok (exceeds party.capacity_guest_count (max_capacity candidates)) _ _ h).1

  choose_room_sound :
      (env : Environment) (party : Party) (d : Decision)
      → dto.check_in_day <ℤ dto.check_out_day
      → resolve_party_guests dto ≡ ok party
      → All (λ g. blocked env g ≡ false) party.party_guest_ids
      → choose_room P dto party s ≡ ok d
      → IsAcceptable env d
  choose_room_sound env party d dates resolved cleared h =
      let (found, taken) = or_no_room-eq-ok _ _ d (choose_room-eq-ok party d h) in
      let (m, fits, z) = available_room_sound party.capacity_guest_count candidates d.room found in
      let (listed, typed) =
        P.find_many_sound (λ r. same_type r.room_type dto.room_type) s d.room m in
      record {
        dates = dates;
        party = party;
        resolved = resolved;
        taken = taken;
        cleared = subst (λ ids. All (λ g. blocked env g ≡ false) ids) taken cleared;
        listed = listed;
        typed = same_type→eq _ _ typed;
        fits = fits;
        free = (IsFree-iff d.room).0 z;
      }

  pub plan_sound : (env : Environment) (d : Decision) → plan P env dto s ≡ ok d → IsAcceptable env d
  unfolding plan
  plan_sound env d h =
      let (dates, h₁) =
        throw_if->>-eq-ok (leb_ℤ dto.check_out_day dto.check_in_day) dates_reversed after_dates h in
      let (party, resolved, h₂) = >>=-eq-ok (resolve_party_guests dto) after_party h₁ in
      let (v, cleared, h₃) =
        >>=-eq-ok (reject_if_party_has_not_cleared_airport env party.party_guest_ids)
          (λ u. choose_room P dto party s) h₂ in
      choose_room_sound env party d (leb_ℤ-false dto.check_out_day dto.check_in_day dates) resolved
        (reject-eq-ok env party.party_guest_ids cleared) h₃
    where
      after_party : Party → Result Decision
      after_party party = do
        reject_if_party_has_not_cleared_airport env party.party_guest_ids
        choose_room P dto party s

      after_dates : Result Decision
      after_dates = do party ← resolve_party_guests dto; after_party party
