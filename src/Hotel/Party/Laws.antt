-- ===== src/Hotel/Party/Laws.antt =====
-- `resolvePartyGuests` of services/hotel/src/reservation/reservation.service.ts: accepted parties,
-- and the requests that are refused.
use mathlib.Core.List.{Memᴰ}
use webmeow.Prelude.{
  ◌≤◌, ◌<◌, String, ◌≡◌, refl, ◌↔◌, ◌⊎◌, inl, inr, true, false, ◌==◌, eq_iff, Option, none, some,
  List, [], ◌∷◌, length, any, includes, is_empty, arith, Bool-cases,
}
use webmeow.Hotel.Types.{CreateReservationDto, ok}
use webmeow.Hotel.Party.{Party, set_size, check_party, resolve_party_guests}

-- No guest stands twice in the list.
abbrev pub IsDistinct : List String → Type 0
IsDistinct [] = Unit
IsDistinct (x ∷ xs) = (includes xs x ≡ false) × IsDistinct xs

set_size-le-length : (xs : List String) → set_size xs ≤ length xs
unfolding set_size
set_size-le-length [] = omega arith
set_size-le-length (x ∷ xs) = ground (arith, set_size-le-length xs)

IsDistinct-of_set_size : (xs : List String) → set_size xs ≡ length xs → IsDistinct xs
unfolding set_size
IsDistinct-of_set_size [] h = tt
IsDistinct-of_set_size (x ∷ xs) h = ground (arith, set_size-le-length xs, IsDistinct-of_set_size xs)

set_size_of_IsDistinct : (xs : List String) → IsDistinct xs → set_size xs ≡ length xs
unfolding set_size
set_size_of_IsDistinct [] h = refl
set_size_of_IsDistinct (x ∷ xs) h = ground (arith, set_size_of_IsDistinct xs h.1)

-- The Boolean test for duplicates is exact.
pub set_size-eq-length_iff : (xs : List String) → (set_size xs ≡ length xs) ↔ IsDistinct xs
set_size-eq-length_iff xs = (IsDistinct-of_set_size xs, set_size_of_IsDistinct xs)

pub Mem_of_includes : (xs : List String) (g : String) → includes xs g ≡ true → Memᴰ g xs
Mem_of_includes [] g h = absurd (ground arith)
Mem_of_includes (x ∷ xs) g h = elim (Bool-cases (x == g)) [
  | inl e ↦ Memᴰ.head (ground (arith, eq_iff x g))
  | inr e ↦ Memᴰ.tail (Mem_of_includes xs g (ground arith))
]

-- The places asked for, with and without an explicit party.
abbrev pub Counted : CreateReservationDto → Party → Type 0
Counted dto p =
    (dto.party_guest_ids ≡ some p.party_guest_ids)
      × (p.capacity_guest_count ≡ length p.party_guest_ids)
    ⊎ (dto.party_guest_ids ≡ none)
      × (p.party_guest_ids ≡ dto.guest_id ∷ [])
      × (p.capacity_guest_count ≡ dto.guest_count)

-- What `resolvePartyGuests` promises of an accepted party.
pub record IsParty (dto : CreateReservationDto) (p : Party) : Type 0 where
  pub has_booker : includes p.party_guest_ids dto.guest_id ≡ true
  pub distinct : IsDistinct p.party_guest_ids
  pub nonempty : 0 < length p.party_guest_ids
  pub counted : Counted dto p

check_party-IsParty :
    (dto : CreateReservationDto) (ids : List String) (p : Party)
    → dto.party_guest_ids ≡ some ids
    → check_party dto ids ≡ ok p
    → IsParty dto p
unfolding check_party
check_party-IsParty dto ids p e h = record {
  has_booker = ground arith;
  distinct = ground (arith, IsDistinct-of_set_size ids);
  nonempty = ground arith;
  counted = inl (ground arith, ground arith);
}

by_option :
    (dto : CreateReservationDto) (o : Option (List String)) (p : Party)
    → dto.party_guest_ids ≡ o
    → resolve_party_guests dto ≡ ok p
    → IsParty dto p
unfolding resolve_party_guests
by_option dto none p e h = record {
  has_booker = ground (arith, eq_iff dto.guest_id dto.guest_id);
  distinct = ground arith;
  nonempty = ground arith;
  counted = inr (e, ground arith, ground arith);
}
by_option dto (some ids) p e h = check_party-IsParty dto ids p e (rw (e, resolve_party_guests) at h)

-- A request whose party is accepted has the booking guest in it, no guest twice and at least one
-- guest; the number of places asked for is the size of an explicit party, and the request's
-- guest_count where no party is given.
pub resolve_party_guests-IsParty :
    (dto : CreateReservationDto) (p : Party) → resolve_party_guests dto ≡ ok p → IsParty dto p
resolve_party_guests-IsParty dto p h = by_option dto dto.party_guest_ids p refl h

-- An explicit party is accepted exactly when it is not empty, has no empty id and no id twice, and
-- includes the booking guest; what is accepted is then the party as it is given, with its size as the
-- places it takes, and nothing else.
pub resolve_party_guests-eq-ok_iff :
    (dto : CreateReservationDto) (ids : List String) (p : Party)
    → dto.party_guest_ids ≡ some ids
    → (resolve_party_guests dto ≡ ok p) ↔ (
        (p ≡ record { party_guest_ids = ids; capacity_guest_count = length ids })
        × (0 < length ids)
        × (any is_empty ids ≡ false)
        × IsDistinct ids
        × (includes ids dto.guest_id ≡ true))
unfolding resolve_party_guests
resolve_party_guests-eq-ok_iff dto ids p e = (
  λ h. (
    ground arith,
    ground arith,
    ground arith,
    ground (arith, IsDistinct-of_set_size ids),
    ground arith,
  ),
  λ h. rw (e, h.0) (ground (arith, set_size_of_IsDistinct ids h.3)),
)
