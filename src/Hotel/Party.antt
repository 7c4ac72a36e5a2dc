-- ===== src/Hotel/Party.antt =====
-- `resolvePartyGuests` of services/hotel/src/reservation/reservation.service.ts.
pub mod Laws
use webmeow.Prelude.{
  ℕ, suc, String, Bool, Option, none, some, List, [], ◌∷◌, length, any, includes, eqb, not,
  is_empty, if◌then◌else◌, true, false,
}
use webmeow.Hotel.Types.{
  CreateReservationDto, Result, ok, err, party_empty, empty_guest_id, duplicate_guest,
  guest_missing, ◌>>=◌, ◌>>◌, throw_if,
}

pub record Party : Type 0 where
  pub party_guest_ids : List String
  pub capacity_guest_count : ℕ

-- `new Set(ids).size`
unfoldable pub set_size : List String → ℕ
set_size [] = 0
set_size (x ∷ xs) = let n = set_size xs in if includes xs x then n else suc n

-- The tests on an explicit list of guests, in their order.
unfoldable pub check_party : CreateReservationDto → List String → Result Party
unfolding set_size
check_party dto ids = do
  throw_if (eqb (length ids) 0) party_empty
  throw_if (any is_empty ids) empty_guest_id
  throw_if (not (eqb (set_size ids) (length ids))) duplicate_guest
  throw_if (not (includes ids dto.guest_id)) guest_missing
  ok (record { party_guest_ids = ids; capacity_guest_count = length ids })

-- The test on the optional list.
abbrev explicit_or_single : CreateReservationDto → Option (List String) → Result Party
explicit_or_single dto none =
    ok (record { party_guest_ids = dto.guest_id ∷ []; capacity_guest_count = dto.guest_count })
explicit_or_single dto (some ids) = check_party dto ids

unfoldable pub resolve_party_guests : CreateReservationDto → Result Party
unfolding check_party
resolve_party_guests dto = explicit_or_single dto dto.party_guest_ids
