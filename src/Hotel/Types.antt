-- ===== src/Hotel/Types.antt =====
-- The data of the hotel service: services/hotel/prisma/schema.prisma, the request and response
-- objects under services/hotel/src/*/dto, and the errors that the reservation service throws.
use webmeow.Prelude.{ℕ, String, ◌≡◌, refl, Bool, true, false, Option, List, arith}
use webmeow.Prelude.Int.{ℤ}

pub data RoomType : Type 0 where
  standard deluxe suite : RoomType

pub data ReservationStatus : Type 0 where
  confirmed cancelled : ReservationStatus

-- `===` on room types, and the two tests of a status that the service makes.
abbrev pub same_type : RoomType → RoomType → Bool
same_type standard standard = true
same_type deluxe deluxe = true
same_type suite suite = true
same_type _ _ = false

abbrev pub is_confirmed : ReservationStatus → Bool
is_confirmed confirmed = true
is_confirmed cancelled = false

abbrev pub is_cancelled : ReservationStatus → Bool
is_cancelled confirmed = false
is_cancelled cancelled = true

pub same_type→eq : (a b : RoomType) → same_type a b ≡ true → a ≡ b
same_type→eq standard b h = ground arith
same_type→eq deluxe b h = ground arith
same_type→eq suite b h = ground arith

pub same_type_refl : (a : RoomType) → same_type a a ≡ true
same_type_refl standard = refl
same_type_refl deluxe = refl
same_type_refl suite = refl

pub record Room : Type 0 where
  pub id : String
  pub room_type : RoomType
  pub capacity : ℕ
  pub price_per_night : ℕ

-- A reservation with its room's type and its guests, as the service reads it.
pub record Reservation : Type 0 where
  pub id : String
  pub guest_id : String
  pub room_id : String
  pub guest_count : ℕ
  pub check_in_day : ℤ
  pub check_out_day : ℤ
  pub status : ReservationStatus
  pub room_type : RoomType
  pub guests : List String

-- The fields that the service writes when it creates a reservation.
pub record NewReservation : Type 0 where
  pub guest_id : String
  pub room_id : String
  pub guest_count : ℕ
  pub check_in_day : ℤ
  pub check_out_day : ℤ
  pub status : ReservationStatus
  pub guests : List String

pub record CreateReservationDto : Type 0 where
  pub guest_id : String
  pub party_guest_ids : Option (List String)
  pub room_type : RoomType
  pub guest_count : ℕ
  pub check_in_day : ℤ
  pub check_out_day : ℤ

pub record ReservationResponse : Type 0 where
  pub id : String
  pub guest_id : String
  pub party_guest_ids : List String
  pub room_id : String
  pub room_type : RoomType
  pub guest_count : ℕ
  pub check_in_day : ℤ
  pub check_out_day : ℤ
  pub status : ReservationStatus

pub record CancelResponse : Type 0 where
  pub id : String
  pub status : ReservationStatus

-- One constructor for each `HttpException` of reservation.service.ts, with what its message shows.
-- `none` in `over_capacity` is -Infinity, the maximum over no rooms.
pub data HttpError : Type 0 where
  dates_reversed party_empty empty_guest_id duplicate_guest guest_missing : HttpError
  not_cleared : String → HttpError
  over_capacity : RoomType → Option ℕ → HttpError
  no_room : RoomType → ℤ → ℤ → HttpError
  not_found : HttpError

pub status_code : HttpError → ℕ
status_code dates_reversed = 400
status_code party_empty = 400
status_code empty_guest_id = 400
status_code duplicate_guest = 400
status_code guest_missing = 400
status_code (not_cleared g) = 409
status_code (over_capacity t n) = 409
status_code (no_room t a b) = 409
status_code not_found = 404

pub data Result {ℓ} (A : Type ℓ) : Type ℓ where
  err : HttpError → Result A
  ok : A → Result A

-- What is thrown ends the rest.
infixl 5 ◌>>=◌ ◌>>◌
abbrev pub ◌>>=◌ {ℓ κ} : {X : Type ℓ} {Y : Type κ} → Result X → (X → Result Y) → Result Y
err e >>= rest = err e
ok x >>= rest = rest x

abbrev pub ◌>>◌ {ℓ} : {Y : Type ℓ} → Result (Unit {0}) → Result Y → Result Y
check >> rest = check >>= λ _. rest

-- `if (b) throw e`
abbrev pub throw_if : Bool → HttpError → Result (Unit {0})
throw_if true e = err e
throw_if false e = ok tt

pub >>=-eq-ok {ℓ κ} :
    {X : Type ℓ} {Y : Type κ} (first : Result X) (rest : X → Result Y) {y : Y}
    → (first >>= rest) ≡ ok y
    → (x : X) × (first ≡ ok x) × (rest x ≡ ok y)
>>=-eq-ok (err e) rest h = cc
>>=-eq-ok (ok x) rest h = (x, refl, h)

pub throw_if->>-eq-ok {ℓ} :
    {B : Type ℓ} (c : Bool) (e : HttpError) (m : Result B) {b : B}
    → (throw_if c e >> m) ≡ ok b
    → (c ≡ false) × (m ≡ ok b)
throw_if->>-eq-ok true e m h = cc
throw_if->>-eq-ok false e m h = (refl, h)
