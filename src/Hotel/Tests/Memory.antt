-- ===== src/Hotel/Tests/Memory.antt =====
-- A database client over lists, with two rooms: it has the laws that the hotel service relies on.
use mathlib.Core.List.{Memᴰ}
use webmeow.Prelude.{
  String, ◌≡◌, ◌≢◌, refl, Bool, true, false, ◌==◌, eq_iff, Option, none, some, List, [], ◌∷◌, map,
  length, keep, find, find-eq-some, find-eq-none, All, All_map, subst, arith, if◌then◌else◌,
  Bool-cases, Option-cases, inl, inr, ap,
}
use webmeow.Prelude.Int.{pos, ◌≤ℤ◌, leb_ℤ}
use webmeow.Hotel.Types.{
  RoomType, standard, suite, ReservationStatus, cancelled, Room, Reservation, NewReservation,
}
use webmeow.Hotel.Prisma.{Prisma, set_status}

abbrev pub standard_room : Room
standard_room = record {
  id = "room-standard-01";
  room_type = standard;
  capacity = 2;
  price_per_night = 100;
}

abbrev pub suite_room : Room
suite_room = record { id = "room-suite-01"; room_type = suite; capacity = 4; price_per_night = 400 }

abbrev pub all_rooms : List Room
all_rooms = standard_room ∷ suite_room ∷ []

abbrev pub type_of : String → RoomType
type_of id = if id == "room-standard-01" then standard else suite

abbrev pub row_of : String → NewReservation → Reservation
row_of id d = record {
  id = id;
  guest_id = d.guest_id;
  room_id = d.room_id;
  guest_count = d.guest_count;
  check_in_day = d.check_in_day;
  check_out_day = d.check_out_day;
  status = d.status;
  room_type = type_of d.room_id;
  guests = d.guests;
}

abbrev pub blank : String → Reservation
blank id = record {
  id = id;
  guest_id = "";
  room_id = "";
  guest_count = 0;
  check_in_day = pos 0;
  check_out_day = pos 0;
  status = cancelled;
  room_type = standard;
  guests = [];
}

abbrev pub has_id : String → Reservation → Bool
has_id id r = r.id == id

abbrev pub later : Reservation → Option Reservation → Option Reservation
later r none = some r
later r (some q) = if leb_ℤ q.check_in_day r.check_in_day then some r else some q

abbrev pub latest : (Reservation → Bool) → List Reservation → Option Reservation
latest p [] = none
latest p (r ∷ rs) = let rest = latest p rs in if p r then later r rest else rest

abbrev pub updated : String → ReservationStatus → Option Reservation → Reservation
updated id st none = blank id
updated id st (some r) = record r { status = st }

pub keep-Mem :
    (p : Room → Bool) (rs : List Room) (r : Room) → Memᴰ r (keep p rs) → Memᴰ r rs × (p r ≡ true)
keep-Mem p [] r m = elim m [ ]
keep-Mem p (q ∷ rs) r m = by_test (p q) refl (λ t. keep-Mem p rs r t) m
  where
    by_test :
        (b : Bool)
        → p q ≡ b
        → (Memᴰ r (keep p rs) → Memᴰ r rs × (p r ≡ true))
        → Memᴰ r (if b then q ∷ keep p rs else keep p rs)
        → Memᴰ r (q ∷ rs) × (p r ≡ true)
    by_test true e rec (Memᴰ.head h) = (Memᴰ.head h, rw h e)
    by_test true e rec (Memᴰ.tail t) = let (a, b) = rec t in (Memᴰ.tail a, b)
    by_test false e rec t = let (a, b) = rec t in (Memᴰ.tail a, b)

pub Mem-keep :
    (p : Room → Bool) (rs : List Room) (r : Room) → Memᴰ r rs → p r ≡ true → Memᴰ r (keep p rs)
Mem-keep p [] r m h = elim m [ ]
Mem-keep p (q ∷ rs) r (Memᴰ.head e) h = rw (rw e at h) (Memᴰ.head e)
Mem-keep p (q ∷ rs) r (Memᴰ.tail m) h = elim (Bool-cases (p q)) [
  | inl e ↦ rw e (Memᴰ.tail (Mem-keep p rs r m h))
  | inr e ↦ rw e (Mem-keep p rs r m h)
]

abbrev pub Latest : (Reservation → Bool) → List Reservation → Reservation → Type 0
Latest p rs r =
    Memᴰ r rs × (p r ≡ true) × All (λ q. p q ≡ true → q.check_in_day ≤ℤ r.check_in_day) rs

pub latest-none :
    (p : Reservation → Bool) (rs : List Reservation)
    → latest p rs ≡ none
    → All (λ q. p q ≡ false) rs
latest-none p [] h = tt
latest-none p (r ∷ rs) h = ground (arith, latest-none p rs)

pub not_found :
    (id : String) (rs : List Reservation) → find (has_id id) rs ≡ none → All (λ r. r.id ≢ id) rs
not_found id rs h =
    All_map _ _ rs (λ r e. λ q. ground (arith, eq_iff r.id id)) (find-eq-none (has_id id) rs h)

pub found :
    (id : String) (rs : List Reservation) (r : Reservation)
    → find (has_id id) rs ≡ some r
    → Memᴰ r rs × (r.id ≡ id)
found id rs r h = let (m, e) = find-eq-some (has_id id) rs r h in (m, (eq_iff r.id id).0 e)

pub typed : (r : Room) → Memᴰ r all_rooms → type_of r.id ≡ r.room_type
typed r (Memᴰ.head e) = rw e refl
typed r (Memᴰ.tail (Memᴰ.head e)) = rw e refl
typed r (Memᴰ.tail (Memᴰ.tail m)) = elim m [ ]

later_case :
    (p : Reservation → Bool) (rs : List Reservation) (q x r : Reservation)
    → p q ≡ true
    → Latest p rs x
    → later q (some x) ≡ some r
    → Latest p (q ∷ rs) r
later_case p rs q x r e (m, y, all) h = elim (Bool-cases (leb_ℤ x.check_in_day q.check_in_day)) [
  | inl t ↦
      let same : q ≡ r = ground arith in
      subst (Latest p (q ∷ rs)) same (
        Memᴰ.head refl,
        e,
        ((λ _. omega arith), All_map _ _ rs (λ z k pz. let le = k pz in ground arith) all),
      )
  | inr f ↦
      let same : x ≡ r = ground arith in
      subst (Latest p (q ∷ rs)) same (Memᴰ.tail m, y, ((λ _. ground arith), all))
]

alone :
    (p : Reservation → Bool) (rs : List Reservation) (q r : Reservation)
    → p q ≡ true
    → All (λ z. p z ≡ false) rs
    → later q none ≡ some r
    → Latest p (q ∷ rs) r
alone p rs q r e all h =
    let same : q ≡ r = ground arith in
    subst (Latest p (q ∷ rs)) same (
      Memᴰ.head refl,
      e,
      ((λ _. omega arith), All_map _ _ rs (λ z f pz. absurd (ground arith)) all),
    )

skipped :
    (p : Reservation → Bool) (rs : List Reservation) (q r : Reservation)
    → p q ≡ false
    → Latest p rs r
    → Latest p (q ∷ rs) r
skipped p rs q r e (m, y, all) = (Memᴰ.tail m, y, ((λ t. absurd (ground arith)), all))

pub latest_sound :
    (p : Reservation → Bool) (rs : List Reservation) (r : Reservation)
    → latest p rs ≡ some r
    → Latest p rs r
latest_sound p [] r h = absurd (ground arith)
latest_sound p (q ∷ rs) r h = elim (Bool-cases (p q)) [
  | inl e ↦ elim (Option-cases (latest p rs)) [
    | inl gone ↦ alone p rs q r e (latest-none p rs gone) (ground arith)
    | inr (x, there) ↦ later_case p rs q x r e (latest_sound p rs x there) (rw (e, there) at h)
  ]
  | inr e ↦ skipped p rs q r e (latest_sound p rs r (ground arith))
]

abbrev pub memory : Prisma
memory = record {
  Store = List Reservation;
  rooms = λ s. all_rooms;
  reservations = λ s. s;
  room_find_many = λ p s. keep p all_rooms;
  reservation_count = λ p s. length (keep p s);
  reservation_create = λ id d s. (row_of id d, row_of id d ∷ s);
  reservation_find_unique = λ id s. find (has_id id) s;
  reservation_find_first = latest;
  reservation_update = λ id st s. (updated id st (find (has_id id) s), map (set_status id st) s);
  reservation_find_many = keep;
  room_type_of = λ s id. type_of id;
  in_order = λ xs. xs;
  find_many_sound = λ p s r m. keep-Mem p all_rooms r m;
  find_many_complete = λ p s r m h. Mem-keep p all_rooms r m h;
  count_lem = λ p s. refl;
  create_row = λ id d s. refl;
  create_rows = λ id d s. refl;
  create_rooms = λ id d s. refl;
  room_type_lem = λ s r m. typed r m;
  in_order_mem = λ xs g m. m;
  in_order_length = λ xs. refl;
  find_unique_sound = λ id s r h. found id s r h;
  find_unique_none = λ id s h. not_found id s h;
  find_first_sound = λ p s r h. latest_sound p s r h;
  find_first_none = λ p s h. latest-none p s h;
  update_row = λ id st s r h. ap (updated id st) h;
  update_rows = λ id st s r h. refl;
  update_rooms = λ id st s. refl;
  find_reservations_lem = λ p s. refl;
}
