-- ===== src/Beach/Activities/Counting.antt =====
-- frontend/src/mocks/handlers/beach.ts: the free places of an activity, and the guests who have booked it, under
-- each change of the storage.
use webmeow.Prelude.{
  ℕ, suc, ◌+◌, ◌-◌, ◌<◌, is_empty_of_eq, String, ◌≡◌, refl, ap, Bool, true, false, ◌==◌, Option,
  none, some, List, [], ◌∷◌, map, if◌then◌else◌, is_empty, or_default, Entries, assign, total,
  total-assign, eq_iff, arith,
}
use webmeow.Beach.Activities.{
  Activity, StoredBooking, current, booking_from, Storage, load_bookings, save_bookings, booking_of,
  find_activity, change_remaining, give_place, is_current, seed,
}

-- The activities and the bookings that are in force.
abbrev pub activities_of : Storage → List Activity
activities_of s = or_default s.activities seed

unfoldable pub remaining_of : String → List Activity → ℕ
remaining_of id [] = 0
remaining_of id (a ∷ all) = if a.activity_id == id then a.remaining else remaining_of id all

unfoldable pub is_listed : String → List Activity → Bool
is_listed id [] = false
is_listed id (a ∷ all) = if a.activity_id == id then true else is_listed id all

-- One for a booking of the activity.
abbrev pub takes : String → Option String → ℕ
takes id held = if is_current held id then 1 else 0

-- How many guests have booked the activity.
unfoldable pub guests_of : String → Entries (Option String) → ℕ
guests_of id es = total (takes id) es

-- The places of an activity, free or taken.
unfoldable pub places : String → Storage → ℕ
unfolding remaining_of guests_of
places id s = remaining_of id (activities_of s) + guests_of id (load_bookings s)

pub guests_of-assign :
    (id guest : String) (held : Option String) (es : Entries (Option String))
    → guests_of id (assign guest held es) + takes id (booking_of guest es)
      ≡ guests_of id es + takes id held
unfolding guests_of booking_of
guests_of-assign id guest held es = ground (arith, total-assign (takes id) guest held es)

pub load-save_bookings :
    (es : Entries (Option String)) (s : Storage) → load_bookings (save_bookings es s) ≡ es
unfolding load_bookings save_bookings
load-save_bookings es s = again es
  where
    again :
        (xs : Entries (Option String))
        → map
            (λ (e : String × StoredBooking). (e.0, booking_from e.1))
            (map (λ (e : String × Option String). (e.0, current e.1)) xs)
          ≡ xs
    again [] = refl
    again (x ∷ xs) = ap (λ r. x ∷ r) (again xs)

pub remaining_of-change_remaining :
    (f : ℕ → ℕ) (id other : String) (all : List Activity)
    → is_listed id all ≡ true
    → remaining_of id (change_remaining f other all)
      ≡ (if other == id then f (remaining_of id all) else remaining_of id all)
unfolding remaining_of change_remaining is_listed
remaining_of-change_remaining f id other [] h = ground arith
remaining_of-change_remaining f id other (a ∷ all) h = ground (
  arith,
  remaining_of-change_remaining f id other all,
  eq_iff a.activity_id other,
  eq_iff a.activity_id id,
  eq_iff other id,
)

pub is_listed-change_remaining :
    (f : ℕ → ℕ) (id other : String) (all : List Activity)
    → is_listed id (change_remaining f other all) ≡ is_listed id all
unfolding is_listed change_remaining
is_listed-change_remaining f id other [] = refl
is_listed-change_remaining f id other (a ∷ all) =
    ground (arith, is_listed-change_remaining f id other all)

pub find_activity-remaining :
    (id : String) (all : List Activity) (a : Activity)
    → find_activity id all ≡ some a
    → (remaining_of id all ≡ a.remaining) × (is_listed id all ≡ true)
unfolding remaining_of is_listed
find_activity-remaining id [] a h = cc
find_activity-remaining id (x ∷ all) a h = ground (arith, find_activity-remaining id all a)

give_place-remaining :
    (id : String) (held : Option String) (all : List Activity)
    → is_empty id ≡ false
    → is_listed id all ≡ true
    → (remaining_of id (give_place held all) ≡ remaining_of id all + takes id held)
      × (is_listed id (give_place held all) ≡ true)
give_place-remaining id none all full h = (omega arith, h)
give_place-remaining id (some o) all full h = ground (
  arith,
  remaining_of-change_remaining suc id o all h,
  is_listed-change_remaining suc id o all,
  is_empty_of_eq o id,
)

-- A booking that is made: the place given back, the place taken, and the guest's entry.
pub taken-places :
    (id other guest : String) (held : Option String) (all : List Activity)
    (es : Entries (Option String))
    → is_empty id ≡ false
    → is_listed id all ≡ true
    → booking_of guest es ≡ held
    → is_current held other ≡ false
    → ((other == id) ≡ true → 0 < remaining_of id all)
    → remaining_of id (change_remaining (λ n. n - 1) other (give_place held all))
        + guests_of id (assign guest (some other) es)
      ≡ remaining_of id all + guests_of id es
taken-places id other guest held all es full h g free left =
    let (given, still) = give_place-remaining id held all full h in
    let changed = remaining_of-change_remaining (λ n. n - 1) id other (give_place held all) still in
    let counted = guests_of-assign id guest (some other) es in
    ground (arith, ap (takes id) g, given, changed, counted)

pub is_listed-give_place :
    (id : String) (held : Option String) (all : List Activity)
    → is_listed id (give_place held all) ≡ is_listed id all
is_listed-give_place id none all = refl
is_listed-give_place id (some o) all = ground (arith, is_listed-change_remaining suc id o all)

pub same_remaining :
    (a b : String) (all : List Activity) → (a == b) ≡ true → remaining_of a all ≡ remaining_of b all
same_remaining a b all e = ap (λ x. remaining_of x all) ((eq_iff a b).0 e)

pub takes_current :
    (id other : String) (held : Option String)
    → is_current held other ≡ true
    → takes id held ≡ (if other == id then 1 else 0)
takes_current id other none h = absurd (ground arith)
takes_current id other (some o) h = ap (λ x. if x == id then 1 else 0) ((eq_iff o other).0 h)

pub unlisted :
    (id : String) (all : List Activity) → find_activity id all ≡ none → is_listed id all ≡ false
unfolding is_listed
unlisted id [] h = refl
unlisted id (a ∷ all) h = ground (arith, unlisted id all)

pub same_listed :
    (a b : String) (all : List Activity) → (a == b) ≡ true → is_listed a all ≡ is_listed b all
same_listed a b all e = ap (λ x. is_listed x all) ((eq_iff a b).0 e)
