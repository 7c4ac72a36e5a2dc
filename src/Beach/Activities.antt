-- ===== src/Beach/Activities.antt =====
-- frontend/src/mocks/handlers/beach.ts: the handlers of the beach's requests, over what the browser's
-- session storage holds. Nothing else writes the two keys, so what is stored parses.
pub mod Counting
pub mod Places
pub mod Replies
use webmeow.Prelude.{
  ℕ, suc, ◌-◌, String, Bool, true, false, ◌==◌, not, Option, none, some, List, [], ◌∷◌, map, find,
  eqb, if◌then◌else◌, is_empty, or_default, Entries, value_of, assign,
}

pub record Activity : Type 0 where
  pub activity_id : String
  pub activity_name : String
  pub description : Option String
  pub capacity : ℕ
  pub remaining : ℕ

-- `SEED`
abbrev pub seed : List Activity
seed =
    record {
      activity_id = "activity-sunset-cruise";
      activity_name = "Sunset Cruise";
      description = some "Sail along the coast and watch the sun dip below the horizon.";
      capacity = 10;
      remaining = 2;
    }
    ∷ record {
      activity_id = "activity-snorkeling";
      activity_name = "Snorkeling";
      description = some "Explore the coral reef with our guided snorkeling tour.";
      capacity = 8;
      remaining = 0;
    }
    ∷ record {
      activity_id = "activity-glass-bottom-boat";
      activity_name = "Glass-Bottom Boat";
      description = some "See the underwater world without getting wet.";
      capacity = 12;
      remaining = 3;
    }
    ∷ record {
      activity_id = "activity-beach-volleyball";
      activity_name = "Beach Volleyball";
      description = some "Join a casual game on the main beach court.";
      capacity = 20;
      remaining = 14;
    }
    ∷ record {
      activity_id = "activity-kayaking";
      activity_name = "Kayaking";
      description = some "Paddle through the lagoon at your own pace.";
      capacity = 6;
      remaining = 4;
    }
    ∷ record {
      activity_id = "activity-beach-yoga";
      activity_name = "Beach Yoga";
      description = some "Morning yoga session on the shoreline.";
      capacity = 15;
      remaining = 11;
    }
    ∷ []

-- A stored booking: an activity or `null`, or, from an older version, a list of activities.
pub data StoredBooking : Type 0 where
  current : Option String → StoredBooking
  listed : List String → StoredBooking

pub record Storage : Type 0 where
  pub activities : Option (List Activity)
  pub bookings : Option (Entries StoredBooking)

abbrev pub empty_storage : Storage
empty_storage = record { activities = none; bookings = none }

-- `loadActivities` stores the seed where nothing is stored.
unfoldable pub load_activities : Storage → List Activity × Storage
load_activities s =
    let all = or_default s.activities seed in (all, record s { activities = some all })

unfoldable pub save_activities : List Activity → Storage → Storage
save_activities all s = record s { activities = some all }

-- `value.at(-1) ?? null`
abbrev pub last : List String → Option String
last [] = none
last (x ∷ []) = some x
last (x ∷ y ∷ ys) = last (y ∷ ys)

abbrev pub booking_from : StoredBooking → Option String
booking_from (current o) = o
booking_from (listed xs) = last xs

unfoldable pub load_bookings : Storage → Entries (Option String)
load_bookings s =
    map (λ (e : String × StoredBooking). (e.0, booking_from e.1)) (or_default s.bookings [])

unfoldable pub save_bookings : Entries (Option String) → Storage → Storage
save_bookings es s = record s {
  bookings = some (map (λ (e : String × Option String). (e.0, current e.1)) es);
}

-- `bookings[guestId] ?? null`
unfoldable pub booking_of : String → Entries (Option String) → Option String
booking_of guest_id es = or_default (value_of guest_id es) none

-- `activities.find((a) => a.activity_id === activityId)`
abbrev pub find_activity : String → List Activity → Option Activity
find_activity id all = find (λ a. a.activity_id == id) all

-- A change of the object that `find` returns: it is the one in the list.
unfoldable pub change_remaining : (ℕ → ℕ) → String → List Activity → List Activity
change_remaining f id [] = []
change_remaining f id (a ∷ all) =
    if a.activity_id == id
    then record a { remaining = f a.remaining } ∷ all
    else a ∷ change_remaining f id all

-- `if (currentActivityId) { ... remaining += 1 }`
abbrev pub give_place : Option String → List Activity → List Activity
give_place none all = all
give_place (some id) all = if is_empty id then all else change_remaining suc id all

pub data Reply : Type 0 where
  activities_are : List Activity → Reply
  activity_is : Activity → Reply
  booked cancelled : Reply
  activity_of_guest : Option String → Reply
  activity_not_found activity_full activity_not_booked : Reply

unfoldable pub status_code : Reply → ℕ
status_code activity_not_found = 404
status_code activity_full = 409
status_code activity_not_booked = 409
status_code _ = 200

-- GET /activities
unfoldable pub get_activities : Storage → Reply × Storage
unfolding load_activities
get_activities s = let (all, s') = load_activities s in (activities_are all, s')

-- GET /activity/:activityId
abbrev pub show_activity : Option Activity → Reply
show_activity none = activity_not_found
show_activity (some a) = activity_is a

unfoldable pub get_activity : String → Storage → Reply × Storage
unfolding load_activities
get_activity id s = let (all, s') = load_activities s in (show_activity (find_activity id all), s')

-- `currentActivityId === activityId`
abbrev pub is_current : Option String → String → Bool
is_current none id = false
is_current (some o) id = o == id

-- POST /activity/book/:activityId, after the lookup of the activity.
unfoldable pub book_found :
    Option Activity → List Activity → String → String → Storage → Reply × Storage
unfolding change_remaining booking_of
book_found none all id guest_id s = (activity_not_found, s)
book_found (some a) all id guest_id s =
    let bookings = load_bookings s in
    let held = booking_of guest_id bookings in
    if is_current held id then (booked, s) else if eqb a.remaining 0 then (activity_full, s) else (
      booked,
      save_bookings (assign guest_id (some id) bookings)
          (save_activities (change_remaining (λ n. n - 1) id (give_place held all)) s),
    )

unfoldable pub book_activity : String → String → Storage → Reply × Storage
unfolding book_found load_activities
book_activity id guest_id s =
    let (all, s') = load_activities s in book_found (find_activity id all) all id guest_id s'

-- POST /activity/cancel/:activityId; the booking is removed before the activities are loaded.
unfoldable pub cancel_activity : String → String → Storage → Reply × Storage
unfolding change_remaining booking_of load_activities
cancel_activity id guest_id s =
    let bookings = load_bookings s in
    if not (is_current (booking_of guest_id bookings) id)
    then (activity_not_booked, s)
    else let (all, s') = load_activities (save_bookings (assign guest_id none bookings) s) in
      (
        cancelled,
        elim (find_activity id all) [
          | none ↦ s'
          | some a ↦ save_activities (change_remaining suc id all) s'
        ],
      )

-- GET /activity/by-guest/:guestId
unfoldable pub get_activity_by_guest : String → Storage → Reply
unfolding booking_of
get_activity_by_guest guest_id s = activity_of_guest (booking_of guest_id (load_bookings s))
