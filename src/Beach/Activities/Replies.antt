-- ===== src/Beach/Activities/Replies.antt =====
-- frontend/src/mocks/handlers/beach.ts: what the handlers answer, and what they leave.
use webmeow.Prelude.{
  String, ◌≡◌, ◌⊎◌, refl, ap, ◌∙◌, true, false, Option, none, some, eqb, Entries, assign,
  value_of-assign, or_default, eq_iff, arith, if_cases, inl, inr,
}
use webmeow.Beach.Activities.{
  Activity, Storage, load_activities, load_bookings, save_bookings, booking_of, find_activity,
  is_current, Reply, booked, activity_of_guest, activity_not_found, activity_full, book_found,
  book_activity, get_activity_by_guest,
}
use webmeow.Beach.Activities.Counting.{
  activities_of, remaining_of, is_listed, load-save_bookings, find_activity-remaining, unlisted,
}

-- The activities and the bookings in force are the same.
abbrev pub IsSame : Storage → Storage → Type 0
IsSame s t = (activities_of t ≡ activities_of s) × (load_bookings t ≡ load_bookings s)

abbrev pub Outcome : String → String → Storage → Reply × Storage → Type 0
Outcome id guest s p =
    ((p.0 ≡ activity_not_found) × (is_listed id (activities_of s) ≡ false) × IsSame s p.1)
    ⊎ ((p.0 ≡ activity_full)
        × (is_listed id (activities_of s) ≡ true)
        × (remaining_of id (activities_of s) ≡ 0)
        × IsSame s p.1)
    ⊎ ((p.0 ≡ booked)
        × (is_listed id (activities_of s) ≡ true)
        × (get_activity_by_guest guest p.1 ≡ activity_of_guest (some id)))

pub current_held : (held : Option String) (id : String) → is_current held id ≡ true → held ≡ some id
current_held none id h = absurd (ground arith)
current_held (some o) id h = ap some ((eq_iff o id).0 h)

booked_saved :
    (id guest : String) (es : Entries (Option String)) (s : Storage)
    → get_activity_by_guest guest (save_bookings (assign guest (some id) es) s)
      ≡ activity_of_guest (some id)
unfolding get_activity_by_guest booking_of
booked_saved id guest es s =
    ap (λ xs. activity_of_guest (booking_of guest xs))
      (load-save_bookings (assign guest (some id) es) s)
    ∙ ap (λ o. activity_of_guest (or_default o none)) (value_of-assign guest (some id) es)

book_found-Outcome :
    (id guest : String) (o : Option Activity) (s : Storage)
    → find_activity id (activities_of s) ≡ o
    → Outcome id guest s (book_found o (activities_of s) id guest s)
unfolding book_found
book_found-Outcome id guest none s found =
    inl (refl, unlisted id (activities_of s) found, (refl, refl))
book_found-Outcome id guest (some a) s found =
    let (left, listed) = find_activity-remaining id (activities_of s) a found in
    let held = booking_of guest (load_bookings s) in
    if_cases (Outcome id guest s) (is_current held id) _ _
      (λ e. inr (
        inr (
          refl,
          listed,
          unfold get_activity_by_guest in ap activity_of_guest (current_held held id e),
        )))
      (λ e.
        if_cases (Outcome id guest s) (eqb a.remaining 0) _ _
          (λ z. inr (inl (refl, listed, ground arith, (refl, refl))))
          (λ z. inr (inr (refl, listed, booked_saved id guest (load_bookings s) _))))

-- `book` answers that there is no such activity exactly where none is listed, or that it is full
-- where no place is free, and leaves the activities and the bookings as they were; or it answers that
-- the activity is booked, and the guest then has it.
pub book_activity-Outcome :
    (id guest : String) (s : Storage) → Outcome id guest s (book_activity id guest s)
unfolding book_activity load_activities load_bookings
book_activity-Outcome id guest s =
    book_found-Outcome id guest (find_activity id (activities_of s)) (load_activities s).1
      (unfold load_activities in refl)
