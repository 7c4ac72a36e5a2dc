-- ===== src/Beach/Booking/Mock.antt =====
-- The handlers of frontend/src/mocks/handlers/beach.ts as the service of the booking page.
use webmeow.Prelude.{
  suc, String, ◌≡◌, ◌≢◌, inl, inr, refl, ap, sym, ◌∙◌, Bool, true, false, not, Option, none, some,
  List, Entries, value_of, assign, value_of-assign, value_of-assign_other, or_default, eqb,
  if◌then◌else◌, if_cases, ne→==-false, arith,
}
use webmeow.Beach.Activities.{
  Activity, Storage, Reply, cancelled, activity_not_booked, status_code, load_activities,
  load_bookings, save_bookings, save_activities, booking_of, is_current, find_activity,
  change_remaining, book_found, book_activity, cancel_activity, get_activity_by_guest,
}
use webmeow.Beach.Activities.Counting.{activities_of, load-save_bookings}
use webmeow.Beach.Activities.Replies.{Outcome, book_activity-Outcome}
use webmeow.Beach.Activities.Places.{freed-saved}
use webmeow.Beach.Booking.{BeachService}

abbrev pub succeeds : Reply → Bool
unfolding status_code
succeeds r = eqb (status_code r) 200

abbrev pub activity_held : String → Storage → Option String
activity_held guest s = booking_of guest (load_bookings s)

pub book_outcome :
    (id guest : String) (s : Storage) (p : Reply × Storage)
    → Outcome id guest s p
    → (succeeds p.0 ≡ true → activity_held guest p.1 ≡ some id)
      × (succeeds p.0 ≡ false → load_bookings p.1 ≡ load_bookings s)
unfolding status_code get_activity_by_guest
book_outcome id guest s p (inl (r, out, same)) = (λ e. absurd (ground (arith, r)), λ e. same.1)
book_outcome id guest s p (inr (inl (r, listed, full, same))) =
    (λ e. absurd (ground (arith, r)), λ e. same.1)
book_outcome id guest s p (inr (inr (r, listed, held))) = (λ e. cc, λ e. absurd (ground (arith, r)))

assign_other :
    (guest other : String) (held : Option String) (es : Entries (Option String)) (s : Storage)
    → guest ≢ other
    → activity_held other (save_bookings (assign guest held es) s) ≡ booking_of other es
unfolding booking_of
assign_other guest other held es s n =
    ap (booking_of other) (load-save_bookings (assign guest held es) s)
    ∙ ap (λ o. or_default o none)
        (value_of-assign_other guest other held es (ne→==-false guest other n))

pub book_found_other :
    (id guest other : String) (o : Option Activity) (all : List Activity) (s : Storage)
    → guest ≢ other
    → activity_held other (book_found o all id guest s).1 ≡ activity_held other s
unfolding book_found
book_found_other id guest other none all s n = refl
book_found_other id guest other (some a) all s n =
    if_cases (λ (p : Reply × Storage). activity_held other p.1 ≡ activity_held other s)
      (is_current (activity_held guest s) id) _ _ (λ e. refl)
      (λ e.
        if_cases (λ (p : Reply × Storage). activity_held other p.1 ≡ activity_held other s)
          (eqb a.remaining 0) _ _ (λ z. refl)
          (λ z. assign_other guest other (some id) (load_bookings s) _ n))

-- The storage after a cancellation that is carried out.
cancelled_bookings :
    (id : String) (es : Entries (Option String)) (s : Storage)
    → load_bookings (elim (find_activity id (activities_of s)) [
      | none ↦ (load_activities (save_bookings es s)).1
      | some a ↦
          save_activities
            (change_remaining suc id (load_activities (save_bookings es s)).0)
            (load_activities (save_bookings es s)).1
    ])
      ≡ es
cancelled_bookings id es s =
    ap load_bookings (sym (freed-saved id es (find_activity id (activities_of s)) s))
    ∙ load-save_bookings es _

cancel_bookings :
    (id guest : String) (s : Storage)
    → (succeeds (cancel_activity id guest s).0 ≡ is_current (activity_held guest s) id)
      × (load_bookings (cancel_activity id guest s).1 ≡ (
          if is_current (activity_held guest s) id
          then assign guest none (load_bookings s)
          else load_bookings s))
unfolding cancel_activity status_code load_activities save_bookings
cancel_bookings id guest s = by_test (is_current (activity_held guest s) id)
  where
    done : Reply × Storage
    done =
        let (all, s') = load_activities (save_bookings (assign guest none (load_bookings s)) s) in
        (
          cancelled,
          elim (find_activity id all) [
            | none ↦ s'
            | some a ↦ save_activities (change_remaining suc id all) s'
          ],
        )

    by_test :
        (b : Bool)
        → (succeeds (if not b then (activity_not_booked, s) else done).0 ≡ b)
          × (load_bookings (if not b then (activity_not_booked, s) else done).1
              ≡ (if b then assign guest none (load_bookings s) else load_bookings s))
    by_test true = (refl, cancelled_bookings id (assign guest none (load_bookings s)) s)
    by_test false = (refl, refl)

pub cancel_done :
    (id guest : String) (s : Storage)
    → succeeds (cancel_activity id guest s).0 ≡ true
    → activity_held guest (cancel_activity id guest s).1 ≡ none
unfolding booking_of
cancel_done id guest s e =
    let (test, after) = cancel_bookings id guest s in
    ap (λ es. or_default (value_of guest es) none) (ground (arith, after, test, e))
    ∙ ap (λ o. or_default o none) (value_of-assign guest none (load_bookings s))

pub cancel_refused :
    (id guest other : String) (s : Storage)
    → succeeds (cancel_activity id guest s).0 ≡ false
    → activity_held other (cancel_activity id guest s).1 ≡ activity_held other s
cancel_refused id guest other s e =
    let (test, after) = cancel_bookings id guest s in
    ap (booking_of other) (ground (arith, after, test, e))

pub cancel_other :
    (id guest other : String) (s : Storage)
    → guest ≢ other
    → activity_held other (cancel_activity id guest s).1 ≡ activity_held other s
unfolding booking_of
cancel_other id guest other s n =
    let (test, after) = cancel_bookings id guest s in
    ap (λ es. or_default (value_of other es) none) after
    ∙ if_cases
        (λ (es : Entries (Option String)).
          or_default (value_of other es) none ≡ or_default (value_of other (load_bookings s)) none)
        (is_current (or_default (value_of guest (load_bookings s)) none) id) _ _
        (λ e.
          ap (λ o. or_default o none)
            (value_of-assign_other guest other none (load_bookings s) (ne→==-false guest other n)))
        (λ e. refl)

-- The handlers keep what the page relies on.
unfoldable pub mock_service : BeachService
unfolding book_activity load_activities load_bookings
mock_service = record {
  Store = Storage;
  book = λ id guest s. (succeeds (book_activity id guest s).0, (book_activity id guest s).1);
  cancel = λ id guest s. (succeeds (cancel_activity id guest s).0, (cancel_activity id guest s).1);
  activity_by_guest = activity_held;
  book_done = λ id guest s e. (book_outcome id guest s _ (book_activity-Outcome id guest s)).0 e;
  book_refused = λ id guest other s e.
      ap (booking_of other) ((book_outcome id guest s _ (book_activity-Outcome id guest s)).1 e);
  book_other = λ id guest other s n.
      book_found_other id guest other (find_activity id (activities_of s)) (activities_of s)
        (load_activities s).1 n;
  cancel_done = λ id guest s held e. cancel_done id guest s e;
  cancel_refused = λ id guest other s e. cancel_refused id guest other s e;
  cancel_other = λ id guest other s n. cancel_other id guest other s n;
}
