-- ===== src/Beach/Activities/Places.antt =====
-- frontend/src/mocks/handlers/beach.ts: the places of an activity over sequences of requests.
use webmeow.Prelude.{
  ℕ, suc, ◌+◌, ◌-◌, ◌≤◌, String, ◌≡◌, refl, ap, sym, ◌∙◌, subst, true, false, not, Option, none,
  some, List, [], ◌∷◌, eqb, is_empty, or_default, Entries, assign, arith, if_cases,
}
use webmeow.Beach.Activities.{
  Activity, Storage, load_activities, save_activities, load_bookings, save_bookings, booking_of,
  find_activity, change_remaining, give_place, is_current, Reply, book_found, book_activity,
  cancel_activity, get_activities, get_activity, seed,
}
use webmeow.Beach.Activities.Counting.{
  activities_of, remaining_of, is_listed, guests_of, places, guests_of-assign, load-save_bookings,
  remaining_of-change_remaining, is_listed-change_remaining, find_activity-remaining, taken-places,
  is_listed-give_place, same_remaining, takes_current, unlisted, same_listed,
}

places-saved :
    (id : String) (es : Entries (Option String)) (all : List Activity) (s : Storage)
    → places id (save_bookings es (save_activities all s)) ≡ remaining_of id all + guests_of id es
unfolding places save_activities save_bookings
places-saved id es all s =
    ap (λ x. remaining_of id all + guests_of id x) (load-save_bookings es (save_activities all s))

-- An activity that is stored or seeded, under an identifier that is no empty text.
abbrev pub IsOffered : String → Storage → Type 0
IsOffered id s = (is_empty id ≡ false) × (is_listed id (activities_of s) ≡ true)

-- The places stay, and the activity stays on offer.
abbrev IsKept : String → Storage → Storage → Type 0
IsKept id s t = (places id t ≡ places id s) × IsOffered id t

loaded-IsKept : (id : String) (s : Storage) → IsOffered id s → IsKept id s (load_activities s).1
unfolding load_activities places load_bookings
loaded-IsKept id s h = (refl, h)

saved-IsKept :
    (id : String) (es : Entries (Option String)) (all : List Activity) (s : Storage)
    → remaining_of id all + guests_of id es ≡ places id s
    → is_empty id ≡ false
    → is_listed id all ≡ true
    → IsKept id s (save_bookings es (save_activities all s))
unfolding save_activities save_bookings
saved-IsKept id es all s same full still =
    (unfold save_activities save_bookings in places-saved id es all s ∙ same, (full, still))

-- What is stored is what is in force.
stored-IsOffered :
    (id : String) (all : List Activity) (s : Storage)
    → s.activities ≡ some all
    → IsOffered id s
    → (is_listed id all ≡ true)
      × (places id s ≡ remaining_of id all + guests_of id (load_bookings s))
unfolding places
stored-IsOffered id all s stored h =
    let path : activities_of s ≡ all = ap (λ o. or_default o seed) stored in
    (
      subst (λ xs. is_listed id xs ≡ true) path h.1,
      ap (λ xs. remaining_of id xs + guests_of id (load_bookings s)) path,
    )

book_found-IsKept :
    (id other guest : String) (o : Option Activity) (all : List Activity) (s : Storage)
    → find_activity other all ≡ o
    → s.activities ≡ some all
    → IsOffered id s
    → IsKept id s (book_found o all other guest s).1
unfolding book_found
book_found-IsKept id other guest none all s found stored h = (refl, h)
book_found-IsKept id other guest (some a) all s found stored h =
    let es = load_bookings s in
    let held = booking_of guest es in
    if_cases (λ (p : Reply × Storage). IsKept id s p.1) (is_current held other) _ _
      (λ same. (refl, h))
      (λ free.
        if_cases (λ (p : Reply × Storage). IsKept id s p.1) (eqb a.remaining 0) _ _
          (λ full. (refl, h))
          (λ left.
            let (still, count) = stored-IsOffered id all s stored h in
            let enough = find_activity-remaining other all a found in
            saved-IsKept id _ _ s
              (taken-places id other guest held all es h.0 still refl free
                  (λ e. ground (arith, same_remaining other id all e))
                ∙ sym count)
              h.0
              (is_listed-change_remaining (λ n. n - 1) id other (give_place held all)
                ∙ is_listed-give_place id held all
                ∙ still)))

-- The writes of a cancellation, by whether the activity is found.
freed-IsKept :
    (id other guest : String) (o : Option Activity) (s : Storage)
    → find_activity other (activities_of s) ≡ o
    → is_current (booking_of guest (load_bookings s)) other ≡ true
    → IsOffered id s
    → IsKept id s (
        save_bookings (assign guest none (load_bookings s)) (
          save_activities
            (elim o [
              | none ↦ activities_of s
              | some a ↦ change_remaining suc other (activities_of s)
            ])
            s))
unfolding places
freed-IsKept id other guest none s found held h =
    saved-IsKept id _ _ s
      (ground (
        arith,
        guests_of-assign id guest none (load_bookings s),
        takes_current id other (booking_of guest (load_bookings s)) held,
        unlisted other (activities_of s) found,
        same_listed other id (activities_of s),
        h.1,
      ))
      h.0 h.1
freed-IsKept id other guest (some a) s found held h =
    saved-IsKept id _ _ s
      (ground (
        arith,
        guests_of-assign id guest none (load_bookings s),
        takes_current id other (booking_of guest (load_bookings s)) held,
        remaining_of-change_remaining suc id other (activities_of s) h.1,
      ))
      h.0 (is_listed-change_remaining suc id other (activities_of s) ∙ h.1)

pub freed-saved :
    (other : String) (es : Entries (Option String)) (o : Option Activity) (s : Storage)
    → save_bookings es (
        save_activities
          (elim o [
            | none ↦ activities_of s
            | some a ↦ change_remaining suc other (activities_of s)
          ])
          s)
      ≡ elim o [
        | none ↦ (load_activities (save_bookings es s)).1
        | some a ↦
            save_activities
              (change_remaining suc other (load_activities (save_bookings es s)).0)
              (load_activities (save_bookings es s)).1
      ]
unfolding load_activities save_activities save_bookings
freed-saved other es none s = refl
freed-saved other es (some a) s = refl

cancel-IsKept :
    (id other guest : String) (s : Storage)
    → IsOffered id s
    → IsKept id s (cancel_activity other guest s).1
unfolding cancel_activity load_activities save_bookings
cancel-IsKept id other guest s h =
    if_cases (λ (p : Reply × Storage). IsKept id s p.1)
      (not (is_current (booking_of guest (load_bookings s)) other)) _ _ (λ e. (refl, h))
      (λ e.
        let o = find_activity other (activities_of s) in
        subst (IsKept id s) (freed-saved other (assign guest none (load_bookings s)) o s)
          (freed-IsKept id other guest o s refl (ground arith) h))

-- The requests of the beach's handlers.
pub data Request : Type 0 where
  lists_activities : Request
  shows_activity guest_asks : String → Request
  books cancels : String → String → Request

unfoldable pub serve : Request → Storage → Storage
serve lists_activities s = (get_activities s).1
serve (shows_activity id) s = (get_activity id s).1
serve (guest_asks guest) s = s
serve (books id guest) s = (book_activity id guest s).1
serve (cancels id guest) s = (cancel_activity id guest s).1

unfoldable pub serve_all : List Request → Storage → Storage
unfolding serve
serve_all [] s = s
serve_all (r ∷ rs) s = serve_all rs (serve r s)

serve-IsKept : (id : String) (r : Request) (s : Storage) → IsOffered id s → IsKept id s (serve r s)
unfolding serve get_activities get_activity book_activity
serve-IsKept id lists_activities s h = loaded-IsKept id s h
serve-IsKept id (shows_activity other) s h = loaded-IsKept id s h
serve-IsKept id (guest_asks guest) s h = (refl, h)
serve-IsKept id (books other guest) s h =
    let first = loaded-IsKept id s h in
    let all = (load_activities s).0 in
    let s' = (load_activities s).1 in
    let after =
      book_found-IsKept id other guest (find_activity other all) all s' refl
        (unfold load_activities in refl) first.1 in
    (after.0 ∙ first.0, after.1)
serve-IsKept id (cancels other guest) s h = cancel-IsKept id other guest s h

-- Whatever sequence of requests is served, every activity on offer stays on offer, and its free
-- places and the guests who have booked it stay as many together as they were: no place is lost, and
-- none is given twice.
pub places-serve_all :
    (id : String) (rs : List Request) (s : Storage)
    → IsOffered id s
    → (places id (serve_all rs s) ≡ places id s) × IsOffered id (serve_all rs s)
unfolding serve_all
places-serve_all id [] s h = (refl, h)
places-serve_all id (r ∷ rs) s h =
    let first = serve-IsKept id r s h in
    let rest = places-serve_all id rs (serve r s) first.1 in (rest.0 ∙ first.0, rest.1)

-- An activity whose free places and guests are together no more than its capacity is never
-- overbooked: after any requests no more guests than that have booked it.
pub guests_of-serve_all :
    (id : String) (capacity : ℕ) (rs : List Request) (s : Storage)
    → IsOffered id s
    → places id s ≤ capacity
    → guests_of id (load_bookings (serve_all rs s)) ≤ capacity
unfolding places
guests_of-serve_all id capacity rs s h fits = omega (arith, (places-serve_all id rs s h).0)
