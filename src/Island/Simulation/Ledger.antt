-- ===== src/Island/Simulation/Ledger.antt =====
-- frontend/src/features/simulation: the state of a simulated guest against the calls that were made
-- for it, and what `bookHotel` answers.
use webmeow.Prelude.{
  ℕ, String, ◌≡◌, ◌⊎◌, eq_iff, refl, subst, ap, sym, ◌∙◌, Option, none, some, List, [], ◌∷◌, ◌++◌,
  ltb, if◌then◌else◌, is_empty, ◌==◌, eq_refl, Bool-cases, if_cases, or_default, inl, inr, arith,
}
use webmeow.Island.Simulation.{
  SimGuestState, new, arrived, hotel_booked, beach_booked, Call, books_hotel, books_activity,
  cancels_activity, cancels_reservation, Answers, set_if, handle_new, handle_arrived,
  handle_hotel_booked, handle_beach_booked, stage_handler, step, Reply, thrown, returned, recover,
  book_hotel,
}

-- What a guest holds by its state.
abbrev pub reservation_of : SimGuestState → Option String
reservation_of (hotel_booked gate r) = some r
reservation_of (beach_booked gate r act) = some r
reservation_of _ = none

abbrev pub activity_of : SimGuestState → Option String
activity_of (beach_booked gate r act) = some act
activity_of _ = none

-- A holding after an answer, and after a cancellation of an identifier.
abbrev pub take_up : Option String → Option String → Option String
take_up none held = held
take_up (some v) held = if is_empty v then held else some v

abbrev pub give_up : String → Option String → Option String
give_up v none = none
give_up v (some w) = if v == w then none else some w

-- What a guest holds by the calls.
unfoldable pub reservation_after : List Call → Option String → Option String
reservation_after [] held = held
reservation_after (books_hotel o ∷ cs) held = reservation_after cs (take_up o held)
reservation_after (cancels_reservation r ∷ cs) held = reservation_after cs (give_up r held)
reservation_after (_ ∷ cs) held = reservation_after cs held

unfoldable pub activity_after : List Call → Option String → Option String
activity_after [] held = held
activity_after (books_activity o ∷ cs) held = activity_after cs (take_up o held)
activity_after (cancels_activity a ∷ cs) held = activity_after cs (give_up a held)
activity_after (_ ∷ cs) held = activity_after cs held

-- Draws and answers of the steps of one guest; the calls of all of them.
unfoldable pub walk : List (Answers × ℕ) → SimGuestState → List Call × SimGuestState
unfolding step
walk [] s = ([], s)
walk ((a, draw) ∷ ds) s =
    ((step a draw s).0 ++ (walk ds (step a draw s).1).0, (walk ds (step a draw s).1).1)

-- The calls of a handler, and the state after it, agree on what is held.
abbrev IsBooked : SimGuestState → List Call → List Call × Option SimGuestState → Type 0
IsBooked s cs p =
    (reservation_after (p.0 ++ cs) (reservation_of s)
      ≡ reservation_after cs (reservation_of (or_default p.1 s)))
    × (activity_after (p.0 ++ cs) (activity_of s)
        ≡ activity_after cs (activity_of (or_default p.1 s)))

kept :
    (f : SimGuestState → Option String) (o : Option String) (next : String → SimGuestState)
    (s : SimGuestState)
    → ((v : String) → f (next v) ≡ f s)
    → f (or_default (set_if o next) s) ≡ f s
kept f none next s h = refl
kept f (some v) next s h = elim (Bool-cases (is_empty v)) [ inl e ↦ rw e refl | inr e ↦ rw e (h v) ]

taken :
    (f : SimGuestState → Option String) (o : Option String) (next : String → SimGuestState)
    (s : SimGuestState)
    → ((v : String) → f (next v) ≡ some v)
    → f (or_default (set_if o next) s) ≡ take_up o (f s)
taken f none next s h = refl
taken f (some v) next s h = elim (Bool-cases (is_empty v)) [
  | inl e ↦ rw e refl
  | inr e ↦ rw e (h v)
]

given_up : (v : String) → give_up v (some v) ≡ none
given_up v = ground (arith, eq_refl v)

handler-IsBooked :
    (a : Answers) (draw : ℕ) (s : SimGuestState) (cs : List Call)
    → IsBooked s cs (stage_handler a draw s)
unfolding stage_handler handle_new handle_arrived handle_hotel_booked handle_beach_booked
    reservation_after activity_after
handler-IsBooked a draw new cs = (
  ap (reservation_after cs) (sym (kept reservation_of a.gate arrived new (λ v. refl))),
  ap (activity_after cs) (sym (kept activity_of a.gate arrived new (λ v. refl))),
)
handler-IsBooked a draw (arrived gate) cs =
    let s = arrived gate in
    let next = hotel_booked gate in
    if_cases (IsBooked s cs) (ltb draw 80) _ _
      (λ e. (
        ap (reservation_after cs) (sym (taken reservation_of a.reservation_id next s (λ v. refl))),
        ap (activity_after cs) (sym (kept activity_of a.reservation_id next s (λ v. refl))),
      ))
      (λ e. (refl, refl))
handler-IsBooked a draw (hotel_booked gate r) cs =
    let s = hotel_booked gate r in
    let next = beach_booked gate r in
    if_cases (IsBooked s cs) (ltb draw 25) _ _
      (λ e. (
        ap (reservation_after cs) (sym (kept reservation_of a.activity_id next s (λ v. refl))),
        ap (activity_after cs) (sym (taken activity_of a.activity_id next s (λ v. refl))),
      ))
      (λ e. if_cases (IsBooked s cs) (ltb draw 65) _ _ (λ f. (refl, refl)) (λ f. (refl, refl)))
handler-IsBooked a draw (beach_booked gate r act) cs =
    let s = beach_booked gate r act in
    if_cases (IsBooked s cs) (ltb draw 10) _ _
      (λ e. (ap (reservation_after cs) (given_up r), ap (activity_after cs) (given_up act)))
      (λ e.
        if_cases (IsBooked s cs) (ltb draw 25) _ _
          (λ f. (refl, ap (activity_after cs) (given_up act)))
          (λ f. if_cases (IsBooked s cs) (ltb draw 45) _ _ (λ g. (refl, refl)) (λ g. (refl, refl))))

-- Whatever is drawn and answered, the reservation and the activity in a guest's state are the ones
-- that the calls made so far have taken up and not given up again: each one that is taken up is given
-- up under its own identifier before the state forgets it.
pub reservation_after-walk :
    (ds : List (Answers × ℕ)) (s : SimGuestState)
    → (reservation_after (walk ds s).0 (reservation_of s) ≡ reservation_of (walk ds s).1)
      × (activity_after (walk ds s).0 (activity_of s) ≡ activity_of (walk ds s).1)
unfolding walk step reservation_after activity_after
reservation_after-walk [] s = (refl, refl)
reservation_after-walk ((a, draw) ∷ ds) s =
    let first = handler-IsBooked a draw s (walk ds (step a draw s).1).0 in
    let rest = reservation_after-walk ds (step a draw s).1 in (first.0 ∙ rest.0, first.1 ∙ rest.1)

recovered :
    (again : Reply (Option String)) (id : String)
    → recover again ≡ some id
    → again ≡ returned (some id)
unfolding recover
recovered thrown id h = cc
recovered (returned none) id h = cc
recovered (returned (some id')) id h = ap returned h

-- `bookHotel` for a guest who has passed the airport.
processed :
    (existing : Reply (Option String)) (posted : Reply String) (again : Reply (Option String))
    (id : String)
    → book_hotel (returned "processed") existing posted again ≡ some id
    → (existing ≡ returned (some id))
      ⊎ ((existing ≡ returned none) × (posted ≡ returned id))
      ⊎ (((existing ≡ thrown) ⊎ (posted ≡ thrown)) × (again ≡ returned (some id)))
unfolding book_hotel
processed thrown posted again id h = inr (inr (inl refl, recovered again id h))
processed (returned (some e)) posted again id h = inl (ap returned h)
processed (returned none) thrown again id h = inr (inr (inr refl, recovered again id h))
processed (returned none) (returned new_id) again id h = inr (inl (refl, ground arith))

-- The identifier that `bookHotel` answers is that of a reservation that a service gave: one there was
-- for a guest who had passed the airport, the new one where there was none, or, after a call that
-- threw, the one there is.
pub book_hotel-eq-some :
    (arrival : Reply String) (existing : Reply (Option String)) (posted : Reply String)
    (again : Reply (Option String)) (id : String)
    → book_hotel arrival existing posted again ≡ some id
    → ((arrival ≡ thrown) × (again ≡ returned (some id)))
      ⊎ ((arrival ≡ returned "processed")
          × ((existing ≡ returned (some id))
              ⊎ ((existing ≡ returned none) × (posted ≡ returned id))
              ⊎ (((existing ≡ thrown) ⊎ (posted ≡ thrown)) × (again ≡ returned (some id)))))
unfolding book_hotel
book_hotel-eq-some thrown existing posted again id h = inl (refl, recovered again id h)
book_hotel-eq-some (returned status) existing posted again id h =
    elim (Bool-cases (status == "processed")) [
      | inl e ↦
          let path : ◌≡◌ {A = String} status "processed" = (eq_iff status "processed").0 e in
          inr (
            ap returned path,
            processed existing posted again id
                (subst (λ x. book_hotel (returned x) existing posted again ≡ some id) path h),
          )
      | inr e ↦ absurd (ground arith)
    ]
