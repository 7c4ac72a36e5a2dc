-- ===== src/Island/Simulation/Traffic/Overlap.antt =====
-- frontend/src/features/simulation: two steps of one guest that overlap.
use webmeow.Prelude.{
  ℕ, String, ◌≡◌, ◌==◌, Option, none, some, List, [], ◌∷◌, ◌++◌, if◌then◌else◌, Entries, value_of,
  assign,
}
use webmeow.Island.Simulation.{
  SimGuestState, new, hotel_booked, Call, cancels_activity, cancels_reservation, Answers,
}
use webmeow.Island.Simulation.Ledger.{reservation_after}
use webmeow.Island.Simulation.Traffic.{Traffic, concurrent_guests, waiting, Event, begins, finishes}

abbrev pub calls_of : String → List (String × List Call) → List Call
calls_of guest [] = []
calls_of guest ((g, calls) ∷ rest) =
    if g == guest then calls ++ calls_of guest rest else calls_of guest rest

-- Both ticks draw one guest; the first step cancels all, the second the activity only.
abbrev both_begin : String → Answers → ℕ → ℕ → List Event → List Event
both_begin guest a all_draw activity_draw ends =
    begins 0 guest a all_draw ∷ begins 1 guest a activity_draw ∷ ends

-- They end in the order in which they began, or in the other one.
abbrev pub overlap : String → Answers → ℕ → ℕ → List Event
overlap guest a all_draw activity_draw =
    both_begin guest a all_draw activity_draw (finishes 0 ∷ finishes 1 ∷ [])

abbrev pub overlap_reversed : String → Answers → ℕ → ℕ → List Event
overlap_reversed guest a all_draw activity_draw =
    both_begin guest a all_draw activity_draw (finishes 1 ∷ finishes 0 ∷ [])

-- The traffic before and after two such steps.
abbrev pub idle : Entries SimGuestState → Traffic
idle states = record { states = states; ticks = waiting concurrent_guests; ended = [] }

abbrev overlapped : String → String → String → String → Entries SimGuestState → Traffic
overlapped guest gate r activity states = record {
  states = assign guest (hotel_booked gate r) (assign guest new states);
  ticks = waiting concurrent_guests;
  ended =
      (guest, cancels_activity activity ∷ cancels_reservation r ∷ [])
      ∷ (guest, cancels_activity activity ∷ [])
      ∷ [];
}

abbrev in_flight :
    String
    → List Call × Option SimGuestState
    → List Call × Option SimGuestState
    → Entries SimGuestState
    → Traffic
in_flight guest p q states = record {
  states = states;
  ticks =
      some (record { guest_id = guest; calls = p.0; next = p.1 })
      ∷ some (record { guest_id = guest; calls = q.0; next = q.1 })
      ∷ none
      ∷ [];
  ended = [];
}

abbrev overlapped_reversed : String → String → String → String → Entries SimGuestState → Traffic
overlapped_reversed guest gate r activity states = record {
  states = assign guest new (assign guest (hotel_booked gate r) states);
  ticks = waiting concurrent_guests;
  ended =
      (guest, cancels_activity activity ∷ [])
      ∷ (guest, cancels_activity activity ∷ cancels_reservation r ∷ [])
      ∷ [];
}

-- What two steps leave: the guest's state, and no reservation after the calls that were made.
abbrev pub IsLeft : String → String → SimGuestState → Traffic → Type 0
IsLeft guest r state traffic =
    (value_of guest traffic.states ≡ some state)
    × (reservation_after (calls_of guest traffic.ended) (some r) ≡ none)
