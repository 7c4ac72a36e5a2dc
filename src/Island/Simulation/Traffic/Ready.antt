-- ===== src/Island/Simulation/Traffic/Ready.antt =====
-- frontend/src/features/simulation: every step of the traffic finds a state.
use mathlib.Core.List.{Memᴰ}
use webmeow.Prelude.{
  ℕ, zero, suc, String, ◌≡◌, refl, ap, ◌∙◌, subst, ◌==◌, Option, none, some, List, [], ◌∷◌, map,
  length, Entries, value_of, assign, value_of-assign, value_of-assign_other, Bool-cases, inl, inr,
  eq_iff, eq_refl, arith,
}
use webmeow.Island.Session.{GuestProfile}
use webmeow.Island.Simulation.{SimGuestState, Answers}
use webmeow.Island.Simulation.Guests.{synthetic_guests}
use webmeow.Island.Simulation.Traffic.{
  Running, Traffic, concurrent_guests, create_initial_state, start_traffic, seed_state, at_new,
  tick_at, set_tick, begin_from, begin_if, set_state, finish_if, Event, begins, finishes, happen,
  happen_all,
}

abbrev pub HasState : String → Entries SimGuestState → Type 0
HasState guest states = (s : SimGuestState) × (value_of guest states ≡ some s)

set_state-HasState :
    (guest_id guest : String) (next : Option SimGuestState) (states : Entries SimGuestState)
    → HasState guest states
    → HasState guest (set_state guest_id next states)
set_state-HasState guest_id guest none states h = h
set_state-HasState guest_id guest (some next) states (s, h) =
    elim (Bool-cases (guest_id == guest)) [
      | inl same ↦
          subst (λ g. HasState g (assign guest_id next states)) ((eq_iff guest_id guest).0 same)
            (next, value_of-assign guest_id next states)
      | inr other ↦ (s, value_of-assign_other guest_id guest next states other ∙ h)
    ]

length-set_tick :
    (n : ℕ) (o : Option Running) (ts : List (Option Running)) → length (set_tick n o ts) ≡ length ts
length-set_tick n o [] = refl
length-set_tick zero o (t ∷ rest) = refl
length-set_tick (suc n) o (t ∷ rest) = ap suc (length-set_tick n o rest)

-- A guest's state is there, and there are as many ticks as guests may act at once.
abbrev pub IsReady : String → Traffic → Type 0
IsReady guest t = HasState guest t.states × (length t.ticks ≡ concurrent_guests)

begin-IsReady :
    (o : Option SimGuestState) (tick : ℕ) (guest_id : String) (a : Answers) (draw : ℕ)
    (guest : String) (t : Traffic)
    → IsReady guest t
    → IsReady guest (begin_from o tick guest_id a draw t)
begin-IsReady none tick guest_id a draw guest t h = h
begin-IsReady (some s) tick guest_id a draw guest t h = (h.0, length-set_tick tick _ t.ticks ∙ h.1)

begin_if-IsReady :
    (r : Option Running) (tick : ℕ) (guest_id : String) (a : Answers) (draw : ℕ) (guest : String)
    (t : Traffic)
    → IsReady guest t
    → IsReady guest (begin_if r tick guest_id a draw t)
begin_if-IsReady (some running) tick guest_id a draw guest t h = h
begin_if-IsReady none tick guest_id a draw guest t h =
    begin-IsReady (value_of guest_id t.states) tick guest_id a draw guest t h

finish-IsReady :
    (r : Option Running) (tick : ℕ) (guest : String) (t : Traffic)
    → IsReady guest t
    → IsReady guest (finish_if r tick t)
finish-IsReady none tick guest t h = h
finish-IsReady (some r) tick guest t h = (
  set_state-HasState r.guest_id guest r.next t.states h.0,
  length-set_tick tick none t.ticks ∙ h.1,
)

happen_all_from :
    (es : List Event) (guest : String) (t : Traffic)
    → IsReady guest t
    → IsReady guest (happen_all es t)
unfolding happen_all happen
happen_all_from [] guest t h = h
happen_all_from (begins tick guest_id a draw ∷ rest) guest t h =
    happen_all_from rest guest (begin_if (tick_at tick t.ticks) tick guest_id a draw t)
      (begin_if-IsReady (tick_at tick t.ticks) tick guest_id a draw guest t h)
happen_all_from (finishes tick ∷ rest) guest t h =
    happen_all_from rest guest (finish_if (tick_at tick t.ticks) tick t)
      (finish-IsReady (tick_at tick t.ticks) tick guest t h)

seeded :
    (g : GuestProfile) (gs : List GuestProfile)
    → Memᴰ g gs
    → HasState g.id (map (λ (h : GuestProfile). (h.id, seed_state at_new)) gs)
seeded g [] m = elim m [ ]
seeded g (h ∷ rest) (Memᴰ.head e) = (seed_state at_new, rw e (ground (arith, eq_refl h.id)))
seeded g (h ∷ rest) (Memᴰ.tail m) =
    let (s, later) = seeded g rest m in
    elim (Bool-cases (h.id == g.id)) [
      | inl same ↦ (seed_state at_new, rw same refl)
      | inr other ↦ (s, rw other later)
    ]

-- Whatever steps start and end, overlapping or not, since the traffic was started: every synthetic
-- guest has a state, so that the step of a guest that is drawn finds one, and as many ticks go on as
-- guests may act at once.
pub happen_all-IsReady :
    (es : List Event) (g : GuestProfile)
    → Memᴰ g synthetic_guests
    → IsReady g.id (happen_all es start_traffic)
unfolding start_traffic create_initial_state
happen_all-IsReady es g m =
    happen_all_from es g.id start_traffic (seeded g synthetic_guests m, refl)
