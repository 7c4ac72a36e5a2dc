-- ===== src/Island/Simulation/Traffic.antt =====
-- frontend/src/features/simulation: the ticks of use-traffic-generator.ts over runGuestStep of
-- machine.ts. A step reads the guest's state when it starts, and sets it when its calls have been
-- answered; the other ticks' steps may start and end meanwhile. The delays between steps are left out.
pub mod Ready
pub mod Overlap
use webmeow.Prelude.{
  ℕ, zero, suc, String, Option, none, some, List, [], ◌∷◌, ◌++◌, map, Entries, value_of, assign,
}
use webmeow.Island.Session.{GuestProfile}
use webmeow.Island.Simulation.{
  SimGuestState, new, arrived, hotel_booked, Call, Answers, stage_handler,
}
use webmeow.Island.Simulation.Guests.{synthetic_guests}

pub data SimGuestStage : Type 0 where
  at_new at_arrived at_hotel_booked at_beach_booked : SimGuestStage

unfoldable pub seed_state : SimGuestStage → SimGuestState
seed_state at_new = new
seed_state at_arrived = arrived ""
seed_state at_hotel_booked = hotel_booked "" ""
seed_state at_beach_booked = hotel_booked "" ""

unfoldable pub create_initial_state : Entries SimGuestState
unfolding seed_state
create_initial_state = map (λ (g : GuestProfile). (g.id, seed_state at_new)) synthetic_guests

-- A step that waits for the answers to its calls, with the state that it sets then.
pub record Running : Type 0 where
  pub guest_id : String
  pub calls : List Call
  pub next : Option SimGuestState

-- A tick has a step running or waits for its time. The steps that ended are in order.
pub record Traffic : Type 0 where
  pub states : Entries SimGuestState
  pub ticks : List (Option Running)
  pub ended : List (String × List Call)

-- `CONCURRENT_GUESTS`
abbrev pub concurrent_guests : ℕ
concurrent_guests = 3

abbrev pub waiting : ℕ → List (Option Running)
waiting zero = []
waiting (suc n) = none ∷ waiting n

unfoldable pub start_traffic : Traffic
unfolding create_initial_state
start_traffic = record {
  states = create_initial_state;
  ticks = waiting concurrent_guests;
  ended = [];
}

-- The tick of a number, `none` also where there is none.
abbrev pub tick_at : ℕ → List (Option Running) → Option Running
tick_at n [] = none
tick_at zero (t ∷ rest) = t
tick_at (suc n) (t ∷ rest) = tick_at n rest

abbrev pub set_tick : ℕ → Option Running → List (Option Running) → List (Option Running)
set_tick n o [] = []
set_tick zero o (t ∷ rest) = o ∷ rest
set_tick (suc n) o (t ∷ rest) = t ∷ set_tick n o rest

-- `runGuestStep` for the guest that was drawn, up to its first call's answer: without a state it
-- throws, and the tick goes on.
abbrev pub begin_from : Option SimGuestState → ℕ → String → Answers → ℕ → Traffic → Traffic
begin_from none tick guest_id a draw t = t
begin_from (some state) tick guest_id a draw t =
    let (calls, next) = stage_handler a draw state in
    record t {
      ticks =
          set_tick tick (some (record { guest_id = guest_id; calls = calls; next = next })) t.ticks;
    }

abbrev pub begin_if : Option Running → ℕ → String → Answers → ℕ → Traffic → Traffic
begin_if (some running) tick guest_id a draw t = t
begin_if none tick guest_id a draw t =
    begin_from (value_of guest_id t.states) tick guest_id a draw t

-- `states[guest.id] = next`, if the handler sets a state.
abbrev pub set_state : String → Option SimGuestState → Entries SimGuestState → Entries SimGuestState
set_state guest_id none states = states
set_state guest_id (some next) states = assign guest_id next states

abbrev pub finish_if : Option Running → ℕ → Traffic → Traffic
finish_if none tick t = t
finish_if (some r) tick t = record t {
  states = set_state r.guest_id r.next t.states;
  ticks = set_tick tick none t.ticks;
  ended = t.ended ++ ((r.guest_id, r.calls) ∷ []);
}

pub data Event : Type 0 where
  begins : ℕ → String → Answers → ℕ → Event
  finishes : ℕ → Event

unfoldable pub happen : Event → Traffic → Traffic
unfolding stage_handler
happen (begins tick guest_id a draw) t = begin_if (tick_at tick t.ticks) tick guest_id a draw t
happen (finishes tick) t = finish_if (tick_at tick t.ticks) tick t

unfoldable pub happen_all : List Event → Traffic → Traffic
unfolding happen
happen_all [] t = t
happen_all (e ∷ rest) t = happen_all rest (happen e t)
