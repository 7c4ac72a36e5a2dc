-- ===== src/Island/Tests/Simulated.antt =====
-- The traffic and the requests of the simulated guests at concrete inputs.
use webmeow.Prelude.{◌+◌, ◌*◌, ◌/◌, String, ◌≡◌, refl, true, false, some, List, [], ◌∷◌, Entries}
use webmeow.Prelude.Int.{pos, ◌+ℤ◌, ◌≤ℤ◌}
use webmeow.Hotel.Clock.{millis_per_day, compute_current_day}
use webmeow.Island.Session.{GuestProfile, eu, standard}
use webmeow.Island.Days.{anchor, get_current_simulation_day, get_current_simulation_day-ahead}
use webmeow.Island.Simulation.{SimGuestState, beach_booked, Answers}
use webmeow.Island.Simulation.Parrot.{posts}
use webmeow.Island.Simulation.Requests.{Draws}
use webmeow.Island.Simulation.Traffic.{Event, begins, finishes}

abbrev answers : Answers
answers = record { gate = some "G1"; reservation_id = some "r1"; activity_id = some "a1" }

abbrev mango : String
mango = "sim-guest-mango-0001"

abbrev mango_guest : GuestProfile
mango_guest = record {
  id = mango;
  name = "Mango";
  surname = "Marin";
  age = 29;
  passport = eu;
  priority = standard;
  disability = false;
  avatar = "avatar-mango.png";
  personality = "Arrives with a camera and asks everyone for the best sunset spot.";
}

abbrev at_beach : Entries SimGuestState
at_beach = (mango, beach_booked "G1" "r1" "a1") ∷ []

abbrev traffic : List Event
traffic = begins 0 mango answers 0 ∷ begins 2 mango answers 0 ∷ finishes 2 ∷ finishes 0 ∷ []

-- The hotel's clock is started at 2026-06-20T00:00:00Z, 15 hours after the anchor.
get_current_simulation_day-ahead_example :
    (compute_current_day (pos 1782000000000) (anchor +ℤ pos 54000000) 300
        +ℤ pos (54000000 * 300 / millis_per_day)
      ≤ℤ get_current_simulation_day (pos 1782000000000) 300)
    × (get_current_simulation_day (pos 1782000000000) 300
        ≤ℤ compute_current_day (pos 1782000000000) (anchor +ℤ pos 54000000) 300
          +ℤ pos (54000000 * 300 / millis_per_day + 1))
get_current_simulation_day-ahead_example =
    get_current_simulation_day-ahead (pos 1782000000000) 54000000 300

abbrev draws : Draws
draws = record { check_in = 0; room = 5; count = 9007199254740991; check_out = 4503599627370496 }

posts_twice : posts true 30000 (31000 ∷ 45000 ∷ 61000 ∷ []) 0 ≡ 31000 ∷ 61000 ∷ []
unfolding posts
posts_twice = refl
