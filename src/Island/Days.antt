-- ===== src/Island/Days.antt =====
-- frontend/src/lib/simulation-time.ts: the day of the simulation as the frontend counts it, in exact
-- integer arithmetic on milliseconds as in Hotel/Clock. The day of a date is in Stay/Form.
use webmeow.Prelude.{ℕ, ◌+◌, ◌*◌, ◌/◌, ◌≡◌, arith}
use webmeow.Prelude.Int.{ℤ, pos, pos_part, neg_part, ◌+ℤ◌, ◌-ℤ◌, ◌≤ℤ◌, +ℤ_parts}
use webmeow.Hotel.Clock.{
  millis_per_day, scale, floor_div, elapsed_game_millis, compute_current_day, floor_div_bounds,
  elapsed_game_millis-delay,
}

-- `anchor`: 2026-06-19T09:00:00Z.
abbrev pub anchor : ℤ
anchor = pos 1781859600000

-- `getCurrentSimulationDay`, at an instant and a game speed.
unfoldable pub get_current_simulation_day : ℤ → ℕ → ℤ
unfolding floor_div scale ◌-ℤ◌
get_current_simulation_day now game_speed =
    floor_div (scale (now -ℤ anchor) game_speed) millis_per_day

days_apart :
    (f h : ℤ) (delay : ℕ)
    → f ≡ h +ℤ pos delay
    → (floor_div h millis_per_day +ℤ pos (delay / millis_per_day) ≤ℤ floor_div f millis_per_day)
      × (floor_div f millis_per_day
          ≤ℤ floor_div h millis_per_day +ℤ pos (delay / millis_per_day + 1))
days_apart f h delay e =
    let low = floor_div_bounds f in
    let high = floor_div_bounds h in
    let same : pos_part f + neg_part h ≡ neg_part f + pos_part h + delay =
      ground (arith, e, +ℤ_parts h (pos delay)) in
    (
      omega (
        arith,
        low,
        high,
        same,
        +ℤ_parts (floor_div h millis_per_day) (pos (delay / millis_per_day)),
      ),
      omega (
        arith,
        low,
        high,
        same,
        +ℤ_parts (floor_div h millis_per_day) (pos (delay / millis_per_day + 1)),
      ),
    )

-- If the hotel's clock is started a delay after the instant that the frontend takes for the start, the
-- frontend's day is ahead of the hotel's by the game days of the delay, rounded down, or by one more.
pub get_current_simulation_day-ahead :
    (now : ℤ) (delay speed : ℕ)
    → (compute_current_day now (anchor +ℤ pos delay) speed +ℤ pos (delay * speed / millis_per_day)
        ≤ℤ get_current_simulation_day now speed)
      × (get_current_simulation_day now speed
          ≤ℤ compute_current_day now (anchor +ℤ pos delay) speed
            +ℤ pos (delay * speed / millis_per_day + 1))
unfolding get_current_simulation_day compute_current_day elapsed_game_millis ◌+ℤ◌
get_current_simulation_day-ahead now delay speed =
    days_apart (elapsed_game_millis now anchor speed)
      (elapsed_game_millis now (anchor +ℤ pos delay) speed) (delay * speed)
      (elapsed_game_millis-delay now anchor delay speed)
