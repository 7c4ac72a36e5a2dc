-- ===== src/Hotel/Clock.antt =====
-- services/hotel/src/simulation: the day of the accelerated clock. Times are whole milliseconds.
-- The source divides by 1000 and by 86400 in floating point; the model keeps game milliseconds and
-- divides once, exactly. The speed is a natural number, as GAME_SPEED is meant to be.
use webmeow.Prelude.{ℕ, ◌+◌, ◌*◌, ◌/◌, ◌≤◌, ◌<◌, ◌≡◌, ap, arith}
use webmeow.Prelude.Int.{
  ℤ, pos, negsuc, pos_part, neg_part, sub_ℕ, ◌+ℤ◌, ◌-ℤ◌, ◌≤ℤ◌, +ℤ_parts, -ℤ_parts, int_laws,
}

-- `SECONDS_PER_DAY`, in milliseconds.
abbrev pub millis_per_day : ℕ
millis_per_day = 86400000

-- a * n
unfoldable pub scale : ℤ → ℕ → ℤ
scale a n = sub_ℕ (pos_part a * n) (neg_part a * n)

-- `Math.floor(a / n)` for a positive n.
unfoldable pub floor_div : ℤ → ℕ → ℤ
floor_div (pos a) n = pos (a / n)
floor_div (negsuc a) n = negsuc (a / n)

unfoldable pub elapsed_game_millis : ℤ → ℤ → ℕ → ℤ
unfolding scale ◌-ℤ◌
elapsed_game_millis now start speed = scale (now -ℤ start) speed

unfoldable pub compute_current_day : ℤ → ℤ → ℕ → ℤ
unfolding floor_div
compute_current_day now start speed = floor_div (elapsed_game_millis now start speed) millis_per_day

pub floor_div_bounds :
    (a : ℤ)
    → (pos_part (floor_div a millis_per_day) * millis_per_day + neg_part a
        ≤ pos_part a + neg_part (floor_div a millis_per_day) * millis_per_day)
      × (pos_part a + neg_part (floor_div a millis_per_day) * millis_per_day
          < (pos_part (floor_div a millis_per_day) + 1) * millis_per_day + neg_part a)
unfolding floor_div
floor_div_bounds (pos a) = (omega arith, omega arith)
floor_div_bounds (negsuc a) = (omega arith, omega arith)

mul_mono : (a b n : ℕ) → a ≤ b → a * n ≤ b * n
mul_mono a b n h = grind arith

scale_parts :
    (a : ℤ) (n : ℕ) → pos_part (scale a n) + neg_part a * n ≡ neg_part (scale a n) + pos_part a * n
unfolding scale
scale_parts a n = ground arith

scale_mono : (a b : ℤ) (n : ℕ) → a ≤ℤ b → scale a n ≤ℤ scale b n
scale_mono a b n h = omega (
  arith,
  scale_parts a n,
  scale_parts b n,
  mul_mono (pos_part a + neg_part b) (pos_part b + neg_part a) n h,
)

mul_parts : (a b c d e n : ℕ) → a + b ≡ c + d + e → a * n + b * n ≡ c * n + d * n + e * n
mul_parts a b c d e n h =
    let both : (a + b) * n ≡ (c + d + e) * n = ap (λ x. x * n) h in grind (arith, both)

-- Where a clock starts a delay later, that much less has passed, times the speed.
pub elapsed_game_millis-delay :
    (now start : ℤ) (delay speed : ℕ)
    → elapsed_game_millis now start speed
      ≡ elapsed_game_millis now (start +ℤ pos delay) speed +ℤ pos (delay * speed)
unfolding elapsed_game_millis
elapsed_game_millis-delay now start delay speed =
    let a = now -ℤ start in
    let b = now -ℤ (start +ℤ pos delay) in
    let apart : pos_part a + neg_part b ≡ neg_part a + pos_part b + delay =
      omega (
        arith,
        -ℤ_parts now start,
        -ℤ_parts now (start +ℤ pos delay),
        +ℤ_parts start (pos delay),
      ) in
    omega (
      int_laws,
      scale_parts a speed,
      scale_parts b speed,
      mul_parts (pos_part a) (neg_part b) (neg_part a) (pos_part b) delay speed apart,
    )

floor_div_mono : (a b : ℤ) → a ≤ℤ b → floor_div a millis_per_day ≤ℤ floor_div b millis_per_day
floor_div_mono a b h = omega (arith, floor_div_bounds a, floor_div_bounds b)

elapsed_mono :
    (now later start : ℤ) (speed : ℕ)
    → now ≤ℤ later
    → elapsed_game_millis now start speed ≤ℤ elapsed_game_millis later start speed
unfolding elapsed_game_millis
elapsed_mono now later start speed h =
    scale_mono (now -ℤ start) (later -ℤ start) speed
      (omega (arith, -ℤ_parts now start, -ℤ_parts later start))

-- The day is the number of whole game days between the start and now, rounded down, also before the
-- start: day · 86400000 ms ≤ elapsed game time < (day + 1) · 86400000 ms. It never falls as time
-- goes on.
pub compute_current_day_bounds :
    (now later start : ℤ) (speed : ℕ)
    → now ≤ℤ later
    → (pos_part (compute_current_day now start speed) * millis_per_day
          + neg_part (elapsed_game_millis now start speed)
        ≤ pos_part (elapsed_game_millis now start speed)
          + neg_part (compute_current_day now start speed) * millis_per_day)
      × (pos_part (elapsed_game_millis now start speed)
            + neg_part (compute_current_day now start speed) * millis_per_day
          < (pos_part (compute_current_day now start speed) + 1) * millis_per_day
            + neg_part (elapsed_game_millis now start speed))
      × (compute_current_day now start speed ≤ℤ compute_current_day later start speed)
unfolding compute_current_day
compute_current_day_bounds now later start speed h =
    let (low, high) = floor_div_bounds (elapsed_game_millis now start speed) in
    (low, high, floor_div_mono _ _ (elapsed_mono now later start speed h))
