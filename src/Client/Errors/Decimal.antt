-- ===== src/Client/Errors/Decimal.antt =====
-- The decimal digits of a number, as `String(n)` writes them.
use Prim.Native.String
use webmeow.Prelude.{ℕ, zero, suc, ◌/◌, ◌%◌, ◌<◌, String, ◌≡◌, eqb, if◌then◌else◌, arith}

digit : ℕ → String
digit n =
    if eqb n 0
    then "0"
    else if eqb n 1
    then "1"
    else if eqb n 2
    then "2"
    else if eqb n 3
    then "3"
    else if eqb n 4
    then "4"
    else if eqb n 5
    then "5"
    else if eqb n 6
    then "6"
    else if eqb n 7
    then "7"
    else if eqb n 8
    then "8"
    else "9"

-- The digits of the number before a text, on as much fuel as there are digits.
unfoldable pub decimal : ℕ → ℕ → String → String
unfolding digit
decimal zero n after = after
decimal (suc fuel) n after =
    let text = String.◌++◌ (digit (n % 10)) after in
    let more = decimal fuel (n / 10) text in if eqb (n / 10) 0 then text else more

-- Any fuel above the number gives all its digits.
decimal_fuel : (f g n : ℕ) (after : String) → n < f → n < g → decimal f n after ≡ decimal g n after
unfolding decimal
decimal_fuel zero g n after h k = absurd (omega arith)
decimal_fuel (suc f) zero n after h k = absurd (omega arith)
decimal_fuel (suc f) (suc g) n after h k =
    ground (arith, decimal_fuel f g (n / 10) (String.◌++◌ (digit (n % 10)) after))
