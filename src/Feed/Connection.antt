-- ===== src/Feed/Connection.antt =====
-- frontend/src/features/broadcast/hooks/use-broadcast.ts, the life of the connection: an open resets
-- the delay, an error closes the source and plans the next attempt, and doubles the delay.
use webmeow.Prelude.{
  ℕ, zero, suc, ◌*◌, ◌≤◌, ◌≡◌, Bool, true, false, Option, none, some, ltb, if◌then◌else◌, arith,
}

pub data ConnectionStatus : Type 0 where
  connected dropped reconnecting : ConnectionStatus

-- `source` says whether an event source is there, `timer` how long the planned attempt waits.
pub record Connection : Type 0 where
  pub status : ConnectionStatus
  pub source : Bool
  pub backoff : ℕ
  pub timer : Option ℕ

-- The first connection is attempted at once, if the gateway's address is set.
unfoldable pub mount : Bool → Connection
mount true = record { status = reconnecting; source = true; backoff = 1000; timer = none }
mount false = record { status = dropped; source = false; backoff = 1000; timer = none }

-- `Math.min`
abbrev pub min : ℕ → ℕ → ℕ
min a b = if ltb b a then b else a

-- A source that has been closed raises no event.
unfoldable pub on_open : Connection → Connection
on_open c = if c.source then record c { backoff = 1000; status = connected } else c

unfoldable pub on_error : Connection → Connection
on_error c =
    if c.source
    then record {
      status = reconnecting;
      source = false;
      backoff = min (c.backoff * 2) 30000;
      timer = some c.backoff;
    }
    else c

unfoldable pub on_timer : Connection → Connection
on_timer c = elim c.timer [ none ↦ c | some ms ↦ record c { source = true; timer = none } ]

-- An attempt that fails, and the wait for the next one.
unfoldable pub fail : Connection → Connection
unfolding on_error on_timer
fail c = on_timer (on_error c)

unfoldable pub fail_times : ℕ → Connection → Connection
unfolding fail
fail_times zero c = c
fail_times (suc n) c = fail (fail_times n c)

abbrev pub power_of_two : ℕ → ℕ
power_of_two zero = 1
power_of_two (suc n) = power_of_two n * 2

min_double : (p : ℕ) → 1 ≤ p → min (min (1000 * p) 30000 * 2) 30000 ≡ min (1000 * (p * 2)) 30000
min_double p h = ground arith

power-positive : (n : ℕ) → 1 ≤ power_of_two n
power-positive zero = omega arith
power-positive (suc n) = omega (arith, power-positive n)

fails_keep :
    (n : ℕ) (c : Connection)
    → c.source ≡ true
    → c.timer ≡ none
    → c.backoff ≡ 1000
    → ((fail_times n c).source ≡ true)
      × ((fail_times n c).backoff ≡ min (1000 * power_of_two n) 30000)
unfolding fail_times fail on_error on_timer
fails_keep zero c h t b = (h, b)
fails_keep (suc n) c h t b =
    let ih = fails_keep n c h t b in ground (arith, min_double (power_of_two n) (power-positive n))

-- From an open connection, or from the first attempt, the attempt after `n` failures in a row that
-- fails too is followed by a wait of one second doubled `n` times, but of half a minute at most; the
-- status is then "reconnecting", the source is closed, and one attempt is planned. An opening resets
-- this.
pub on_error-fail_times :
    (n : ℕ) (c : Connection)
    → c.source ≡ true
    → c.timer ≡ none
    → ((on_error (fail_times n (on_open c))).timer ≡ some (min (1000 * power_of_two n) 30000))
      × ((on_error (fail_times n (on_open c))).status ≡ reconnecting)
      × ((on_error (fail_times n (on_open c))).source ≡ false)
unfolding on_error on_open
on_error-fail_times n c h t =
    let kept = fails_keep n (on_open c) (ground arith) (ground arith) (ground arith) in ground arith
