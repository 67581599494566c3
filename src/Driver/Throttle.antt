-- ===== src/Driver/Throttle.antt =====
-- internal/driver/throttle.go: rate limiting of a repeating log line. Times are nanoseconds of one
-- clock; the lock makes each operation atomic.
pub mod Laws
use easykafka_config_go.Prelude.{ℕ, ◌+◌, Bool, true, false, Option, none, some, ltb, if◌then◌else◌}
use easykafka_config_go.Prelude.Words.{ℤ, pos, negsuc, increment, signed}

pub record Throttle : Type 0 where
  pub every : ℤ
  pub last : Option ℕ  -- the zero Time is `none`
  pub suppressed : ℕ  -- the bit pattern of the int

-- `newThrottle`
unfoldable pub new_throttle : ℤ → Throttle
new_throttle every = record { every = every; last = none; suppressed = 0 }

-- `now.Sub(last) < every`
abbrev pub within : ℕ → ℕ → ℤ → Bool
within now last (pos n) = ltb now (last + n)
within now last (negsuc n) = ltb (now + (n + 1)) last

-- `!t.last.IsZero() && now.Sub(t.last) < t.every`
abbrev pub is_limited : ℕ → Throttle → Bool
is_limited now t = elim t.last [ none ↦ false | some last ↦ within now last t.every ]

-- `allow`: the new state, whether to log, and how many calls were suppressed before
unfoldable pub allow : ℕ → Throttle → Throttle × (Bool × ℤ)
allow now t =
    if is_limited now t
    then (record t { suppressed = increment t.suppressed }, (false, pos 0))
    else (record t { suppressed = 0; last = some now }, (true, signed t.suppressed))

-- `reset`
unfoldable pub reset : Throttle → Throttle
reset t = record t { last = none; suppressed = 0 }
