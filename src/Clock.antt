-- ===== src/Clock.antt =====
-- oetp-core/src/clock.rs: the process's clock, which a test or an operator may override. The state
-- is the static `CLOCK_OVERRIDE`; the system's time since the epoch is given beside it.
use oetp.Prelude.{ℕ, Option, none, some}

pub record Clock : Type 0 where
  pub clock_override : Option ℕ
  pub system : ℕ

unfoldable pub current_timestamp_secs : Clock → ℕ
current_timestamp_secs c = elim c.clock_override [ none ↦ c.system | some ts ↦ ts ]

unfoldable pub set_clock : ℕ → Clock → Clock
set_clock ts c = record c { clock_override = some ts }

unfoldable pub reset_clock : Clock → Clock
reset_clock c = record c { clock_override = none }
