-- ===== src/Times.antt =====
-- Times and durations: `datetime` and `timedelta`, in whole microseconds.
use aucnotif.Prelude.{ℕ, ◌*◌}
use aucnotif.Prelude.Int.{ℤ, pos, ◌-ℤ◌}

-- An aware `datetime`: microseconds since the epoch. Python compares, subtracts and tests such
-- values by the instant that they stand for, whatever their time zone.
abbrev pub Instant : Type 0
Instant = ℤ

-- `datetime.min` in UTC.
abbrev pub first_instant : Instant
first_instant = pos 0 -ℤ pos (719162 * 86400 * 1000000)

-- A `timedelta`.
abbrev pub Duration : Type 0
Duration = ℤ

abbrev pub seconds : ℕ → Duration
seconds n = pos (n * 1000000)

abbrev pub minutes : ℕ → Duration
minutes n = seconds (n * 60)

abbrev pub hours : ℕ → Duration
hours n = seconds (n * 3600)

-- A `datetime` as a database driver may return it, with or without a time zone. Without one it is
-- a clock reading.
pub data Datetime : Type 0 where
  naive : ℤ → Datetime
  aware : Instant → Datetime
