-- ===== src/Tests/Clocks.antt =====
-- Times as Yahoo writes them.
use aucnotif.Prelude.{ℕ, ◌-◌, ◌≡◌, refl, true, Option, none, some, if◌then◌else◌, arith}
use aucnotif.Prelude.Int.{pos}
use aucnotif.Prelude.Text.{codes}
use aucnotif.Prelude.Decimal.{is_digit}
use aucnotif.Prelude.Calendar.{Date, Clock, days_of, seconds_of, date_text, days_before_year}
use aucnotif.Prelude.Calendar.Dates.{IsDate}
use aucnotif.Prelude.Strptime.{strptime}
use aucnotif.Times.{Instant}
use aucnotif.Domain.Time.{
  parse_yahoo_datetime, parse_formats, from_jst, parsed, parse_error, jst_text,
}
use aucnotif.Domain.Time.Shown.{IsClock, yahoo_text, shown_again}

abbrev ascii_digit : ℕ → Option ℕ
ascii_digit c = if is_digit c then some (c - 48) else none

ascii : (c : ℕ) → is_digit c ≡ true → ascii_digit c ≡ some (c - 48)
ascii c h = rw h refl

-- A leap day.
abbrev day : Date
day = record { year = 2028; month = 2; day = 29 }

abbrev clock : Clock
clock = record { hour = 21; minute = 5; second = 9 }

day-IsDate : IsDate day
day-IsDate = record {
  year_from = omega arith;
  month_from = omega arith;
  month_to = omega arith;
  day_from = omega arith;
  day_to = omega arith;
}

clock-IsClock : IsClock clock
clock-IsClock = record { hour_to = omega arith; minute_to = omega arith; second_to = omega arith }

shown_again_example :
    (t : Instant) × ((parse_yahoo_datetime ascii_digit (yahoo_text day clock) ≡ parsed t)
      × (jst_text t ≡ date_text day clock))
shown_again_example =
    shown_again ascii_digit ascii day clock day-IsDate clock-IsClock (omega arith) (omega arith)

-- Half past nine in Japan on the first day of the epoch, without seconds; and a day that there is not.
tests :
    (parse_yahoo_datetime ascii_digit (codes " 1970-01-01 9:30 ") ≡ parsed (pos 1800000000))
    × (parse_yahoo_datetime ascii_digit (codes "2027-02-29 10:00:00") ≡ parse_error)
unfolding parse_yahoo_datetime parse_formats strptime from_jst days_of days_before_year seconds_of
    aucnotif.Prelude.Text.strip aucnotif.Prelude.Int.◌-ℤ◌
tests = (refl, refl)
