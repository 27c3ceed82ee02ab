-- ===== src/Prelude/Calendar.antt =====
-- Python's `datetime` as a calendar: the proleptic Gregorian calendar from the year 1 on, and a clock.
pub mod Days
pub mod Dates
use aucnotif.Prelude.{
  ℕ, zero, suc, ◌+◌, ◌-◌, ◌*◌, ◌/◌, ◌%◌, Bool, not, ◌&&◌, ◌||◌, List, [], ◌∷◌, ◌++◌, ltb, ◌==◌,
  if◌then◌else◌, ◌≤◌, ◌≡◌, ap, arith,
}
use aucnotif.Prelude.Text.{Text, codes}
use aucnotif.Prelude.Decimal.{digit, decimal, decimal_four}

pub record Date : Type 0 where
  pub year : ℕ
  pub month : ℕ
  pub day : ℕ

pub record Clock : Type 0 where
  pub hour : ℕ
  pub minute : ℕ
  pub second : ℕ

abbrev pub is_leap : ℕ → Bool
is_leap year = year % 4 == 0 && (not (year % 100 == 0) || year % 400 == 0)

abbrev pub february : Bool → ℕ
february leap = if leap then 29 else 28

-- The lengths of the months of a year.
abbrev pub months : Bool → List ℕ
months leap = 31 ∷ february leap ∷ 31 ∷ 30 ∷ 31 ∷ 30 ∷ 31 ∷ 31 ∷ 30 ∷ 31 ∷ 30 ∷ 31 ∷ []

-- Days before the first of January of the year `suc p`.
unfoldable pub days_before_year : ℕ → ℕ
days_before_year p = p * 365 + p / 4 + p / 400 - p / 100

-- Days before the first day of the month at place `m`.
abbrev pub days_before_month : List ℕ → ℕ → ℕ
days_before_month [] m = 0
days_before_month (l ∷ ls) zero = 0
days_before_month (l ∷ ls) (suc m) = l + days_before_month ls m

-- Days since the first of January of the year 1.
unfoldable pub days_of : Date → ℕ
unfolding days_before_year
days_of d =
    days_before_year (d.year - 1)
    + days_before_month (months (is_leap d.year)) (d.month - 1)
    + (d.day - 1)

-- The place of a day within the months from number `m` on.
abbrev pub month_at : List ℕ → ℕ → ℕ → ℕ × ℕ
month_at [] m n = (m, suc n)
month_at (l ∷ ls) m n =
    let later = month_at ls (suc m) (n - l) in if ltb n l then (m, suc n) else later

-- Cycles of 400, 100 and 4 years and single years; the last day of a cycle would be a fifth part.
abbrev pub year_parts : ℕ → ℕ × ℕ × ℕ × ℕ × ℕ
year_parts n = (
  n / 146097,
  n % 146097 / 36524,
  n % 146097 % 36524 / 1461,
  n % 146097 % 36524 % 1461 / 365,
  n % 146097 % 36524 % 1461 % 365,
)

abbrev pub dated : ℕ → ℕ × ℕ → Date
dated year (month, day) = record { year = year; month = month; day = day }

abbrev pub date_from : ℕ × ℕ × ℕ × ℕ × ℕ → Date
date_from (n400, n100, n4, n1, n) =
    let year = n400 * 400 + n100 * 100 + n4 * 4 + n1 in
    if n1 == 4 || n100 == 4
    then dated year (12, 31)
    else dated (suc year) (month_at (months (is_leap (suc year))) 1 n)

unfoldable pub date_of : ℕ → Date
date_of n = date_from (year_parts n)

unfoldable pub clock_of : ℕ → Clock
clock_of s = record { hour = s / 3600; minute = s % 3600 / 60; second = s % 60 }

unfoldable pub seconds_of : Clock → ℕ
seconds_of c = c.hour * 3600 + c.minute * 60 + c.second

abbrev pub two_digits : ℕ → Text
two_digits n = digit (n / 10 % 10) ∷ digit (n % 10) ∷ []

-- What follows the year in `"%Y-%m-%d %H:%M"`.
abbrev pub after_year : Date → Clock → Text
after_year d c =
    codes "-"
    ++ (two_digits d.month
        ++ (codes "-"
            ++ (two_digits d.day
                ++ (codes " " ++ (two_digits c.hour ++ (codes ":" ++ two_digits c.minute))))))

-- A date and a clock with four digits for the year.
unfoldable pub date_text : Date → Clock → Text
date_text d c = two_digits (d.year / 100) ++ (two_digits (d.year % 100) ++ after_year d c)

-- `strftime("%Y-%m-%d %H:%M")` on Linux, where `%Y` is not padded.
unfoldable pub strftime_text : Date → Clock → Text
strftime_text d c = decimal d.year ++ after_year d c

pub strftime-date_text :
    (d : Date) (c : Clock) → 1000 ≤ d.year → d.year ≤ 9999 → strftime_text d c ≡ date_text d c
unfolding strftime_text date_text
strftime-date_text d c from to =
    ap (λ s. s ++ after_year d c) (decimal_four d.year from (omega (arith, to)))
