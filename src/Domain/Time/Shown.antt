-- ===== src/Domain/Time/Shown.antt =====
-- A time that Yahoo writes, and the bot shows.
use aucnotif.Prelude.{
  ℕ, zero, suc, ◌+◌, ◌-◌, ◌*◌, ◌/◌, ◌%◌, ◌≤◌, ◌<◌, ◌≡◌, refl, ap, ◌∙◌, Bool, true, false, Option,
  some, List, [], ◌∷◌, ◌++◌, arith, ltb,
}
use aucnotif.Prelude.Int.{pos, pos_part, ◌+ℤ◌, ◌-ℤ◌}
use aucnotif.Prelude.Text.{Text, codes, is_space, strip, strip_ends}
use aucnotif.Prelude.Lists.{All}
use aucnotif.Prelude.Decimal.{digit, is_digit}
use aucnotif.Prelude.Calendar.{
  Date, Clock, is_leap, months, february, days_of, days_before_year, date_of, seconds_of, clock_of,
  date_text, two_digits, strftime_text, strftime-date_text,
}
use aucnotif.Prelude.Calendar.Days.{length_of}
use aucnotif.Prelude.Calendar.Dates.{IsDate, date_of-days_of}
use aucnotif.Prelude.Strptime.{
  literal, spaces, month_group, day_group, hour_group, minute_group, second_group, match_pieces,
  skip_space, strptime, valid, checked, datetime_of,
}
use aucnotif.Prelude.Strptime.Fields.{
  second-Takes, minute-Takes, hour-Takes, day-Takes, month-Takes, year_lem,
}
use aucnotif.Times.{Instant}
use aucnotif.Domain.Time.{
  parse_yahoo_datetime, parse_formats, yahoo_datetime_formats, minute_format, from_jst, parsed,
  epoch, standard_time, offset_at, clock_offset, jst_seconds, jst_text,
}

pub record IsClock (c : Clock) : Type 0 where
  pub hour_to : c.hour < 24
  pub minute_to : c.minute < 60
  pub second_to : c.second < 60

-- A time as the page of an auction has it, with seconds.
abbrev pub yahoo_text : Date → Clock → Text
yahoo_text d c = date_text d c ++ (codes ":" ++ two_digits c.second)

digit-not_space : (n : ℕ) → n < 10 → is_space (digit n) ≡ false
digit-not_space n h = ground arith

length_of-le : (ls : List ℕ) (i : ℕ) → All (λ l. l ≤ 31) ls → length_of ls i ≤ 31
length_of-le [] i h = omega arith
length_of-le (l ∷ ls) zero h = h.0
length_of-le (l ∷ ls) (suc i) h = length_of-le ls i h.1

february-le : (leap : Bool) → february leap ≤ 31
february-le true = omega arith
february-le false = omega arith

months-le : (leap : Bool) → All (λ l. l ≤ 31) (months leap)
months-le leap = ground (arith, february-le leap)

back : (a b c : ℕ) → pos_part ((pos a -ℤ pos b) +ℤ pos c) ≡ a + c - b
unfolding ◌+ℤ◌ ◌-ℤ◌
back a b c = ground arith

-- Standard time holds from 1951 on.
offset_at_lem : (s : ℕ) → 61557634800 ≤ s → offset_at s ≡ standard_time
unfolding offset_at
offset_at_lem s h = ground arith

clock_offset_lem : (s : ℕ) → 61557670800 ≤ s → clock_offset s ≡ standard_time
unfolding clock_offset
clock_offset_lem s h = ground arith

clock_path :
    (a b c e f g : ℕ)
    → a ≡ e
    → b ≡ f
    → c ≡ g
    → Path Clock
        (record { hour = a; minute = b; second = c })
        (record { hour = e; minute = f; second = g })
clock_path a b c e f g p q r = cc

module _ (digit_of : ℕ → Option ℕ)
    (ascii : (c : ℕ) → is_digit c ≡ true → digit_of c ≡ some (c - 48)) (d : Date) (c : Clock)
    (h : IsDate d) (k : IsClock c) (last_year : d.year ≤ 9999) where
  month_length : d.day ≤ 31
  month_length = omega (
    arith,
    h.day_to,
    length_of-le (months (is_leap d.year)) (d.month - 1) (months-le (is_leap d.year)),
  )

  matched :
      match_pieces digit_of (minute_format ++ literal b':' ∷ second_group ∷ []) (yahoo_text d c)
      ≡ some (d.year ∷ d.month ∷ d.day ∷ c.hour ∷ c.minute ∷ c.second ∷ [], [])
  unfolding date_text
  matched =
      let s = second-Takes digit_of ascii c.second k.second_to [] [] [] [] refl in
      let m =
        minute-Takes digit_of ascii c.minute k.minute_to (literal b':' ∷ second_group ∷ [])
          (b':' ∷ two_digits c.second) _ _ s in
      let hour =
        hour-Takes digit_of ascii c.hour k.hour_to
          (literal b':' ∷ minute_group ∷ literal b':' ∷ second_group ∷ [])
          (b':' ∷ two_digits c.minute ++ b':' ∷ two_digits c.second) _ _ m in
      let clock_text =
        two_digits c.hour ++ b':' ∷ two_digits c.minute ++ b':' ∷ two_digits c.second in
      let skipped : skip_space clock_text ≡ clock_text =
        rw (digit-not_space (c.hour / 10 % 10) (omega arith)) refl in
      let clock =
        ap
          (match_pieces digit_of
            (hour_group ∷ literal b':' ∷ minute_group ∷ literal b':' ∷ second_group ∷ []))
          skipped
        ∙ hour in
      let day =
        day-Takes digit_of ascii d.day h.day_from month_length
          (spaces ∷ hour_group ∷ literal b':' ∷ minute_group ∷ literal b':' ∷ second_group ∷ [])
          (b' ' ∷ clock_text) _ _ clock in
      let month =
        month-Takes digit_of ascii d.month h.month_from h.month_to
          (literal b'-'
            ∷ day_group
            ∷ spaces
            ∷ hour_group
            ∷ literal b':'
            ∷ minute_group
            ∷ literal b':'
            ∷ second_group
            ∷ [])
          (b'-' ∷ two_digits d.day ++ b' ' ∷ clock_text) _ _ day in
      year_lem digit_of ascii d.year
        (literal b'-'
          ∷ month_group
          ∷ literal b'-'
          ∷ day_group
          ∷ spaces
          ∷ hour_group
          ∷ literal b':'
          ∷ minute_group
          ∷ literal b':'
          ∷ second_group
          ∷ [])
        (b'-' ∷ two_digits d.month ++ b'-' ∷ two_digits d.day ++ b' ' ∷ clock_text) _ _
        (omega arith) month

  is_valid : valid d c ≡ true
  is_valid = ground (arith, h.year_from, h.day_to, k.second_to)

  read :
      strptime digit_of (minute_format ++ literal b':' ∷ second_group ∷ []) (yahoo_text d c)
      ≡ some (d, c)
  unfolding strptime
  read = rw (matched, datetime_of) (rw (is_valid, checked) refl)

  abbrev middle : Text
  middle =
      digit (d.year / 100 % 10)
      ∷ (two_digits (d.year % 100)
          ++ b'-' ∷ two_digits d.month
          ++ b'-' ∷ two_digits d.day
          ++ b' ' ∷ two_digits c.hour
          ++ b':' ∷ two_digits c.minute
          ++ b':' ∷ digit (c.second / 10 % 10) ∷ [])

  bare : strip (yahoo_text d c) ≡ yahoo_text d c
  unfolding date_text
  bare =
      strip_ends (digit (d.year / 100 / 10 % 10)) middle (digit (c.second % 10))
        (digit-not_space (d.year / 100 / 10 % 10) (omega arith))
        (digit-not_space (c.second % 10) (omega arith))

  abbrev count : ℕ
  count = days_of d * 86400 + seconds_of c

  -- In microseconds.
  abbrev read_at : Instant
  read_at = pos (count * 1000000) -ℤ pos ((epoch + standard_time) * 1000000)

  count-late : 1952 ≤ d.year → 61557753600 ≤ count
  count-late later = omega (arith, days-late later)
    where
      days-late : 1952 ≤ d.year → 712474 ≤ days_of d
      days-late later = unfold days_of in unfold days_before_year in omega arith

  parses : 1952 ≤ d.year → parse_yahoo_datetime digit_of (yahoo_text d c) ≡ parsed read_at
  unfolding parse_yahoo_datetime parse_formats from_jst
  parses later =
      ap (parse_formats digit_of yahoo_datetime_formats) bare
      ∙ rw (read, parse_formats)
          (rw (clock_offset_lem count (omega (arith, count-late later)))
            (rw (late count (count-late later)) refl))
    where
      late : (s : ℕ) → 61557753600 ≤ s → ltb s standard_time ≡ false
      late s far = ground arith

  seconds-shown : 1952 ≤ d.year → jst_seconds read_at ≡ count
  unfolding jst_seconds
  seconds-shown later =
      ap (λ n. n / 1000000 + offset_at (n / 1000000))
        (back (count * 1000000) ((epoch + standard_time) * 1000000) (epoch * 1000000))
      ∙ ap (λ n. n + offset_at n) (whole count)
      ∙ ap (λ n. count - standard_time + n)
          (offset_at_lem (count - standard_time) (omega (arith, count-late later)))
      ∙ omega (arith, count-late later)
    where
      whole :
          (n : ℕ)
          → (n * 1000000 + epoch * 1000000 - (epoch + standard_time) * 1000000) / 1000000
            ≡ n - standard_time
      whole n = omega arith

  seconds-day : seconds_of c < 86400
  unfolding seconds_of
  seconds-day = omega (arith, k.hour_to, k.minute_to, k.second_to)

  clock_of-seconds_of : clock_of (seconds_of c) ≡ c
  unfolding clock_of seconds_of
  clock_of-seconds_of =
      clock_path _ _ _ c.hour c.minute c.second (omega (arith, k.minute_to, k.second_to))
        (omega (arith, k.minute_to, k.second_to)) (omega (arith, k.second_to))

  days_again : count / 86400 ≡ days_of d
  days_again = omega (arith, seconds-day)

  seconds_again : count % 86400 ≡ seconds_of c
  seconds_again = omega (arith, seconds-day)

  -- A time of the years 1952 to 9999 that a page writes with seconds is read, and the bot shows the instant that was
  -- read as the same date, hour and minute. `int` and the regular expressions read the ten ASCII digits as Unicode
  -- defines them.
  pub shown_again :
      1952 ≤ d.year
      → (t : Instant) × ((parse_yahoo_datetime digit_of (yahoo_text d c) ≡ parsed t)
          × (jst_text t ≡ date_text d c))
  unfolding jst_text
  shown_again later = (
    read_at,
    (
      parses later,
      ap (λ n. strftime_text (date_of (n / 86400)) (clock_of (n % 86400))) (seconds-shown later)
          ∙ ap (λ n. strftime_text (date_of n) (clock_of (count % 86400))) days_again
          ∙ ap (λ n. strftime_text (date_of (days_of d)) (clock_of n)) seconds_again
          ∙ ap (λ e. strftime_text e (clock_of (seconds_of c))) (date_of-days_of d h)
          ∙ ap (strftime_text d) clock_of-seconds_of
          ∙ strftime-date_text d c (omega (arith, later)) last_year,
    ),
  )
