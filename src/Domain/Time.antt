-- ===== src/Domain/Time.antt =====
-- app/domain/time.py: aware times, the times that Yahoo writes, and the texts for a remaining time and for a
-- price.
pub mod Shown
use aucnotif.Prelude.{
  ℕ, ◌+◌, ◌*◌, ◌/◌, ◌%◌, Option, none, some, List, [], ◌∷◌, ◌++◌, if◌then◌else◌, ltb, max,
}
use aucnotif.Prelude.Int.{ℤ, ◌+ℤ◌, ◌-ℤ◌, pos_part, pos, ltb_ℤ}
use aucnotif.Prelude.Text.{Text, codes, strip}
use aucnotif.Prelude.Decimal.{decimal, grouped_ℤ}
use aucnotif.Prelude.Calendar.{Date, Clock, date_of, days_of, clock_of, seconds_of, strftime_text}
use aucnotif.Prelude.Strptime.{
  Piece, literal, spaces, year_group, month_group, day_group, hour_group, minute_group,
  second_group, strptime,
}
use aucnotif.Times.{Instant, Datetime, naive, aware}

-- The aware time: a naive value is read as a clock in UTC.
unfoldable pub ensure_aware : Option Datetime → Option Instant
ensure_aware none = none
ensure_aware (some (naive reading)) = some reading
ensure_aware (some (aware instant)) = some instant

-- The two calls of `divmod`, and the minutes.
unfoldable pub remaining_parts : ℕ → ℕ × ℕ × ℕ
remaining_parts total = (total / 86400, total % 86400 / 3600, total % 86400 % 3600 / 60)

unfoldable pub remaining_text : ℕ × ℕ × ℕ → Text
unfolding decimal
remaining_text (days, hours, minutes) =
    if ltb 0 days
    then decimal days ++ (codes " дн " ++ (decimal hours ++ codes " ч"))
    else if ltb 0 hours
    then (if ltb 0 minutes
        then decimal hours ++ (codes " ч " ++ (decimal minutes ++ codes " мин"))
        else decimal hours ++ codes " ч")
    else if ltb 0 minutes
    then decimal minutes ++ codes " мин"
    else codes "меньше минуты"

-- The difference is not negative in the second branch, and `int` drops its fraction of a second.
unfoldable pub format_remaining : Instant → Instant → Text
unfolding remaining_parts remaining_text
format_remaining end_time now =
    let delta = end_time -ℤ now in
    if ltb_ℤ delta (pos 0)
    then codes "завершён"
    else remaining_text (remaining_parts (pos_part delta / 1000000))

unfoldable pub format_price : Option ℤ → Text
unfolding grouped_ℤ
format_price none = codes "—"
format_price (some value) = codes "¥" ++ grouped_ℤ value

-- Seconds from the first of January of the year 1 to the epoch.
abbrev pub epoch : ℕ
epoch = 719162 * 86400

-- `ZoneInfo("Asia/Tokyo")`, from the time zone database: the second, in UTC, from which an offset holds. Local mean
-- time came before the first one; four summers had daylight saving.
abbrev pub mean_time : ℕ
mean_time = 33539

abbrev pub standard_time : ℕ
standard_time = 32400

abbrev pub transitions : List (ℕ × ℕ)
transitions =
    (59547884400, standard_time)
    ∷ (61451794800, 36000)
    ∷ (61463286000, standard_time)
    ∷ (61480825200, 36000)
    ∷ (61494735600, standard_time)
    ∷ (61515298800, 36000)
    ∷ (61526185200, standard_time)
    ∷ (61546748400, 36000)
    ∷ (61557634800, standard_time)
    ∷ []

abbrev offset_from : ℕ → List (ℕ × ℕ) → ℕ → ℕ
offset_from offset [] s = offset
offset_from offset ((at, next) ∷ later) s =
    let found = offset_from next later s in if ltb s at then offset else found

-- The offset for a clock: a reading that is skipped has the offset before, one that comes twice the first.
abbrev clock_offset_from : ℕ → List (ℕ × ℕ) → ℕ → ℕ
clock_offset_from offset [] s = offset
clock_offset_from offset ((at, next) ∷ later) s =
    let found = clock_offset_from next later s in
    if ltb s (at + max offset next) then offset else found

-- Both count seconds since the first of January of the year 1, in UTC and on the clock.
unfoldable pub offset_at : ℕ → ℕ
offset_at s = offset_from mean_time transitions s

unfoldable pub clock_offset : ℕ → ℕ
clock_offset s = clock_offset_from mean_time transitions s

-- Seconds since the first of January of the year 1, on a clock in Japan. No `datetime` is earlier than that.
unfoldable pub jst_seconds : Instant → ℕ
unfolding offset_at
jst_seconds t = let s = pos_part (t +ℤ pos (epoch * 1000000)) / 1000000 in s + offset_at s

-- `aware.astimezone(JST).strftime("%Y-%m-%d %H:%M")`
unfoldable pub jst_text : Instant → Text
unfolding jst_seconds date_of clock_of strftime_text
jst_text t = let s = jst_seconds t in strftime_text (date_of (s / 86400)) (clock_of (s % 86400))

-- A time, the `YahooDatetimeParseError`, and the `OverflowError` of a time before the year 1 in UTC, which the
-- `except` clause does not catch.
pub data Parsed : Type 0 where
  parsed : Instant → Parsed
  parse_error overflow : Parsed

-- `naive.replace(tzinfo=JST).astimezone(UTC)`
unfoldable pub from_jst : Date × Clock → Parsed
unfolding clock_offset
from_jst (d, c) =
    let s = days_of d * 86400 + seconds_of c in
    let offset = clock_offset s in
    if ltb s offset
    then overflow
    else parsed (pos (s * 1000000) -ℤ pos ((epoch + offset) * 1000000))

-- `YAHOO_DATETIME_FORMATS`.
abbrev pub minute_format : List Piece
minute_format =
    year_group
    ∷ literal b'-'
    ∷ month_group
    ∷ literal b'-'
    ∷ day_group
    ∷ spaces
    ∷ hour_group
    ∷ literal b':'
    ∷ minute_group
    ∷ []

abbrev pub yahoo_datetime_formats : List (List Piece)
yahoo_datetime_formats = (minute_format ++ literal b':' ∷ second_group ∷ []) ∷ minute_format ∷ []

-- The loop over the formats, on the stripped text.
unfoldable pub parse_formats : (ℕ → Option ℕ) → List (List Piece) → Text → Parsed
parse_formats digit_of [] s = parse_error
parse_formats digit_of (format ∷ formats) s = elim (strptime digit_of format s) [
  | none ↦ parse_formats digit_of formats s
  | some naive_time ↦ from_jst naive_time
]

unfoldable pub parse_yahoo_datetime : (ℕ → Option ℕ) → Text → Parsed
parse_yahoo_datetime digit_of value = parse_formats digit_of yahoo_datetime_formats (strip value)
