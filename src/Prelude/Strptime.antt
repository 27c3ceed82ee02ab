-- ===== src/Prelude/Strptime.antt =====
-- Python's `datetime.strptime`: the regular expression that it makes of a format, and the `datetime` of what
-- the groups match. `digit_of` is the value that Unicode gives a decimal digit.
pub mod Fields
use aucnotif.Prelude.{
  ℕ, zero, suc, ◌+◌, ◌-◌, ◌*◌, Bool, true, false, not, ◌&&◌, Option, none, some, List, [], ◌∷◌, leb,
  ltb, ◌==◌, if◌then◌else◌,
}
use aucnotif.Prelude.Text.{Text, is_space}
use aucnotif.Prelude.Calendar.{Date, Clock, is_leap, months}
use aucnotif.Prelude.Calendar.Days.{length_of}

-- `[a-b]` of ASCII digits, `\d`, and a space.
pub data Class : Type 0 where
  from_to : ℕ → ℕ → Class
  any_digit : Class
  blank : Class

-- A part of the expression: a group of alternatives, a character of the format, and `\s+` for a space.
pub data Piece : Type 0 where
  group : List (List Class) → Piece
  literal : ℕ → Piece
  spaces : Piece

-- What the groups matched, as numbers, and the rest of the text.
abbrev pub Matched : Type 0
Matched = Option (List ℕ × Text)

abbrev pub skip_space : Text → Text
skip_space [] = []
skip_space (c ∷ s) = if is_space c then skip_space s else c ∷ s

abbrev pub cons_value : ℕ → Matched → Matched → Matched
cons_value v (some (vs, rest)) otherwise = some (v ∷ vs, rest)
cons_value v none otherwise = otherwise

module _ (digit_of : ℕ → Option ℕ) where
  -- The digit's value, if there is one, of a character that the class takes.
  abbrev pub match_class : Class → ℕ → Option (Option ℕ)
  match_class (from_to a b) c =
      if leb (48 + a) c && leb c (48 + b) then some (some (c - 48)) else none
  match_class any_digit c = elim (digit_of c) [ none ↦ none | some d ↦ some (some d) ]
  match_class blank c = if c == 32 then some none else none

  abbrev pub match_classes : ℕ → List Class → Text → Option (ℕ × Text)
  match_classes value [] s = some (value, s)
  match_classes value (k ∷ ks) [] = none
  match_classes value (k ∷ ks) (c ∷ s) = elim (match_class k c) [
    | none ↦ none
    | some none ↦ match_classes value ks s
    | some (some d) ↦ match_classes (value * 10 + d) ks s
  ]

  -- The first alternative with which the rest of the expression matches.
  abbrev pub alternatives : List (List Class) → (Text → Matched) → Text → Matched
  alternatives [] rest s = none
  alternatives (a ∷ others) rest s = elim (match_classes 0 a s) [
    | none ↦ alternatives others rest s
    | some (v, after) ↦ cons_value v (rest after) (alternatives others rest s)
  ]

  abbrev pub literally : ℕ → (Text → Matched) → Text → Matched
  literally l rest [] = none
  literally l rest (c ∷ s) = if c == l then rest s else none

  -- No part of the formats that follows a space begins with one.
  abbrev pub after_spaces : (Text → Matched) → Text → Matched
  after_spaces rest [] = none
  after_spaces rest (c ∷ s) = if is_space c then rest (skip_space s) else none

  abbrev pub match_pieces : List Piece → Text → Matched
  match_pieces [] s = some ([], s)
  match_pieces (group choices ∷ ps) s = alternatives choices (match_pieces ps) s
  match_pieces (literal l ∷ ps) s = literally l (match_pieces ps) s
  match_pieces (spaces ∷ ps) s = after_spaces (match_pieces ps) s

-- `%Y`, `%m`, `%d`, `%H`, `%M`, `%S`.
abbrev pub year_group : Piece
year_group = group ((any_digit ∷ any_digit ∷ any_digit ∷ any_digit ∷ []) ∷ [])

abbrev pub month_group : Piece
month_group =
    group (
      (from_to 1 1 ∷ from_to 0 2 ∷ []) ∷ (from_to 0 0 ∷ from_to 1 9 ∷ []) ∷ (from_to 1 9 ∷ []) ∷ [])

abbrev pub day_group : Piece
day_group = group (
    (from_to 3 3 ∷ from_to 0 1 ∷ [])
    ∷ (from_to 1 2 ∷ any_digit ∷ [])
    ∷ (from_to 0 0 ∷ from_to 1 9 ∷ [])
    ∷ (from_to 1 9 ∷ [])
    ∷ (blank ∷ from_to 1 9 ∷ [])
    ∷ [])

abbrev pub hour_group : Piece
hour_group =
    group
      ((from_to 2 2 ∷ from_to 0 3 ∷ []) ∷ (from_to 0 1 ∷ any_digit ∷ []) ∷ (any_digit ∷ []) ∷ [])

abbrev pub minute_group : Piece
minute_group = group ((from_to 0 5 ∷ any_digit ∷ []) ∷ (any_digit ∷ []) ∷ [])

abbrev pub second_group : Piece
second_group =
    group
      ((from_to 6 6 ∷ from_to 0 1 ∷ []) ∷ (from_to 0 5 ∷ any_digit ∷ []) ∷ (any_digit ∷ []) ∷ [])

abbrev pub valid : Date → Clock → Bool
valid d c =
    leb 1 d.year
    && (leb d.day (length_of (months (is_leap d.year)) (d.month - 1)) && ltb c.second 60)

-- The `datetime`, which a year 0, a day that the month has not, and a leap second have not.
abbrev pub checked : Date → Clock → Option (Date × Clock)
checked d c = if valid d c then some (d, c) else none

-- A text that goes on after the format is refused; the seconds are 0 where the format has none.
abbrev pub datetime_of : Matched → Option (Date × Clock)
datetime_of (some (y ∷ mo ∷ d ∷ h ∷ mi ∷ s ∷ [], [])) =
    checked (record { year = y; month = mo; day = d })
      (record { hour = h; minute = mi; second = s })
datetime_of (some (y ∷ mo ∷ d ∷ h ∷ mi ∷ [], [])) =
    checked (record { year = y; month = mo; day = d })
      (record { hour = h; minute = mi; second = 0 })
datetime_of _ = none

-- `datetime.strptime`; `none` stands for its `ValueError`.
unfoldable pub strptime : (ℕ → Option ℕ) → List Piece → Text → Option (Date × Clock)
strptime digit_of format s = datetime_of (match_pieces digit_of format s)
