-- ===== src/Prelude/Calendar/Dates.antt =====
-- Dates that there are, and their day numbers.
use aucnotif.Prelude.{
  ℕ, zero, suc, ◌+◌, ◌-◌, ◌≤◌, ◌<◌, ◌≡◌, refl, sym, ap, ◌∙◌, Bool, true, false, List, [], ◌∷◌,
  arith, ltb, ltb→lt, inl, inr, Bool-cases,
}
use aucnotif.Prelude.Calendar.{
  Date, is_leap, months, days_before_year, days_before_month, days_of, month_at, date_of, dated,
}
use aucnotif.Prelude.Calendar.Days.{length_of, month_at-days, day_lem, last_day_lem}

-- A date that Python's `datetime` takes, but for its last year.
pub record IsDate (d : Date) : Type 0 where
  pub year_from : 1 ≤ d.year
  pub month_from : 1 ≤ d.month
  pub month_to : d.month ≤ 12
  pub day_from : 1 ≤ d.day
  pub day_to : d.day ≤ length_of (months (is_leap d.year)) (d.month - 1)

abbrev total : List ℕ → ℕ
total [] = 0
total (l ∷ ls) = l + total ls

within : (ls : List ℕ) (i n : ℕ) → n < length_of ls i → days_before_month ls i + n < total ls
within [] i n h = absurd (omega arith)
within (l ∷ ls) zero n h = omega arith
within (l ∷ ls) (suc i) n h = omega (arith, within ls i n h)

-- Days since the first of January.
abbrev day_of_year : Date → ℕ
day_of_year d = days_before_month (months (is_leap d.year)) (d.month - 1) + (d.day - 1)

module _ (d : Date) (h : IsDate d) where
  day_within : d.day - 1 < length_of (months (is_leap d.year)) (d.month - 1)
  day_within = omega (arith, h.day_from, h.day_to)

  next_year : suc (d.year - 1) ≡ d.year
  next_year = omega (arith, h.year_from)

  -- The month and the day of the day of the year.
  month_found : month_at (months (is_leap d.year)) 1 (day_of_year d) ≡ (d.month, d.day)
  month_found =
      month_at-days (months (is_leap d.year)) 1 (d.month - 1) (d.day - 1) day_within
      ∙ both (1 + (d.month - 1)) d.month (suc (d.day - 1)) d.day (omega (arith, h.month_from))
          (omega (arith, h.day_from))
    where
      both : (a b c e : ℕ) → a ≡ b → c ≡ e → Path (ℕ × ℕ) (a, c) (b, e)
      both a b c e p q = cc

  days_split : days_of d ≡ days_before_year (d.year - 1) + day_of_year d
  unfolding days_of
  days_split = omega arith

  ends_leap : (b : Bool) (n : ℕ) → n < total (months b) → ltb n 365 ≡ false → (b ≡ true) × (n ≡ 365)
  ends_leap true n k e = (refl, ground arith)
  ends_leap false n k e = absurd (ground arith)

  pub date_of-days_of : date_of (days_of d) ≡ d
  date_of-days_of = elim (Bool-cases (ltb (day_of_year d) 365)) [
    | inl early ↦
        ap date_of days_split
        ∙ day_lem (d.year - 1) (day_of_year d) (ltb→lt (day_of_year d) 365 early)
        ∙ ap (λ y. dated y (month_at (months (is_leap y)) 1 (day_of_year d))) next_year
        ∙ ap (dated d.year) month_found
    | inr late ↦
        let (leap, last) =
          ends_leap (is_leap d.year) (day_of_year d)
            (within (months (is_leap d.year)) (d.month - 1) (d.day - 1) day_within) late in
        ap date_of (days_split ∙ ap (λ n. days_before_year (d.year - 1) + n) last)
        ∙ last_day_lem (d.year - 1) (ap is_leap next_year ∙ leap)
        ∙ ap (λ y. dated y (12, 31)) next_year
        ∙ ap (dated d.year) (last_month leap last)
  ]
    where
      last_month :
          is_leap d.year ≡ true → day_of_year d ≡ 365 → Path (ℕ × ℕ) (12, 31) (d.month, d.day)
      last_month leap last =
          sym (ap (λ b. month_at (months b) 1 365) leap)
          ∙ ap (month_at (months (is_leap d.year)) 1) (sym last)
          ∙ month_found
