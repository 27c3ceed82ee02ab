-- ===== src/Prelude/Calendar/Days.antt =====
-- Day numbers and dates are inverse to each other.
use aucnotif.Prelude.{
  ℕ, zero, suc, ◌+◌, ◌-◌, ◌*◌, ◌/◌, ◌%◌, ◌≤◌, ◌<◌, ◌≡◌, refl, sym, ap, ◌∙◌, ◌⊎◌, true, false, List,
  [], ◌∷◌, arith, ltb, ltb→lt, ◌==◌, inl, inr, Bool-cases,
}
use aucnotif.Prelude.Calendar.{
  is_leap, months, days_before_year, days_before_month, month_at, date_of, date_from, year_parts,
  dated,
}

abbrev pub length_of : List ℕ → ℕ → ℕ
length_of [] m = 0
length_of (l ∷ ls) zero = l
length_of (l ∷ ls) (suc m) = length_of ls m

not_before : (n l : ℕ) → l ≤ n → ltb n l ≡ false
not_before n l h = ground arith

before : (n l : ℕ) → n < l → ltb (0 + n) l ≡ true
before n l h = ground arith

pair_path : (a b c d : ℕ) → a ≡ b → c ≡ d → Path (ℕ × ℕ) (a, c) (b, d)
pair_path a b c d p q = cc

-- A day of the month at place `i` is found again.
pub month_at-days :
    (ls : List ℕ) (first i d : ℕ)
    → d < length_of ls i
    → month_at ls first (days_before_month ls i + d) ≡ (first + i, suc d)
month_at-days [] first i d h = absurd (omega arith)
month_at-days (l ∷ ls) first zero d h =
    rw (before d l h)
      (pair_path first (first + 0) (suc (0 + d)) (suc d) (omega arith) (omega arith))
month_at-days (l ∷ ls) first (suc i) d h =
    rw (not_before (l + days_before_month ls i + d) l (omega arith)) (
      ap (month_at ls (suc first)) (taken l (days_before_month ls i) d)
      ∙ month_at-days ls (suc first) i d h
      ∙ pair_path (suc first + i) (first + suc i) (suc d) (suc d) (omega arith) refl)
  where
    taken : (x y z : ℕ) → x + y + z - x ≡ y + z
    taken x y z = omega arith

-- The first of January of a year, in the parts of the year's number.
year-parts :
    (p : ℕ)
    → days_before_year p
      ≡ p / 400 * 146097 + p % 400 / 100 * 36524 + p % 100 / 4 * 1461 + p % 4 * 365
unfolding days_before_year
year-parts p = omega arith

parts_lem :
    (a b c e k : ℕ)
    → b < 4
    → c < 25
    → e < 4
    → k < 365
    → year_parts (a * 146097 + b * 36524 + c * 1461 + e * 365 + k) ≡ (a, b, c, e, k)
parts_lem a b c e k hb hc he hk = rw (q400, m400) (rw (q100, m100) (rw (q4, m4) (rw (q1, m1) refl)))
  where
    q400 : (a * 146097 + b * 36524 + c * 1461 + e * 365 + k) / 146097 ≡ a
    q400 = omega arith

    m400 :
        (a * 146097 + b * 36524 + c * 1461 + e * 365 + k) % 146097
        ≡ b * 36524 + c * 1461 + e * 365 + k
    m400 = omega arith

    q100 : (b * 36524 + c * 1461 + e * 365 + k) / 36524 ≡ b
    q100 = omega arith

    m100 : (b * 36524 + c * 1461 + e * 365 + k) % 36524 ≡ c * 1461 + e * 365 + k
    m100 = omega arith

    q4 : (c * 1461 + e * 365 + k) / 1461 ≡ c
    q4 = omega arith

    m4 : (c * 1461 + e * 365 + k) % 1461 ≡ e * 365 + k
    m4 = omega arith

    q1 : (e * 365 + k) / 365 ≡ e
    q1 = omega arith

    m1 : (e * 365 + k) % 365 ≡ k
    m1 = omega arith

leap_lem :
    (p : ℕ) → is_leap (suc p) ≡ true → (p % 4 ≡ 3) × ((p % 100 / 4 < 24) ⊎ (p % 400 / 100 ≡ 3))
leap_lem p h = ground arith

-- The last day of a leap year that is not the last of a cycle of 400, and of one that is.
last_of_4 :
    (a b c : ℕ)
    → b < 4
    → c < 24
    → year_parts (a * 146097 + b * 36524 + c * 1461 + 3 * 365 + 365) ≡ (a, b, c, 4, 0)
last_of_4 a b c hb hc = rw (q400, m400) (rw (q100, m100) (rw (q4, m4) refl))
  where
    q400 : (a * 146097 + b * 36524 + c * 1461 + 3 * 365 + 365) / 146097 ≡ a
    q400 = omega arith

    m400 :
        (a * 146097 + b * 36524 + c * 1461 + 3 * 365 + 365) % 146097 ≡ b * 36524 + c * 1461 + 1460
    m400 = omega arith

    q100 : (b * 36524 + c * 1461 + 1460) / 36524 ≡ b
    q100 = omega arith

    m100 : (b * 36524 + c * 1461 + 1460) % 36524 ≡ c * 1461 + 1460
    m100 = omega arith

    q4 : (c * 1461 + 1460) / 1461 ≡ c
    q4 = omega arith

    m4 : (c * 1461 + 1460) % 1461 ≡ 1460
    m4 = omega arith

last_of_400 :
    (a : ℕ) → year_parts (a * 146097 + 3 * 36524 + 24 * 1461 + 3 * 365 + 365) ≡ (a, 4, 0, 0, 0)
last_of_400 a = rw (q400, m400) refl
  where
    q400 : (a * 146097 + 3 * 36524 + 24 * 1461 + 3 * 365 + 365) / 146097 ≡ a
    q400 = omega arith

    m400 : (a * 146097 + 3 * 36524 + 24 * 1461 + 3 * 365 + 365) % 146097 ≡ 146096
    m400 = omega arith

abbrev year_of : ℕ → ℕ → ℕ → ℕ → ℕ
year_of a b c e = a * 400 + b * 100 + c * 4 + e

date_from-parts :
    (a b c e k : ℕ)
    → b < 4
    → e < 4
    → date_from (a, b, c, e, k)
      ≡ dated (suc (year_of a b c e)) (month_at (months (is_leap (suc (year_of a b c e)))) 1 k)
date_from-parts a b c e k hb he = rw (not_four e he, not_four b hb) refl
  where
    not_four : (n : ℕ) → n < 4 → (n == 4) ≡ false
    not_four n h = ground arith

date_from-last_of_400 : (a : ℕ) → date_from (a, 4, 0, 0, 0) ≡ dated (a * 400 + 400) (12, 31)
date_from-last_of_400 a = ap (λ y. dated y (12, 31)) (omega arith)

year_lem : (p : ℕ) → year_of (p / 400) (p % 400 / 100) (p % 100 / 4) (p % 4) ≡ p
year_lem p = omega arith

-- A day within a year, by the year's number and the days before.
pub day_lem :
    (p k : ℕ)
    → k < 365
    → date_of (days_before_year p + k) ≡ dated (suc p) (month_at (months (is_leap (suc p))) 1 k)
unfolding date_of
day_lem p k hk =
    ap date_from (
      ap (λ n. year_parts (n + k)) (year-parts p)
      ∙ parts_lem (p / 400) (p % 400 / 100) (p % 100 / 4) (p % 4) k (omega arith) (omega arith)
          (omega arith) hk)
    ∙ date_from-parts (p / 400) (p % 400 / 100) (p % 100 / 4) (p % 4) k (omega arith) (omega arith)
    ∙ ap (λ q. dated (suc q) (month_at (months (is_leap (suc q))) 1 k)) (year_lem p)

pub last_day_lem :
    (p : ℕ) → is_leap (suc p) ≡ true → date_of (days_before_year p + 365) ≡ dated (suc p) (12, 31)
unfolding date_of
last_day_lem p leap =
    let (third, place) = leap_lem p leap in
    let a = p / 400 in
    let b = p % 400 / 100 in
    let c = p % 100 / 4 in
    elim (Bool-cases (ltb c 24)) [
      | inl less ↦
          ap date_from
            (ap year_parts (number p third) ∙ last_of_4 a b c (omega arith) (ltb→lt c 24 less))
          ∙ ap (λ y. dated y (12, 31)) (sym (year4 p third))
      | inr last ↦
          ap date_from (ap year_parts (number400 p third place last) ∙ last_of_400 a)
          ∙ date_from-last_of_400 a
          ∙ ap (λ y. dated y (12, 31)) (sym (year400 p third place last))
    ]
  where
    number :
        (p : ℕ)
        → p % 4 ≡ 3
        → days_before_year p + 365
          ≡ p / 400 * 146097 + p % 400 / 100 * 36524 + p % 100 / 4 * 1461 + 3 * 365 + 365
    number p h = omega (arith, year-parts p)

    year4 : (p : ℕ) → p % 4 ≡ 3 → suc p ≡ year_of (p / 400) (p % 400 / 100) (p % 100 / 4) 4
    year4 p h = omega arith

    number400 :
        (p : ℕ)
        → p % 4 ≡ 3
        → (p % 100 / 4 < 24) ⊎ (p % 400 / 100 ≡ 3)
        → ltb (p % 100 / 4) 24 ≡ false
        → days_before_year p + 365 ≡ p / 400 * 146097 + 3 * 36524 + 24 * 1461 + 3 * 365 + 365
    number400 p h place last = ground (arith, year-parts p)

    year400 :
        (p : ℕ)
        → p % 4 ≡ 3
        → (p % 100 / 4 < 24) ⊎ (p % 400 / 100 ≡ 3)
        → ltb (p % 100 / 4) 24 ≡ false
        → suc p ≡ p / 400 * 400 + 400
    year400 p h place last = ground arith
