-- ===== src/Prelude/Decimal.antt =====
-- Python's decimal texts of whole numbers: `str(n)` and `f"{n:,}"`.
use aucnotif.Prelude.{
  false, ◌≤◌, ap, ◌∙◌, Bool, true, leb, ◌&&◌, ◌||◌, ℕ, zero, suc, ◌+◌, ◌-◌, ◌*◌, ◌/◌, ◌%◌, ◌<◌, ◌≡◌,
  refl, [], ◌∷◌, ◌++◌, arith, if◌then◌else◌, ltb, ◌==◌, inl, inr, Bool-cases,
}
use aucnotif.Prelude.Lists.{All, All-append}
use aucnotif.Prelude.Int.{ℤ, pos, negsuc}
use aucnotif.Prelude.Text.{Text, codes}

abbrev pub digit : ℕ → ℕ
digit d = 48 + d

-- The digits of `n`, most significant first. A call divides by ten, so `suc n` rounds are enough.
decimal_on : ℕ → ℕ → Text
decimal_on zero n = []
decimal_on (suc fuel) n =
    let front = decimal_on fuel (n / 10) in
    if ltb n 10 then digit n ∷ [] else front ++ digit (n % 10) ∷ []

unfoldable pub decimal : ℕ → Text
unfolding decimal_on
decimal n = decimal_on (suc n) n

-- `str` of an `int`.
unfoldable pub decimal_ℤ : ℤ → Text
unfolding decimal
decimal_ℤ (pos n) = decimal n
decimal_ℤ (negsuc n) = codes "-" ++ decimal (suc n)

-- Groups of three digits with a comma between two groups.
grouped_on : ℕ → ℕ → Text
grouped_on zero n = []
grouped_on (suc fuel) n =
    let front = grouped_on fuel (n / 1000) in
    if ltb n 1000
    then decimal n
    else front ++ b',' ∷ digit (n % 1000 / 100) ∷ digit (n % 100 / 10) ∷ digit (n % 10) ∷ []

unfoldable pub grouped : ℕ → Text
unfolding grouped_on decimal
grouped n = grouped_on (suc n) n

-- `f"{n:,}"`.
unfoldable pub grouped_ℤ : ℤ → Text
unfolding grouped
grouped_ℤ (pos n) = grouped n
grouped_ℤ (negsuc n) = codes "-" ++ grouped (suc n)

-- The number that digits stand for, read from the left; a comma is passed over.
abbrev pub value_from : ℕ → Text → ℕ
value_from acc [] = acc
value_from acc (c ∷ s) = value_from (if c == b',' then acc else acc * 10 + (c - 48)) s

pub value_from-append :
    (acc : ℕ) (s t : Text) → value_from acc (s ++ t) ≡ value_from (value_from acc s) t
value_from-append acc [] t = refl
value_from-append acc (c ∷ s) t =
    value_from-append (if c == b',' then acc else acc * 10 + (c - 48)) s t

value_from-decimal_on : (fuel n : ℕ) → n < fuel → value_from 0 (decimal_on fuel n) ≡ n
unfolding decimal_on
value_from-decimal_on zero n h = absurd (omega arith)
value_from-decimal_on (suc fuel) n h = elim (Bool-cases (ltb n 10)) [
  | inl small ↦ rw small (ground arith)
  | inr large ↦ rw large (
      rw (value_from-append 0 (decimal_on fuel (n / 10)) (digit (n % 10) ∷ []))
        (rw (value_from-decimal_on fuel (n / 10) (ground arith)) (ground arith)))
]

-- Reading the digits of a number gives the number back.
pub value-decimal : (n : ℕ) → value_from 0 (decimal n) ≡ n
unfolding decimal
value-decimal n = value_from-decimal_on (suc n) n (omega arith)

value_from-grouped_on : (fuel n : ℕ) → n < fuel → value_from 0 (grouped_on fuel n) ≡ n
unfolding grouped_on
value_from-grouped_on zero n h = absurd (omega arith)
value_from-grouped_on (suc fuel) n h = elim (Bool-cases (ltb n 1000)) [
  | inl small ↦ rw small (value-decimal n)
  | inr large ↦ rw large (
      rw
        (value_from-append 0 (grouped_on fuel (n / 1000))
          (b',' ∷ digit (n % 1000 / 100) ∷ digit (n % 100 / 10) ∷ digit (n % 10) ∷ []))
        (rw (value_from-grouped_on fuel (n / 1000) (ground arith)) (ground arith)))
]

-- So does reading them between commas.
pub value-grouped : (n : ℕ) → value_from 0 (grouped n) ≡ n
unfolding grouped
value-grouped n = value_from-grouped_on (suc n) n (omega arith)

abbrev pub is_digit : ℕ → Bool
is_digit c = leb 48 c && leb c 57

-- A digit or a comma.
abbrev pub IsNumeral : ℕ → Type 0
IsNumeral c = (is_digit c || c == b',') ≡ true

abbrev pub StartsWithDigit : Text → Type 0
StartsWithDigit [] = ⊥
StartsWithDigit (c ∷ s) = is_digit c ≡ true

StartsWithDigit-append : (s t : Text) → StartsWithDigit s → StartsWithDigit (s ++ t)
StartsWithDigit-append [] t h = absurd h
StartsWithDigit-append (c ∷ s) t h = h

-- A text of digits and commas that starts with a digit.
abbrev pub IsWritten : Text → Type 0
IsWritten s = All IsNumeral s × StartsWithDigit s

digit-IsNumeral : (d : ℕ) → d < 10 → IsNumeral (digit d)
digit-IsNumeral d h = ground arith

decimal_on-IsWritten : (fuel n : ℕ) → n < fuel → IsWritten (decimal_on fuel n)
unfolding decimal_on
decimal_on-IsWritten zero n h = absurd (omega arith)
decimal_on-IsWritten (suc fuel) n h = elim (Bool-cases (ltb n 10)) [
  | inl small ↦ rw small ((ground arith, tt), ground arith)
  | inr large ↦
      let (all, first) = decimal_on-IsWritten fuel (n / 10) (ground arith) in
      rw large (
        All-append IsNumeral (decimal_on fuel (n / 10)) (digit (n % 10) ∷ []) all
            (digit-IsNumeral (n % 10) (omega arith), tt),
        StartsWithDigit-append (decimal_on fuel (n / 10)) (digit (n % 10) ∷ []) first,
      )
]

pub digit-is_digit : (d : ℕ) → d < 10 → is_digit (digit d) ≡ true
digit-is_digit d h = ground arith

decimal_on-digits : (fuel n : ℕ) → n < fuel → All (λ c. is_digit c ≡ true) (decimal_on fuel n)
unfolding decimal_on
decimal_on-digits zero n h = absurd (omega arith)
decimal_on-digits (suc fuel) n h = elim (Bool-cases (ltb n 10)) [
  | inl small ↦ rw small (ground arith, tt)
  | inr large ↦ rw large (
      All-append (λ c. is_digit c ≡ true) (decimal_on fuel (n / 10)) (digit (n % 10) ∷ [])
        (decimal_on-digits fuel (n / 10) (ground arith))
        (digit-is_digit (n % 10) (omega arith), tt))
]

pub decimal-digits : (n : ℕ) → All (λ c. is_digit c ≡ true) (decimal n)
unfolding decimal
decimal-digits n = decimal_on-digits (suc n) n (omega arith)

pub decimal-IsWritten : (n : ℕ) → IsWritten (decimal n)
unfolding decimal
decimal-IsWritten n = decimal_on-IsWritten (suc n) n (omega arith)

grouped_on-IsWritten : (fuel n : ℕ) → n < fuel → IsWritten (grouped_on fuel n)
unfolding grouped_on decimal
grouped_on-IsWritten zero n h = absurd (omega arith)
grouped_on-IsWritten (suc fuel) n h = elim (Bool-cases (ltb n 1000)) [
  | inl small ↦ rw small (decimal_on-IsWritten (suc n) n (omega arith))
  | inr large ↦
      let (all, first) = grouped_on-IsWritten fuel (n / 1000) (ground arith) in
      let group = b',' ∷ digit (n % 1000 / 100) ∷ digit (n % 100 / 10) ∷ digit (n % 10) ∷ [] in
      rw large (
        All-append IsNumeral (grouped_on fuel (n / 1000)) group all (
          refl,
          (
            digit-IsNumeral (n % 1000 / 100) (omega arith),
            (
              digit-IsNumeral (n % 100 / 10) (omega arith),
              (digit-IsNumeral (n % 10) (omega arith), tt),
            ),
          ),
        ),
        StartsWithDigit-append (grouped_on fuel (n / 1000)) group first,
      )
]

pub grouped-IsWritten : (n : ℕ) → IsWritten (grouped n)
unfolding grouped
grouped-IsWritten n = grouped_on-IsWritten (suc n) n (omega arith)

decimal_on-step :
    (fuel n : ℕ)
    → 10 ≤ n
    → decimal_on (suc fuel) n ≡ decimal_on fuel (n / 10) ++ digit (n % 10) ∷ []
unfolding decimal_on
decimal_on-step fuel n h = rw (large n h) refl
  where
    large : (m : ℕ) → 10 ≤ m → ltb m 10 ≡ false
    large m k = ground arith

decimal_on-last : (fuel n : ℕ) → n < 10 → decimal_on (suc fuel) n ≡ digit n ∷ []
unfolding decimal_on
decimal_on-last fuel n h = rw (small n h) refl
  where
    small : (m : ℕ) → m < 10 → ltb m 10 ≡ true
    small m k = ground arith

four_path :
    (a b c d e f g h : ℕ)
    → a ≡ e
    → b ≡ f
    → c ≡ g
    → d ≡ h
    → Path Text (a ∷ b ∷ c ∷ d ∷ []) (e ∷ f ∷ g ∷ h ∷ [])
four_path a b c d e f g h p q r s = cc

decimal_on-four :
    (fuel n : ℕ)
    → 1000 ≤ n
    → n < 10000
    → decimal_on (suc (suc (suc (suc fuel)))) n
      ≡ digit (n / 100 / 10 % 10)
        ∷ digit (n / 100 % 10)
        ∷ digit (n % 100 / 10 % 10)
        ∷ digit (n % 100 % 10)
        ∷ []
decimal_on-four fuel n from to =
    decimal_on-step (suc (suc (suc fuel))) n (omega (arith, from))
    ∙ ap (λ s. s ++ digit (n % 10) ∷ [])
        (decimal_on-step (suc (suc fuel)) (n / 10) (omega (arith, from))
          ∙ ap (λ s. s ++ digit (n / 10 % 10) ∷ [])
              (decimal_on-step (suc fuel) (n / 10 / 10) (omega (arith, from))
                ∙ ap (λ s. s ++ digit (n / 10 / 10 % 10) ∷ [])
                    (decimal_on-last fuel (n / 10 / 10 / 10) (omega (arith, to)))))
    ∙ four_path _ _ _ _ _ _ _ _ (omega (arith, from, to)) (omega arith) (omega arith) (omega arith)

-- A number of four digits.
pub decimal_four :
    (n : ℕ)
    → 1000 ≤ n
    → n < 10000
    → decimal n
      ≡ digit (n / 100 / 10 % 10)
        ∷ digit (n / 100 % 10)
        ∷ digit (n % 100 / 10 % 10)
        ∷ digit (n % 100 % 10)
        ∷ []
unfolding decimal
decimal_four n from to =
    let fuel : suc n ≡ suc (suc (suc (suc (n - 3)))) = omega (arith, from) in
    ap (λ f. decimal_on f n) fuel ∙ decimal_on-four (n - 3) n from to

tests :
    (grouped_ℤ (pos 1234567) ≡ codes "1,234,567")
    × (grouped_ℤ (negsuc 1004) ≡ codes "-1,005")
    × (decimal 0 ≡ codes "0")
unfolding grouped_ℤ
tests = (refl, refl, refl)
