-- ===== src/Prelude/Strptime/Fields.antt =====
-- Numbers of two digits are matched by the groups of a format.
use aucnotif.Prelude.{
  ℕ, ◌+◌, ◌-◌, ◌*◌, ◌/◌, ◌%◌, ◌≤◌, ◌<◌, ◌≡◌, refl, ap, ◌∙◌, true, false, ◌&&◌, Option, none, some,
  List, [], ◌∷◌, ◌++◌, arith, leb, ltb, inl, inr, Bool-cases,
}
use aucnotif.Prelude.Text.{Text}
use aucnotif.Prelude.Decimal.{digit, is_digit, digit-is_digit}
use aucnotif.Prelude.Calendar.{two_digits}
use aucnotif.Prelude.Strptime.{
  Class, from_to, any_digit, blank, Piece, Matched, match_class, match_classes, alternatives,
  cons_value, match_pieces, year_group, month_group, day_group, hour_group, minute_group,
  second_group,
}

module _ (digit_of : ℕ → Option ℕ)
    (ascii : (c : ℕ) → is_digit c ≡ true → digit_of c ≡ some (c - 48)) where
  from_to-digit :
      (a b x : ℕ) → a ≤ x → x ≤ b → match_class digit_of (from_to a b) (digit x) ≡ some (some x)
  from_to-digit a b x low high = rw (inside a b x low high) (ap (λ n. some (some n)) (back x))
    where
      inside :
          (a b x : ℕ) → a ≤ x → x ≤ b → (leb (48 + a) (digit x) && leb (digit x) (48 + b)) ≡ true
      inside a b x low high = ground arith

      back : (x : ℕ) → digit x - 48 ≡ x
      back x = omega arith

  -- A digit outside the range.
  from_to-other :
      (a b x : ℕ)
      → (leb a x && leb x b) ≡ false
      → match_class digit_of (from_to a b) (digit x) ≡ none
  from_to-other a b x h = rw (outside a b x h) refl
    where
      outside :
          (a b x : ℕ)
          → (leb a x && leb x b) ≡ false
          → (leb (48 + a) (digit x) && leb (digit x) (48 + b)) ≡ false
      outside a b x h = ground arith

  any-digit : (x : ℕ) → x < 10 → match_class digit_of any_digit (digit x) ≡ some (some x)
  any-digit x h =
      rw (ascii (digit x) (digit-is_digit x h), match_class) (ap (λ n. some (some n)) (back x))
    where
      back : (x : ℕ) → digit x - 48 ≡ x
      back x = omega arith

  module _ (others : List (List Class)) (rest : Text → Matched) (s : Text) (vs : List ℕ)
      (end : Text) (after : rest s ≡ some (vs, end)) where
    -- An alternative of two classes that both take their digit.
    pick :
        (k j : Class) (t u n : ℕ)
        → match_class digit_of k (digit t) ≡ some (some t)
        → match_class digit_of j (digit u) ≡ some (some u)
        → t * 10 + u ≡ n
        → alternatives digit_of ((k ∷ j ∷ []) ∷ others) rest (digit t ∷ digit u ∷ s)
          ≡ some (n ∷ vs, end)
    pick k j t u n hk hj e =
        let m : match_classes digit_of 0 (k ∷ j ∷ []) (digit t ∷ digit u ∷ s)
            ≡ some ((0 * 10 + t) * 10 + u, s) =
          rw (hk, match_classes) (rw (hj, match_classes) refl) in
        rw (m, alternatives)
          (rw (after, cons_value) (ap (λ v. some (v ∷ vs, end)) (number t u n e)))
      where
        number : (t u n : ℕ) → t * 10 + u ≡ n → (0 * 10 + t) * 10 + u ≡ n
        number t u n e = omega arith

  skip :
      (k : Class) (ks : List Class) (others : List (List Class)) (rest : Text → Matched) (t : ℕ)
      (s : Text)
      → match_class digit_of k (digit t) ≡ none
      → alternatives digit_of ((k ∷ ks) ∷ others) rest (digit t ∷ s)
        ≡ alternatives digit_of others rest (digit t ∷ s)
  skip k ks others rest t s h =
      let m : match_classes digit_of 0 (k ∷ ks) (digit t ∷ s) ≡ none = rw (h, match_classes) refl in
      rw (m, alternatives) refl

  -- The group matches the two digits of `n`, if the rest of the expression matches what follows.
  abbrev pub Takes : Piece → ℕ → Type 0
  Takes p n =
      (ps : List Piece) (s : Text) (vs : List ℕ) (end : Text)
      → match_pieces digit_of ps s ≡ some (vs, end)
      → match_pieces digit_of (p ∷ ps) (two_digits n ++ s) ≡ some (n ∷ vs, end)

  tens : (n : ℕ) → n < 100 → n / 10 % 10 * 10 + n % 10 ≡ n
  tens n h = omega arith

  pub minute-Takes : (n : ℕ) → n < 60 → Takes minute_group n
  minute-Takes n h ps s vs end after =
      pick ((any_digit ∷ []) ∷ []) (match_pieces digit_of ps) s vs end after (from_to 0 5) any_digit
        (n / 10 % 10) (n % 10) n (from_to-digit 0 5 (n / 10 % 10) (omega arith) (omega arith))
        (any-digit (n % 10) (omega arith)) (tens n (omega arith))

  pub second-Takes : (n : ℕ) → n < 60 → Takes second_group n
  second-Takes n h ps s vs end after =
      skip (from_to 6 6) (from_to 0 1 ∷ []) ((from_to 0 5 ∷ any_digit ∷ []) ∷ (any_digit ∷ []) ∷ [])
        (match_pieces digit_of ps) (n / 10 % 10) (digit (n % 10) ∷ s)
        (from_to-other 6 6 (n / 10 % 10) (ground arith))
      ∙ minute-Takes n h ps s vs end after

  pub hour-Takes : (n : ℕ) → n < 24 → Takes hour_group n
  hour-Takes n h ps s vs end after = elim (Bool-cases (ltb n 20)) [
    | inl low ↦
        skip (from_to 2 2) (from_to 0 3 ∷ [])
          ((from_to 0 1 ∷ any_digit ∷ []) ∷ (any_digit ∷ []) ∷ []) (match_pieces digit_of ps)
          (n / 10 % 10) (digit (n % 10) ∷ s) (from_to-other 2 2 (n / 10 % 10) (ground arith))
        ∙ pick ((any_digit ∷ []) ∷ []) (match_pieces digit_of ps) s vs end after (from_to 0 1)
            any_digit (n / 10 % 10) (n % 10) n
            (from_to-digit 0 1 (n / 10 % 10) (omega arith) (ground arith))
            (any-digit (n % 10) (omega arith)) (tens n (omega arith))
    | inr high ↦
        pick ((from_to 0 1 ∷ any_digit ∷ []) ∷ (any_digit ∷ []) ∷ []) (match_pieces digit_of ps) s
          vs end after (from_to 2 2) (from_to 0 3) (n / 10 % 10) (n % 10) n
          (from_to-digit 2 2 (n / 10 % 10) (ground arith) (ground arith))
          (from_to-digit 0 3 (n % 10) (omega arith) (ground arith)) (tens n (omega arith))
  ]

  pub month-Takes : (n : ℕ) → 1 ≤ n → n ≤ 12 → Takes month_group n
  month-Takes n low high ps s vs end after = elim (Bool-cases (ltb n 10)) [
    | inl one ↦
        skip (from_to 1 1) (from_to 0 2 ∷ [])
          ((from_to 0 0 ∷ from_to 1 9 ∷ []) ∷ (from_to 1 9 ∷ []) ∷ []) (match_pieces digit_of ps)
          (n / 10 % 10) (digit (n % 10) ∷ s) (from_to-other 1 1 (n / 10 % 10) (ground arith))
        ∙ pick ((from_to 1 9 ∷ []) ∷ []) (match_pieces digit_of ps) s vs end after (from_to 0 0)
            (from_to 1 9) (n / 10 % 10) (n % 10) n
            (from_to-digit 0 0 (n / 10 % 10) (omega arith) (ground arith))
            (from_to-digit 1 9 (n % 10) (ground arith) (omega arith)) (tens n (omega arith))
    | inr two ↦
        pick ((from_to 0 0 ∷ from_to 1 9 ∷ []) ∷ (from_to 1 9 ∷ []) ∷ []) (match_pieces digit_of ps)
          s vs end after (from_to 1 1) (from_to 0 2) (n / 10 % 10) (n % 10) n
          (from_to-digit 1 1 (n / 10 % 10) (ground arith) (ground arith))
          (from_to-digit 0 2 (n % 10) (omega arith) (ground arith)) (tens n (omega arith))
  ]

  pub day-Takes : (n : ℕ) → 1 ≤ n → n ≤ 31 → Takes day_group n
  day-Takes n low high ps s vs end after = elim (Bool-cases (ltb n 30)) [
    | inr three ↦
        pick
          ((from_to 1 2 ∷ any_digit ∷ [])
            ∷ (from_to 0 0 ∷ from_to 1 9 ∷ [])
            ∷ (from_to 1 9 ∷ [])
            ∷ (blank ∷ from_to 1 9 ∷ [])
            ∷ [])
          (match_pieces digit_of ps) s vs end after (from_to 3 3) (from_to 0 1) (n / 10 % 10)
          (n % 10) n (from_to-digit 3 3 (n / 10 % 10) (ground arith) (ground arith))
          (from_to-digit 0 1 (n % 10) (omega arith) (ground arith)) (tens n (omega arith))
    | inl less ↦
        skip (from_to 3 3) (from_to 0 1 ∷ [])
          ((from_to 1 2 ∷ any_digit ∷ [])
            ∷ (from_to 0 0 ∷ from_to 1 9 ∷ [])
            ∷ (from_to 1 9 ∷ [])
            ∷ (blank ∷ from_to 1 9 ∷ [])
            ∷ [])
          (match_pieces digit_of ps) (n / 10 % 10) (digit (n % 10) ∷ s)
          (from_to-other 3 3 (n / 10 % 10) (ground arith))
        ∙ elim (Bool-cases (ltb n 10)) [
          | inl one ↦
              skip (from_to 1 2) (any_digit ∷ [])
                ((from_to 0 0 ∷ from_to 1 9 ∷ [])
                  ∷ (from_to 1 9 ∷ [])
                  ∷ (blank ∷ from_to 1 9 ∷ [])
                  ∷ [])
                (match_pieces digit_of ps) (n / 10 % 10) (digit (n % 10) ∷ s)
                (from_to-other 1 2 (n / 10 % 10) (ground arith))
              ∙ pick ((from_to 1 9 ∷ []) ∷ (blank ∷ from_to 1 9 ∷ []) ∷ [])
                  (match_pieces digit_of ps) s vs end after (from_to 0 0) (from_to 1 9)
                  (n / 10 % 10) (n % 10) n
                  (from_to-digit 0 0 (n / 10 % 10) (omega arith) (ground arith))
                  (from_to-digit 1 9 (n % 10) (ground arith) (omega arith)) (tens n (omega arith))
          | inr two ↦
              pick
                ((from_to 0 0 ∷ from_to 1 9 ∷ [])
                  ∷ (from_to 1 9 ∷ [])
                  ∷ (blank ∷ from_to 1 9 ∷ [])
                  ∷ [])
                (match_pieces digit_of ps) s vs end after (from_to 1 2) any_digit (n / 10 % 10)
                (n % 10) n (from_to-digit 1 2 (n / 10 % 10) (ground arith) (ground arith))
                (any-digit (n % 10) (omega arith)) (tens n (omega arith))
        ]
  ]

  pub year_lem :
      (n : ℕ) (ps : List Piece) (s : Text) (vs : List ℕ) (end : Text)
      → n < 10000
      → match_pieces digit_of ps s ≡ some (vs, end)
      → match_pieces digit_of
          (year_group ∷ ps)
          (two_digits (n / 100) ++ (two_digits (n % 100) ++ s))
        ≡ some (n ∷ vs, end)
  year_lem n ps s vs end h after =
      let m : match_classes digit_of 0 (any_digit ∷ any_digit ∷ any_digit ∷ any_digit ∷ [])
            (two_digits (n / 100) ++ (two_digits (n % 100) ++ s))
          ≡ some (
            (((0 * 10 + n / 100 / 10 % 10) * 10 + n / 100 % 10) * 10 + n % 100 / 10 % 10) * 10
                + n % 100 % 10,
            s,
          ) =
        rw (any-digit (n / 100 / 10 % 10) (omega arith), match_classes)
          (rw (any-digit (n / 100 % 10) (omega arith), match_classes)
            (rw (any-digit (n % 100 / 10 % 10) (omega arith), match_classes)
              (rw (any-digit (n % 100 % 10) (omega arith), match_classes) refl))) in
      rw (m, alternatives) (rw (after, cons_value) (ap (λ v. some (v ∷ vs, end)) (number n h)))
    where
      number :
          (n : ℕ)
          → n < 10000
          → (((0 * 10 + n / 100 / 10 % 10) * 10 + n / 100 % 10) * 10 + n % 100 / 10 % 10) * 10
              + n % 100 % 10
            ≡ n
      number n h = omega arith
