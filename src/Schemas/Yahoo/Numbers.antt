-- ===== src/Schemas/Yahoo/Numbers.antt =====
-- Reading numbers that are written with commas.
use aucnotif.Prelude.{
  ℕ, ◌+◌, ◌*◌, ◌-◌, ◌≡◌, refl, sym, ap, ◌∙◌, true, false, Option, some, [], ◌∷◌, arith, ◌==◌, inl,
  inr, Bool-cases,
}
use aucnotif.Prelude.Int.{pos}
use aucnotif.Prelude.Lists.{All, All-delete_where, delete_where}
use aucnotif.Prelude.Text.{Text, strip_lem, NoSpace, is_space}
use aucnotif.Prelude.Decimal.{
  decimal, decimal-digits, decimal-IsWritten, value-decimal, grouped, grouped-IsWritten, IsNumeral,
  IsWritten, is_digit, value_from, value-grouped,
}
use aucnotif.Schemas.Yahoo.{
  digits_from, piece, value, after_sign, parse_int, read_int, to_int, text,
}

no_space : (c : ℕ) → IsNumeral c → is_space c ≡ false
no_space c h = ground arith

numeral-NoSpace : (s : Text) → All IsNumeral s → NoSpace s
numeral-NoSpace [] h = tt
numeral-NoSpace (c ∷ s) h = (no_space c h.0, numeral-NoSpace s h.1)

abbrev uncommaed : Text → Text
uncommaed s = delete_where (λ c. c == b',') s

All-uncommaed : (s : Text) → All IsNumeral s → All IsNumeral (uncommaed s)
All-uncommaed s h = All-delete_where IsNumeral (λ c. c == b',') s h

not_comma : (c : ℕ) → IsNumeral c → (c == b',') ≡ false → is_digit c ≡ true
not_comma c h k = ground arith

uncommaed_lem : (s : Text) → All (λ c. is_digit c ≡ true) s → uncommaed s ≡ s
uncommaed_lem [] h = refl
uncommaed_lem (c ∷ s) h = rw (no_comma c h.0, uncommaed_lem s h.1) refl
  where
    no_comma : (d : ℕ) → is_digit d ≡ true → (d == b',') ≡ false
    no_comma d k = ground arith

module _ (digit_of : ℕ → Option ℕ)
    (ascii : (c : ℕ) → is_digit c ≡ true → digit_of c ≡ some (c - 48)) where
  piece-digit : (c : ℕ) → is_digit c ≡ true → piece digit_of c ≡ value (c - 48)
  unfolding piece
  piece-digit c h = rw (not_underscore c h) (rw (ascii c h) refl)
    where
      not_underscore : (d : ℕ) → is_digit d ≡ true → (d == b'_') ≡ false
      not_underscore d k = ground arith

  digits_from-uncommaed :
      (acc : ℕ) (s : Text)
      → All IsNumeral s
      → digits_from digit_of acc true (uncommaed s) ≡ some (value_from acc s)
  digits_from-uncommaed acc [] h = refl
  digits_from-uncommaed acc (c ∷ s) h = elim (Bool-cases (c == b',')) [
    | inl e ↦ rw e (digits_from-uncommaed acc s h.1)
    | inr e ↦ rw e (
        rw (piece-digit c (not_comma c h.0 e), digits_from)
          (digits_from-uncommaed (acc * 10 + (c - 48)) s h.1))
  ]

  -- The digits of a text that starts with one.
  digits_from-start :
      (s : Text) → IsWritten s → after_sign digit_of (uncommaed s) ≡ some (pos (value_from 0 s))
  digits_from-start [] h = absurd h.1
  digits_from-start (c ∷ s) h = rw (no_comma c h.1) (
      rw (no_minus c h.1) (
        rw (no_plus c h.1) (
          rw (piece-digit c h.1, digits_from)
            (rw (digits_from-uncommaed (0 * 10 + (c - 48)) s h.0.1) refl))))
    where
      no_comma : (d : ℕ) → is_digit d ≡ true → (d == b',') ≡ false
      no_comma d k = ground arith

      no_minus : (d : ℕ) → is_digit d ≡ true → (d == b'-') ≡ false
      no_minus d k = ground arith

      no_plus : (d : ℕ) → is_digit d ≡ true → (d == b'+') ≡ false
      no_plus d k = ground arith

  read_int-uncommaed :
      (s : Text)
      → IsWritten s
      → parse_int digit_of (uncommaed s) ≡ some (pos (value_from 0 s))
      → read_int digit_of (uncommaed s) ≡ some (some (pos (value_from 0 s)))
  read_int-uncommaed [] h e = absurd h.1
  read_int-uncommaed (c ∷ s) h e =
      rw (no_comma c h.1) (rw (rw (no_comma c h.1) at e, read_int) refl)
    where
      no_comma : (d : ℕ) → is_digit d ≡ true → (d == b',') ≡ false
      no_comma d k = ground arith

  -- A number written with commas, as `format_price` writes it, is read back as that number, if `int` reads
  -- the ten ASCII digits as Unicode defines them.
  pub to_int-grouped : (n : ℕ) → to_int digit_of (text (grouped n)) ≡ some (some (pos n))
  unfolding to_int
  to_int-grouped n =
      let written = grouped-IsWritten n in
      let bare = uncommaed (grouped n) in
      rw (strip_lem (grouped n) (numeral-NoSpace (grouped n) written.0)) (
        read_int-uncommaed (grouped n) written (
          unfold parse_int in
          rw (strip_lem bare (numeral-NoSpace bare (All-uncommaed (grouped n) written.0)))
            (digits_from-start (grouped n) written))
        ∙ ap (λ m. some (some (pos m))) (value-grouped n))

  -- `str` of a number that is not negative is read back by `int`.
  pub parse_int-decimal : (n : ℕ) → parse_int digit_of (decimal n) ≡ some (pos n)
  unfolding parse_int
  parse_int-decimal n =
      let written = decimal-IsWritten n in
      rw (strip_lem (decimal n) (numeral-NoSpace (decimal n) written.0)) (
        ap (after_sign digit_of) (sym (uncommaed_lem (decimal n) (decimal-digits n)))
        ∙ digits_from-start (decimal n) written
        ∙ ap (λ m. some (pos m)) (value-decimal n))
