-- ===== src/Notifications/Renderer/Markup/Pieces.antt =====
-- Texts of the renderer without angle brackets and quotes.
use aucnotif.Prelude.{
  ℕ, suc, ◌/◌, ◌≡◌, refl, Bool, true, false, not, ◌||◌, ◌&&◌, Option, none, some, [], ◌∷◌, ◌++◌,
  ◌==◌, arith, ltb, if◌then◌else◌,
}
use aucnotif.Prelude.Int.{ℤ, pos, negsuc, ltb_ℤ, ◌-ℤ◌, pos_part}
use aucnotif.Prelude.Lists.{All, All-append, All-imply}
use aucnotif.Prelude.Text.{Text, codes}
use aucnotif.Prelude.Decimal.{
  decimal, decimal_ℤ, grouped, grouped_ℤ, decimal-IsWritten, grouped-IsWritten, IsNumeral,
}
use aucnotif.Times.{Instant}
use aucnotif.Domain.Time.{format_remaining, format_price, remaining_text, remaining_parts}
use aucnotif.Notifications.Renderer.{escape_char, escape}

-- The angle brackets and quotes of a text, in order.
abbrev is_markup : ℕ → Bool
is_markup c = c == b'<' || (c == b'>' || (c == 34 || c == 39))

abbrev pub markup : Text → Text
markup [] = []
markup (c ∷ s) = if is_markup c then c ∷ markup s else markup s

abbrev pub Plain : Text → Type 0
Plain s = All (λ c. is_markup c ≡ false) s

pub plain_then : (s t : Text) → Plain s → markup (s ++ t) ≡ markup t
plain_then [] t h = refl
plain_then (c ∷ s) t h = rw h.0 (plain_then s t h.1)

pub append-Plain : (s t : Text) → Plain s → Plain t → Plain (s ++ t)
append-Plain s t h k = All-append (λ c. is_markup c ≡ false) s t h k

unfoldable pub all_plain : Text → Bool
all_plain [] = true
all_plain (c ∷ s) = not (is_markup c) && all_plain s

unmarked : (b c : Bool) → (not b && c) ≡ true → (b ≡ false) × (c ≡ true)
unmarked b c h = ground arith

-- A literal, by a computation.
pub plain : (s : Text) → all_plain s ≡ true → Plain s
unfolding all_plain
plain [] h = tt
plain (c ∷ s) h =
    let (first, rest) = unmarked (is_markup c) (all_plain s) h in (first, plain s rest)

pub after : (s t : Text) → all_plain s ≡ true → Plain t → Plain (s ++ t)
after s t h k = append-Plain s t (plain s h) k

pub escape-Plain : (s : Text) → Plain (escape s)
unfolding escape
escape-Plain [] = tt
escape-Plain (c ∷ s) =
    All-append (λ d. is_markup d ≡ false) (escape_char c) (escape s) (one c) (escape-Plain s)
  where
    one : (d : ℕ) → Plain (escape_char d)
    one d = ground arith

numeral-Plain : (s : Text) → All IsNumeral s → Plain s
numeral-Plain s h = All-imply IsNumeral (λ c. is_markup c ≡ false) s (λ c k. of_numeral c k) h
  where
    of_numeral : (c : ℕ) → IsNumeral c → is_markup c ≡ false
    of_numeral c k = ground arith

decimal-Plain : (n : ℕ) → Plain (decimal n)
decimal-Plain n = numeral-Plain (decimal n) (decimal-IsWritten n).0

pub integer-Plain : (n : ℤ) → Plain (decimal_ℤ n)
unfolding decimal_ℤ all_plain
integer-Plain (pos n) = decimal-Plain n
integer-Plain (negsuc n) = after (codes "-") _ refl (decimal-Plain (suc n))

grouped-Plain : (n : ℤ) → Plain (grouped_ℤ n)
unfolding grouped_ℤ all_plain
grouped-Plain (pos n) = numeral-Plain (grouped n) (grouped-IsWritten n).0
grouped-Plain (negsuc n) =
    after (codes "-") _ refl (numeral-Plain (grouped (suc n)) (grouped-IsWritten (suc n)).0)

pub price-Plain : (p : Option ℤ) → Plain (format_price p)
unfolding format_price all_plain
price-Plain none = plain (codes "—") refl
price-Plain (some n) = after (codes "¥") _ refl (grouped-Plain n)

if-Plain : (b : Bool) (s t : Text) → Plain s → Plain t → Plain (if b then s else t)
if-Plain true s t h k = h
if-Plain false s t h k = k

pub remaining-Plain : (end now : Instant) → Plain (format_remaining end now)
unfolding format_remaining remaining_text all_plain
remaining-Plain end now =
    if-Plain (ltb_ℤ (end -ℤ now) (pos 0)) (codes "завершён")
      (remaining_text (remaining_parts (pos_part (end -ℤ now) / 1000000)))
      (plain (codes "завершён") refl) (parts (remaining_parts (pos_part (end -ℤ now) / 1000000)))
  where
    parts : (p : ℕ × ℕ × ℕ) → Plain (remaining_text p)
    parts (d, h, m) =
        let hours = append-Plain (decimal h) _ (decimal-Plain h) (plain (codes " ч") refl) in
        let minutes = append-Plain (decimal m) _ (decimal-Plain m) (plain (codes " мин") refl) in
        let rest =
          if-Plain (ltb 0 h)
            (if ltb 0 m
              then decimal h ++ (codes " ч " ++ (decimal m ++ codes " мин"))
              else decimal h ++ codes " ч")
            (if ltb 0 m then decimal m ++ codes " мин" else codes "меньше минуты")
            (if-Plain (ltb 0 m) (decimal h ++ (codes " ч " ++ (decimal m ++ codes " мин")))
              (decimal h ++ codes " ч")
              (append-Plain (decimal h) _ (decimal-Plain h) (after (codes " ч ") _ refl minutes))
              hours)
            (if-Plain (ltb 0 m) (decimal m ++ codes " мин") (codes "меньше минуты") minutes
              (plain (codes "меньше минуты") refl)) in
        if-Plain (ltb 0 d) (decimal d ++ (codes " дн " ++ (decimal h ++ codes " ч")))
          (if ltb 0 h
            then (if ltb 0 m
                then decimal h ++ (codes " ч " ++ (decimal m ++ codes " мин"))
                else decimal h ++ codes " ч")
            else if ltb 0 m
            then decimal m ++ codes " мин"
            else codes "меньше минуты")
          (append-Plain (decimal d) _ (decimal-Plain d) (after (codes " дн ") _ refl hours)) rest
