-- ===== src/Notifications/Renderer.antt =====
-- app/notifications/renderer.py: the texts, in Telegram's HTML mode. `now` is the time at which
-- `format_remaining` reads the clock.
pub mod Markup
pub mod Raises
use aucnotif.Prelude.{
  ℕ, Bool, true, false, not, ◌&&◌, Option, none, some, List, [], ◌∷◌, ◌++◌, ◌==◌, if◌then◌else◌,
  opt_eq,
}
use aucnotif.Prelude.Int.{ℤ, eq_ℤ}
use aucnotif.Prelude.Text.{Text, codes}
use aucnotif.Prelude.Decimal.{decimal_ℤ}
use aucnotif.Times.{Instant}
use aucnotif.Domain.AuctionState.{AuctionState}
use aucnotif.Domain.Diff.{truthy}
use aucnotif.Domain.Notifications.{
  NotificationKind, t_30m, t_15m, t_5m, change, extension, closed, NotificationDecision,
}
use aucnotif.Domain.Time.{format_price, format_remaining}

-- `html.escape` of one character, quotes included.
abbrev pub escape_char : ℕ → Text
escape_char c =
    if c == b'&'
    then codes "&amp;"
    else if c == b'<'
    then codes "&lt;"
    else if c == b'>'
    then codes "&gt;"
    else if c == 34
    then codes "&quot;"
    else if c == 39
    then codes "&#x27;"
    else c ∷ []

unfoldable pub escape : Text → Text
escape [] = []
escape (c ∷ s) = escape_char c ++ escape s

-- `a or b` of two optional texts: an empty text counts as none.
abbrev pub or_else : Option Text → Text → Text
or_else none b = b
or_else (some []) b = b
or_else (some (c ∷ s)) b = c ∷ s

-- `"\n".join(lines)`.
unfoldable pub join_lines : List Text → Text
join_lines [] = []
join_lines (l ∷ []) = l
join_lines (l ∷ m ∷ ls) = l ++ 10 ∷ join_lines (m ∷ ls)

unfoldable pub link : Text → Text
unfolding escape
link url = codes "<a href=\"" ++ (escape url ++ codes "\">Открыть аукцион</a>")

unfoldable pub title_of : AuctionState → Option Text → Text
unfolding escape
title_of state label = escape (or_else label (or_else state.title (codes "Без названия")))

-- A line that stands only where there is a value.
abbrev pub line_for {ℓ} : {A : Type ℓ} → Option A → (A → Text) → List Text
line_for none f = []
line_for (some a) f = f a ∷ []

abbrev pub price_line : Text → Option ℤ → List Text
price_line caption price = line_for price (λ p. caption ++ format_price (some p))

abbrev pub bids_line : Option ℤ → List Text
bids_line bids = line_for bids (λ n. codes "👥 Ставок: " ++ decimal_ℤ n)

abbrev pub left_line : Instant → Option Instant → List Text
left_line now end = line_for end (λ e. codes "⏰ До конца: " ++ format_remaining e now)

-- `_header`, and the body of `render_added`.
unfoldable pub header : Text → Text → AuctionState → Text → Instant → Text
unfolding join_lines link
header head title state url now = join_lines (
    head
    ∷ []
    ∷ (codes "🎮 " ++ title)
    ∷ (price_line (codes "💴 Текущая ставка: ") state.current_price
        ++ (bids_line state.bid_count ++ (left_line now state.end_time ++ [] ∷ link url ∷ []))))

unfoldable pub render_closed : Text → AuctionState → Text → Text
unfolding join_lines link
render_closed title current url = join_lines (
    codes "🏁 Аукцион завершён"
    ∷ []
    ∷ (codes "🎮 " ++ title)
    ∷ (price_line (codes "💴 Итоговая ставка: ") current.current_price
        ++ ((if truthy current.has_winner then codes "✅ Победитель определён" ∷ [] else [])
            ++ [] ∷ link url ∷ [])))

abbrev pub previous_end : Option AuctionState → Option Instant
previous_end none = none
previous_end (some previous) = previous.end_time

abbrev pub was_and_is : Instant → Option Instant → Option Instant → List Text
was_and_is now (some was) (some is) =
    []
    ∷ (codes "Было: " ++ format_remaining was now)
    ∷ (codes "Стало: " ++ format_remaining is now)
    ∷ []
was_and_is now _ _ = []

unfoldable pub render_extension : Text → Option AuctionState → AuctionState → Text → Instant → Text
unfolding join_lines link
render_extension title previous current url now = join_lines (
    codes "⏰ Аукцион продлён"
    ∷ []
    ∷ (codes "🎮 " ++ title)
    ∷ (was_and_is now (previous_end previous) current.end_time ++ [] ∷ link url ∷ []))

abbrev pub arrow : Text
arrow = codes " → "

-- `str` of an optional number.
abbrev pub shown : Option ℤ → Text
shown none = codes "None"
shown (some n) = decimal_ℤ n

abbrev pub changed_price : Option ℤ → Option ℤ → List Text
changed_price before none = []
changed_price before (some after) =
    if opt_eq eq_ℤ before (some after)
    then []
    else (codes "💴 Ставка: " ++ (format_price before ++ (arrow ++ format_price (some after)))) ∷ []

abbrev pub changed_bids : Option ℤ → Option ℤ → List Text
changed_bids before none = []
changed_bids before (some after) =
    if opt_eq eq_ℤ before (some after)
    then []
    else (codes "👥 Ставок: " ++ (shown before ++ (arrow ++ decimal_ℤ after))) ∷ []

-- `none` stands for the `TypeError` of `format_remaining(None)`.
abbrev pub changed_end : Instant → Option Instant → Option Instant → Option (List Text)
changed_end now before none = some []
changed_end now none (some after) = none
changed_end now (some before) (some after) = some (
    if eq_ℤ before after
    then []
    else (codes "⏰ До конца: "
        ++ (format_remaining before now ++ (arrow ++ format_remaining after now)))
      ∷ [])

abbrev pub changed_lines : Instant → Option AuctionState → AuctionState → Option (List Text)
changed_lines now none current = some []
changed_lines now (some previous) current =
    elim (changed_end now previous.end_time current.end_time) [
      | none ↦ none
      | some end_lines ↦ some (
          changed_price previous.current_price current.current_price
          ++ (changed_bids previous.bid_count current.bid_count ++ end_lines))
    ]

unfoldable pub render_change :
    Text → Option AuctionState → AuctionState → Text → Instant → Option Text
unfolding join_lines link
render_change title previous current url now = elim (changed_lines now previous current) [
  | none ↦ none
  | some lines ↦ some (
      join_lines (
        codes "🔴 Изменение аукциона"
        ∷ []
        ∷ (codes "🎮 " ++ title)
        ∷ []
        ∷ (lines ++ [] ∷ link url ∷ [])))
]

-- The warning sign, with the selector that makes it a picture.
abbrev pub warning : Text
warning = codes "⚠" ++ 0xfe0f ∷ []

abbrev pub render_kind :
    NotificationKind → Text → Option AuctionState → AuctionState → Text → Instant → Option Text
render_kind t_30m title previous current url now =
    some (header (codes "🔔 До окончания аукциона 30 минут") title current url now)
render_kind t_15m title previous current url now =
    some (header (codes "🔔 До окончания 15 минут") title current url now)
render_kind t_5m title previous current url now =
    some (header (warning ++ codes " До окончания аукциона 5 минут") title current url now)
render_kind closed title previous current url now = some (render_closed title current url)
render_kind extension title previous current url now =
    some (render_extension title previous current url now)
render_kind change title previous current url now = render_change title previous current url now

-- `none` stands for the `TypeError` that a change from an unknown to a known end time raises.
unfoldable pub render : NotificationDecision → Text → Option Text → Instant → Option Text
render decision url label now = elim decision.current [
  | none ↦ some (codes "Аукцион недоступен.")
  | some current ↦
      render_kind decision.kind (title_of current label) decision.previous current url now
]

unfoldable pub render_added : AuctionState → Text → Instant → Text
render_added state url now = header (codes "✅ Аукцион добавлен") (title_of state none) state url now
