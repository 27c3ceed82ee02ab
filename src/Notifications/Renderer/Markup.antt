-- ===== src/Notifications/Renderer/Markup.antt =====
-- Nothing that a user or Yahoo writes becomes markup in a notification.
pub mod Pieces
pub mod Lines
use aucnotif.Prelude.{
  ℕ, zero, suc, ◌/◌, ◌%◌, ◌<◌, ◌≡◌, refl, sym, ap, ◌∙◌, Bool, true, false, not, ◌||◌, ◌&&◌, Option,
  none, some, List, [], ◌∷◌, ◌++◌, ◌==◌, arith, ltb, leb, if◌then◌else◌, Bool-cases, Option-cases,
  inl, inr, some_inv, none≢some, opt_eq,
}
use aucnotif.Prelude.Int.{ℤ, pos, negsuc, eq_ℤ, ltb_ℤ, ◌-ℤ◌, pos_part}
use aucnotif.Prelude.Lists.{All, All-append, All-imply}
use aucnotif.Prelude.Text.{Text, codes}
use aucnotif.Prelude.Decimal.{
  decimal, decimal_ℤ, grouped, grouped_ℤ, is_digit, decimal-IsWritten, grouped-IsWritten, IsNumeral,
}
use aucnotif.Times.{Instant}
use aucnotif.Domain.Diff.{truthy}
use aucnotif.Domain.Time.{format_remaining, format_price, remaining_text, remaining_parts}
use aucnotif.Domain.AuctionState.{AuctionState}
use aucnotif.Domain.Notifications.{
  NotificationDecision, NotificationKind, t_30m, t_15m, t_5m, change, extension, closed,
}
use aucnotif.Notifications.Renderer.{
  escape_char, escape, join_lines, link, title_of, or_else, render, render_kind, header,
  render_closed, render_extension, render_change, changed_lines, changed_end, price_line, bids_line,
  left_line, was_and_is, previous_end, changed_price, changed_bids, shown,
}
use aucnotif.Notifications.Renderer.Markup.Pieces.{
  Plain, markup, all_plain, plain, after, append-Plain, plain_then, escape-Plain, integer-Plain,
  price-Plain, remaining-Plain,
}
use aucnotif.Notifications.Renderer.Markup.Lines.{
  link_markup, Good, base, line, lines_before, title-Plain, price_line-Plain, bids_line-Plain,
  left_line-Plain,
}

header-markup :
    (head title : Text) (state : AuctionState) (url : Text) (now : Instant)
    → all_plain head ≡ true
    → Plain title
    → markup (header head title state url now) ≡ link_markup
unfolding header all_plain
header-markup head title state url now h t =
    (line head _ (plain head h) (
      line [] _ tt (
        line (codes "🎮 " ++ title) _ (after (codes "🎮 ") title refl t) (
          lines_before (price_line (codes "💴 Текущая ставка: ") state.current_price) _
            (price_line-Plain (codes "💴 Текущая ставка: ") state.current_price refl)
            (lines_before (bids_line state.bid_count) _ (bids_line-Plain state.bid_count) (
              lines_before (left_line now state.end_time) _ (left_line-Plain now state.end_time)
                (base url))))))).linked

closed-markup :
    (title : Text) (current : AuctionState) (url : Text)
    → Plain title
    → markup (render_closed title current url) ≡ link_markup
unfolding render_closed all_plain
closed-markup title current url t =
    (line (codes "🏁 Аукцион завершён") _ (plain (codes "🏁 Аукцион завершён") refl) (
      line [] _ tt (
        line (codes "🎮 " ++ title) _ (after (codes "🎮 ") title refl t) (
          lines_before (price_line (codes "💴 Итоговая ставка: ") current.current_price) _
            (price_line-Plain (codes "💴 Итоговая ставка: ") current.current_price refl)
            (lines_before
              (if truthy current.has_winner then codes "✅ Победитель определён" ∷ [] else []) _
              (winner (truthy current.has_winner)) (base url)))))).linked
  where
    winner : (b : Bool) → All Plain (if b then codes "✅ Победитель определён" ∷ [] else [])
    winner true = (plain (codes "✅ Победитель определён") refl, tt)
    winner false = tt

was_and_is-Plain : (now : Instant) (was is : Option Instant) → All Plain (was_and_is now was is)
unfolding all_plain
was_and_is-Plain now none is = tt
was_and_is-Plain now (some was) none = tt
was_and_is-Plain now (some was) (some is) = (
  tt,
  (
    after (codes "Было: ") _ refl (remaining-Plain was now),
    (after (codes "Стало: ") _ refl (remaining-Plain is now), tt),
  ),
)

extension-markup :
    (title : Text) (previous : Option AuctionState) (current : AuctionState) (url : Text)
    (now : Instant)
    → Plain title
    → markup (render_extension title previous current url now) ≡ link_markup
unfolding render_extension all_plain
extension-markup title previous current url now t =
    (line (codes "⏰ Аукцион продлён") _ (plain (codes "⏰ Аукцион продлён") refl) (
      line [] _ tt (
        line (codes "🎮 " ++ title) _ (after (codes "🎮 ") title refl t) (
          lines_before (was_and_is now (previous_end previous) current.end_time) _
            (was_and_is-Plain now (previous_end previous) current.end_time) (base url))))).linked

if-Lines :
    (b : Bool) (xs ys : List Text) → All Plain xs → All Plain ys → All Plain (if b then xs else ys)
if-Lines true xs ys h k = h
if-Lines false xs ys h k = k

changed_price-Plain : (was is : Option ℤ) → All Plain (changed_price was is)
unfolding all_plain
changed_price-Plain was none = tt
changed_price-Plain was (some is) = if-Lines (opt_eq eq_ℤ was (some is)) [] _ tt (
  after (codes "💴 Ставка: ") _ refl (
      append-Plain (format_price was) _ (price-Plain was)
        (after (codes " → ") _ refl (price-Plain (some is)))),
  tt,
)

shown-Plain : (n : Option ℤ) → Plain (shown n)
unfolding all_plain
shown-Plain none = plain (codes "None") refl
shown-Plain (some n) = integer-Plain n

changed_bids-Plain : (was is : Option ℤ) → All Plain (changed_bids was is)
unfolding all_plain
changed_bids-Plain was none = tt
changed_bids-Plain was (some is) = if-Lines (opt_eq eq_ℤ was (some is)) [] _ tt (
  after (codes "👥 Ставок: ") _ refl (
      append-Plain (shown was) _ (shown-Plain was) (after (codes " → ") _ refl (integer-Plain is))),
  tt,
)

-- All lines that there are, are plain.
abbrev PlainIfAny : Option (List Text) → Type 0
PlainIfAny none = Unit
PlainIfAny (some lines) = All Plain lines

changed_end-Plain : (now : Instant) (was is : Option Instant) → PlainIfAny (changed_end now was is)
unfolding all_plain
changed_end-Plain now was none = tt
changed_end-Plain now none (some is) = tt
changed_end-Plain now (some was) (some is) = if-Lines (eq_ℤ was is) [] _ tt (
  after (codes "⏰ До конца: ") _ refl (
      append-Plain (format_remaining was now) _ (remaining-Plain was now)
        (after (codes " → ") _ refl (remaining-Plain is now))),
  tt,
)

changed_lines-Plain :
    (now : Instant) (previous : Option AuctionState) (current : AuctionState)
    → PlainIfAny (changed_lines now previous current)
changed_lines-Plain now none current = tt
changed_lines-Plain now (some p) current =
    go (changed_end now p.end_time current.end_time)
      (changed_end-Plain now p.end_time current.end_time)
  where
    go :
        (e : Option (List Text))
        → PlainIfAny e
        → PlainIfAny (elim e [
          | none ↦ none
          | some end_lines ↦ some (
              changed_price p.current_price current.current_price
              ++ (changed_bids p.bid_count current.bid_count ++ end_lines))
        ])
    go none h = tt
    go (some e) h =
        All-append Plain (changed_price p.current_price current.current_price) _
          (changed_price-Plain p.current_price current.current_price)
          (All-append Plain (changed_bids p.bid_count current.bid_count) e
            (changed_bids-Plain p.bid_count current.bid_count) h)

change-markup :
    (title : Text) (previous : Option AuctionState) (current : AuctionState) (url : Text)
    (now : Instant) (text : Text)
    → Plain title
    → render_change title previous current url now ≡ some text
    → markup text ≡ link_markup
unfolding render_change all_plain
change-markup title previous current url now text t h =
    go (changed_lines now previous current) (changed_lines-Plain now previous current) h
  where
    go :
        (c : Option (List Text))
        → PlainIfAny c
        → elim c [
          | none ↦ none
          | some lines ↦ some (
              join_lines (
                codes "🔴 Изменение аукциона"
                ∷ []
                ∷ (codes "🎮 " ++ title)
                ∷ []
                ∷ (lines ++ [] ∷ link url ∷ [])))
        ]
          ≡ some text
        → markup text ≡ link_markup
    go none p h = absurd (none≢some h)
    go (some lines) p h =
        sym (ap markup (some_inv h))
        ∙ (line (codes "🔴 Изменение аукциона") _ (plain (codes "🔴 Изменение аукциона") refl) (
            line [] _ tt (
              line (codes "🎮 " ++ title) _ (after (codes "🎮 ") title refl t)
                (line [] _ tt (lines_before lines _ p (base url)))))).linked

kind-markup :
    (kind : NotificationKind) (title : Text) (previous : Option AuctionState)
    (current : AuctionState) (url : Text) (now : Instant) (text : Text)
    → Plain title
    → render_kind kind title previous current url now ≡ some text
    → markup text ≡ link_markup
unfolding all_plain
kind-markup t_30m title previous current url now text t h =
    sym (ap markup (some_inv h)) ∙ header-markup _ title current url now refl t
kind-markup t_15m title previous current url now text t h =
    sym (ap markup (some_inv h)) ∙ header-markup _ title current url now refl t
kind-markup t_5m title previous current url now text t h =
    sym (ap markup (some_inv h)) ∙ header-markup _ title current url now refl t
kind-markup closed title previous current url now text t h =
    sym (ap markup (some_inv h)) ∙ closed-markup title current url t
kind-markup extension title previous current url now text t h =
    sym (ap markup (some_inv h)) ∙ extension-markup title previous current url now t
kind-markup change title previous current url now text t h =
    change-markup title previous current url now text t h

-- Whatever a label, a title or a link contains: of angle brackets and quotes, the text of a notification about a known
-- state has those of its one link and no others, so that no part of it but the link is markup.
pub render-markup :
    (decision : NotificationDecision) (url : Text) (label : Option Text) (now : Instant)
    (text : Text) (current : AuctionState)
    → decision.current ≡ some current
    → render decision url label now ≡ some text
    → markup text ≡ link_markup
unfolding render
render-markup decision url label now text current e h =
    kind-markup decision.kind (title_of current label) decision.previous current url now text
      (title-Plain current label) (rw e at h)
