-- ===== src/Notifications/Renderer/Markup/Lines.antt =====
-- Lines of a notification, up to its link.
use aucnotif.Prelude.{◌≡◌, refl, ap, ◌∙◌, true, Option, none, some, List, [], ◌∷◌, ◌++◌}
use aucnotif.Prelude.Int.{ℤ}
use aucnotif.Prelude.Lists.{All}
use aucnotif.Prelude.Text.{Text, codes}
use aucnotif.Times.{Instant}
use aucnotif.Domain.AuctionState.{AuctionState}
use aucnotif.Notifications.Renderer.{
  escape, join_lines, link, title_of, or_else, price_line, bids_line, left_line,
}
use aucnotif.Notifications.Renderer.Markup.Pieces.{
  Plain, markup, all_plain, after, plain_then, escape-Plain, integer-Plain, price-Plain,
  remaining-Plain,
}

-- Lines that end in the link, and have no markup but that.
abbrev pub link_markup : Text
link_markup = codes "<\"\"><>"

abbrev pub IsLinked : List Text → Type 0
IsLinked [] = ⊥
IsLinked (l ∷ ls) = markup (join_lines (l ∷ ls)) ≡ link_markup

pub record Good (ls : List Text) : Type 0 where
  pub linked : IsLinked ls

link-markup : (url : Text) → markup (link url) ≡ link_markup
unfolding link
link-markup url = ap (λ s. b'<' ∷ (34 ∷ s)) (plain_then (escape url) _ (escape-Plain url))

pub base : (url : Text) → Good ([] ∷ link url ∷ [])
unfolding join_lines
base url = record { linked = link-markup url }

pub line : (l : Text) (ls : List Text) → Plain l → Good ls → Good (l ∷ ls)
unfolding join_lines
line l [] h k = absurd k.linked
line l (m ∷ ls) h k = record { linked = plain_then l (10 ∷ join_lines (m ∷ ls)) h ∙ k.linked }

pub lines_before : (front ls : List Text) → All Plain front → Good ls → Good (front ++ ls)
lines_before [] ls h k = k
lines_before (l ∷ front) ls h k = line l (front ++ ls) h.0 (lines_before front ls h.1 k)

pub title-Plain : (state : AuctionState) (label : Option Text) → Plain (title_of state label)
unfolding title_of
title-Plain state label = escape-Plain (or_else label (or_else state.title (codes "Без названия")))

pub price_line-Plain :
    (caption : Text) (p : Option ℤ) → all_plain caption ≡ true → All Plain (price_line caption p)
price_line-Plain caption none h = tt
price_line-Plain caption (some p) h = (after caption _ h (price-Plain (some p)), tt)

pub bids_line-Plain : (n : Option ℤ) → All Plain (bids_line n)
unfolding all_plain
bids_line-Plain none = tt
bids_line-Plain (some n) = (after (codes "👥 Ставок: ") _ refl (integer-Plain n), tt)

pub left_line-Plain : (now : Instant) (end : Option Instant) → All Plain (left_line now end)
unfolding all_plain
left_line-Plain now none = tt
left_line-Plain now (some e) = (after (codes "⏰ До конца: ") _ refl (remaining-Plain e now), tt)
