-- ===== src/Bot/Cards.antt =====
-- app/bot/handlers.py: the text and the buttons for one auction. `now` is the time at which
-- `format_remaining` reads the clock.
use aucnotif.Prelude.{Bool, true, false, Option, none, some, List, [], ◌∷◌, ◌++◌, if◌then◌else◌}
use aucnotif.Prelude.Int.{ℤ}
use aucnotif.Prelude.Text.{Text, codes}
use aucnotif.Prelude.Decimal.{decimal_ℤ}
use aucnotif.Times.{Instant, Datetime, naive, aware}
use aucnotif.Models.{Auction, UserAuction}
use aucnotif.Domain.Time.{ensure_aware, format_price, format_remaining, jst_text}
use aucnotif.Notifications.Renderer.{join_lines, line_for, or_else}
use aucnotif.Bot.Keyboards.{InlineKeyboardMarkup, button, url, callback_data}
use aucnotif.Bot.Texts.{untitled}

abbrev format_aware : Option Instant → Option Text
format_aware none = none
format_aware (some t) = some (jst_text t)

unfoldable pub format_dt : Option Datetime → Option Text
format_dt dt = format_aware (ensure_aware dt)

-- `link.label or auction.title or "Без названия"`
abbrev pub card_title : UserAuction → Auction → Text
card_title link auction = or_else link.label (or_else auction.title untitled)

-- `none` stands for the `TypeError` of subtracting an aware time from a naive one.
abbrev pub remaining_line : Instant → Bool → Option Datetime → Option (List Text)
remaining_line now closed none = some []
remaining_line now true (some end) = some []
remaining_line now false (some (naive reading)) = none
remaining_line now false (some (aware end)) =
    some ((codes "⏰ До конца: " ++ format_remaining end now) ∷ [])

abbrev winner_line : Bool → Option Bool → List Text
winner_line true (some true) = codes "✅ Победитель определён" ∷ []
winner_line true (some false) = codes "❌ Победитель не определён" ∷ []
winner_line _ _ = []

-- The lines up to the start time, and those below the remaining time.
lines_above : UserAuction → Auction → List Text
unfolding format_dt
lines_above link auction =
    (codes "🎮 " ++ card_title link auction)
    ∷ (codes "Статус: " ++ (if auction.is_closed then codes "🏁 завершён" else codes "👀 активен"))
    ∷ []
    ∷ (line_for auction.current_price (λ p. codes "💴 Текущая ставка: " ++ format_price (some p))
        ++ (line_for auction.bid_count (λ n. codes "👥 Ставок: " ++ decimal_ℤ n)
            ++ (line_for auction.buy_now_price
                  (λ p. codes "🛒 Купить сейчас: " ++ format_price (some p))
                ++ (line_for auction.quantity (λ n. codes "📦 Количество: " ++ decimal_ℤ n)
                    ++ (line_for auction.is_store
                          (λ b. codes "🏪 Магазин: " ++ (if b then codes "да" else codes "нет"))
                        ++ line_for (format_dt auction.start_time)
                            (λ s. codes "🕐 Начало (JST): " ++ s))))))

lines_below : Auction → List Text
unfolding format_dt
lines_below auction =
    line_for (format_dt auction.end_time) (λ s. codes "🕐 Окончание (JST): " ++ s)
    ++ winner_line auction.is_closed auction.has_winner

unfoldable pub auction_text : UserAuction → Auction → Instant → Option Text
unfolding join_lines lines_above lines_below
auction_text link auction now = elim (remaining_line now auction.is_closed auction.end_time) [
  | none ↦ none
  | some remaining ↦
      some (join_lines (lines_above link auction ++ (remaining ++ lines_below auction)))
]

-- The data of a button that names an auction and the page it was shown on.
unfoldable pub item_data : Text → Text → ℤ → Text
unfolding decimal_ℤ
item_data prefix external_id page =
    prefix ++ (codes ":" ++ (external_id ++ (codes ":" ++ decimal_ℤ page)))

unfoldable pub page_data : ℤ → Text
unfolding decimal_ℤ
page_data page = codes "list:page:" ++ decimal_ℤ page

unfoldable pub submenu_kb : UserAuction → Auction → ℤ → InlineKeyboardMarkup
unfolding item_data page_data
submenu_kb link auction page =
    (button (codes "🔗 Открыть") (url auction.url) ∷ [])
    ∷ (button (if link.notifications_enabled then codes "🔕 Отключить" else codes "🔔 Включить")
          (callback_data (item_data (codes "mute") auction.external_id page))
        ∷ [])
    ∷ (button (codes "🗑 Удалить") (callback_data (item_data (codes "del") auction.external_id page))
        ∷ [])
    ∷ (button (codes "🔙 Назад") (callback_data (page_data page)) ∷ [])
    ∷ []

unfoldable pub auction_submenu :
    UserAuction → Auction → ℤ → Instant → Option (Text × InlineKeyboardMarkup)
unfolding auction_text submenu_kb
auction_submenu link auction page now = elim (auction_text link auction now) [
  | none ↦ none
  | some text ↦ some (text, submenu_kb link auction page)
]
