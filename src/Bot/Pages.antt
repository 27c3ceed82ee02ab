-- ===== src/Bot/Pages.antt =====
-- app/bot/handlers.py: the list of a user's auctions, in pages.
pub mod Covers
use aucnotif.Prelude.{
  ℕ, suc, ◌+◌, ◌-◌, ◌*◌, ◌/◌, min, max, Option, none, some, List, [], ◌∷◌, ◌++◌, map, ltb,
  if◌then◌else◌,
}
use aucnotif.Prelude.Int.{ℤ, pos, pos_part}
use aucnotif.Prelude.Lists.{length, take, drop}
use aucnotif.Prelude.Text.{Text, codes}
use aucnotif.Prelude.Decimal.{decimal}
use aucnotif.Models.{User, Auction, UserAuction}
use aucnotif.Database.{Database}
use aucnotif.Services.Auctions
use aucnotif.Bot.Keyboards.{
  InlineKeyboardButton, InlineKeyboardMarkup, button, callback_data, menu_back_button,
}
use aucnotif.Bot.Texts.{list_header_text, picture}
use aucnotif.Bot.Cards.{card_title, item_data, page_data}

abbrev pub page_size : ℕ
page_size = 9

-- `max(1, math.ceil(count / PAGE_SIZE))`
unfoldable pub total_pages : ℕ → ℕ
total_pages count = max 1 ((count + (page_size - 1)) / page_size)

-- `max(1, min(page, total))`: at most 0 counts as 0 before the maximum.
unfoldable pub clamp_page : ℤ → ℕ → ℕ
clamp_page page total = max 1 (min (pos_part page) total)

-- The slice of `page`, which is not 0.
unfoldable pub page_items {ℓ} : {A : Type ℓ} → ℕ → List A → List A
page_items page items = take page_size (drop ((page - 1) * page_size) items)

abbrev pub item_row : ℕ → UserAuction × Auction → List InlineKeyboardButton
item_row page (link, auction) =
    button (card_title link auction)
      (callback_data (item_data (codes "auction") auction.external_id (pos page)))
    ∷ []

abbrev page_button : Text → ℕ → InlineKeyboardButton
page_button arrow page = button (picture arrow) (callback_data (page_data (pos page)))

abbrev counter : ℕ → ℕ → InlineKeyboardButton
counter page total =
    button (decimal page ++ (codes "/" ++ decimal total)) (callback_data (codes "noop"))

unfoldable pub nav : ℕ → ℕ → List InlineKeyboardButton
unfolding item_data page_data
nav page total =
    (if ltb 1 total
      then (if ltb 1 page then page_button (codes "⬅") (page - 1) ∷ [] else [])
        ++ (counter page total
            ∷ (if ltb page total then page_button (codes "➡") (page + 1) ∷ [] else []))
      else [])
    ++ menu_back_button ∷ []

unfoldable pub list_kb : ℕ → List (UserAuction × Auction) → InlineKeyboardMarkup
unfolding total_pages page_items nav
list_kb page items =
    map (item_row page) (page_items page items) ++ nav page (total_pages (length items)) ∷ []

-- `none` where there is nothing to show.
abbrev content_of :
    ℤ → Option (User × List (UserAuction × Auction)) → Option (Text × InlineKeyboardMarkup)
content_of page none = none
content_of page (some (user, [])) = none
content_of page (some (user, item ∷ items)) = some (
  list_header_text,
  list_kb (clamp_page page (total_pages (length (item ∷ items)))) (item ∷ items),
)

unfoldable pub list_content : ℕ → ℤ → Database → Option (Text × InlineKeyboardMarkup)
unfolding clamp_page total_pages list_kb
list_content telegram_id page db = content_of page (Auctions.list_for_user telegram_id db)
