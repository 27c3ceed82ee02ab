-- ===== src/Tests/Bot.antt =====
-- Messages and buttons of the user of the test data.
use aucnotif.Prelude.{
  inl, ℕ, ◌-◌, ◌≤◌, ◌≡◌, refl, sym, Bool, true, false, Option, none, some, List, if◌then◌else◌, [],
  ◌∷◌,
}
use aucnotif.Prelude.Int.{pos}
use aucnotif.Prelude.Lists.{length}
use aucnotif.Prelude.Text.{Text, codes}
use aucnotif.Prelude.Decimal.{is_digit}
use aucnotif.Services.Auctions.{get_watch_item}
use aucnotif.Bot.Keyboards.{InlineKeyboardMarkup}
use aucnotif.Bot.Cards.{item_data, page_data}
use aucnotif.Bot.Pages.{total_pages, page_items}
use aucnotif.Bot.Pages.Covers.{shown, pages_cover}
use aucnotif.Bot.Replies.{Fsm, cleared, fails}
use aucnotif.Bot.Messages.{label_of}
use aucnotif.Bot.Callbacks.{open_auction, mute_auction, delete_auction, list_page}
use aucnotif.Bot.Dispatch.{handle_callback}
use aucnotif.Bot.Dispatch.Buttons.{pressed_buttons}
use aucnotif.Bot.Callbacks.Raises.{card_raises}
use aucnotif.Bot.Dispatch.Conversation.{
  IsSound, Update, writes, presses, converse, converse-IsSound,
}
use aucnotif.Database.{empty}
use aucnotif.Providers.{Fetched, fetched}
use aucnotif.Tests.Data.{url, seen_at}
use aucnotif.Repositories.Users
use aucnotif.Repositories.Auctions
use aucnotif.Repositories.UserAuctions
use aucnotif.Tests.Data.{settings, database, link, auction, end}

abbrev eleven : List ℕ
eleven = 1 ∷ 2 ∷ 3 ∷ 4 ∷ 5 ∷ 6 ∷ 7 ∷ 8 ∷ 9 ∷ 10 ∷ 11 ∷ []

pages_cover_example :
    (shown (total_pages (length eleven)) 1 eleven ≡ eleven) × (length (page_items 2 eleven) ≤ 9)
pages_cover_example = pages_cover 2 eleven

abbrev accepts_all : Text → InlineKeyboardMarkup → Bool
accepts_all text kb = true

abbrev ascii_digit : ℕ → Option ℕ
ascii_digit c = if is_digit c then some (c - 48) else none

ascii : (c : ℕ) → is_digit c ≡ true → ascii_digit c ≡ some (c - 48)
ascii c h = rw h refl

abbrev naming : Fsm
naming = record { waiting_for_name = true; external_id = some (codes "x1") }

pressed_buttons_example :
    let press = λ (pressed : Text).
      handle_callback accepts_all ascii_digit settings (pos 5) 42 pressed naming database in
    (press (item_data (codes "auction") (codes "x1") (pos 12))
      ≡ open_auction accepts_all (pos 5) 42 (codes "x1") (pos 12) naming database)
    × ((press (item_data (codes "mute") (codes "x1") (pos 12))
          ≡ mute_auction accepts_all (pos 5) 42 (codes "x1") (pos 12) naming database)
        × ((press (item_data (codes "del") (codes "x1") (pos 12))
              ≡ delete_auction accepts_all settings
                  (pos 5)
                  42
                  (codes "x1")
                  (pos 12)
                  naming
                  database)
            × (press (page_data (pos 12)) ≡ list_page accepts_all 42 (pos 12) naming database)))
pressed_buttons_example =
    pressed_buttons accepts_all ascii_digit ascii settings (pos 5) 42 (codes "x1") 12 naming
      database (refl, (refl, tt))

-- What the label comes to.
trimmed : label_of (some (codes " my camera ")) ≡ some (codes "my camera")
unfolding label_of aucnotif.Prelude.Text.strip
trimmed = refl

item : get_watch_item 42 (codes "x1") database ≡ some (link, auction)
unfolding get_watch_item aucnotif.Services.Auctions.find Users.get_by_telegram_id
    Auctions.get_by_external_id UserAuctions.get
item = refl

card_raises_example :
    open_auction accepts_all (pos 5) 42 (codes "x1") (pos 1) naming database ≡ fails naming database
card_raises_example =
    card_raises accepts_all (pos 5) 42 (codes "x1") (pos 1) end naming database link auction item
      refl refl

abbrev online : Text → Fetched
online page = fetched (seen_at 100 (pos 10) (some end)) none

abbrev no_commands : Text → Option Text
no_commands text = none

abbrev updates : List Update
updates =
    writes (some url) none (pos 10) online empty
    ∷ presses (codes "menu:list") (pos 20) database
    ∷ []

converse-IsSound_example :
    IsSound (converse accepts_all no_commands ascii_digit settings 42 updates cleared)
converse-IsSound_example =
    converse-IsSound accepts_all no_commands ascii_digit settings 42 updates cleared (inl refl)
