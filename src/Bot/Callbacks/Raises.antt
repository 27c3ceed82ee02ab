-- ===== src/Bot/Callbacks/Raises.antt =====
-- The card of an auction whose end time came back from the database without a time zone.
use aucnotif.Prelude.{ℕ, ◌≡◌, refl, ap, Bool, false, none, some, [], ◌∷◌}
use aucnotif.Prelude.Int.{ℤ}
use aucnotif.Prelude.Text.{Text}
use aucnotif.Times.{Instant, naive}
use aucnotif.Models.{Auction, UserAuction}
use aucnotif.Database.{Database}
use aucnotif.Services.Auctions.{get_watch_item}
use aucnotif.Bot.Keyboards.{InlineKeyboardMarkup}
use aucnotif.Bot.Cards.{remaining_line, auction_text, auction_submenu}
use aucnotif.Bot.Replies.{Fsm, fails, notice, shows}
use aucnotif.Bot.Callbacks.{open_auction, submenu}

no_remaining :
    (now : Instant) (reading : ℤ) (auction : Auction)
    → auction.is_closed ≡ false
    → auction.end_time ≡ some (naive reading)
    → remaining_line now auction.is_closed auction.end_time ≡ none
no_remaining now reading auction opened end = rw (opened, end) refl

no_submenu :
    (link : UserAuction) (auction : Auction) (page reading : ℤ) (now : Instant)
    → auction.is_closed ≡ false
    → auction.end_time ≡ some (naive reading)
    → auction_submenu link auction page now ≡ none
unfolding auction_submenu auction_text
no_submenu link auction page reading now opened end =
    let text : auction_text link auction now ≡ none =
      rw (no_remaining now reading auction opened end, auction_text) refl in
    rw (text, auction_submenu) refl

-- A button that opens the card of a watched auction that is open ends in an exception, with no reply at all, if
-- the auction's end time came back from the database without a time zone.
pub card_raises :
    (accepts : Text → InlineKeyboardMarkup → Bool) (now : Instant) (telegram_id : ℕ)
    (external_id : Text) (page reading : ℤ) (state : Fsm) (db : Database) (link : UserAuction)
    (auction : Auction)
    → get_watch_item telegram_id external_id db ≡ some (link, auction)
    → auction.is_closed ≡ false
    → auction.end_time ≡ some (naive reading)
    → open_auction accepts now telegram_id external_id page state db ≡ fails state db
unfolding open_auction
card_raises accepts now telegram_id external_id page reading state db link auction item opened end =
    let card : submenu accepts (link, auction) page now ≡ none =
      rw (no_submenu link auction page reading now opened end, submenu) refl in
    rw (item, open_auction) (ap (λ reply. shows [] reply (notice none ∷ []) state db) card)
