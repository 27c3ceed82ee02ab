-- ===== src/Bot/Dispatch/Buttons.antt =====
-- A button on the bot's keyboards does what it says.
use aucnotif.Prelude.{ℕ, ◌-◌, ◌≡◌, refl, Bool, true, false, Option, some, [], ◌∷◌, ◌==◌, arith}
use aucnotif.Prelude.Int.{pos}
use aucnotif.Prelude.Lists.{All-imply}
use aucnotif.Prelude.Text.{Text, codes}
use aucnotif.Prelude.Decimal.{is_digit}
use aucnotif.Times.{Instant}
use aucnotif.Config.{Settings}
use aucnotif.Domain.Validation.{is_alnum}
use aucnotif.Domain.Validation.Canonical.{IsId}
use aucnotif.Database.{Database}
use aucnotif.Bot.Keyboards.{InlineKeyboardMarkup}
use aucnotif.Bot.Cards.{item_data, page_data}
use aucnotif.Bot.Replies.{Fsm}
use aucnotif.Bot.Callbacks.{
  list_page, open_auction, delete_auction, mute_auction, cb_list_page, cb_auction, cb_delete,
  cb_mute,
}
use aucnotif.Bot.Callbacks.Pressed.{NoColon, with_item-item_data, with_item-page_data}
use aucnotif.Bot.Dispatch.{handle_callback}

alnum-NoColon : (s : Text) → IsId s → NoColon s
alnum-NoColon [] h = absurd h
alnum-NoColon (c ∷ s) h =
    All-imply (λ d. is_alnum d ≡ true) (λ d. (d == b':') ≡ false) (c ∷ s) (λ d e. not_colon d e) h
  where
    not_colon : (d : ℕ) → is_alnum d ≡ true → (d == b':') ≡ false
    not_colon d e = ground arith

module _ (accepts : Text → InlineKeyboardMarkup → Bool) (digit_of : ℕ → Option ℕ)
    (ascii : (c : ℕ) → is_digit c ≡ true → digit_of c ≡ some (c - 48)) where
  -- A pressed button that was made for an auction and a page opens, mutes or deletes that auction on that page,
  -- and a button that was made for a page shows that page, whatever the conversation and the database are.
  -- The auction's id is one that `extract_auction_id` gives, and `int` reads the ten ASCII digits as
  -- Unicode defines them.
  pub pressed_buttons :
      (settings : Settings) (now : Instant) (telegram_id : ℕ) (external_id : Text) (page : ℕ)
      (state : Fsm) (db : Database)
      → IsId external_id
      → let press = λ (pressed : Text).
        handle_callback accepts digit_of settings now telegram_id pressed state db in
        (press (item_data (codes "auction") external_id (pos page))
          ≡ open_auction accepts now telegram_id external_id (pos page) state db)
        × ((press (item_data (codes "mute") external_id (pos page))
              ≡ mute_auction accepts now telegram_id external_id (pos page) state db)
            × ((press (item_data (codes "del") external_id (pos page))
                  ≡ delete_auction accepts settings now telegram_id external_id (pos page) state db)
                × (press (page_data (pos page))
                    ≡ list_page accepts telegram_id (pos page) state db)))
  pressed_buttons settings now telegram_id external_id page state db valid =
      let colon = alnum-NoColon external_id valid in
      (
        unfold handle_callback cb_auction item_data in
            with_item-item_data digit_of ascii (λ id at. open_auction accepts now telegram_id id at)
              state db (codes "auction") external_id page
              (refl, (refl, (refl, (refl, (refl, (refl, (refl, tt))))))) colon,
        (
          unfold handle_callback cb_mute item_data in
              with_item-item_data digit_of ascii
                (λ id at. mute_auction accepts now telegram_id id at) state db (codes "mute")
                external_id page (refl, (refl, (refl, (refl, tt)))) colon,
          (
            unfold handle_callback cb_delete item_data in
                with_item-item_data digit_of ascii
                  (λ id at. delete_auction accepts settings now telegram_id id at) state db
                  (codes "del") external_id page (refl, (refl, (refl, tt))) colon,
            unfold handle_callback cb_list_page page_data in
                with_item-page_data digit_of ascii (λ _ at. list_page accepts telegram_id at) state
                  db page,
          ),
        ),
      )
