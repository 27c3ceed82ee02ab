-- ===== src/Bot/Callbacks.antt =====
-- app/bot/handlers.py: the handlers of pressed buttons. `int` of a page is `parse_int`.
pub mod Pressed
pub mod Raises
use aucnotif.Prelude.{
  ℕ, zero, suc, Bool, true, false, Option, none, some, List, [], ◌∷◌, ◌++◌, ◌==◌, if◌then◌else◌,
}
use aucnotif.Prelude.Int.{ℤ, pos}
use aucnotif.Prelude.Text.{Text, codes}
use aucnotif.Times.{Instant}
use aucnotif.Config.{Settings}
use aucnotif.Models.{Auction, UserAuction}
use aucnotif.Database.{Database}
use aucnotif.Schemas.Yahoo.{parse_int}
use aucnotif.Services.Auctions
use aucnotif.Services.Auctions.{RemoveResult, not_found, removed}
use aucnotif.Bot.Keyboards.{InlineKeyboardMarkup, main_menu_kb, back_menu_kb}
use aucnotif.Bot.Texts.{help_text, main_menu_text, send_link_text, not_listed_text, not_found_text}
use aucnotif.Bot.Cards.{auction_submenu}
use aucnotif.Bot.Replies.{
  Fsm, cleared, Reply, notice, Handled, done, fails, shows, to_callback, edit_or_answer, show_list,
}

-- `text.partition(":")`, without the separator: `none` in the second place if there is none.
abbrev pub at_colon : Text → Text × Option Text
at_colon [] = ([], none)
at_colon (c ∷ s) = if c == 58 then ([], some s) else (c ∷ (at_colon s).0, (at_colon s).1)

abbrev pub split_rest : ℕ → Text × Option Text → List Text
split_rest n (s, none) = s ∷ []
split_rest zero (s, some rest) = s ∷ rest ∷ []
split_rest (suc n) (s, some rest) = s ∷ split_rest n (at_colon rest)

-- `data.split(":", 2)`
unfoldable pub split_data : Text → List Text
split_data pressed = split_rest 1 (at_colon pressed)

module _ (accepts : Text → InlineKeyboardMarkup → Bool) where
  unfoldable pub cb_menu : Fsm → Database → Handled
  cb_menu state db =
      done (edit_or_answer accepts main_menu_text main_menu_kb ∷ notice none ∷ []) cleared db

  unfoldable pub cb_list : ℕ → Fsm → Database → Handled
  cb_list telegram_id state db =
      done (show_list accepts telegram_id to_callback (pos 1) db ∷ notice none ∷ []) state db

  unfoldable pub cb_noop : Fsm → Database → Handled
  cb_noop state db = done (notice none ∷ []) state db

  unfoldable pub cb_add : Fsm → Database → Handled
  cb_add state db =
      done (edit_or_answer accepts send_link_text back_menu_kb ∷ notice none ∷ []) state db

  unfoldable pub cb_help : Fsm → Database → Handled
  cb_help state db =
      done (edit_or_answer accepts help_text back_menu_kb ∷ notice none ∷ []) state db

  -- The card of an auction in place of the message, if its text can be made.
  abbrev pub submenu : UserAuction × Auction → ℤ → Instant → Option Reply
  submenu (link, auction) page now = elim (auction_submenu link auction page now) [
    | none ↦ none
    | some (text, kb) ↦ some (edit_or_answer accepts text kb)
  ]

  -- `cb_list_page`, `cb_auction`, `cb_delete` and `cb_mute` from the parsed page on.
  unfoldable pub list_page : ℕ → ℤ → Fsm → Database → Handled
  list_page telegram_id page state db =
      done (show_list accepts telegram_id to_callback page db ∷ notice none ∷ []) state db

  unfoldable pub open_auction : Instant → ℕ → Text → ℤ → Fsm → Database → Handled
  open_auction now telegram_id external_id page state db =
      elim (Auctions.get_watch_item telegram_id external_id db) [
        | none ↦ done (notice (some not_found_text) ∷ []) state db
        | some item ↦ shows [] (submenu item page now) (notice none ∷ []) state db
      ]

  abbrev pub on_removed : ℕ → ℤ → Fsm → RemoveResult × Database → Handled
  on_removed telegram_id page state (removed, db) =
      done
        (notice (some (codes "Аукцион удалён из списка."))
          ∷ show_list accepts telegram_id to_callback page db
          ∷ [])
        state db
  on_removed telegram_id page state (not_found, db) =
      done (notice (some not_listed_text) ∷ []) state db

  unfoldable pub delete_auction : Settings → Instant → ℕ → Text → ℤ → Fsm → Database → Handled
  delete_auction settings now telegram_id external_id page state db =
      on_removed telegram_id page state
        (Auctions.remove_watch settings now telegram_id external_id db)

  -- What is shown after a change, if the link is still there.
  abbrev pub item_or_list :
      Instant → ℕ → ℤ → Database → Option (UserAuction × Auction) → Option Reply
  item_or_list now telegram_id page db none =
      some (show_list accepts telegram_id to_callback page db)
  item_or_list now telegram_id page db (some item) = submenu item page now

  abbrev pub toggled_text : Bool → Text
  toggled_text on = if on then codes "Уведомления включены." else codes "Уведомления отключены."

  abbrev pub on_toggled : Instant → ℕ → Text → ℤ → Fsm → Option Bool × Database → Handled
  on_toggled now telegram_id external_id page state (none, db) =
      done (notice (some not_found_text) ∷ []) state db
  on_toggled now telegram_id external_id page state (some on, db) =
      shows (notice (some (toggled_text on)) ∷ [])
        (item_or_list now telegram_id page db (Auctions.get_watch_item telegram_id external_id db))
        [] state db

  unfoldable pub mute_auction : Instant → ℕ → Text → ℤ → Fsm → Database → Handled
  mute_auction now telegram_id external_id page state db =
      on_toggled now telegram_id external_id page state
        (Auctions.toggle_notifications telegram_id external_id db)

-- `_prefix, external_id, page = data.split(":", 2)` and `int(page)`: a `ValueError` unless there are three
-- parts and the last is a number.
abbrev pub with_page :
    Option ℤ → (Text → ℤ → Fsm → Database → Handled) → Text → Fsm → Database → Handled
with_page none handle external_id state db = fails state db
with_page (some page) handle external_id state db = handle external_id page state db

module _ (digit_of : ℕ → Option ℕ) where
  abbrev pub with_parts :
      List Text → (Text → ℤ → Fsm → Database → Handled) → Fsm → Database → Handled
  with_parts (prefix ∷ external_id ∷ page ∷ []) handle state db =
      with_page (parse_int digit_of page) handle external_id state db
  with_parts _ handle state db = fails state db

  unfoldable pub with_item : Text → (Text → ℤ → Fsm → Database → Handled) → Fsm → Database → Handled
  with_item pressed handle state db = with_parts (split_data pressed) handle state db

module _ (accepts : Text → InlineKeyboardMarkup → Bool) (digit_of : ℕ → Option ℕ) where
  unfoldable pub cb_list_page : ℕ → Text → Fsm → Database → Handled
  cb_list_page telegram_id pressed state db =
      with_item digit_of pressed (λ _ page. list_page accepts telegram_id page) state db

  unfoldable pub cb_auction : Instant → ℕ → Text → Fsm → Database → Handled
  cb_auction now telegram_id pressed state db =
      with_item digit_of pressed (λ id page. open_auction accepts now telegram_id id page) state db

  unfoldable pub cb_delete : Settings → Instant → ℕ → Text → Fsm → Database → Handled
  cb_delete settings now telegram_id pressed state db =
      with_item digit_of pressed
        (λ id page. delete_auction accepts settings now telegram_id id page) state db

  unfoldable pub cb_mute : Instant → ℕ → Text → Fsm → Database → Handled
  cb_mute now telegram_id pressed state db =
      with_item digit_of pressed (λ id page. mute_auction accepts now telegram_id id page) state db
