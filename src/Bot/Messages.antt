-- ===== src/Bot/Messages.antt =====
-- app/bot/handlers.py: the handlers of messages. An exception that a handler does not catch ends it.
pub mod Naming
use aucnotif.Prelude.{
  ℕ, Bool, true, false, Option, none, some, List, [], ◌∷◌, ◌++◌, ◌==◌, if◌then◌else◌,
}
use aucnotif.Prelude.Int.{pos}
use aucnotif.Prelude.Lists.{take}
use aucnotif.Prelude.Text.{Text, codes, strip}
use aucnotif.Times.{Instant}
use aucnotif.Config.{Settings}
use aucnotif.Models.{Auction, User}
use aucnotif.Database.{Database}
use aucnotif.Notifications.Renderer.{or_else, render_added}
use aucnotif.Providers.{
  ProviderError, rate_limited_error, anti_bot_error, page_data_not_found_error,
  page_data_parse_error, auction_gone_error, Fetched,
}
use aucnotif.Services.Auctions
use aucnotif.Services.Auctions.{AddOutcome, added, invalid_url, provider_failed, raised}
use aucnotif.Services.StateMapper.{state_from_auction}
use aucnotif.Bot.Keyboards.{InlineKeyboardMarkup, main_menu_kb, back_menu_kb}
use aucnotif.Bot.Texts.{
  help_text, main_menu_text, name_prompt_text, untitled, max_label_length, bad_link_text,
  rate_limited_text, gone_text, no_data_text, already_text, usage_text, keep_title_text, lost_text,
  not_listed_text,
}
use aucnotif.Bot.Replies.{Fsm, cleared, answer, Handled, done, fails, to_message, say, show_list}

-- `message.text or ""`
abbrev pub text_or_empty : Option Text → Text
text_or_empty text = or_else text []

-- `text.partition(" ")[2]`
unfoldable pub after_space : Text → Text
after_space [] = []
after_space (c ∷ s) = if c == 32 then s else after_space s

unfoldable pub cmd_start : Fsm → Database → Handled
cmd_start state db = done (answer main_menu_text (some main_menu_kb) ∷ []) state db

unfoldable pub cmd_help : Fsm → Database → Handled
cmd_help state db = done (answer help_text (some back_menu_kb) ∷ []) state db

unfoldable pub cmd_list : (Text → InlineKeyboardMarkup → Bool) → ℕ → Fsm → Database → Handled
cmd_list accepts telegram_id state db =
    done (show_list accepts telegram_id to_message (pos 1) db ∷ []) state db

unfoldable pub error_text : ProviderError → Text
error_text (rate_limited_error status message) = rate_limited_text
error_text (auction_gone_error message) = gone_text
error_text (page_data_parse_error message) = no_data_text
error_text (page_data_not_found_error message) = no_data_text
error_text (anti_bot_error message) = no_data_text

-- The state that `_handle_url` leaves for an auction that it added.
abbrev pub naming : Auction → Fsm
naming auction = record { waiting_for_name = true; external_id = some auction.external_id }

abbrev closed_text : Auction → Text
closed_text auction =
    codes "🏁 Аукцион «"
    ++ (or_else auction.title untitled ++ codes "» уже завершён и не будет отслеживаться.")

-- From the result of `add_watch` on.
unfoldable pub on_result : Instant → AddOutcome × Database → Handled
unfolding error_text
on_result now (invalid_url, db) = done (say bad_link_text) cleared db
on_result now (provider_failed e, db) = done (say (error_text e)) cleared db
on_result now (raised, db) = fails cleared db
on_result now (added auction true user, db) = done (say already_text) cleared db
on_result now (added auction false user, db) =
    if auction.is_closed
    then done (say (closed_text auction)) cleared db
    else done
        (answer (render_added (state_from_auction auction now) auction.url now) none
          ∷ say name_prompt_text)
        (naming auction) db

unfoldable pub handle_url :
    Settings → (Text → Fetched) → Instant → ℕ → Text → Fsm → Database → Handled
handle_url settings provider now telegram_id url state db =
    on_result now (Auctions.add_watch settings provider now telegram_id url db)

abbrev pub watch_url : Settings → (Text → Fetched) → Instant → ℕ → Text → Fsm → Database → Handled
watch_url settings provider now telegram_id [] state db = done (say usage_text) state db
watch_url settings provider now telegram_id (c ∷ url) state db =
    handle_url settings provider now telegram_id (c ∷ url) state db

unfoldable pub cmd_watch :
    Settings → (Text → Fetched) → Instant → ℕ → Option Text → Fsm → Database → Handled
unfolding after_space
cmd_watch settings provider now telegram_id text state db =
    watch_url settings provider now telegram_id (strip (after_space (text_or_empty text))) state db

unfoldable pub handle_url_message :
    Settings → (Text → Fetched) → Instant → ℕ → Option Text → Fsm → Database → Handled
handle_url_message settings provider now telegram_id text state db =
    handle_url settings provider now telegram_id (text_or_empty text) state db

unfoldable pub cmd_skip_name : Fsm → Database → Handled
cmd_skip_name state db = done (say keep_title_text) cleared db

abbrev pub non_empty : Text → Option Text
non_empty [] = none
non_empty (c ∷ s) = some (c ∷ s)

-- `(message.text or "").strip()[:MAX_LABEL_LENGTH] or None`
unfoldable pub label_of : Option Text → Option Text
label_of text = non_empty (take max_label_length (strip (text_or_empty text)))

abbrev saved_text : Option Text → Text
saved_text none = keep_title_text
saved_text (some label) = codes "✅ Название сохранено: «" ++ (label ++ codes "».")

-- From the result of `set_label` on.
abbrev pub on_label : Option Text → Option Bool × Database → Handled
on_label label (none, db) = done (say not_listed_text) cleared db
on_label label (some b, db) = done (say (saved_text label)) cleared db

abbrev pub name_auction : ℕ → Option Text → Option Text → Database → Handled
name_auction telegram_id label none db = done (say lost_text) cleared db
name_auction telegram_id label (some []) db = done (say lost_text) cleared db
name_auction telegram_id label (some (c ∷ external_id)) db =
    on_label label (Auctions.set_label telegram_id (c ∷ external_id) label db)

unfoldable pub handle_name_message : ℕ → Option Text → Fsm → Database → Handled
unfolding label_of
handle_name_message telegram_id text state db =
    name_auction telegram_id (label_of text) state.external_id db
