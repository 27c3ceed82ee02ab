-- ===== src/Bot/Dispatch.antt =====
-- `register_handlers` of app/bot/handlers.py: an update goes to the first handler whose filters take it.
-- `command_of` is the command that aiogram's filter `Command` reads off a text.
pub mod Buttons
pub mod Conversation
use aucnotif.Prelude.{
  ℕ, Bool, true, false, ◌&&◌, ◌||◌, Option, none, some, [], ◌∷◌, ◌++◌, ◌==◌, if◌then◌else◌, opt_eq,
  is_some,
}
use aucnotif.Prelude.Text.{Text, codes, text_eq}
use aucnotif.Times.{Instant}
use aucnotif.Config.{Settings}
use aucnotif.Database.{Database}
use aucnotif.Providers.{Fetched}
use aucnotif.Bot.Keyboards.{InlineKeyboardMarkup}
use aucnotif.Bot.Replies.{Fsm, Handled, done}
use aucnotif.Bot.Messages.{
  cmd_start, cmd_help, cmd_list, cmd_watch, handle_url_message, cmd_skip_name, handle_name_message,
}
use aucnotif.Bot.Callbacks.{
  cb_menu, cb_list, cb_list_page, cb_noop, cb_add, cb_help, cb_auction, cb_delete, cb_mute,
}

abbrev pub starts_with : Text → Text → Bool
starts_with [] s = true
starts_with (p ∷ ps) [] = false
starts_with (p ∷ ps) (c ∷ s) = p == c && starts_with ps s

-- `F.text` and `F.text.startswith("http")`: an empty text and no text at all are not taken.
abbrev pub has_text : Option Text → Bool
has_text none = false
has_text (some []) = false
has_text (some (c ∷ s)) = true

abbrev pub is_link : Option Text → Bool
is_link none = false
is_link (some s) = starts_with (codes "http") s

-- `Command(name)` on a message with this command.
abbrev pub is_command : Option Text → Text → Bool
is_command none name = false
is_command (some command) name = text_eq command name

-- `message.text or message.caption`, where the filter looks for a command.
abbrev pub spoken : Option Text → Option Text → Option Text
spoken none caption = caption
spoken (some []) caption = caption
spoken (some (c ∷ s)) caption = some (c ∷ s)

abbrev command_in : (Text → Option Text) → Option Text → Option Text
command_in command_of none = none
command_in command_of (some s) = command_of s

-- A message for which no handler is registered is passed over.
unfoldable pub handle_message :
    (Text → InlineKeyboardMarkup → Bool)
    → (Text → Option Text)
    → Settings
    → (Text → Fetched)
    → Instant
    → ℕ
    → Option Text
    → Option Text
    → Fsm
    → Database
    → Handled
handle_message accepts command_of settings provider now telegram_id text caption state db =
    let is = is_command (command_in command_of (spoken text caption)) in
    if is (codes "start")
    then cmd_start state db
    else if is (codes "help")
    then cmd_help state db
    else if is (codes "list")
    then cmd_list accepts telegram_id state db
    else if is (codes "watch")
    then cmd_watch settings provider now telegram_id text state db
    else if is_link text
    then handle_url_message settings provider now telegram_id text state db
    else if state.waiting_for_name && (is (codes "skip") || is (codes "cancel"))
    then cmd_skip_name state db
    else if state.waiting_for_name && has_text text
    then handle_name_message telegram_id text state db
    else done [] state db

unfoldable pub handle_callback :
    (Text → InlineKeyboardMarkup → Bool)
    → (ℕ → Option ℕ)
    → Settings
    → Instant
    → ℕ
    → Text
    → Fsm
    → Database
    → Handled
handle_callback accepts digit_of settings now telegram_id pressed state db =
    if text_eq pressed (codes "menu:home")
    then cb_menu accepts state db
    else if text_eq pressed (codes "menu:list")
    then cb_list accepts telegram_id state db
    else if starts_with (codes "list:page:") pressed
    then cb_list_page accepts digit_of telegram_id pressed state db
    else if text_eq pressed (codes "noop")
    then cb_noop accepts state db
    else if text_eq pressed (codes "menu:add")
    then cb_add accepts state db
    else if text_eq pressed (codes "menu:help")
    then cb_help accepts state db
    else if starts_with (codes "auction:") pressed
    then cb_auction accepts digit_of now telegram_id pressed state db
    else if starts_with (codes "del:") pressed
    then cb_delete accepts digit_of settings now telegram_id pressed state db
    else if starts_with (codes "mute:") pressed
    then cb_mute accepts digit_of now telegram_id pressed state db
    else done [] state db
