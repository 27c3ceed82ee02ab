-- ===== src/Bot/Keyboards.antt =====
-- app/bot/keyboards.py, with the buttons and keyboards of aiogram that it uses.
use aucnotif.Prelude.{List, [], ◌∷◌}
use aucnotif.Prelude.Text.{Text, codes}

-- What a button does: it opens a link, or it sends its text back to the bot.
pub data Action : Type 0 where
  url : Text → Action
  callback_data : Text → Action

pub record InlineKeyboardButton : Type 0 where
  pub text : Text
  pub action : Action

-- Rows of buttons.
abbrev pub InlineKeyboardMarkup : Type 0
InlineKeyboardMarkup = List (List InlineKeyboardButton)

abbrev pub button : Text → Action → InlineKeyboardButton
button text action = record { text = text; action = action }

abbrev pub menu_back_button : InlineKeyboardButton
menu_back_button = button (codes "🔙 В меню") (callback_data (codes "menu:home"))

abbrev pub main_menu_kb : InlineKeyboardMarkup
main_menu_kb =
    (button (codes "📋 Мои аукционы") (callback_data (codes "menu:list")) ∷ [])
    ∷ (button (codes "➕ Добавить аукцион") (callback_data (codes "menu:add")) ∷ [])
    ∷ (button (codes "❓ Справка") (callback_data (codes "menu:help")) ∷ [])
    ∷ []

abbrev pub back_menu_kb : InlineKeyboardMarkup
back_menu_kb = (menu_back_button ∷ []) ∷ []
