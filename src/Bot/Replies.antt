-- ===== src/Bot/Replies.antt =====
-- app/bot/handlers.py: what a handler is given, what it leaves behind, and sending a text with a keyboard.
use aucnotif.Prelude.{ℕ, Bool, true, false, Option, none, some, List, [], ◌∷◌, ◌++◌, if◌then◌else◌}
use aucnotif.Prelude.Int.{ℤ}
use aucnotif.Prelude.Text.{Text}
use aucnotif.Database.{Database}
use aucnotif.Bot.Keyboards.{InlineKeyboardMarkup, back_menu_kb}
use aucnotif.Bot.Texts.{empty_list_text}
use aucnotif.Bot.Pages.{list_content}

-- The user's conversation: whether its state is `NamingState.waiting_for_name`, and what its data holds
-- under `external_id`.
pub record Fsm : Type 0 where
  pub waiting_for_name : Bool
  pub external_id : Option Text

-- After `state.clear()`.
abbrev pub cleared : Fsm
cleared = record { waiting_for_name = false; external_id = none }

-- `message.answer`, `message.edit_text`, and `callback.answer`, which ends the wait on a button.
pub data Reply : Type 0 where
  answer : Text → Option InlineKeyboardMarkup → Reply
  edit_text : Text → InlineKeyboardMarkup → Reply
  notice : Option Text → Reply

-- `raised` says that the handler ended with an exception. What it had committed and sent stays.
pub record Handled : Type 0 where
  pub replies : List Reply
  pub state : Fsm
  pub database : Database
  pub raised : Bool

abbrev pub done : List Reply → Fsm → Database → Handled
done replies state db = record { replies = replies; state = state; database = db; raised = false }

-- An exception before the handler did anything.
abbrev pub fails : Fsm → Database → Handled
fails state db = record { replies = []; state = state; database = db; raised = true }

-- Replies around one that may fail to be made: then the exception comes after those before it.
abbrev pub shows : List Reply → Option Reply → List Reply → Fsm → Database → Handled
shows before none after state db = record {
  replies = before;
  state = state;
  database = db;
  raised = true;
}
shows before (some reply) after state db = done (before ++ reply ∷ after) state db

-- Where a text goes: to a message, or to the message of a pressed button.
pub data Target : Type 0 where
  to_message : Target
  to_callback : Target

abbrev pub say : Text → List Reply
say text = answer text none ∷ []

-- `accepts` says whether Telegram lets the message be changed into this one; it refuses with
-- `TelegramBadRequest`.
module _ (accepts : Text → InlineKeyboardMarkup → Bool) where
  unfoldable pub edit_or_answer : Text → InlineKeyboardMarkup → Reply
  edit_or_answer text kb = if accepts text kb then edit_text text kb else answer text (some kb)

  unfoldable pub send : Target → Text → InlineKeyboardMarkup → Reply
  unfolding edit_or_answer
  send to_callback text kb = edit_or_answer text kb
  send to_message text kb = answer text (some kb)

  unfoldable pub show_list : ℕ → Target → ℤ → Database → Reply
  unfolding send
  show_list telegram_id target page db = elim (list_content telegram_id page db) [
    | none ↦ send target empty_list_text back_menu_kb
    | some (text, kb) ↦ send target text kb
  ]
