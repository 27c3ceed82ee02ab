-- ===== src/Bot.antt =====
-- app/bot: the Telegram bot. What a handler sends is a list of replies; the conversation and the database are
-- passed through it.
pub mod Keyboards
pub mod Texts
pub mod Cards
pub mod Pages
pub mod Replies
pub mod Messages
pub mod Callbacks
pub mod Dispatch
