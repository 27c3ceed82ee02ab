-- ===== src/Tests.antt =====
-- The theorems at concrete inputs.
mod Data
mod Decisions
mod Polls
mod Concurrency
mod Texts
mod Claims
mod Repeated
mod Sending
mod Ticks
mod Pages
mod Watching
mod Watchlists
mod Bot
mod Clocks
mod Migrations
mod Globals
