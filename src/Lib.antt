-- ===== src/Lib.antt =====
-- aucnotif watches Yahoo auctions for the users of a Telegram bot. A user's link to an auction is a row of
-- `user_auctions`; a scheduler puts the auctions that are due into a queue; a worker polls one of them:
-- it fetches the page, compares it with the latest snapshot, stores what changed, decides on notifications
-- and claims a row for each watcher; another job sends such a row to Telegram and marks it. The workers
-- exclude each other by locks in Redis, and share a rate limit there.
--
-- Files, and the code each one models:
--   Domain/*: app/domain, the pure rules. Diff: diff.py. Notifications: notifications.py, with the
--     idempotency keys. Polling: polling.py. Validation: validation.py, with the regular expression
--     written out. Time: time.py, on the calendar and the strptime of Prelude. AuctionState:
--     auction_state.py.
--   Config, Models, Database: app/config.py, app/models, and the tables as lists of rows. A function on a
--     `Database` is what one session does; its result is the commit.
--   Repositories/*: app/repositories, each method under its name.
--   Services/Monitoring, Services/StateMapper, Services/Auctions: app/services. `poll` is
--     MonitoringService.poll; its parts are the stretches of its body, `observe` what follows the fetch.
--   Notifications/Engine, Renderer, Sender: app/notifications.
--   Infrastructure/Locks, RateLimit: app/infrastructure/locks.py, ratelimit.py, redis_rate_limit.py.
--   Workers/PollAuction, SendNotification: app/workers/tasks.py.
--   Scheduler: app/scheduler/scheduler.py, one tick.
--   Providers, Schemas/Json: app/providers/base.py, and the raw page data as JSON values.
--   Providers/Yahoo/Client, Extractor, Provider, Schemas/Yahoo: app/providers/yahoo and app/schemas/yahoo.py,
--     with httpx's answer, json.loads, pydantic's model_validate and Unicode's digits as arguments.
--   Bot/*: app/bot. Keyboards: keyboards.py. Texts, Cards, Pages, Replies: the module level of handlers.py.
--     Messages, Callbacks: the handlers that `register_handlers` defines, each under its name. Dispatch: the order
--     in which aiogram asks them. A handler is given the user's conversation and the database, and leaves
--     both with its replies.
--   Watchlist/*: no file of its own: what the service, the polls and the ticks do to the question who watches what,
--     as a specification (Watchlist, Refines), the columns that it depends on with the constraints of app/models
--     (Keys), and each operation on them.
--   Migrations/*: alembic/versions, as lists of changes (Initial, Versions) to a schema (Schema), and the tables that
--     the classes of app/models declare (Declared).
--   Globals: app/db.py, app/infrastructure/redis.py and container.py, app/workers/settings.py.
--   Prelude/*, Times: what the components share. A text is a list of code points, an instant and a duration
--     an integer number of microseconds.
--
-- Modelling. SQL is read as a language: a query is a function on the rows, and a migration's statements are functions
-- on a schema, which refuse what PostgreSQL refuses. An exception is `none` or a constructor of a result type; a poll that raises commits nothing.
-- What is not in the repository is an argument: the provider is a function from the link to what it returns
-- or raises, Telegram a function from the number of an attempt to its reply, the clock a time that is
-- passed where the code reads it, a lock's token its uuid, aiogram's filter for commands a function from a text to
-- the command in it, and whether Telegram takes an edit a test of the text and its keyboard. What Redis holds under a key is a `Cell` or a
-- `Hash`, and its commands are those that the code sends. Floats are written as integers: settings in
-- microseconds, and a token of a rate limiter as the period that it takes to flow in. The time zone of Japan is its
-- table in the time zone database.
--
-- Fuel. `send_loop` runs on one unit more than the retries that the settings allow, `acquire_with_wait` on
-- one more than the units of the clock until the deadline, and their theorems show that this is enough.
-- `acquire_blocking`, which no part of the program calls, ends only when the clock reaches its deadline, so its fuel
-- is the number of its rounds.
--
-- Not modelled: the HTTP API, logging, metrics and start-up code, which only call libraries; refusals of
-- Telegram in the bot other than that of an edit; that a database column other than those of Repositories/Columns cuts or
-- refuses a value; that the power in `backoff` is too large for a float after 1024 errors in a row; times on a clock in
-- Japan after the year 9999.
pub mod Prelude
pub mod Times
pub mod Config
pub mod Domain
pub mod Schemas
pub mod Models
pub mod Database
pub mod Repositories
pub mod Notifications
pub mod Providers
pub mod Services
pub mod Infrastructure
pub mod Watchlist
pub mod Workers
pub mod Bot
pub mod Scheduler
pub mod Migrations
pub mod Globals
pub mod Tests
