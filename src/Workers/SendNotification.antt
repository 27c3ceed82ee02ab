-- ===== src/Workers/SendNotification.antt =====
-- `send_notification` of app/workers/tasks.py, in the steps between which other workers may act: reading
-- the row, taking the lock, sending, and writing the outcome.
pub mod Once
pub mod Race
use aucnotif.Prelude.{ℕ, Bool, true, false, Option, none, some, List, ◌∷◌, if◌then◌else◌, ◌==◌}
use aucnotif.Prelude.Lists.{select_one}
use aucnotif.Prelude.Text.{Text}
use aucnotif.Times.{Instant}
use aucnotif.Config.{Settings}
use aucnotif.Models.{User, UserAuction, SentNotification, Status, pending, sent, failed}
use aucnotif.Database.{Database}
use aucnotif.Repositories.Notifications
use aucnotif.Notifications.Sender.{Reply, Outcome, delivered, raised, no_text, send}
use aucnotif.Infrastructure.Locks.{Cell, RedisLock, try_acquire, release}

-- The texts that the job returns, or the exception of `send`.
pub data SendResult : Type 0 where
  not_found already_sent locked was_sent : SendResult
  exception : Outcome → SendResult

-- What the workers share: the database, the server's cell for this notification's key, and the messages
-- that Telegram has accepted, as the notification's id and the chat.
pub record World : Type 0 where
  pub db : Database
  pub cell : Cell
  pub outbox : List (ℕ × ℕ)

-- `notification.user_auction.user.telegram_id`, along two foreign keys.
unfoldable pub telegram_of : SentNotification → Database → Option ℕ
telegram_of n db =
    elim (select_one (λ (l : UserAuction). l.id == n.user_auction_id) db.user_auctions) [
      | none ↦ none
      | some link ↦ elim (select_one (λ (u : User). u.id == link.user_id) db.users) [
        | none ↦ none
        | some user ↦ some user.telegram_id
      ]
    ]

pub data Loaded : Type 0 where
  over : SendResult → Loaded
  loaded : SentNotification → ℕ → Loaded

abbrev is_sent : Status → Bool
is_sent sent = true
is_sent pending = false
is_sent failed = false

abbrev addressed : SentNotification → Option ℕ → Loaded
addressed n none = over not_found
addressed n (some telegram_id) = loaded n telegram_id

-- The first session. A row without its link cannot be: the foreign key cascades.
unfoldable pub load : ℕ → Database → Loaded
load notification_id db = elim (Notifications.get_by_id notification_id db) [
  | none ↦ over not_found
  | some n ↦ if is_sent n.status then over already_sent else addressed n (telegram_of n db)
]

abbrev pub send_lock : Text → RedisLock
send_lock token = record { token = token; ttl = 60; held = false }

unfoldable pub take_lock : Text → Instant → World → Bool × RedisLock × World
take_lock token now w =
    let (ok, lock, cell) = try_acquire now (send_lock token) w.cell in
    (ok, lock, record w { cell = cell })

-- What `send` did to the outside world.
unfoldable pub deliver : SentNotification → ℕ → Outcome → World → World
deliver n telegram_id delivered w = record w { outbox = (n.id, telegram_id) ∷ w.outbox }
deliver n telegram_id (raised e) w = w
deliver n telegram_id no_text w = w

-- The second session, and the release in `finally`, when `send` has ended.
unfoldable pub finish : ℕ → Outcome → Instant → RedisLock → World → SendResult × World
finish notification_id delivered ended lock w = (
  was_sent,
  record w {
    db = Notifications.mark_sent notification_id ended w.db;
    cell = (release ended lock w.cell).2;
  },
)
finish notification_id other ended lock w = (
  exception other,
  record w {
    db = Notifications.mark_failed notification_id w.db;
    cell = (release ended lock w.cell).2;
  },
)

unfoldable pub send_locked :
    Settings
    → (ℕ → Reply)
    → Instant
    → ℕ
    → SentNotification
    → ℕ
    → RedisLock
    → World
    → Option (SendResult × World)
send_locked settings bot ended notification_id n telegram_id lock w = elim (send settings bot n) [
  | none ↦ none
  | some sending ↦
      some (
        finish notification_id sending.outcome ended lock (deliver n telegram_id sending.outcome w))
]

unfoldable pub after_load :
    Settings
    → (ℕ → Reply)
    → Text
    → Instant
    → Instant
    → ℕ
    → Loaded
    → World
    → Option (SendResult × World)
after_load settings bot token now ended notification_id (over result) w = some (result, w)
after_load settings bot token now ended notification_id (loaded n telegram_id) w =
    let (ok, lock, w') = take_lock token now w in
    let run = send_locked settings bot ended notification_id n telegram_id lock w' in
    if ok then run else some (locked, w')

-- The job with no other worker in between: the lock is taken at `now`, and `send` ends at `ended`. `none`
-- would mean that the sender's fuel ran out.
unfoldable pub send_notification :
    Settings → (ℕ → Reply) → Text → Instant → Instant → ℕ → World → Option (SendResult × World)
send_notification settings bot token now ended notification_id w =
    after_load settings bot token now ended notification_id (load notification_id w.db) w
