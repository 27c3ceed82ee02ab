-- ===== src/Models.antt =====
-- app/models: the rows of the five tables. `updated_at` is left out, since nothing reads it. A column that the code
-- passes through `ensure_aware`, or computes with in Python, is a `Datetime`; every other time is read as aware. The
-- numbers are those that Python has; what the columns take is in Repositories/Columns.
use aucnotif.Prelude.{ℕ, Bool, Option}
use aucnotif.Prelude.Int.{ℤ}
use aucnotif.Prelude.Text.{Text}
use aucnotif.Times.{Instant, Datetime}
use aucnotif.Schemas.Json.{Json}
use aucnotif.Domain.Notifications.{NotificationKind, DedupKey}

pub record User : Type 0 where
  pub id : ℕ
  pub telegram_id : ℕ
  pub language : Text
  pub is_active : Bool

pub record Auction : Type 0 where
  pub id : ℕ
  pub external_id : Text
  pub url : Text
  pub title : Option Text
  pub current_price : Option ℤ
  pub bid_count : Option ℤ
  pub start_time : Option Datetime
  pub end_time : Option Datetime
  pub buy_now_price : Option ℤ
  pub quantity : Option ℤ
  pub is_store : Option Bool
  pub is_closed : Bool
  pub has_winner : Option Bool
  pub monitoring_active : Bool
  pub next_poll_at : Option Instant
  pub last_polled_at : Option Datetime
  pub last_error : Option Text
  pub consecutive_errors : ℕ
  pub created_at : Datetime

pub record AuctionSnapshot : Type 0 where
  pub id : ℕ
  pub auction_id : ℕ
  pub observed_at : Datetime
  pub current_price : Option ℤ
  pub bid_count : Option ℤ
  pub end_time : Option Datetime
  pub buy_now_price : Option ℤ
  pub is_closed : Option Bool
  pub has_winner : Option Bool
  pub new_bid : Option Bool
  pub raw_data : Option Json

pub record UserAuction : Type 0 where
  pub id : ℕ
  pub user_id : ℕ
  pub auction_id : ℕ
  pub notifications_enabled : Bool
  pub label : Option Text
  pub created_at : Instant

-- The three texts that `status` takes.
pub data Status : Type 0 where
  pending sent failed : Status

pub record SentNotification : Type 0 where
  pub id : ℕ
  pub user_auction_id : ℕ
  pub kind : NotificationKind
  pub dedup_key : DedupKey
  pub text : Option Text
  pub status : Status
  pub created_at : Instant
  pub sent_at : Option Instant
