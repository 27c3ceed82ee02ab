-- ===== src/Tests/Data.antt =====
-- The data of the tests: the settings of app/config.py, one user who watches one auction, and its states.
use aucnotif.Prelude.{ℕ, true, false, Option, none, some, [], ◌∷◌}
use aucnotif.Prelude.Int.{pos}
use aucnotif.Prelude.Text.{Text, codes}
use aucnotif.Times.{Instant, naive, aware}
use aucnotif.Config.{Settings}
use aucnotif.Domain.AuctionState.{AuctionState}
use aucnotif.Models.{User, Auction, UserAuction, AuctionSnapshot}
use aucnotif.Database.{Database, empty}

abbrev pub settings : Settings
settings = record {
  default_language = codes "ru";
  yahoo_max_consecutive_errors = 10;
  yahoo_backoff_base_seconds = 30000000;
  yahoo_backoff_max_seconds = 3600000000;
  store_raw_data = false;
  poll_interval_gt_24h = 21600;
  poll_interval_6_24h = 1800;
  poll_interval_1_6h = 600;
  poll_interval_30_60m = 120;
  poll_interval_15_30m = 60;
  poll_interval_lt_15m = 60;
  scheduler_tick_seconds = 5;
  poll_lock_ttl_seconds = 90;
  unwatch_grace_period_seconds = 30;
  notify_30m_before_seconds = 1800;
  notify_15m_before_seconds = 900;
  notify_5m_before_seconds = 300;
  telegram_send_max_retries = 5;
  telegram_send_retry_base_seconds = 1000000;
  snapshot_retention_days = 30;
}

abbrev pub url : Text
url = codes "https://auctions.yahoo.co.jp/jp/auction/x1"

-- A state at a price, seen at a time.
abbrev pub seen_at : ℕ → Instant → Option Instant → AuctionState
seen_at price now end = record {
  auction_id = codes "x1";
  title = some (codes "camera");
  current_price = some (pos price);
  bid_count = some (pos 1);
  start_time = none;
  end_time = end;
  buy_now_price = none;
  quantity = some (pos 1);
  is_store = some false;
  is_closed = false;
  has_winner = none;
  new_bid = none;
  observed_at = now;
}

abbrev pub end : Instant
end = pos 10000000000

abbrev pub auction : Auction
auction = record {
  id = 1;
  external_id = codes "x1";
  url = url;
  title = some (codes "camera");
  current_price = some (pos 100);
  bid_count = some (pos 1);
  start_time = none;
  end_time = some (naive end);
  buy_now_price = none;
  quantity = some (pos 1);
  is_store = some false;
  is_closed = false;
  has_winner = none;
  monitoring_active = true;
  next_poll_at = some (pos 60);
  last_polled_at = some (aware (pos 10));
  last_error = none;
  consecutive_errors = 0;
  created_at = aware (pos 0);
}

abbrev pub snapshot : AuctionSnapshot
snapshot = record {
  id = 1;
  auction_id = 1;
  observed_at = aware (pos 10);
  current_price = some (pos 100);
  bid_count = some (pos 1);
  end_time = some (naive end);
  buy_now_price = none;
  is_closed = some false;
  has_winner = none;
  new_bid = none;
  raw_data = none;
}

abbrev pub user : User
user = record { id = 1; telegram_id = 42; language = codes "ru"; is_active = true }

abbrev pub link : UserAuction
link = record {
  id = 1;
  user_id = 1;
  auction_id = 1;
  notifications_enabled = true;
  label = none;
  created_at = pos 0;
}

abbrev pub database : Database
database = record empty {
  users = user ∷ [];
  auctions = auction ∷ [];
  user_auctions = link ∷ [];
  snapshots = snapshot ∷ [];
  next_user = 2;
  next_auction = 2;
  next_user_auction = 2;
  next_snapshot = 2;
}
