-- ===== src/Services/StateMapper.antt =====
-- app/services/state_mapper.py: rows read back as states.
pub mod Reread
use aucnotif.Prelude.{Bool, false, Option, none, some, []}
use aucnotif.Domain.AuctionState.{AuctionState}
use aucnotif.Domain.Diff.{truthy}
use aucnotif.Domain.Time.{ensure_aware}
use aucnotif.Models.{Auction, AuctionSnapshot}
use aucnotif.Times.{Instant, Datetime}
use aucnotif.Repositories.Snapshots.{instant}

-- `ensure_aware(observed_at) or observed_at`
abbrev aware_or_raw : Datetime → Option Instant → Instant
aware_or_raw observed_at none = instant observed_at
aware_or_raw observed_at (some t) = t

unfoldable pub state_from_snapshot : AuctionSnapshot → AuctionState
unfolding ensure_aware
state_from_snapshot snapshot = record {
  auction_id = [];
  title = none;
  current_price = snapshot.current_price;
  bid_count = snapshot.bid_count;
  start_time = none;
  end_time = ensure_aware snapshot.end_time;
  buy_now_price = snapshot.buy_now_price;
  quantity = none;
  is_store = none;
  is_closed = truthy snapshot.is_closed;
  has_winner = snapshot.has_winner;
  new_bid = snapshot.new_bid;
  observed_at = aware_or_raw snapshot.observed_at (ensure_aware (some snapshot.observed_at));
}

-- `observed_at` is the clock's time: `AuctionState`'s default.
unfoldable pub state_from_auction : Auction → Instant → AuctionState
unfolding ensure_aware
state_from_auction auction now = record {
  auction_id = auction.external_id;
  title = auction.title;
  current_price = auction.current_price;
  bid_count = auction.bid_count;
  start_time = ensure_aware auction.start_time;
  end_time = ensure_aware auction.end_time;
  buy_now_price = auction.buy_now_price;
  quantity = auction.quantity;
  is_store = auction.is_store;
  is_closed = auction.is_closed;
  has_winner = auction.has_winner;
  new_bid = none;
  observed_at = now;
}
