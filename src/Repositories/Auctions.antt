-- ===== src/Repositories/Auctions.antt =====
-- app/repositories/auctions.py. An attribute that is set on a loaded object, and an `UPDATE` by its
-- primary key, change the same row: the session keeps both in step.
use aucnotif.Prelude.{ℕ, suc, Bool, true, false, not, ◌&&◌, Option, none, some, List, ◌∷◌, ◌==◌}
use aucnotif.Prelude.Int.{leb_ℤ}
use aucnotif.Prelude.Lists.{length, take, select, select_one, update_where, exists_where, order_by}
use aucnotif.Prelude.Text.{Text, text_eq}
use aucnotif.Times.{Instant, Datetime, aware}
use aucnotif.Domain.AuctionState.{AuctionState}
use aucnotif.Models.{Auction, UserAuction}
use aucnotif.Database.{Database}

unfoldable pub get_by_external_id : Text → Database → Option Auction
get_by_external_id external_id db = select_one (λ a. text_eq a.external_id external_id) db.auctions

unfoldable pub get_by_id : ℕ → Database → Option Auction
get_by_id auction_id db = select_one (λ a. a.id == auction_id) db.auctions

-- A time of a state, as it is written to a column.
abbrev pub column : Option Instant → Option Datetime
column none = none
column (some t) = some (aware t)

unfoldable pub create : Text → Text → AuctionState → Instant → Database → Auction × Database
create url external_id state now db =
    let auction : Auction = record {
      id = db.next_auction;
      external_id = external_id;
      url = url;
      title = state.title;
      current_price = state.current_price;
      bid_count = state.bid_count;
      start_time = column state.start_time;
      end_time = column state.end_time;
      buy_now_price = state.buy_now_price;
      quantity = state.quantity;
      is_store = state.is_store;
      is_closed = state.is_closed;
      has_winner = state.has_winner;
      monitoring_active = not state.is_closed;
      next_poll_at = some now;
      last_polled_at = some (aware now);
      last_error = none;
      consecutive_errors = 0;
      created_at = aware now;
    } in
    (auction, record db { auctions = auction ∷ db.auctions; next_auction = suc db.next_auction })

-- What an assignment to attributes of the auction with this id does to the table.
unfoldable pub modify : ℕ → (Auction → Auction) → Database → Database
modify auction_id f db = record db {
  auctions = update_where (λ a. a.id == auction_id) f db.auctions;
}

abbrev pub with_state : AuctionState → Auction → Auction
with_state state auction = record auction {
  title = state.title;
  current_price = state.current_price;
  bid_count = state.bid_count;
  start_time = column state.start_time;
  end_time = column state.end_time;
  buy_now_price = state.buy_now_price;
  quantity = state.quantity;
  is_store = state.is_store;
  is_closed = state.is_closed;
  has_winner = state.has_winner;
  last_polled_at = some (aware state.observed_at);
}

unfoldable pub update_from_state : ℕ → AuctionState → Database → Database
update_from_state auction_id state db = modify auction_id (with_state state) db

abbrev pub with_next_poll : Instant → Auction → Auction
with_next_poll dt auction = record auction { next_poll_at = some dt }

unfoldable pub set_next_poll_at : ℕ → Instant → Database → Database
set_next_poll_at auction_id dt db = modify auction_id (with_next_poll dt) db

abbrev pub stopped : Auction → Auction
stopped auction = record auction { monitoring_active = false; next_poll_at = none }

unfoldable pub stop_monitoring : ℕ → Database → Database
stop_monitoring auction_id db = modify auction_id stopped db

abbrev pub resumed : Instant → Auction → Auction
resumed now auction = record auction { monitoring_active = true; next_poll_at = some now }

unfoldable pub resume_monitoring : ℕ → Instant → Database → Database
resume_monitoring auction_id now db = modify auction_id (resumed now) db

abbrev pub with_error : Text → Instant → Auction → Auction
with_error message dt auction = record auction {
  consecutive_errors = suc auction.consecutive_errors;
  last_error = some (take 1000 message);
  next_poll_at = some dt;
}

-- The new counter, 0 if there is no such auction.
unfoldable pub record_error : ℕ → Text → Instant → Database → ℕ × Database
record_error auction_id error_message next_poll_at db = elim (get_by_id auction_id db) [
  | none ↦ (0, db)
  | some auction ↦
      (suc auction.consecutive_errors, modify auction_id (with_error error_message next_poll_at) db)
]

abbrev pub without_error : Auction → Auction
without_error auction = record auction { consecutive_errors = 0; last_error = none }

unfoldable pub clear_error : ℕ → Database → Database
clear_error auction_id db = modify auction_id without_error db

abbrev pub reached : Instant → Option Instant → Bool
reached now none = false
reached now (some t) = leb_ℤ t now

unfoldable pub is_due : Instant → Auction → Bool
is_due now a = a.monitoring_active && (not a.is_closed && reached now a.next_poll_at)

abbrev earlier : Option Instant → Option Instant → Bool
earlier (some s) (some t) = leb_ℤ s t
earlier _ _ = true

abbrev pub sooner : Auction → Auction → Bool
sooner a b = earlier a.next_poll_at b.next_poll_at

unfoldable pub list_due : Instant → ℕ → Database → List Auction
list_due now limit db = take limit (order_by sooner (select (is_due now) db.auctions))

unfoldable pub list_active : Database → List Auction
list_active db = select (λ a. a.monitoring_active) db.auctions

unfoldable pub list_stale_monitoring : ℕ → Database → List Auction
list_stale_monitoring limit db = take limit (
    select
      (λ a.
        a.monitoring_active
        && not (exists_where (λ (l : UserAuction). l.auction_id == a.id) db.user_auctions))
      db.auctions)

unfoldable pub count_monitored : Database → ℕ
count_monitored db = length (select (λ a. a.monitoring_active) db.auctions)
