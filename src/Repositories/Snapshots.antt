-- ===== src/Repositories/Snapshots.antt =====
-- app/repositories/snapshots.py
use aucnotif.Prelude.{
  ℕ, suc, Bool, ◌&&◌, ◌||◌, Option, none, some, List, [], ◌∷◌, ◌==◌, leb, if◌then◌else◌,
}
use aucnotif.Prelude.Int.{ltb_ℤ, eq_ℤ}
use aucnotif.Prelude.Lists.{length, select, delete_where}
use aucnotif.Times.{Instant, Datetime, naive, aware}
use aucnotif.Schemas.Json.{Json}
use aucnotif.Domain.AuctionState.{AuctionState}
use aucnotif.Models.{AuctionSnapshot}
use aucnotif.Database.{Database}
use aucnotif.Repositories.Auctions.{column}

-- The instant by which the database orders the column.
abbrev pub instant : Datetime → Instant
instant (naive reading) = reading
instant (aware t) = t

-- `ORDER BY observed_at DESC, id DESC`: `a` stands before `b`.
abbrev pub later : AuctionSnapshot → AuctionSnapshot → Bool
later a b =
    ltb_ℤ (instant b.observed_at) (instant a.observed_at)
    || eq_ℤ (instant a.observed_at) (instant b.observed_at) && leb b.id a.id

-- The first row in that order.
abbrev pub first_of_two : AuctionSnapshot → Option AuctionSnapshot → Option AuctionSnapshot
first_of_two s none = some s
first_of_two s (some t) = if later s t then some s else some t

abbrev pub latest : List AuctionSnapshot → Option AuctionSnapshot
latest [] = none
latest (s ∷ rest) = first_of_two s (latest rest)

unfoldable pub get_latest : ℕ → Database → Option AuctionSnapshot
get_latest auction_id db = latest (select (λ s. s.auction_id == auction_id) db.snapshots)

abbrev pub snapshot_of : ℕ → ℕ → AuctionState → Option Json → AuctionSnapshot
snapshot_of id auction_id state raw_data = record {
  id = id;
  auction_id = auction_id;
  observed_at = aware state.observed_at;
  current_price = state.current_price;
  bid_count = state.bid_count;
  end_time = column state.end_time;
  buy_now_price = state.buy_now_price;
  is_closed = some state.is_closed;
  has_winner = state.has_winner;
  new_bid = state.new_bid;
  raw_data = raw_data;
}

unfoldable pub create : ℕ → AuctionState → Option Json → Database → AuctionSnapshot × Database
create auction_id state raw_data db =
    let snapshot = snapshot_of db.next_snapshot auction_id state raw_data in
    (
      snapshot,
      record db { snapshots = snapshot ∷ db.snapshots; next_snapshot = suc db.next_snapshot },
    )

abbrev pub observed_before : Instant → AuctionSnapshot → Bool
observed_before before s = ltb_ℤ (instant s.observed_at) before

unfoldable pub purge_old : Instant → Database → ℕ × Database
purge_old before db = (
  length (select (observed_before before) db.snapshots),
  record db { snapshots = delete_where (observed_before before) db.snapshots },
)
