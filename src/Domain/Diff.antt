-- ===== src/Domain/Diff.antt =====
-- app/domain/diff.py: what changed between two observations of an auction.
pub mod Laws
use aucnotif.Prelude.{
  ℕ, ◌≤◌, Bool, true, false, not, ◌&&◌, ◌||◌, Option, none, some, leb, bool_eq, opt_eq, is_some,
}
use aucnotif.Prelude.Int.{ℤ, ◌-ℤ◌, ltb_ℤ, eq_ℤ, abs}
use aucnotif.Domain.AuctionState.{AuctionState}

pub record AuctionStateDiff : Type 0 where
  pub price_changed : Bool
  pub bid_count_changed : Bool
  pub end_time_changed : Bool
  pub buy_now_price_changed : Bool
  pub is_closed_changed : Bool
  pub winner_changed : Bool
  pub new_bid_detected : Bool
  pub previous : Option AuctionState
  pub current : Option AuctionState

unfoldable pub has_changes : AuctionStateDiff → Bool
has_changes self =
    self.price_changed
    || (self.bid_count_changed
        || (self.end_time_changed
            || (self.buy_now_price_changed || (self.is_closed_changed || self.winner_changed))))

-- `a > b` of two optional values, false where either is missing.
abbrev pub both_gt : Option ℤ → Option ℤ → Bool
both_gt (some a) (some b) = ltb_ℤ b a
both_gt _ _ = false

abbrev end_moved_later : Option AuctionState → Option AuctionState → Bool
end_moved_later (some previous) (some current) = both_gt current.end_time previous.end_time
end_moved_later _ _ = false

unfoldable pub extension_detected : AuctionStateDiff → Bool
extension_detected self = self.end_time_changed && end_moved_later self.previous self.current

-- `DiffConfig`: `price_change_threshold`, which the code constrains by `ge=0`.
pub record DiffConfig : Type 0 where
  pub price_change_threshold : ℕ

abbrev pub default_config : DiffConfig
default_config = record { price_change_threshold = 1 }

-- The `if … elif` on the two prices: significant if the distance reaches the threshold.
abbrev pub price_change : ℕ → Option ℤ → Option ℤ → Bool
price_change threshold (some before) (some after) = leb threshold (abs (after -ℤ before))
price_change threshold none none = false
price_change threshold _ _ = true

-- The third alternative of `new_bid_detected`.
abbrev both_differ : Option ℤ → Option ℤ → Bool
both_differ (some a) (some b) = not (eq_ℤ a b)
both_differ _ _ = false

-- `bool(x)` of an optional Boolean.
abbrev pub truthy : Option Bool → Bool
truthy none = false
truthy (some b) = b

unfoldable pub diff_states : Option AuctionState → AuctionState → DiffConfig → AuctionStateDiff
diff_states none current cfg = record {
  price_changed = false;
  bid_count_changed = false;
  end_time_changed = false;
  buy_now_price_changed = false;
  is_closed_changed = false;
  winner_changed = false;
  new_bid_detected = false;
  previous = none;
  current = some current;
}
diff_states (some previous) current cfg = record {
  price_changed =
      price_change cfg.price_change_threshold previous.current_price current.current_price;
  bid_count_changed = not (opt_eq eq_ℤ previous.bid_count current.bid_count);
  end_time_changed = not (opt_eq eq_ℤ previous.end_time current.end_time);
  buy_now_price_changed = not (opt_eq eq_ℤ previous.buy_now_price current.buy_now_price);
  is_closed_changed = not (bool_eq previous.is_closed current.is_closed);
  winner_changed = not (opt_eq bool_eq previous.has_winner current.has_winner);
  new_bid_detected =
      truthy current.new_bid
      || (both_gt current.bid_count previous.bid_count
          || both_differ current.current_price previous.current_price);
  previous = some previous;
  current = some current;
}
