-- ===== src/Domain/AuctionState.antt =====
-- app/domain/auction_state.py: the normalised state of an auction.
use aucnotif.Prelude.{Bool, ◌&&◌, Option, none, some, opt_eq, bool_eq}
use aucnotif.Prelude.Int.{ℤ, ◌-ℤ◌, eq_ℤ}
use aucnotif.Prelude.Text.{Text, text_eq}
use aucnotif.Times.{Instant, Duration}

pub record AuctionState : Type 0 where
  pub auction_id : Text
  pub title : Option Text
  pub current_price : Option ℤ
  pub bid_count : Option ℤ
  pub start_time : Option Instant
  pub end_time : Option Instant
  pub buy_now_price : Option ℤ
  pub quantity : Option ℤ
  pub is_store : Option Bool
  pub is_closed : Bool
  pub has_winner : Option Bool
  pub new_bid : Option Bool
  pub observed_at : Instant

unfoldable pub until_end : AuctionState → Option Duration
until_end self = elim self.end_time [ none ↦ none | some end ↦ some (end -ℤ self.observed_at) ]

unfoldable pub is_equivalent_to : AuctionState → AuctionState → Bool
is_equivalent_to self other =
    opt_eq eq_ℤ self.current_price other.current_price
    && (opt_eq eq_ℤ self.bid_count other.bid_count
        && (opt_eq eq_ℤ self.start_time other.start_time
            && (opt_eq eq_ℤ self.end_time other.end_time
                && (opt_eq eq_ℤ self.buy_now_price other.buy_now_price
                    && (opt_eq eq_ℤ self.quantity other.quantity
                        && (opt_eq bool_eq self.is_store other.is_store
                            && (bool_eq self.is_closed other.is_closed
                                && (opt_eq bool_eq self.has_winner other.has_winner
                                    && (opt_eq bool_eq self.new_bid other.new_bid
                                        && opt_eq text_eq self.title other.title)))))))))
