-- ===== src/Domain/Diff/Laws.antt =====
-- `diff_states` against the fields that it compares.
use aucnotif.Prelude.{
  ◌≡◌, refl, ◌∙◌, ap, ◌↔◌, Bool, true, false, not, ◌&&◌, Option, none, some, arith, opt_eq, bool_eq,
  bool_eq_iff, &&_iff,
}
use aucnotif.Prelude.Int.{ℤ, eq_ℤ, ◌<ℤ◌, eq_ℤ_iff, -ℤ_parts}
use aucnotif.Prelude.Text.{text_eq}
use aucnotif.Domain.AuctionState.{AuctionState, is_equivalent_to}
use aucnotif.Domain.Diff.{
  has_changes, extension_detected, diff_states, default_config, price_change, both_gt,
}

-- The fields that a user is told about.
pub record SameTracked (a b : AuctionState) : Type 0 where
  pub current_price : a.current_price ≡ b.current_price
  pub bid_count : a.bid_count ≡ b.bid_count
  pub end_time : a.end_time ≡ b.end_time
  pub buy_now_price : a.buy_now_price ≡ b.buy_now_price
  pub is_closed : a.is_closed ≡ b.is_closed
  pub has_winner : a.has_winner ≡ b.has_winner

pub opt_eq_ℤ_iff : (a b : Option ℤ) → (opt_eq eq_ℤ a b ≡ true) ↔ (a ≡ b)
opt_eq_ℤ_iff none none = ground arith
opt_eq_ℤ_iff none (some b) = ground arith
opt_eq_ℤ_iff (some a) none = ground arith
opt_eq_ℤ_iff (some a) (some b) = ground (arith, eq_ℤ_iff a b)

pub opt_eq_bool_iff : (a b : Option Bool) → (opt_eq bool_eq a b ≡ true) ↔ (a ≡ b)
opt_eq_bool_iff a b = ground arith

-- At the default threshold of 1 every change of the price counts.
price_change_default : (a b : Option ℤ) → price_change 1 a b ≡ not (opt_eq eq_ℤ a b)
price_change_default none none = refl
price_change_default none (some b) = refl
price_change_default (some a) none = refl
price_change_default (some a) (some b) = ground (arith, -ℤ_parts b a)

-- The tests of `diff_states` are among those of `is_equivalent_to`.
tracked_of_all :
    (price bids start end buy_now quantity store closed winner new_bid title : Bool)
    → (price
        && (bids
            && (start
                && (end
                    && (buy_now
                        && (quantity && (store && (closed && (winner && (new_bid && title))))))))))
      ≡ true
    → (price && (bids && (end && (buy_now && (closed && winner))))) ≡ true
tracked_of_all price bids start end buy_now quantity store closed winner new_bid title h =
    ground arith

moved_later_iff :
    (before after : Option ℤ)
    → ((not (opt_eq eq_ℤ before after) && both_gt after before) ≡ true)
      ↔ ((b : ℤ) × (a : ℤ) × (before ≡ some b) × (after ≡ some a) × (b <ℤ a))
moved_later_iff none none = (λ h. cc h, λ h. cc (h.2))
moved_later_iff none (some a) = (λ h. cc h, λ h. cc (h.2))
moved_later_iff (some b) none = (λ h. cc h, λ h. cc (h.3))
moved_later_iff (some b) (some a) =
    (λ h. (b, a, refl, refl, ground arith), λ (b', a', p, q, l). ground arith)

module _ (previous current : AuctionState) where
  tracked_test : Bool
  tracked_test =
      opt_eq eq_ℤ previous.current_price current.current_price
      && (opt_eq eq_ℤ previous.bid_count current.bid_count
          && (opt_eq eq_ℤ previous.end_time current.end_time
              && (opt_eq eq_ℤ previous.buy_now_price current.buy_now_price
                  && (bool_eq previous.is_closed current.is_closed
                      && opt_eq bool_eq previous.has_winner current.has_winner))))

  has_changes-diff :
      has_changes (diff_states (some previous) current default_config) ≡ not tracked_test
  unfolding has_changes diff_states tracked_test
  has_changes-diff =
      ground (arith, price_change_default previous.current_price current.current_price)

  tracked_test_iff : (tracked_test ≡ true) ↔ SameTracked previous current
  unfolding tracked_test
  tracked_test_iff =
      let parts = &&_iff _ _ (opt_eq_ℤ_iff previous.current_price current.current_price) (
        &&_iff _ _ (opt_eq_ℤ_iff previous.bid_count current.bid_count) (
          &&_iff _ _ (opt_eq_ℤ_iff previous.end_time current.end_time) (
            &&_iff _ _ (opt_eq_ℤ_iff previous.buy_now_price current.buy_now_price) (
              &&_iff _ _ (bool_eq_iff previous.is_closed current.is_closed)
                (opt_eq_bool_iff previous.has_winner current.has_winner))))) in
      (
        λ h.
            let (p, (b, (e, (n, (c, w))))) = parts.0 h in
            record {
              current_price = p;
              bid_count = b;
              end_time = e;
              buy_now_price = n;
              is_closed = c;
              has_winner = w;
            },
        λ s. parts.1 (
          s.current_price,
          (s.bid_count, (s.end_time, (s.buy_now_price, (s.is_closed, s.has_winner)))),
        ),
      )

  -- With the default threshold the diff reports no change exactly when price, bid count, end time,
  -- buy-now price, closedness and winner are all the same as before.
  pub diff_unchanged_iff :
      (has_changes (diff_states (some previous) current default_config) ≡ false)
      ↔ SameTracked previous current
  diff_unchanged_iff = ground (arith, has_changes-diff, tracked_test_iff)

  -- An extension is detected exactly when both end times are known and the new one is later.
  pub extension_iff :
      (extension_detected (diff_states (some previous) current default_config) ≡ true) ↔ (
        (before after : ℤ) × (previous.end_time ≡ some before)
        × (current.end_time ≡ some after)
        × (before <ℤ after))
  unfolding extension_detected diff_states
  extension_iff = moved_later_iff previous.end_time current.end_time

  -- States that are equivalent in the sense of `is_equivalent_to` show no change.
  pub equivalent_unchanged :
      is_equivalent_to previous current ≡ true
      → has_changes (diff_states (some previous) current default_config) ≡ false
  unfolding is_equivalent_to tracked_test
  equivalent_unchanged h =
      has_changes-diff
      ∙ ap not (
          tracked_of_all (opt_eq eq_ℤ previous.current_price current.current_price)
            (opt_eq eq_ℤ previous.bid_count current.bid_count)
            (opt_eq eq_ℤ previous.start_time current.start_time)
            (opt_eq eq_ℤ previous.end_time current.end_time)
            (opt_eq eq_ℤ previous.buy_now_price current.buy_now_price)
            (opt_eq eq_ℤ previous.quantity current.quantity)
            (opt_eq bool_eq previous.is_store current.is_store)
            (bool_eq previous.is_closed current.is_closed)
            (opt_eq bool_eq previous.has_winner current.has_winner)
            (opt_eq bool_eq previous.new_bid current.new_bid)
            (opt_eq text_eq previous.title current.title) h)
