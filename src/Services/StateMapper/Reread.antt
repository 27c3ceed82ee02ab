-- ===== src/Services/StateMapper/Reread.antt =====
-- A state, its snapshot, and the state that is read back from it.
use aucnotif.Prelude.{ℕ, ◌≡◌, refl, ◌∙◌, sym, ◌↔◌, false, Option, none, some}
use aucnotif.Schemas.Json.{Json}
use aucnotif.Times.{Instant}
use aucnotif.Domain.AuctionState.{AuctionState}
use aucnotif.Domain.Diff.{has_changes, diff_states, default_config}
use aucnotif.Domain.Diff.Laws.{SameTracked, diff_unchanged_iff}
use aucnotif.Domain.Time.{ensure_aware}
use aucnotif.Repositories.Auctions.{column}
use aucnotif.Repositories.Snapshots.{snapshot_of}
use aucnotif.Services.StateMapper.{state_from_snapshot}

-- A time that is written to a column and read back through `ensure_aware` is the time that it was.
pub ensure_aware-column : (t : Option Instant) → ensure_aware (column t) ≡ t
unfolding ensure_aware
ensure_aware-column none = refl
ensure_aware-column (some t) = refl

-- The state that is read back from a state's snapshot agrees with it in every field that is compared.
pub reread-SameTracked :
    (id auction_id : ℕ) (state : AuctionState) (raw : Option Json)
    → SameTracked (state_from_snapshot (snapshot_of id auction_id state raw)) state
unfolding state_from_snapshot
reread-SameTracked id auction_id state raw = record {
  current_price = refl;
  bid_count = refl;
  end_time = ensure_aware-column state.end_time;
  buy_now_price = refl;
  is_closed = refl;
  has_winner = refl;
}

pub SameTracked-trans : (a b c : AuctionState) → SameTracked a b → SameTracked b c → SameTracked a c
SameTracked-trans a b c p q = record {
  current_price = p.current_price ∙ q.current_price;
  bid_count = p.bid_count ∙ q.bid_count;
  end_time = p.end_time ∙ q.end_time;
  buy_now_price = p.buy_now_price ∙ q.buy_now_price;
  is_closed = p.is_closed ∙ q.is_closed;
  has_winner = p.has_winner ∙ q.has_winner;
}

SameTracked-sym : (a b : AuctionState) → SameTracked a b → SameTracked b a
SameTracked-sym a b p = record {
  current_price = sym p.current_price;
  bid_count = sym p.bid_count;
  end_time = sym p.end_time;
  buy_now_price = sym p.buy_now_price;
  is_closed = sym p.is_closed;
  has_winner = sym p.has_winner;
}

-- Against the state that a snapshot was made from, the diff from the reread snapshot reports no change for
-- a state exactly if that state agrees with the original in every tracked field: the database round trip
-- neither hides a change nor makes one up.
pub reread_unchanged_iff :
    (id auction_id : ℕ) (original state : AuctionState) (raw : Option Json)
    → (has_changes (
          diff_states
            (some (state_from_snapshot (snapshot_of id auction_id original raw)))
            state
            default_config)
        ≡ false)
      ↔ SameTracked original state
reread_unchanged_iff id auction_id original state raw =
    let back = state_from_snapshot (snapshot_of id auction_id original raw) in
    let same = reread-SameTracked id auction_id original raw in
    (
      λ h.
          SameTracked-trans original back state (SameTracked-sym back original same)
            ((diff_unchanged_iff back state).0 h),
      λ h. (diff_unchanged_iff back state).1 (SameTracked-trans back original state same h),
    )
