-- ===== src/Domain/Notifications.antt =====
-- app/domain/notifications.py: which notifications a poll gives rise to, and their keys.
pub mod Keys
pub mod Kinds
pub mod Timing
use aucnotif.Prelude.{
  ℕ, Bool, true, false, ◌&&◌, ◌||◌, Option, none, some, List, [], ◌∷◌, ◌++◌, if◌then◌else◌,
}
use aucnotif.Prelude.Int.{◌-ℤ◌, ltb_ℤ, leb_ℤ}
use aucnotif.Times.{Instant, Duration, Datetime, naive, aware, first_instant, seconds, minutes}
use aucnotif.Config.{Settings}
use aucnotif.Domain.AuctionState.{AuctionState}
use aucnotif.Domain.Diff.{AuctionStateDiff, has_changes, extension_detected}

pub data NotificationKind : Type 0 where
  t_30m t_15m t_5m change extension closed : NotificationKind

pub record NotificationThresholds : Type 0 where
  pub before_30m : Duration
  pub before_15m : Duration
  pub before_5m : Duration

abbrev pub default_thresholds : NotificationThresholds
default_thresholds = record {
  before_30m = minutes 30;
  before_15m = minutes 15;
  before_5m = minutes 5;
}

unfoldable pub from_settings : Settings → NotificationThresholds
from_settings settings = record {
  before_30m = seconds settings.notify_30m_before_seconds;
  before_15m = seconds settings.notify_15m_before_seconds;
  before_5m = seconds settings.notify_5m_before_seconds;
}

pub record NotificationDecision : Type 0 where
  pub kind : NotificationKind
  pub previous : Option AuctionState
  pub current : Option AuctionState

-- `previous_poll_time < crossing <= now`
abbrev pub crossed : Instant → Instant → Instant → Bool
crossed previous_poll_time now crossing = ltb_ℤ previous_poll_time crossing && leb_ℤ crossing now

module _ (previous current : AuctionState) where
  abbrev pub decide_as : NotificationKind → NotificationDecision
  decide_as k = record { kind = k; previous = some previous; current = some current }

  -- The loop over the kinds and their thresholds.
  unfoldable pub timed_decisions :
      Instant → Instant → Instant → List (NotificationKind × Duration) → List NotificationDecision
  timed_decisions end_time previous_poll_time now [] = []
  timed_decisions end_time previous_poll_time now ((kind, threshold) ∷ rest) =
      let later = timed_decisions end_time previous_poll_time now rest in
      if crossed previous_poll_time now (end_time -ℤ threshold)
      then decide_as kind ∷ later
      else later

  -- The `if … elif … elif` on the diff.
  unfoldable pub state_decisions : AuctionStateDiff → List NotificationDecision
  state_decisions diff =
      if diff.is_closed_changed && current.is_closed
      then decide_as closed ∷ []
      else if extension_detected diff
      then (decide_as extension
          ∷ (if has_changes diff
                && (diff.price_changed || (diff.bid_count_changed || diff.new_bid_detected))
              then decide_as change ∷ []
              else []))
      else if has_changes diff
      then decide_as change ∷ []
      else []

abbrev pub timed_kinds : NotificationThresholds → List (NotificationKind × Duration)
timed_kinds thresholds =
    (t_30m, thresholds.before_30m)
    ∷ (t_15m, thresholds.before_15m)
    ∷ (t_5m, thresholds.before_5m)
    ∷ []

-- The `if current.end_time is not None` round the loop.
abbrev pub timed_part :
    AuctionState
    → AuctionState
    → Instant
    → Instant
    → NotificationThresholds
    → Option Instant
    → List NotificationDecision
timed_part previous current previous_poll_time now thresholds none = []
timed_part previous current previous_poll_time now thresholds (some end_time) =
    timed_decisions previous current end_time previous_poll_time now (timed_kinds thresholds)

-- Whether a time less each threshold is a time of the year 1 or later.
abbrev pub in_range : Instant → NotificationThresholds → Bool
in_range end_time th =
    leb_ℤ first_instant (end_time -ℤ th.before_30m)
    && (leb_ℤ first_instant (end_time -ℤ th.before_15m)
        && leb_ℤ first_instant (end_time -ℤ th.before_5m))

-- Whether `evaluate_notifications` ends without an exception where the times come from a database: the crossings
-- of an end time can be computed and compared: a naive time cannot be compared with them.
abbrev pub compares : Datetime → NotificationThresholds → Option Instant → Bool
compares previous_poll_time th none = true
compares (naive reading) th (some end_time) = false
compares (aware t) th (some end_time) = in_range end_time th

unfoldable pub evaluate_notifications :
    Option AuctionState
    → AuctionState
    → AuctionStateDiff
    → Instant
    → Instant
    → NotificationThresholds
    → List NotificationDecision
evaluate_notifications none current diff previous_poll_time now thresholds = []
evaluate_notifications (some previous) current diff previous_poll_time now thresholds =
    timed_part previous current previous_poll_time now thresholds current.end_time
    ++ state_decisions previous current diff

-- The text of a key, by what it is made from: `end_time.isoformat()` or `str(snapshot_id)`. Both texts
-- determine the value, and no text is of both forms.
pub data DedupKey : Type 0 where
  end_time_key : Instant → DedupKey
  snapshot_key : ℕ → DedupKey

abbrev pub is_timed : NotificationKind → Bool
is_timed t_30m = true
is_timed t_15m = true
is_timed t_5m = true
is_timed _ = false

abbrev pub known_end : Option AuctionState → Option Instant
known_end none = none
known_end (some state) = state.end_time

abbrev pub end_key : Option Instant → Option DedupKey
end_key none = none
end_key (some end_time) = some (end_time_key end_time)

abbrev pub id_key : Option ℕ → Option DedupKey
id_key none = none
id_key (some snapshot_id) = some (snapshot_key snapshot_id)

-- `none` stands for the `ValueError`.
unfoldable pub dedup_key_for : NotificationDecision → Option ℕ → Option DedupKey
dedup_key_for decision snapshot_id =
    if is_timed decision.kind then end_key (known_end decision.current) else id_key snapshot_id
