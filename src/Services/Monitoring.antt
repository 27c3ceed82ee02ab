-- ===== src/Services/Monitoring.antt =====
-- app/services/monitoring_service.py: one poll of one auction. The provider is a function from the link
-- to what it returns or raises. `now` is the time that the clock shows where the code reads it.
pub mod Backoff
pub mod Errors
pub mod Total
pub mod Observed
pub mod Latest
pub mod Network
pub mod Next
use aucnotif.Prelude.{
  ℕ, suc, ◌+◌, ◌-◌, ◌*◌, ◌^◌, min, Bool, true, false, not, ◌&&◌, ◌||◌, Option, none, some, List, [],
  ◌∷◌, ◌++◌, leb, if◌then◌else◌, is_some,
}
use aucnotif.Prelude.Int.{pos, ◌+ℤ◌, ◌-ℤ◌, leb_ℤ}
use aucnotif.Prelude.Lists.{take}
use aucnotif.Prelude.Text.{Text, codes}
use aucnotif.Prelude.Decimal.{decimal}
use aucnotif.Times.{Instant, Duration, Datetime, naive, aware, first_instant}
use aucnotif.Config.{Settings}
use aucnotif.Schemas.Json.{Json}
use aucnotif.Domain.AuctionState.{AuctionState, until_end}
use aucnotif.Domain.Diff.{AuctionStateDiff, diff_states, default_config, has_changes}
use aucnotif.Domain.Notifications
use aucnotif.Domain.Notifications.{
  compares, NotificationDecision, NotificationThresholds, evaluate_notifications,
}
use aucnotif.Domain.Polling
use aucnotif.Domain.Polling.{polling_interval_for}
use aucnotif.Models.{User, Auction, UserAuction, AuctionSnapshot}
use aucnotif.Database.{Database}
use aucnotif.Repositories.Auctions
use aucnotif.Repositories.Columns.{takes_snapshot}
use aucnotif.Repositories.Snapshots
use aucnotif.Repositories.Snapshots.{instant}
use aucnotif.Repositories.UserAuctions.{list_watchers}
use aucnotif.Notifications.Engine.{create_jobs, ◌>>=◌, Created}
use aucnotif.Providers.{
  ProviderError, rate_limited_error, anti_bot_error, page_data_not_found_error,
  page_data_parse_error, auction_gone_error, Fetched, fetched, failed, crashed,
}
use aucnotif.Services.StateMapper.{state_from_snapshot}

pub data ErrorType : Type 0 where
  rate_limited antibot gone parse_error no_pagedata : ErrorType

-- The texts that `poll` returns.
pub data PollResult : Type 0 where
  not_found inactive polled : PollResult
  error : ErrorType → PollResult
  stopped : ErrorType → PollResult

-- The result, the database at the commit, and the notifications handed to the queue after it.
abbrev pub Polled : Type 0
Polled = PollResult × Database × List ℕ

-- The settings are in microseconds. Past 1024 errors in a row the power is too large for Python's floats.
unfoldable pub backoff : Settings → ℕ → Duration
backoff settings error_count = pos (
    min (settings.yahoo_backoff_base_seconds * 2 ^ (error_count - 1))
      settings.yahoo_backoff_max_seconds)

unfoldable pub current_errors : ℕ → Database → ℕ
current_errors auction_id db = elim (Auctions.get_by_id auction_id db) [
  | none ↦ 0
  | some auction ↦ auction.consecutive_errors
]

abbrev pub with_last_error : Text → Auction → Auction
with_last_error message auction = record auction { last_error = some (take 1000 message) }

-- `_handle_error` with `stop=True`.
unfoldable pub stop_with_error : ℕ → ErrorType → Text → Database → Polled
stop_with_error auction_id error_type message db = (
  stopped error_type,
  Auctions.modify auction_id (with_last_error message) (Auctions.stop_monitoring auction_id db),
  [],
)

-- `_handle_error` with `stop=False`.
unfoldable pub retry_later : Settings → Instant → ℕ → ErrorType → Text → Database → Polled
retry_later settings now auction_id error_type message db =
    let next_poll_at = now +ℤ backoff settings (suc (current_errors auction_id db)) in
    let (errors, recorded) = Auctions.record_error auction_id message next_poll_at db in
    (
      error error_type,
      if leb settings.yahoo_max_consecutive_errors errors
          then Auctions.stop_monitoring auction_id recorded
          else recorded,
      [],
    )

unfoldable pub handle_error : Settings → Instant → ℕ → ErrorType → Text → Bool → Database → Polled
handle_error settings now auction_id error_type message stop db =
    if stop
    then stop_with_error auction_id error_type message db
    else retry_later settings now auction_id error_type message db

-- The text of a `RateLimitedError`.
abbrev pub http_message : ℕ → Text → Text
http_message status message = codes "HTTP " ++ (decimal status ++ (codes ": " ++ message))

-- The `except` clauses.
unfoldable pub on_provider_error : Settings → Instant → ℕ → ProviderError → Database → Polled
on_provider_error settings now auction_id (rate_limited_error status m) =
    handle_error settings now auction_id rate_limited (http_message status m) false
on_provider_error settings now auction_id (anti_bot_error m) =
    handle_error settings now auction_id antibot m true
on_provider_error settings now auction_id (auction_gone_error m) =
    handle_error settings now auction_id gone m true
on_provider_error settings now auction_id (page_data_parse_error m) =
    handle_error settings now auction_id parse_error m false
on_provider_error settings now auction_id (page_data_not_found_error m) =
    handle_error settings now auction_id no_pagedata m false

abbrev pub previous_state : Option AuctionSnapshot → Option AuctionState
previous_state none = none
previous_state (some latest) = some (state_from_snapshot latest)

-- `if changed:` a new snapshot, and the auction's row brought up to date.
unfoldable pub store_observation :
    Bool → ℕ → AuctionState → Option Json → Database → Option ℕ × Database
store_observation false auction_id state raw_data db = (none, db)
store_observation true auction_id state raw_data db =
    let (snapshot, created) = Snapshots.create auction_id state raw_data db in
    (some snapshot.id, Auctions.update_from_state auction_id state created)

-- `if decisions and watchers:`
unfoldable pub notify :
    List NotificationDecision
    → List (User × UserAuction)
    → Option ℕ
    → Text
    → Instant
    → Database
    → Option Created
notify [] watchers snapshot_id url now db = some ([], db)
notify decisions [] snapshot_id url now db = some ([], db)
notify decisions watchers snapshot_id url now db =
    create_jobs decisions watchers snapshot_id url now db

-- The last assignments to the auction before the commit.
unfoldable pub rescheduled : Settings → AuctionState → Auction → Auction
rescheduled settings state auction =
    if state.is_closed
    then record auction {
      monitoring_active = false;
      next_poll_at = none;
      last_polled_at = some (aware state.observed_at);
    }
    else record auction {
      next_poll_at = some (
          state.observed_at
          +ℤ polling_interval_for (until_end state) (Polling.from_settings settings));
      last_polled_at = some (aware state.observed_at);
    }

-- What follows the `try` when the fetch has succeeded.
unfoldable pub observe :
    Settings
    → Instant
    → ℕ
    → Auction
    → Instant
    → AuctionState
    → Option Json
    → Database
    → Option Polled
observe settings now auction_id auction previous_poll_time state raw_data db =
    let cleared = Auctions.clear_error auction_id db in
    let previous = previous_state (Snapshots.get_latest auction_id cleared) in
    let diff = diff_states previous state default_config in
    let changed = not (is_some previous) || has_changes diff in
    let (snapshot_id, stored) = store_observation changed auction_id state raw_data cleared in
    let decisions =
      evaluate_notifications previous state diff previous_poll_time state.observed_at
        (Notifications.from_settings settings) in
    do
      (ids, notified) ←
          notify decisions (list_watchers auction_id stored) snapshot_id auction.url now stored
      some (polled, Auctions.modify auction_id (rescheduled settings state) notified, ids)

-- `auction.last_polled_at or auction.created_at`
abbrev pub last_poll_time : Auction → Datetime
last_poll_time auction = elim auction.last_polled_at [ none ↦ auction.created_at | some t ↦ t ]

-- Whether the flush takes the new rows, if something changed, and the times can be compared, if there was a
-- snapshot. Otherwise there is an exception before the commit, and it does not matter where.
unfoldable pub goes_through : Settings → ℕ → Auction → AuctionState → Option Json → Database → Bool
goes_through settings auction_id auction state raw_data db =
    let previous =
      previous_state (Snapshots.get_latest auction_id (Auctions.clear_error auction_id db)) in
    let changed =
      not (is_some previous) || has_changes (diff_states previous state default_config) in
    (not changed || takes_snapshot state raw_data)
    && (not (is_some previous)
        || compares (last_poll_time auction) (Notifications.from_settings settings) state.end_time)

abbrev pub on_fetched : Settings → Instant → ℕ → Auction → Database → Fetched → Option Polled
on_fetched settings now auction_id auction db (fetched state raw_data) =
    let observed =
      observe settings now auction_id auction (instant (last_poll_time auction)) state raw_data
        db in
    if goes_through settings auction_id auction state raw_data db then observed else none
on_fetched settings now auction_id auction db (failed e) =
    some (on_provider_error settings now auction_id e db)
on_fetched settings now auction_id auction db crashed = none

-- `none` stands for an exception out of `poll`: the session is closed without a commit.
unfoldable pub poll : Settings → (Text → Fetched) → Instant → ℕ → Database → Option Polled
poll settings provider now auction_id db = elim (Auctions.get_by_id auction_id db) [
  | none ↦ some (not_found, db, [])
  | some auction ↦
      if auction.monitoring_active
      then on_fetched settings now auction_id auction db (provider auction.url)
      else some (inactive, db, [])
]

-- The database after a poll: as before, if an exception left it without a commit.
abbrev pub committed : Database → Option Polled → Database
committed before none = before
committed before (some done) = done.1
