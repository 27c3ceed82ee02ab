-- ===== src/Tests/Repeated.antt =====
-- Two polls of the auction of the test data, which nobody watches here.
use aucnotif.Prelude.{◌≡◌, refl, true, none, some, [], ◌∷◌, arith}
use aucnotif.Prelude.Int.{pos, int_laws, ◌-ℤ◌}
use aucnotif.Domain.AuctionState.{AuctionState}
use aucnotif.Domain.Diff.{diff_states, has_changes, extension_detected}
use aucnotif.Domain.Diff.Laws.{SameTracked}
use aucnotif.Domain.Notifications
use aucnotif.Domain.Notifications.{evaluate_notifications, timed_decisions, state_decisions}
use aucnotif.Models.{Auction}
use aucnotif.Database.{Database}
use aucnotif.Repositories.Auctions
use aucnotif.Repositories.Auctions.{with_state, without_error}
use aucnotif.Repositories.Snapshots
use aucnotif.Repositories.Snapshots.{snapshot_of}
use aucnotif.Repositories.UserAuctions.{list_watchers}
use aucnotif.Providers.{fetched}
use aucnotif.Services.StateMapper.{state_from_snapshot}
use aucnotif.Services.Monitoring.{
  Polled, polled, poll, observe, store_observation, notify, rescheduled,
}
use aucnotif.Services.Monitoring.Latest.{repeated_poll}
use aucnotif.Services.Monitoring.Next.{IsScheduled, polled-IsScheduled}
use aucnotif.Tests.Data.{settings, database, auction, snapshot, seen_at, end}

abbrev unwatched : Database
unwatched = record database { user_auctions = [] }

abbrev dearer : AuctionState
dearer = seen_at 200 (pos 60) (some end)

abbrev as_dear : AuctionState
as_dear = seen_at 200 (pos 90) (some end)

abbrev row_after : AuctionState → Auction → Auction
row_after state a = rescheduled settings state a

abbrev first_poll : Polled
first_poll = (
  polled,
  record unwatched {
    auctions = row_after dearer (with_state dearer (without_error auction)) ∷ [];
    snapshots = snapshot_of 2 1 dearer none ∷ snapshot ∷ [];
    next_snapshot = 3;
  },
  [],
)

abbrev second_poll : Polled
second_poll = (
  polled,
  record (first_poll.1) {
    auctions =
        row_after as_dear
          (without_error (row_after dearer (with_state dearer (without_error auction))))
        ∷ [];
  },
  [],
)

known : Auctions.get_by_id 1 unwatched ≡ some auction
unfolding Auctions.get_by_id
known = refl

first_runs : poll settings (λ _. fetched dearer none) (pos 70) 1 unwatched ≡ some first_poll
unfolding aucnotif.Services.Monitoring.goes_through aucnotif.Repositories.Columns.takes_snapshot
    poll observe notify store_observation evaluate_notifications timed_decisions state_decisions
    diff_states extension_detected has_changes state_from_snapshot list_watchers rescheduled ◌-ℤ◌
    Auctions.get_by_id Auctions.clear_error Auctions.modify Auctions.update_from_state
    Snapshots.get_latest Snapshots.create Notifications.from_settings
first_runs = refl

known_again :
    Auctions.get_by_id 1 (first_poll.1)
    ≡ some (row_after dearer (with_state dearer (without_error auction)))
unfolding Auctions.get_by_id rescheduled
known_again = refl

second_runs :
    poll settings (λ _. fetched as_dear none) (pos 100) 1 (first_poll.1) ≡ some second_poll
unfolding aucnotif.Services.Monitoring.goes_through aucnotif.Repositories.Columns.takes_snapshot
    poll observe notify store_observation evaluate_notifications timed_decisions state_decisions
    diff_states extension_detected has_changes state_from_snapshot list_watchers rescheduled ◌-ℤ◌
    Auctions.get_by_id Auctions.clear_error Auctions.modify Auctions.update_from_state
    Snapshots.get_latest Snapshots.create Notifications.from_settings
second_runs = refl

still_active :
    (row_after dearer (with_state dearer (without_error auction))).monitoring_active ≡ true
unfolding rescheduled
still_active = refl

same : SameTracked dearer as_dear
same = record {
  current_price = refl;
  bid_count = refl;
  end_time = refl;
  buy_now_price = refl;
  is_closed = refl;
  has_winner = refl;
}

repeated_poll_example : (second_poll.1).snapshots ≡ (first_poll.1).snapshots
repeated_poll_example =
    repeated_poll settings (λ _. fetched dearer none) (λ _. fetched as_dear none) (pos 70) (pos 100)
      1 unwatched auction (row_after dearer (with_state dearer (without_error auction))) dearer
      as_dear none none first_poll second_poll known refl refl ((omega int_laws, omega arith), tt)
      first_runs known_again still_active refl same second_runs

polled-IsScheduled_example :
    (a' : Auction) × ((Auctions.get_by_id 1 (first_poll.1) ≡ some a')
      × IsScheduled settings dearer a')
polled-IsScheduled_example =
    polled-IsScheduled settings (λ _. fetched dearer none) (pos 70) 1 unwatched auction dearer none
      first_poll known refl refl first_runs
