-- ===== src/Tests/Polls.antt =====
-- Polls of the auction of the test data.
use aucnotif.Prelude.{◌≡◌, refl, true, none, some, List, [], ◌∷◌, arith}
use aucnotif.Prelude.Int.{pos}
use aucnotif.Prelude.Text.{codes}
use aucnotif.Times.{Instant}
use aucnotif.Repositories.Auctions
use aucnotif.Repositories.Snapshots
use aucnotif.Models.{Auction}
use aucnotif.Repositories.Columns.{takes_snapshot}
use aucnotif.Prelude.{subst, some_inv, sym, ◌∙◌}
use aucnotif.Providers.{Fetched, fetched, ProviderError, page_data_parse_error, rate_limited_error}
use aucnotif.Notifications.Engine.Jobs.{IsDefined}
use aucnotif.Services.StateMapper.{state_from_snapshot}
use aucnotif.Services.Monitoring.{poll, last_poll_time}
use aucnotif.Services.Monitoring.Total.{poll_commits, IsAware, IsOrdinary}
use aucnotif.Services.Monitoring.Errors.{stops_after_errors, poll_failing, Counts}
use aucnotif.Tests.Data.{settings, seen_at, database, auction, end}

abbrev dearer : Fetched
dearer = fetched (seen_at 200 (pos 60) (some end)) none

known : Auctions.get_by_id 1 database ≡ some auction
unfolding Auctions.get_by_id
known = refl

ordinary :
    (a : Auction)
    → Auctions.get_by_id 1 database ≡ some a
    → IsOrdinary settings a (Snapshots.get_latest 1 database) dearer
unfolding Snapshots.get_latest state_from_snapshot takes_snapshot aucnotif.Prelude.Int.◌-ℤ◌
    aucnotif.Domain.Notifications.from_settings
ordinary a h =
    (subst (λ x. IsAware (last_poll_time x)) (some_inv (sym known ∙ h)) tt, (refl, (refl, refl)))

poll_commits_example : IsDefined (poll settings (λ _. dearer) (pos 70) 1 database)
poll_commits_example = poll_commits settings (λ _. dearer) (pos 70) 1 database ordinary

abbrev failures : List (Instant × ProviderError)
failures =
    (pos 60, page_data_parse_error (codes "no items"))
    ∷ (pos 100, rate_limited_error 503 (codes "rate limited"))
    ∷ []

stops_after_errors_example :
    Counts 2 true (Auctions.get_by_id 1 (poll_failing settings 1 failures database))
stops_after_errors_example =
    stops_after_errors settings 1 failures auction database 0 known (tt, (tt, tt)) (omega arith)
      refl refl
