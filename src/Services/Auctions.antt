-- ===== src/Services/Auctions.antt =====
-- app/services/auction_service.py: a user's watchlist. An exception leaves the transaction without a
-- commit, so the database stays as it was.
pub mod Watched
pub mod Links
pub mod Twice
pub mod Known
use aucnotif.Prelude.{
  ℕ, Bool, true, false, not, Option, none, some, List, if◌then◌else◌, ◌==◌, ◌&&◌,
}
use aucnotif.Prelude.Int.{◌+ℤ◌}
use aucnotif.Prelude.Text.{Text}
use aucnotif.Times.{Instant, seconds}
use aucnotif.Config.{Settings}
use aucnotif.Domain.Validation.{validate_auction_url, extract_auction_id}
use aucnotif.Models.{User, Auction, UserAuction}
use aucnotif.Database.{Database}
use aucnotif.Repositories.Users
use aucnotif.Repositories.Auctions
use aucnotif.Repositories.Columns.{takes_id, takes_state}
use aucnotif.Repositories.UserAuctions
use aucnotif.Providers.{ProviderError, Fetched, fetched, failed, crashed}

-- `AddAuctionResult` with the user, or the exception: `raised` is one that the bot does not catch.
pub data AddOutcome : Type 0 where
  added : Auction → Bool → User → AddOutcome
  invalid_url : AddOutcome
  provider_failed : ProviderError → AddOutcome
  raised : AddOutcome

-- From the new link on.
unfoldable pub create_link : Instant → User → Auction → Database → AddOutcome × Database
create_link now user auction db =
    let (link, linked) = UserAuctions.create user.id auction.id now db in
    if not auction.monitoring_active && not auction.is_closed
    then (
      added (Auctions.resumed now auction) false user,
      Auctions.resume_monitoring auction.id now linked,
    )
    else (added auction false user, linked)

-- From `if auction.is_closed` on.
unfoldable pub watch : Instant → User → Auction → Database → AddOutcome × Database
watch now user auction db =
    if auction.is_closed
    then (added auction false user, db)
    else elim (UserAuctions.get user.id auction.id db) [
      | some link ↦ (added auction true user, db)
      | none ↦ create_link now user auction db
    ]

-- The auction is not known yet: `before` is the database that an exception falls back to.
unfoldable pub watch_new :
    Instant → Text → Text → User → Database → Database → Fetched → AddOutcome × Database
watch_new now canonical_url external_id user before db (failed e) = (provider_failed e, before)
watch_new now canonical_url external_id user before db (fetched state raw_data) =
    let (auction, created) = Auctions.create canonical_url external_id state now db in
    let watched = watch now user auction created in
    if takes_id external_id && takes_state state then watched else (raised, before)
watch_new now canonical_url external_id user before db crashed = (raised, before)

-- From the search for the auction on; `before` as above.
unfoldable pub watch_as :
    (Text → Fetched) → Instant → Text → Text → Database → User × Database → AddOutcome × Database
watch_as provider now canonical_url external_id before (user, with_user) =
    elim (Auctions.get_by_external_id external_id with_user) [
      | some auction ↦ watch now user auction with_user
      | none ↦
          watch_new now canonical_url external_id user before with_user (provider canonical_url)
    ]

unfoldable pub watch_id :
    Settings → (Text → Fetched) → Instant → ℕ → Text → Text → Database → AddOutcome × Database
watch_id settings provider now telegram_id canonical_url external_id db =
    watch_as provider now canonical_url external_id db
      (Users.get_or_create telegram_id settings.default_language db)

unfoldable pub add_watch :
    Settings → (Text → Fetched) → Instant → ℕ → Text → Database → AddOutcome × Database
add_watch settings provider now telegram_id url db = elim (validate_auction_url url) [
  | none ↦ (invalid_url, db)
  | some canonical_url ↦ elim (extract_auction_id canonical_url) [
    | none ↦ (invalid_url, db)
    | some external_id ↦ watch_id settings provider now telegram_id canonical_url external_id db
  ]
]

pub data RemoveResult : Type 0 where
  not_found removed : RemoveResult

-- The user and the auction that a request names, if both are known.
unfoldable pub find : ℕ → Text → Database → Option (User × Auction)
find telegram_id external_id db = elim (Users.get_by_telegram_id telegram_id db) [
  | none ↦ none
  | some user ↦ elim (Auctions.get_by_external_id external_id db) [
    | none ↦ none
    | some auction ↦ some (user, auction)
  ]
]

unfoldable pub after_delete :
    Settings → Instant → ℕ → Database → Bool × Database → RemoveResult × Database
after_delete settings now auction_id db (false, _) = (not_found, db)
after_delete settings now auction_id db (true, deleted) = (
  removed,
  if UserAuctions.count_watchers auction_id deleted == 0
      then Auctions.set_next_poll_at auction_id
          (now +ℤ seconds settings.unwatch_grace_period_seconds) deleted
      else deleted,
)

unfoldable pub remove_watch : Settings → Instant → ℕ → Text → Database → RemoveResult × Database
remove_watch settings now telegram_id external_id db = elim (find telegram_id external_id db) [
  | none ↦ (not_found, db)
  | some (user, auction) ↦
      after_delete settings now auction.id db (UserAuctions.delete user.id auction.id db)
]

unfoldable pub list_for_user : ℕ → Database → Option (User × List (UserAuction × Auction))
list_for_user telegram_id db = elim (Users.get_by_telegram_id telegram_id db) [
  | none ↦ none
  | some user ↦ some (user, UserAuctions.list_for_user user.id db)
]

unfoldable pub get_watch_item : ℕ → Text → Database → Option (UserAuction × Auction)
get_watch_item telegram_id external_id db = elim (find telegram_id external_id db) [
  | none ↦ none
  | some (user, auction) ↦ elim (UserAuctions.get user.id auction.id db) [
    | none ↦ none
    | some link ↦ some (link, auction)
  ]
]

-- The new value, or `none` if there is no such link.
unfoldable pub toggle_notifications : ℕ → Text → Database → Option Bool × Database
toggle_notifications telegram_id external_id db = elim (find telegram_id external_id db) [
  | none ↦ (none, db)
  | some (user, auction) ↦ elim (UserAuctions.get user.id auction.id db) [
    | none ↦ (none, db)
    | some link ↦
        let new_value = not link.notifications_enabled in
        (some new_value, (UserAuctions.set_notifications_enabled user.id auction.id new_value db).1)
  ]
]

unfoldable pub set_label : ℕ → Text → Option Text → Database → Option Bool × Database
set_label telegram_id external_id label db = elim (find telegram_id external_id db) [
  | none ↦ (none, db)
  | some (user, auction) ↦ elim (UserAuctions.get user.id auction.id db) [
    | none ↦ (none, db)
    | some link ↦ (some true, (UserAuctions.set_label user.id auction.id label db).1)
  ]
]
