-- ===== src/Tests/Watching.antt =====
-- A second user adds the auction of the test data, twice.
use aucnotif.Prelude.{ℕ, ◌≡◌, refl, true, false, is_some, none}
use aucnotif.Prelude.Int.{pos}
use aucnotif.Prelude.Text.{Text, codes}
use aucnotif.Models.{User, Auction}
use aucnotif.Domain.Validation.{validate_auction_url, extract_auction_id}
use aucnotif.Providers.{Fetched, failed, anti_bot_error}
use aucnotif.Repositories.Users
use aucnotif.Repositories.Auctions
use aucnotif.Repositories.UserAuctions
use aucnotif.Services.Auctions.{added, add_watch, watch_id, watch_as, watch, create_link}
use aucnotif.Services.Auctions.Watched.{outcome_user, outcome_closed}
use aucnotif.Services.Auctions.Twice.{add_twice}
use aucnotif.Tests.Data.{settings, database, url}

abbrev down : Text → Fetched
down link = failed (anti_bot_error (codes "down"))

succeeds : is_some (outcome_user (add_watch settings down (pos 50) 77 url database).0) ≡ true
unfolding add_watch watch_id watch_as watch create_link validate_auction_url extract_auction_id
    aucnotif.Prelude.Text.strip Users.get_or_create Users.get_by_telegram_id Users.create
    Auctions.get_by_external_id UserAuctions.get UserAuctions.create
succeeds = refl

is_open : outcome_closed (add_watch settings down (pos 50) 77 url database).0 ≡ false
unfolding add_watch watch_id watch_as watch create_link validate_auction_url extract_auction_id
    aucnotif.Prelude.Text.strip Users.get_or_create Users.get_by_telegram_id Users.create
    Auctions.get_by_external_id UserAuctions.get UserAuctions.create
is_open = refl

add_twice_example :
    let db' = (add_watch settings down (pos 50) 77 url database).1 in
    (a : Auction) × ((u : User) × (add_watch settings down (pos 60) 77 url db'
        ≡ (added a true u, db')))
add_twice_example =
    add_twice settings settings down down (pos 50) (pos 60) 77 url database succeeds is_open
