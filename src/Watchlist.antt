-- ===== src/Watchlist.antt =====
-- What app/services/auction_service.py promises: who watches what. Everything else that the database holds is
-- forgotten.
pub mod Keys
pub mod Entries
pub mod Inserts
pub mod Deletes
pub mod Rows
pub mod Links
pub mod Adds
pub mod Changes
pub mod Removes
pub mod Polls
pub mod Ticks
pub mod Open
pub mod Refines
use aucnotif.Prelude.{ℕ, ◌≡◌, Bool, true, false, ◌&&◌, List, [], ◌∷◌, is_some, ◌==◌, if◌then◌else◌}
use aucnotif.Prelude.Text.{Text, text_eq}
use aucnotif.Models.{Auction, User}
use aucnotif.Database.{Database}
use aucnotif.Services.Auctions.{
  AddOutcome, added, invalid_url, provider_failed, raised, RemoveResult, removed, not_found,
  get_watch_item,
}

-- Whether the user with a Telegram id watches the auction with an external id.
abbrev pub Watchlist : Type 0
Watchlist = ℕ → Text → Bool

abbrev pub is_entry : ℕ → Text → ℕ → Text → Bool
is_entry telegram_id external_id t e = t == telegram_id && text_eq e external_id

abbrev pub insert : ℕ → Text → Watchlist → Watchlist
insert telegram_id external_id w t e = if is_entry telegram_id external_id t e then true else w t e

abbrev pub erase : ℕ → Text → Watchlist → Watchlist
erase telegram_id external_id w t e = if is_entry telegram_id external_id t e then false else w t e

-- What adding does, by its outcome: an auction that is closed is not watched.
abbrev pub add : AddOutcome → ℕ → Watchlist → Watchlist
add (added auction already user) telegram_id w =
    if auction.is_closed then w else insert telegram_id auction.external_id w
add invalid_url telegram_id w = w
add (provider_failed error) telegram_id w = w
add raised telegram_id w = w

-- What the outcome tells: whether the auction was watched already, if it is not closed.
abbrev pub Tells : AddOutcome → ℕ → Watchlist → Type 0
Tells (added auction already user) telegram_id w =
    already ≡ (if auction.is_closed then false else w telegram_id auction.external_id)
Tells invalid_url telegram_id w = Unit
Tells (provider_failed error) telegram_id w = Unit
Tells raised telegram_id w = Unit

-- The watchlist of a database.
unfoldable pub watchlist : Database → Watchlist
watchlist db telegram_id external_id = is_some (get_watch_item telegram_id external_id db)
