-- ===== src/Services/Auctions/Watched.antt =====
-- What it is for a user to watch an auction, and adding it then.
use aucnotif.Prelude.{
  ℕ, ◌≡◌, ap, ◌∙◌, Bool, true, false, Option, none, some, arith, is_some, ◌==◌, inl, inr,
  Option-cases,
}
use aucnotif.Prelude.Text.{Text}
use aucnotif.Times.{Instant}
use aucnotif.Config.{Settings}
use aucnotif.Models.{User, Auction, UserAuction}
use aucnotif.Database.{Database}
use aucnotif.Repositories.Users
use aucnotif.Repositories.Auctions
use aucnotif.Repositories.UserAuctions
use aucnotif.Providers.{Fetched}
use aucnotif.Services.Auctions.{
  AddOutcome, added, invalid_url, provider_failed, raised, create_link, watch, watch_as, watch_id,
}

-- The user watches the auction, which is not closed.
pub record Watches (telegram_id : ℕ) (external_id : Text) (user : User) (db : Database)
    : Type 0 where
  pub user_known : Users.get_by_telegram_id telegram_id db ≡ some user
  pub auction : Auction
  pub auction_known : Auctions.get_by_external_id external_id db ≡ some auction
  pub is_open : auction.is_closed ≡ false
  pub linked : is_some (UserAuctions.get user.id auction.id db) ≡ true

pub get_or_create-known :
    (telegram_id : ℕ) (language : Text) (user : User) (db : Database)
    → Users.get_by_telegram_id telegram_id db ≡ some user
    → Users.get_or_create telegram_id language db ≡ (user, db)
unfolding Users.get_or_create
get_or_create-known telegram_id language user db h = rw (h, Users.get_or_create)

pub watch-linked :
    (now : Instant) (user : User) (auction : Auction) (db : Database)
    → auction.is_closed ≡ false
    → is_some (UserAuctions.get user.id auction.id db) ≡ true
    → watch now user auction db ≡ (added auction true user, db)
unfolding watch
watch-linked now user auction db opened linked =
    elim (Option-cases (UserAuctions.get user.id auction.id db)) [
      | inl e ↦ absurd (none_linked (UserAuctions.get user.id auction.id db) e linked)
      | inr (l, e) ↦ rw (e, watch) (simp opened)
    ]
  where
    none_linked : (o : Option UserAuction) → o ≡ none → is_some o ≡ true → ⊥
    none_linked o e h = cc

pub watch-new :
    (now : Instant) (user : User) (auction : Auction) (db : Database)
    → auction.is_closed ≡ false
    → UserAuctions.get user.id auction.id db ≡ none
    → watch now user auction db ≡ create_link now user auction db
unfolding watch
watch-new now user auction db opened e = rw (e, watch) (simp opened)

pub watch-closed :
    (now : Instant) (user : User) (auction : Auction) (db : Database)
    → auction.is_closed ≡ true
    → watch now user auction db ≡ (added auction false user, db)
unfolding watch
watch-closed now user auction db closed = simp closed

pub watch_id-Watches :
    (settings : Settings) (provider : Text → Fetched) (now : Instant) (telegram_id : ℕ)
    (url external_id : Text) (user : User) (db : Database)
    → (w : Watches telegram_id external_id user db)
    → watch_id settings provider now telegram_id url external_id db
      ≡ (added w.auction true user, db)
unfolding watch_id watch_as
watch_id-Watches settings provider now telegram_id url external_id user db w =
    ap (watch_as provider now url external_id db)
      (get_or_create-known telegram_id settings.default_language user db w.user_known)
    ∙ rw (w.auction_known, watch_as) (watch-linked now user w.auction db w.is_open w.linked)

pub same_id : (n : ℕ) → (n == n) ≡ true
same_id n = ground arith

pub contradiction : (b : Bool) → b ≡ true → b ≡ false → ⊥
contradiction b p q = cc

-- The auction of an outcome.
abbrev pub outcome_closed : AddOutcome → Bool
outcome_closed (added a w u) = a.is_closed
outcome_closed invalid_url = false
outcome_closed (provider_failed e) = false
outcome_closed raised = false

-- The user of an outcome.
abbrev pub outcome_user : AddOutcome → Option User
outcome_user (added a w u) = some u
outcome_user invalid_url = none
outcome_user (provider_failed e) = none
outcome_user raised = none
