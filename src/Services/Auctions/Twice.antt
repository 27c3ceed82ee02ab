-- ===== src/Services/Auctions/Twice.antt =====
-- Adding an auction that is watched already.
use aucnotif.Prelude.{
  ℕ, ◌≡◌, refl, sym, ◌∙◌, subst, true, false, none, some, is_some, inl, inr, Option-cases,
}
use aucnotif.Prelude.Text.{Text}
use aucnotif.Times.{Instant}
use aucnotif.Config.{Settings}
use aucnotif.Domain.Validation.{validate_auction_url, extract_auction_id}
use aucnotif.Models.{User, Auction}
use aucnotif.Database.{Database}
use aucnotif.Repositories.Users
use aucnotif.Providers.{Fetched}
use aucnotif.Services.Auctions.{AddOutcome, added, invalid_url, watch_id, add_watch}
use aucnotif.Services.Auctions.Watched.{Watches, watch_id-Watches, outcome_closed, outcome_user}
use aucnotif.Services.Auctions.Links.{watch_as-Watches, get_or_create-found}

module _ (settings : Settings) (provider : Text → Fetched) (now : Instant) (telegram_id : ℕ)
    (url : Text) (db : Database) where
  add-invalid :
      validate_auction_url url ≡ none
      → add_watch settings provider now telegram_id url db ≡ (invalid_url, db)
  unfolding add_watch
  add-invalid e = rw (e, add_watch) refl

  add-no_id :
      (canonical : Text)
      → validate_auction_url url ≡ some canonical
      → extract_auction_id canonical ≡ none
      → add_watch settings provider now telegram_id url db ≡ (invalid_url, db)
  unfolding add_watch
  add-no_id canonical e i = rw (e, add_watch) (rw (i, add_watch) refl)

  add-valid :
      (canonical external_id : Text)
      → validate_auction_url url ≡ some canonical
      → extract_auction_id canonical ≡ some external_id
      → add_watch settings provider now telegram_id url db
        ≡ watch_id settings provider now telegram_id canonical external_id db
  unfolding add_watch
  add-valid canonical external_id e i = rw (e, add_watch) (rw (i, add_watch) refl)

  -- The user, and what a successful call leaves behind.
  added-Watches :
      (canonical external_id : Text)
      → validate_auction_url url ≡ some canonical
      → extract_auction_id canonical ≡ some external_id
      → is_some (outcome_user (add_watch settings provider now telegram_id url db).0) ≡ true
      → outcome_closed (add_watch settings provider now telegram_id url db).0 ≡ false
      → Watches telegram_id external_id
          (Users.get_or_create telegram_id settings.default_language db).0
          (add_watch settings provider now telegram_id url db).1
  added-Watches canonical external_id e i u o =
      let found = Users.get_or_create telegram_id settings.default_language db in
      let same = add-valid canonical external_id e i in
      subst (λ (r : AddOutcome × Database). Watches telegram_id external_id found.0 r.1) (sym same)
        (unfold watch_id in
          watch_as-Watches telegram_id external_id found.0 provider now canonical db found.1
            (get_or_create-found telegram_id settings.default_language db)
            (subst (λ (r : AddOutcome × Database). is_some (outcome_user r.0) ≡ true) same u)
            (subst (λ (r : AddOutcome × Database). outcome_closed r.0 ≡ false) same o))

failed_outcome :
    (r : AddOutcome × Database) (db : Database)
    → r ≡ (invalid_url, db)
    → is_some (outcome_user r.0) ≡ true
    → ⊥
failed_outcome r db e u =
    absurd (no_user (subst (λ (q : AddOutcome × Database). is_some (outcome_user q.0) ≡ true) e u))
  where
    no_user : false ≡ true → ⊥
    no_user h = cc

-- After a user has added an auction that is not closed, adding the same link again, whatever the provider,
-- the settings and the clock are then, says that it is watched already, and leaves the database as it is.
pub add_twice :
    (settings settings' : Settings) (provider provider' : Text → Fetched) (now now' : Instant)
    (telegram_id : ℕ) (url : Text) (db : Database)
    → is_some (outcome_user (add_watch settings provider now telegram_id url db).0) ≡ true
    → outcome_closed (add_watch settings provider now telegram_id url db).0 ≡ false
    → let db' = (add_watch settings provider now telegram_id url db).1 in
      (a : Auction) × ((u : User) × (add_watch settings' provider' now' telegram_id url db'
          ≡ (added a true u, db')))
add_twice settings settings' provider provider' now now' telegram_id url db u o =
    let first = add_watch settings provider now telegram_id url db in
    elim (Option-cases (validate_auction_url url)) [
      | inl e ↦
          absurd
            (failed_outcome first db (add-invalid settings provider now telegram_id url db e) u)
      | inr (canonical, e) ↦ elim (Option-cases (extract_auction_id canonical)) [
        | inl i ↦ absurd (
            failed_outcome first db
              (add-no_id settings provider now telegram_id url db canonical e i) u)
        | inr (external_id, i) ↦
            let user = (Users.get_or_create telegram_id settings.default_language db).0 in
            let w =
              added-Watches settings provider now telegram_id url db canonical external_id e i u
                o in
            (
              w.auction,
              (
                user,
                add-valid settings' provider' now' telegram_id url first.1 canonical external_id e i
                    ∙ watch_id-Watches settings' provider' now' telegram_id canonical external_id
                        user first.1 w,
              ),
            )
      ]
    ]
