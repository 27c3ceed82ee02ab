-- ===== src/Watchlist/Adds.antt =====
-- `add_watch` of app/services/auction_service.py, as a change of the watchlist and as an answer.
use aucnotif.Repositories.Columns.{takes_id, takes_state}
use aucnotif.Services.Auctions.{raised}
use aucnotif.Prelude.{
  if_keeps, ◌&&◌, ℕ, ◌≡◌, refl, sym, ap, ◌∙◌, subst, none, some, inl, inr, Option-cases,
}
use aucnotif.Prelude.Tables.{map_option}
use aucnotif.Prelude.Text.{Text}
use aucnotif.Times.{Instant}
use aucnotif.Config.{Settings}
use aucnotif.Models.{User}
use aucnotif.Database.{Database}
use aucnotif.Domain.Validation.{validate_auction_url, extract_auction_id}
use aucnotif.Repositories.Users
use aucnotif.Repositories.Auctions
use aucnotif.Providers.{Fetched, fetched, failed, crashed}
use aucnotif.Services.Auctions.{add_watch, watch_id, watch_as, watch_new, watch}
use aucnotif.Services.Auctions.Links.{get_or_create-found, created-known, users-created}
use aucnotif.Watchlist.{Watchlist, add, Tells}
use aucnotif.Watchlist.Keys.{keys, user_key, auction_key, user_of-keys, auction_of-keys}
use aucnotif.Watchlist.Inserts.{
  with_user-WellFormed, with_auction-WellFormed, listed-with_user, listed-with_auction,
}
use aucnotif.Watchlist.Rows.{keys-create_user, keys-create_auction}
use aucnotif.Watchlist.Links.{Shows, Outcome, Outcome-watch}

module _ (telegram_id : ℕ) (external_id : Text) (w : Watchlist) where
  Outcome-watch_new :
      (now : Instant) (url : Text) (user : User) (before db : Database) (f : Fetched)
      → Users.get_by_telegram_id telegram_id db ≡ some user
      → Auctions.get_by_external_id external_id db ≡ none
      → Shows (keys before) w
      → Shows (keys db) w
      → Outcome telegram_id external_id w (watch_new now url external_id user before db f)
  unfolding watch_new Outcome
  Outcome-watch_new now url user before db (failed e) hu ha hb h = (hb, tt)
  Outcome-watch_new now url user before db crashed hu ha hb h = (hb, tt)
  Outcome-watch_new now url user before db (fetched state raw) hu ha hb h =
      if_keeps (Outcome telegram_id external_id w) (takes_id external_id && takes_state state)
        (watch now user (Auctions.create url external_id state now db).0
          (Auctions.create url external_id state now db).1)
        (raised, before)
        (let created = Auctions.create url external_id state now db in
          Outcome-watch telegram_id external_id w now user created.0 created.1
            (users-created telegram_id external_id user url state now db ∙ hu)
            (created-known telegram_id external_id user url state now db)
            (subst (λ k. Shows k w) (sym (keys-create_auction url external_id state now db))
              (
                with_auction-WellFormed external_id (keys db) h.0,
                λ t e.
                    listed-with_auction external_id (keys db) t e h.0
                      (auction_of-keys external_id db ∙ ap (map_option auction_key) ha)
                    ∙ h.1 t e,
              )))
        (hb, tt)

  Outcome-watch_as :
      (provider : Text → Fetched) (now : Instant) (url : Text) (user : User) (before db : Database)
      → Users.get_by_telegram_id telegram_id db ≡ some user
      → Shows (keys before) w
      → Shows (keys db) w
      → Outcome telegram_id external_id w (watch_as provider now url external_id before (user, db))
  Outcome-watch_as provider now url user before db hu hb h =
      elim (Option-cases (Auctions.get_by_external_id external_id db)) [
        | inl e ↦
            let new : watch_as provider now url external_id before (user, db)
                ≡ watch_new now url external_id user before db (provider url) =
              unfold watch_as in rw (e, watch_as) refl in
            subst (Outcome telegram_id external_id w) (sym new)
              (Outcome-watch_new now url user before db (provider url) hu e hb h)
        | inr (a, e) ↦
            let old : watch_as provider now url external_id before (user, db)
                ≡ watch now user a db =
              unfold watch_as in rw (e, watch_as) refl in
            subst (Outcome telegram_id external_id w) (sym old)
              (Outcome-watch telegram_id external_id w now user a db hu e h)
      ]

  -- The user of a request, whether known before or not.
  Shows-get_or_create :
      (language : Text) (db : Database)
      → Shows (keys db) w
      → Shows (keys (Users.get_or_create telegram_id language db).1) w
  unfolding Users.get_or_create
  Shows-get_or_create language db h =
      elim (Option-cases (Users.get_by_telegram_id telegram_id db)) [
        | inr (u, e) ↦ rw (e, Users.get_or_create) h
        | inl e ↦
            rw (e, Users.get_or_create)
              (subst (λ k. Shows k w) (sym (keys-create_user telegram_id language db))
                (
                  with_user-WellFormed telegram_id (keys db) h.0,
                  λ t x.
                      listed-with_user telegram_id (keys db) t x h.0
                        (user_of-keys telegram_id db ∙ ap (map_option user_key) e)
                      ∙ h.1 t x,
                ))
      ]

  Outcome-watch_id :
      (settings : Settings) (provider : Text → Fetched) (now : Instant) (url : Text) (db : Database)
      → Shows (keys db) w
      → Outcome telegram_id external_id w
          (watch_id settings provider now telegram_id url external_id db)
  unfolding watch_id
  Outcome-watch_id settings provider now url db h =
      let language = settings.default_language in
      let entered = Users.get_or_create telegram_id language db in
      Outcome-watch_as provider now url entered.0 db entered.1
        (get_or_create-found telegram_id language db) h (Shows-get_or_create language db h)

pub add_watch-Shows :
    (settings : Settings) (provider : Text → Fetched) (now : Instant) (telegram_id : ℕ) (url : Text)
    (db : Database) (w : Watchlist)
    → Shows (keys db) w
    → Shows
        (keys (add_watch settings provider now telegram_id url db).1)
        (add (add_watch settings provider now telegram_id url db).0 telegram_id w)
      × Tells (add_watch settings provider now telegram_id url db).0 telegram_id w
unfolding add_watch Outcome
add_watch-Shows settings provider now telegram_id url db w h =
    elim (Option-cases (validate_auction_url url)) [
      | inl e ↦ rw (e, add_watch) (h, tt)
      | inr (link, e) ↦ elim (Option-cases (extract_auction_id link)) [
        | inl f ↦ rw (e, f, add_watch) (h, tt)
        | inr (id, f) ↦
            rw (e, f, add_watch) (Outcome-watch_id telegram_id id w settings provider now link db h)
      ]
    ]
