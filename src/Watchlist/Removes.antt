-- ===== src/Watchlist/Removes.antt =====
-- What the operations on a watched auction answer, and the watchlist that they leave.
use aucnotif.Prelude.{
  ℕ, ◌≡◌, refl, sym, subst, Bool, true, false, not, Option, none, some, is_some, if◌then◌else◌,
}
use aucnotif.Prelude.Text.{Text}
use aucnotif.Times.{Instant}
use aucnotif.Config.{Settings}
use aucnotif.Models.{UserAuction}
use aucnotif.Database.{Database}
use aucnotif.Repositories.UserAuctions
use aucnotif.Services.Auctions.{
  RemoveResult, removed, not_found, after_delete, remove_watch, toggle_notifications, set_label,
}
use aucnotif.Watchlist.{Watchlist, erase}
use aucnotif.Watchlist.Keys.{keys, listed}
use aucnotif.Watchlist.Rows.{keys-set_notifications_enabled, keys-set_label}
use aucnotif.Watchlist.Links.{Shows}
use aucnotif.Watchlist.Changes.{
  nothing, no_link, link, found, Shows-unlisted, Shows-delete, keys-after_delete,
}

delete-link :
    (user_id auction_id : ℕ) (l : UserAuction) (db : Database)
    → UserAuctions.get user_id auction_id db ≡ some l
    → UserAuctions.delete user_id auction_id db
      ≡ (true, (UserAuctions.delete user_id auction_id db).1)
unfolding UserAuctions.delete
delete-link user_id auction_id l db h = rw (h, UserAuctions.delete) refl

delete-nothing :
    (user_id auction_id : ℕ) (db : Database)
    → UserAuctions.get user_id auction_id db ≡ none
    → UserAuctions.delete user_id auction_id db ≡ (false, db)
unfolding UserAuctions.delete
delete-nothing user_id auction_id db h = rw (h, UserAuctions.delete) refl

module _ (telegram_id : ℕ) (external_id : Text) (w : Watchlist) (db : Database)
    (h : Shows (keys db) w) where
  -- The answer tells whether the auction was listed, and it is not listed any more.
  abbrev Removal : RemoveResult × Database → Type 0
  Removal r =
      Shows (keys r.1) (erase telegram_id external_id w)
      × (r.0 ≡ (if listed telegram_id external_id (keys db) then removed else not_found))

  Removal-nothing : listed telegram_id external_id (keys db) ≡ false → Removal (not_found, db)
  Removal-nothing e = (Shows-unlisted telegram_id external_id w (keys db) e h, rw e refl)

  pub remove_watch-Shows :
      (settings : Settings) (now : Instant)
      → Removal (remove_watch settings now telegram_id external_id db)
  unfolding remove_watch
  remove_watch-Shows settings now = elim (found telegram_id external_id db) [
    | nothing f e ↦ rw (f, remove_watch) (Removal-nothing e)
    | no_link user auction f g e ↦
        rw (f, remove_watch)
          (subst (λ r. Removal (after_delete settings now auction.id db r))
            (sym (delete-nothing user.id auction.id db g))
            (unfold after_delete in Removal-nothing e))
    | link user auction l f hu ha hl e ↦
        rw (f, remove_watch)
          (let deleted = (UserAuctions.delete user.id auction.id db).1 in
            subst (λ r. Removal (after_delete settings now auction.id db r))
              (sym (delete-link user.id auction.id l db hl))
              (
                subst (λ k. Shows k (erase telegram_id external_id w))
                    (sym (
                      keys-after_delete telegram_id external_id w settings now auction.id db
                        deleted))
                    (Shows-delete telegram_id external_id w user auction l db hu ha hl h),
                unfold after_delete in rw e refl,
              ))
  ]

  -- The answer tells whether the auction is listed, and the watchlist stays.
  abbrev Kept : Option Bool × Database → Type 0
  Kept r = Shows (keys r.1) w × (is_some r.0 ≡ listed telegram_id external_id (keys db))

  Kept-nothing : listed telegram_id external_id (keys db) ≡ false → Kept (none, db)
  Kept-nothing e = (h, sym e)

  pub toggle_notifications-Shows : Kept (toggle_notifications telegram_id external_id db)
  unfolding toggle_notifications
  toggle_notifications-Shows = elim (found telegram_id external_id db) [
    | nothing f e ↦ rw (f, toggle_notifications) (Kept-nothing e)
    | no_link user auction f g e ↦ rw (f, g, toggle_notifications) (Kept-nothing e)
    | link user auction l f hu ha hl e ↦
        rw (f, hl, toggle_notifications)
          (
            subst (λ k. Shows k w)
                (sym (
                  keys-set_notifications_enabled user.id auction.id (not l.notifications_enabled)
                    db))
                h,
            sym e,
          )
  ]

  pub set_label-Shows : (label : Option Text) → Kept (set_label telegram_id external_id label db)
  unfolding set_label
  set_label-Shows label = elim (found telegram_id external_id db) [
    | nothing f e ↦ rw (f, set_label) (Kept-nothing e)
    | no_link user auction f g e ↦ rw (f, g, set_label) (Kept-nothing e)
    | link user auction l f hu ha hl e ↦
        rw (f, hl, set_label)
          (subst (λ k. Shows k w) (sym (keys-set_label user.id auction.id label db)) h, sym e)
  ]
