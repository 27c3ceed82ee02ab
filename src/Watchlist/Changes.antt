-- ===== src/Watchlist/Changes.antt =====
-- `remove_watch`, `toggle_notifications` and `set_label` of app/services/auction_service.py, as changes of the
-- watchlist.
use aucnotif.Prelude.{
  ℕ, ◌≡◌, refl, sym, ap, ◌∙◌, subst, true, false, none, some, ◌==◌, if◌then◌else◌, inl, inr,
  Bool-cases, Option-cases,
}
use aucnotif.Prelude.Int.{◌+ℤ◌}
use aucnotif.Prelude.Tables.{map_option}
use aucnotif.Prelude.Text.{Text}
use aucnotif.Times.{Instant, seconds}
use aucnotif.Config.{Settings}
use aucnotif.Models.{User, Auction, UserAuction}
use aucnotif.Database.{Database}
use aucnotif.Repositories.Users
use aucnotif.Repositories.Auctions
use aucnotif.Repositories.UserAuctions
use aucnotif.Services.Auctions.{find, after_delete}
use aucnotif.Watchlist.{Watchlist, erase, is_entry}
use aucnotif.Watchlist.Keys.{
  Keys, keys, user_key, auction_key, link_key, listed, user_of-keys, auction_of-keys, link_of-keys,
}
use aucnotif.Watchlist.Entries.{entry_inv}
use aucnotif.Watchlist.Deletes.{without_link-WellFormed, listed-without_link}
use aucnotif.Watchlist.Rows.{keys-set_next_poll_at, keys-delete}
use aucnotif.Watchlist.Links.{Shows}

module _ (telegram_id : ℕ) (external_id : Text) where
  -- What the rows found say about the watchlist.
  pub data Found (db : Database) : Type 0 where
    nothing :
        find telegram_id external_id db ≡ none
        → listed telegram_id external_id (keys db) ≡ false
        → Found db
    no_link :
        (user : User) (auction : Auction)
        → find telegram_id external_id db ≡ some (user, auction)
        → UserAuctions.get user.id auction.id db ≡ none
        → listed telegram_id external_id (keys db) ≡ false
        → Found db
    link :
        (user : User) (auction : Auction) (l : UserAuction)
        → find telegram_id external_id db ≡ some (user, auction)
        → Users.get_by_telegram_id telegram_id db ≡ some user
        → Auctions.get_by_external_id external_id db ≡ some auction
        → UserAuctions.get user.id auction.id db ≡ some l
        → listed telegram_id external_id (keys db) ≡ true
        → Found db

  pub found : (db : Database) → Found db
  unfolding find
  found db = elim (Option-cases (Users.get_by_telegram_id telegram_id db)) [
    | inl e ↦ nothing (rw (e, find) refl) (rw (user_of-keys telegram_id db, e) refl)
    | inr (u, e) ↦ elim (Option-cases (Auctions.get_by_external_id external_id db)) [
      | inl f ↦
          nothing (rw (e, f, find) refl)
            (rw (user_of-keys telegram_id db, e, auction_of-keys external_id db, f) refl)
      | inr (a, f) ↦ elim (Option-cases (UserAuctions.get u.id a.id db)) [
        | inl g ↦ no_link u a (rw (e, f, find) refl) g (
            rw
              (
                user_of-keys telegram_id db,
                e,
                auction_of-keys external_id db,
                f,
                link_of-keys u.id a.id db,
                g,
              )
              refl)
        | inr (l, g) ↦ link u a l (rw (e, f, find) refl) e f g (
            rw
              (
                user_of-keys telegram_id db,
                e,
                auction_of-keys external_id db,
                f,
                link_of-keys u.id a.id db,
                g,
              )
              refl)
      ]
    ]
  ]

  module _ (w : Watchlist) where
    -- Removing what is not listed.
    pub Shows-unlisted :
        (k : Keys)
        → listed telegram_id external_id k ≡ false
        → Shows k w
        → Shows k (erase telegram_id external_id w)
    Shows-unlisted k here h = (h.0, entries)
      where
        entries : (t : ℕ) (e : Text) → listed t e k ≡ erase telegram_id external_id w t e
        entries t e = elim (Bool-cases (is_entry telegram_id external_id t e)) [
          | inl same ↦
              let (same_t, same_e) = entry_inv telegram_id t external_id e same in
              rw (same, same_t, same_e) here
          | inr other ↦ rw other (h.1 t e)
        ]

    pub Shows-delete :
        (user : User) (auction : Auction) (l : UserAuction) (db : Database)
        → Users.get_by_telegram_id telegram_id db ≡ some user
        → Auctions.get_by_external_id external_id db ≡ some auction
        → UserAuctions.get user.id auction.id db ≡ some l
        → Shows (keys db) w
        → Shows
            (keys (UserAuctions.delete user.id auction.id db).1)
            (erase telegram_id external_id w)
    Shows-delete user auction l db hu ha hl h =
        subst (λ k. Shows k (erase telegram_id external_id w))
          (sym (keys-delete user.id auction.id l db hl))
          (
            without_link-WellFormed l.id (keys db) h.0,
            λ t e.
                listed-without_link (keys db) h.0 telegram_id external_id (user_key user)
                  (auction_key auction) (user_of-keys telegram_id db ∙ ap (map_option user_key) hu)
                  (auction_of-keys external_id db ∙ ap (map_option auction_key) ha) (link_key l)
                  (link_of-keys user.id auction.id db ∙ ap (map_option link_key) hl) t e
                ∙ ap (λ b. if is_entry telegram_id external_id t e then false else b) (h.1 t e),
          )

    pub keys-after_delete :
        (settings : Settings) (now : Instant) (auction_id : ℕ) (db deleted : Database)
        → keys (after_delete settings now auction_id db (true, deleted)).1 ≡ keys deleted
    unfolding after_delete
    keys-after_delete settings now auction_id db deleted =
        elim (Bool-cases (UserAuctions.count_watchers auction_id deleted == 0)) [
          | inl e ↦ rw e (
              keys-set_next_poll_at auction_id
                (now +ℤ seconds settings.unwatch_grace_period_seconds) deleted)
          | inr e ↦ rw e refl
        ]
