-- ===== src/Watchlist/Rows.antt =====
-- The operations of app/repositories on the keys of the database.
use aucnotif.Prelude.{ℕ, ◌≡◌, refl, ap, Bool, Option, some, ◌==◌, inl, inr, Option-cases}
use aucnotif.Prelude.Rows.{map-delete_where, map-update_where}
use aucnotif.Prelude.Text.{Text}
use aucnotif.Times.{Instant}
use aucnotif.Domain.AuctionState.{AuctionState}
use aucnotif.Models.{Auction, UserAuction}
use aucnotif.Database.{Database}
use aucnotif.Repositories.Users
use aucnotif.Repositories.Auctions
use aucnotif.Repositories.UserAuctions
use aucnotif.Watchlist.Keys.{keys, auction_key, link_key}
use aucnotif.Watchlist.Inserts.{with_user, with_auction, with_link}
use aucnotif.Watchlist.Deletes.{has_id, without_link}

pub keys-create_user :
    (telegram_id : ℕ) (language : Text) (db : Database)
    → keys (Users.create telegram_id language db).1 ≡ with_user telegram_id (keys db)
unfolding keys Users.create
keys-create_user telegram_id language db = refl

pub keys-create_auction :
    (url external_id : Text) (state : AuctionState) (now : Instant) (db : Database)
    → keys (Auctions.create url external_id state now db).1 ≡ with_auction external_id (keys db)
unfolding keys Auctions.create
keys-create_auction url external_id state now db = refl

pub keys-create_link :
    (user_id auction_id : ℕ) (now : Instant) (db : Database)
    → keys (UserAuctions.create user_id auction_id now db).1
      ≡ with_link user_id auction_id (keys db)
unfolding keys UserAuctions.create
keys-create_link user_id auction_id now db = refl

pub keys-modify :
    (auction_id : ℕ) (f : Auction → Auction) (db : Database)
    → ((a : Auction) → auction_key (f a) ≡ auction_key a)
    → keys (Auctions.modify auction_id f db) ≡ keys db
unfolding keys Auctions.modify
keys-modify auction_id f db same =
    ap (λ auctions. record (keys db) { auctions = auctions })
      (map-update_where auction_key (λ a. a.id == auction_id) f db.auctions same)

pub keys-resume :
    (auction_id : ℕ) (now : Instant) (db : Database)
    → keys (Auctions.resume_monitoring auction_id now db) ≡ keys db
unfolding Auctions.resume_monitoring
keys-resume auction_id now db = keys-modify auction_id (Auctions.resumed now) db (λ _. refl)

pub keys-set_next_poll_at :
    (auction_id : ℕ) (dt : Instant) (db : Database)
    → keys (Auctions.set_next_poll_at auction_id dt db) ≡ keys db
unfolding Auctions.set_next_poll_at
keys-set_next_poll_at auction_id dt db =
    keys-modify auction_id (Auctions.with_next_poll dt) db (λ _. refl)

pub keys-delete :
    (user_id auction_id : ℕ) (link : UserAuction) (db : Database)
    → UserAuctions.get user_id auction_id db ≡ some link
    → keys (UserAuctions.delete user_id auction_id db).1 ≡ without_link link.id (keys db)
unfolding keys UserAuctions.delete
keys-delete user_id auction_id link db h =
    rw (h, UserAuctions.delete)
      (ap (λ links. record (keys db) { links = links })
        (map-delete_where link_key (has_id link.id) db.user_auctions))

pub keys-set_notifications_enabled :
    (user_id auction_id : ℕ) (enabled : Bool) (db : Database)
    → keys (UserAuctions.set_notifications_enabled user_id auction_id enabled db).1 ≡ keys db
unfolding keys UserAuctions.set_notifications_enabled
keys-set_notifications_enabled user_id auction_id enabled db =
    elim (Option-cases (UserAuctions.get user_id auction_id db)) [
      | inl e ↦ rw (e, UserAuctions.set_notifications_enabled) refl
      | inr (link, e) ↦
          rw (e, UserAuctions.set_notifications_enabled)
            (ap (λ links. record (keys db) { links = links })
              (map-update_where link_key (λ l. l.id == link.id)
                (λ l. record l { notifications_enabled = enabled }) db.user_auctions (λ _. refl)))
    ]

pub keys-set_label :
    (user_id auction_id : ℕ) (label : Option Text) (db : Database)
    → keys (UserAuctions.set_label user_id auction_id label db).1 ≡ keys db
unfolding keys UserAuctions.set_label
keys-set_label user_id auction_id label db =
    elim (Option-cases (UserAuctions.get user_id auction_id db)) [
      | inl e ↦ rw (e, UserAuctions.set_label) refl
      | inr (link, e) ↦
          rw (e, UserAuctions.set_label)
            (ap (λ links. record (keys db) { links = links })
              (map-update_where link_key (λ l. l.id == link.id) (λ l. record l { label = label })
                db.user_auctions (λ _. refl)))
    ]
