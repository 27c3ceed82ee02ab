-- ===== src/Repositories/UserAuctions.antt =====
-- app/repositories/user_auctions.py: the links of users to auctions.
use aucnotif.Prelude.{ℕ, suc, Bool, true, false, not, ◌&&◌, Option, none, some, List, [], ◌∷◌, ◌==◌}
use aucnotif.Prelude.Int.{leb_ℤ}
use aucnotif.Prelude.Lists.{
  length, select, select_one, update_where, delete_where, exists_where, order_by,
}
use aucnotif.Prelude.Text.{Text}
use aucnotif.Times.{Instant}
use aucnotif.Models.{User, Auction, UserAuction, Status, pending, sent, failed}
use aucnotif.Database.{Database}

abbrev pub joins : ℕ → ℕ → UserAuction → Bool
joins user_id auction_id l = l.user_id == user_id && l.auction_id == auction_id

unfoldable pub get : ℕ → ℕ → Database → Option UserAuction
get user_id auction_id db = select_one (joins user_id auction_id) db.user_auctions

unfoldable pub create : ℕ → ℕ → Instant → Database → UserAuction × Database
create user_id auction_id now db =
    let link : UserAuction = record {
      id = db.next_user_auction;
      user_id = user_id;
      auction_id = auction_id;
      notifications_enabled = true;
      label = none;
      created_at = now;
    } in
    (
      link,
      record db {
        user_auctions = link ∷ db.user_auctions;
        next_user_auction = suc db.next_user_auction;
      },
    )

-- A deleted link takes its notifications with it: `ondelete="CASCADE"`.
unfoldable pub delete : ℕ → ℕ → Database → Bool × Database
delete user_id auction_id db = elim (get user_id auction_id db) [
  | none ↦ (false, db)
  | some link ↦ (
    true,
    record db {
      user_auctions = delete_where (λ l. l.id == link.id) db.user_auctions;
      notifications = delete_where (λ n. n.user_auction_id == link.id) db.notifications;
    },
  )
]

unfoldable pub count_watchers : ℕ → Database → ℕ
count_watchers auction_id db = length (select (λ l. l.auction_id == auction_id) db.user_auctions)

-- One row of the join with `users`: the link's user, if it is active.
abbrev with_user : List User → UserAuction → List (User × UserAuction) → List (User × UserAuction)
with_user users link rest = elim (select_one (λ u. u.id == link.user_id && u.is_active) users) [
  | none ↦ rest
  | some user ↦ (user, link) ∷ rest
]

join_users : List User → List UserAuction → List (User × UserAuction)
join_users users [] = []
join_users users (link ∷ links) = with_user users link (join_users users links)

unfoldable pub list_watchers : ℕ → Database → List (User × UserAuction)
unfolding join_users
list_watchers auction_id db =
    join_users db.users
      (select (λ l. l.auction_id == auction_id && l.notifications_enabled) db.user_auctions)

abbrev with_auction :
    List Auction → UserAuction → List (UserAuction × Auction) → List (UserAuction × Auction)
with_auction auctions link rest = elim (select_one (λ a. a.id == link.auction_id) auctions) [
  | none ↦ rest
  | some auction ↦ (link, auction) ∷ rest
]

join_auctions : List Auction → List UserAuction → List (UserAuction × Auction)
join_auctions auctions [] = []
join_auctions auctions (link ∷ links) = with_auction auctions link (join_auctions auctions links)

abbrev newer : UserAuction → UserAuction → Bool
newer a b = leb_ℤ b.created_at a.created_at

unfoldable pub list_for_user : ℕ → Database → List (UserAuction × Auction)
unfolding join_auctions
list_for_user user_id db =
    join_auctions db.auctions (order_by newer (select (λ l. l.user_id == user_id) db.user_auctions))

abbrev pub is_pending : Status → Bool
is_pending pending = true
is_pending sent = false
is_pending failed = false

-- The condition of the `DELETE`: the auction is closed and no notification of the link is pending.
unfoldable pub is_finalized : Database → UserAuction → Bool
is_finalized db l =
    exists_where (λ a. a.id == l.auction_id && a.is_closed) db.auctions
    && not (exists_where (λ n. n.user_auction_id == l.id && is_pending n.status) db.notifications)

unfoldable pub delete_links_for_finalized_auctions : Database → ℕ × Database
unfolding is_finalized
delete_links_for_finalized_auctions db =
    let gone = select (is_finalized db) db.user_auctions in
    (
      length gone,
      record db {
        user_auctions = delete_where (is_finalized db) db.user_auctions;
        notifications =
            delete_where (λ n. exists_where (λ (l : UserAuction). l.id == n.user_auction_id) gone)
              db.notifications;
      },
    )

abbrev modify : UserAuction → (UserAuction → UserAuction) → Database → Database
modify link f db = record db {
  user_auctions = update_where (λ l. l.id == link.id) f db.user_auctions;
}

unfoldable pub set_notifications_enabled : ℕ → ℕ → Bool → Database → Bool × Database
set_notifications_enabled user_id auction_id enabled db = elim (get user_id auction_id db) [
  | none ↦ (false, db)
  | some link ↦ (true, modify link (λ l. record l { notifications_enabled = enabled }) db)
]

unfoldable pub set_label : ℕ → ℕ → Option Text → Database → Bool × Database
set_label user_id auction_id label db = elim (get user_id auction_id db) [
  | none ↦ (false, db)
  | some link ↦ (true, modify link (λ l. record l { label = label }) db)
]
