-- ===== src/Watchlist/Keys.antt =====
-- The columns of app/models that a watchlist depends on, and the constraints that the database keeps on them.
use aucnotif.Prelude.{
  ℕ, ◌<◌, ◌≡◌, refl, sym, ap, ◌∙◌, Bool, false, ◌&&◌, Option, none, some, List, map, is_some, ◌==◌,
  ==_iff, inl, inr, Option-cases,
}
use aucnotif.Prelude.Lists.{select_one, All}
use aucnotif.Prelude.Tables.{map_option, Unique}
use aucnotif.Prelude.Rows.{select_one-map, select_one-holds, select_one-same}
use aucnotif.Prelude.Text.{Text, text_eq, text_eq_iff}
use aucnotif.Models.{User, Auction, UserAuction}
use aucnotif.Database.{Database}
use aucnotif.Repositories.Users
use aucnotif.Repositories.Auctions
use aucnotif.Repositories.UserAuctions
use aucnotif.Services.Auctions.{find, get_watch_item}
use aucnotif.Watchlist.{watchlist}

-- A user's or an auction's own id, and the one that it is known by outside.
abbrev pub UserKey : Type 0
UserKey = ℕ × ℕ

abbrev pub AuctionKey : Type 0
AuctionKey = ℕ × Text

-- A link's id, its user's and its auction's.
abbrev pub LinkKey : Type 0
LinkKey = ℕ × (ℕ × ℕ)

pub record Keys : Type 0 where
  pub users : List UserKey
  pub auctions : List AuctionKey
  pub links : List LinkKey
  pub next_user : ℕ
  pub next_auction : ℕ
  pub next_link : ℕ

abbrev pub user_key : User → UserKey
user_key u = (u.id, u.telegram_id)

abbrev pub auction_key : Auction → AuctionKey
auction_key a = (a.id, a.external_id)

abbrev pub link_key : UserAuction → LinkKey
link_key l = (l.id, (l.user_id, l.auction_id))

unfoldable pub keys : Database → Keys
keys db = record {
  users = map user_key db.users;
  auctions = map auction_key db.auctions;
  links = map link_key db.user_auctions;
  next_user = db.next_user;
  next_auction = db.next_auction;
  next_link = db.next_user_auction;
}

abbrev pub has_telegram : ℕ → UserKey → Bool
has_telegram telegram_id u = u.1 == telegram_id

abbrev pub has_external : Text → AuctionKey → Bool
has_external external_id a = text_eq a.1 external_id

abbrev pub is_between : ℕ → ℕ → LinkKey → Bool
is_between user_id auction_id l = l.1.0 == user_id && l.1.1 == auction_id

abbrev pub user_of : ℕ → Keys → Option UserKey
user_of telegram_id k = select_one (has_telegram telegram_id) k.users

abbrev pub auction_of : Text → Keys → Option AuctionKey
auction_of external_id k = select_one (has_external external_id) k.auctions

abbrev pub link_of : ℕ → ℕ → Keys → Option LinkKey
link_of user_id auction_id k = select_one (is_between user_id auction_id) k.links

abbrev pub linked : Option UserKey → Option AuctionKey → List LinkKey → Bool
linked none a links = false
linked (some u) none links = false
linked (some u) (some a) links = is_some (select_one (is_between u.0 a.0) links)

abbrev pub listed : ℕ → Text → Keys → Bool
listed telegram_id external_id k = linked (user_of telegram_id k) (auction_of external_id k) k.links

-- Primary keys and unique constraints, sequences that are ahead of what they numbered, and links to rows that
-- have been there.
pub record WellFormed (k : Keys) : Type 0 where
  pub unique_users : Unique (λ (u : UserKey). u.0) k.users
  pub unique_auctions : Unique (λ (a : AuctionKey). a.0) k.auctions
  pub unique_links : Unique (λ (l : LinkKey). l.0) k.links
  pub unique_pairs : Unique (λ (l : LinkKey). l.1) k.links
  pub old_users : All (λ (u : UserKey). u.0 < k.next_user) k.users
  pub old_auctions : All (λ (a : AuctionKey). a.0 < k.next_auction) k.auctions
  pub old_links : All (λ (l : LinkKey). l.0 < k.next_link) k.links
  pub old_link_users : All (λ (l : LinkKey). l.1.0 < k.next_user) k.links
  pub old_link_auctions : All (λ (l : LinkKey). l.1.1 < k.next_auction) k.links

-- An id belongs to one Telegram user, and to one auction.
pub same_telegram :
    (k : Keys) (s t : ℕ) (u v : UserKey)
    → WellFormed k
    → user_of s k ≡ some u
    → user_of t k ≡ some v
    → u.0 ≡ v.0
    → s ≡ t
same_telegram k s t u v w hu hv same =
    let one : u ≡ v =
      select_one-same (λ (x : UserKey). x.0) (has_telegram s) (has_telegram t) k.users u v
        w.unique_users hu hv same in
    sym ((==_iff u.1 s).0 (select_one-holds (has_telegram s) k.users u hu))
    ∙ ap (λ (x : UserKey). x.1) one
    ∙ (==_iff v.1 t).0 (select_one-holds (has_telegram t) k.users v hv)

pub same_external :
    (k : Keys) (d e : Text) (a b : AuctionKey)
    → WellFormed k
    → auction_of d k ≡ some a
    → auction_of e k ≡ some b
    → a.0 ≡ b.0
    → d ≡ e
same_external k d e a b w ha hb same =
    let one : a ≡ b =
      select_one-same (λ (x : AuctionKey). x.0) (has_external d) (has_external e) k.auctions a b
        w.unique_auctions ha hb same in
    sym ((text_eq_iff a.1 d).0 (select_one-holds (has_external d) k.auctions a ha))
    ∙ ap (λ (x : AuctionKey). x.1) one
    ∙ (text_eq_iff b.1 e).0 (select_one-holds (has_external e) k.auctions b hb)

pub user_of-keys :
    (telegram_id : ℕ) (db : Database)
    → user_of telegram_id (keys db) ≡ map_option user_key (Users.get_by_telegram_id telegram_id db)
unfolding keys Users.get_by_telegram_id
user_of-keys telegram_id db = select_one-map user_key (has_telegram telegram_id) db.users

pub auction_of-keys :
    (external_id : Text) (db : Database)
    → auction_of external_id (keys db)
      ≡ map_option auction_key (Auctions.get_by_external_id external_id db)
unfolding keys Auctions.get_by_external_id
auction_of-keys external_id db = select_one-map auction_key (has_external external_id) db.auctions

pub link_of-keys :
    (user_id auction_id : ℕ) (db : Database)
    → link_of user_id auction_id (keys db)
      ≡ map_option link_key (UserAuctions.get user_id auction_id db)
unfolding keys UserAuctions.get
link_of-keys user_id auction_id db =
    select_one-map link_key (is_between user_id auction_id) db.user_auctions

-- The watchlist depends on the keys only.
pub watchlist-keys :
    (telegram_id : ℕ) (external_id : Text) (db : Database)
    → watchlist db telegram_id external_id ≡ listed telegram_id external_id (keys db)
unfolding watchlist get_watch_item find
watchlist-keys telegram_id external_id db =
    rw (user_of-keys telegram_id db, auction_of-keys external_id db)
      (elim (Option-cases (Users.get_by_telegram_id telegram_id db)) [
        | inl e ↦ rw (e, find, get_watch_item, watchlist) refl
        | inr (u, e) ↦ elim (Option-cases (Auctions.get_by_external_id external_id db)) [
          | inl f ↦ rw (e, f, find, get_watch_item, watchlist) refl
          | inr (a, f) ↦ elim (Option-cases (UserAuctions.get u.id a.id db)) [
            | inl g ↦ rw (e, f, link_of-keys u.id a.id db, g, find, get_watch_item, watchlist) refl
            | inr (l, g) ↦
                rw (e, f, link_of-keys u.id a.id db, g, find, get_watch_item, watchlist) refl
          ]
        ]
      ])
