-- ===== src/Watchlist/Open.antt =====
-- Links to open auctions, under the clean-up of a tick of app/scheduler/scheduler.py.
use aucnotif.Prelude.{
  ℕ, ◌≡◌, ◌≢◌, ◌⊎◌, refl, ap, ◌∙◌, true, false, ◌&&◌, Option, some, List, [], ◌∷◌, map, is_some,
  ◌==◌, ==_iff, &&_iff, inl, inr, Bool-cases,
}
use aucnotif.Prelude.Int.{◌+ℤ◌}
use aucnotif.Prelude.Lists.{select_one, delete_where, All, All-imply}
use aucnotif.Prelude.Tables.{map_option, All-update, Unique}
use aucnotif.Prelude.Rows.{
  select_one-map, select_one-holds, select_one-not_deleted, exists_where-none, Unique-select_one,
}
use aucnotif.Prelude.Text.{Text, text_eq}
use aucnotif.Times.{Instant, seconds}
use aucnotif.Config.{Settings}
use aucnotif.Models.{User, Auction, UserAuction}
use aucnotif.Database.{Database}
use aucnotif.Repositories.Users
use aucnotif.Repositories.Auctions
use aucnotif.Repositories.UserAuctions
use aucnotif.Repositories.UserAuctions.{count_watchers, is_finalized}
use aucnotif.Scheduler.{Job, schedule_one, schedule, tick_body, due_limit}
use aucnotif.Watchlist.{watchlist}
use aucnotif.Watchlist.Keys.{
  keys, user_key, auction_key, link_key, AuctionKey, is_between, user_of, auction_of, listed,
  WellFormed, watchlist-keys, user_of-keys, auction_of-keys,
}
use aucnotif.Watchlist.Ticks.{keys-tick, kept_links, scheduled, scheduled-keys}

All-unmap {ℓ κ μ} :
    {A : Type ℓ} {B : Type κ} (f : A → B) (P : B → Type μ) (xs : List A)
    → All P (map f xs)
    → All (λ x. P (f x)) xs
All-unmap f P [] h = tt
All-unmap f P (x ∷ xs) h = (h.0, All-unmap f P xs h.1)

Unique-unmap {ℓ κ μ} :
    {A : Type ℓ} {B : Type κ} {K : Type μ} (f : A → B) (key : B → K) (xs : List A)
    → Unique key (map f xs)
    → Unique (λ x. key (f x)) xs
Unique-unmap f key [] h = tt
Unique-unmap f key (x ∷ xs) h =
    (All-unmap f (λ y. key y ≢ key (f x)) xs h.0, Unique-unmap f key xs h.1)

-- The auction with this id is open.
abbrev IsOpen : ℕ → Auction → Type 0
IsOpen id a = a.id ≡ id → a.is_closed ≡ false

schedule_one-IsOpen :
    (settings : Settings) (now : Instant) (id : ℕ) (a : Auction) (done : List Job × Database)
    → All (IsOpen id) done.1.auctions
    → All (IsOpen id) (schedule_one settings now a done).1.auctions
unfolding schedule_one Auctions.stop_monitoring Auctions.set_next_poll_at Auctions.modify
schedule_one-IsOpen settings now id a (jobs, db) h =
    elim (Bool-cases (count_watchers a.id db == 0)) [
      | inl e ↦
          rw e
            (All-update (λ x. x.id == a.id) Auctions.stopped (IsOpen id) db.auctions (λ x k _. k) h)
      | inr e ↦ rw e (
          All-update (λ x. x.id == a.id)
            (Auctions.with_next_poll (now +ℤ seconds settings.poll_lock_ttl_seconds)) (IsOpen id)
            db.auctions (λ x k _. k) h)
    ]

schedule-IsOpen :
    (settings : Settings) (now : Instant) (id : ℕ) (due : List Auction) (done : List Job × Database)
    → All (IsOpen id) done.1.auctions
    → All (IsOpen id) (schedule settings now due done).1.auctions
unfolding schedule
schedule-IsOpen settings now id [] done h = h
schedule-IsOpen settings now id (a ∷ due) done h =
    schedule-IsOpen settings now id due (schedule_one settings now a done)
      (schedule_one-IsOpen settings now id a done h)

links-schedule_one :
    (settings : Settings) (now : Instant) (a : Auction) (done : List Job × Database)
    → (schedule_one settings now a done).1.user_auctions ≡ done.1.user_auctions
unfolding schedule_one Auctions.stop_monitoring Auctions.set_next_poll_at Auctions.modify
links-schedule_one settings now a (jobs, db) = elim (Bool-cases (count_watchers a.id db == 0)) [
  | inl e ↦ rw e refl
  | inr e ↦ rw e refl
]

links-schedule :
    (settings : Settings) (now : Instant) (due : List Auction) (done : List Job × Database)
    → (schedule settings now due done).1.user_auctions ≡ done.1.user_auctions
unfolding schedule
links-schedule settings now [] done = refl
links-schedule settings now (a ∷ due) done =
    links-schedule settings now due (schedule_one settings now a done)
    ∙ links-schedule_one settings now a done

-- A link to an auction that is open is not finalized.
open-not_finalized :
    (id : ℕ) (db : Database) (l : UserAuction)
    → All (IsOpen id) db.auctions
    → l.auction_id ≡ id
    → is_finalized db l ≡ false
unfolding is_finalized
open-not_finalized id db l h same =
    rw
      (exists_where-none (λ (a : Auction). a.id == l.auction_id && a.is_closed) db.auctions
        (All-imply (IsOpen id) (λ a. (a.id == l.auction_id && a.is_closed) ≡ false) db.auctions
          (λ a k. neither a k (Bool-cases (a.id == l.auction_id))) h))
      refl
  where
    neither :
        (a : Auction)
        → IsOpen id a
        → ((a.id == l.auction_id) ≡ true) ⊎ ((a.id == l.auction_id) ≡ false)
        → (a.id == l.auction_id && a.is_closed) ≡ false
    neither a k (inl e) = rw e (k ((==_iff a.id l.auction_id).0 e ∙ same))
    neither a k (inr e) = rw e refl

module _ (settings : Settings) (now : Instant) (last_run : Option Instant) (db : Database)
    (w : WellFormed (keys db)) (telegram_id : ℕ) (external_id : Text) (user : User)
    (auction : Auction) (l : UserAuction) (hu : Users.get_by_telegram_id telegram_id db ≡ some user)
    (ha : Auctions.get_by_external_id external_id db ≡ some auction)
    (hl : UserAuctions.get user.id auction.id db ≡ some l) where
  abbrev after_schedule : Database
  after_schedule = scheduled settings now last_run db w

  link_auction : l.auction_id ≡ auction.id
  unfolding UserAuctions.get
  link_auction =
      ((&&_iff (l.user_id == user.id) (l.auction_id == auction.id) (==_iff l.user_id user.id)
          (==_iff l.auction_id auction.id)).0
        (select_one-holds (UserAuctions.joins user.id auction.id) db.user_auctions l hl)).1

  All-IsOpen : auction.is_closed ≡ false → All (IsOpen auction.id) after_schedule.auctions
  unfolding keys Auctions.get_by_external_id
  All-IsOpen opened =
      schedule-IsOpen settings now auction.id (Auctions.list_due now due_limit db) ([], db)
        (All-imply (λ (a : Auction). a.id ≡ auction.id → a ≡ auction) (IsOpen auction.id)
          db.auctions (λ a only same. ap (λ (x : Auction). x.is_closed) (only same) ∙ opened)
          (Unique-select_one (λ (a : Auction). a.id) (λ a. text_eq a.external_id external_id)
            db.auctions auction
            (Unique-unmap auction_key (λ (k : AuctionKey). k.0) db.auctions w.unique_auctions) ha))

  link_kept :
      auction.is_closed ≡ false
      → select_one
          (UserAuctions.joins user.id auction.id)
          (delete_where (is_finalized after_schedule) after_schedule.user_auctions)
        ≡ some l
  unfolding UserAuctions.get
  link_kept opened =
      select_one-not_deleted (UserAuctions.joins user.id auction.id) (is_finalized after_schedule)
        after_schedule.user_auctions l
        (ap (select_one (UserAuctions.joins user.id auction.id))
            (links-schedule settings now (Auctions.list_due now due_limit db) ([], db))
          ∙ hl)
        (open-not_finalized auction.id after_schedule l (All-IsOpen opened) link_auction)

  user_after : user_of telegram_id (keys after_schedule) ≡ some (user_key user)
  user_after =
      ap (user_of telegram_id) (scheduled-keys settings now last_run db w)
      ∙ user_of-keys telegram_id db
      ∙ ap (map_option user_key) hu

  auction_after : auction_of external_id (keys after_schedule) ≡ some (auction_key auction)
  auction_after =
      ap (auction_of external_id) (scheduled-keys settings now last_run db w)
      ∙ auction_of-keys external_id db
      ∙ ap (map_option auction_key) ha

  -- A tick takes no auction that is open off the watchlist of a user who watches it, if the constraints of the
  -- database hold.
  pub tick_keeps_open :
      auction.is_closed ≡ false
      → watchlist (tick_body settings now last_run db).db telegram_id external_id ≡ true
  tick_keeps_open opened =
      watchlist-keys telegram_id external_id (tick_body settings now last_run db).db
      ∙ ap (listed telegram_id external_id) (keys-tick settings now last_run db)
      ∙ still_linked
    where
      still_linked :
          listed telegram_id external_id (kept_links (is_finalized after_schedule) after_schedule)
          ≡ true
      still_linked =
          rw (user_after, auction_after)
            (ap is_some (
              select_one-map link_key (is_between user.id auction.id)
                (delete_where (is_finalized after_schedule) after_schedule.user_auctions)
              ∙ ap (map_option link_key) (link_kept opened)))
