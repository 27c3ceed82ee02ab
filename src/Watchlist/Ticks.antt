-- ===== src/Watchlist/Ticks.antt =====
-- A tick of app/scheduler/scheduler.py removes links, and does nothing else to the keys of the database.
use aucnotif.Prelude.{
  ℕ, ◌≡◌, refl, sym, ◌∙◌, subst, Bool, true, Option, none, some, List, [], ◌∷◌, map, ◌==◌, inl, inr,
  Bool-cases,
}
use aucnotif.Prelude.Int.{◌+ℤ◌}
use aucnotif.Prelude.Lists.{delete_where}
use aucnotif.Prelude.Rows.{All-map_kept, Unique-map_kept, select_one-kept}
use aucnotif.Prelude.Text.{Text}
use aucnotif.Times.{Instant, seconds}
use aucnotif.Config.{Settings}
use aucnotif.Models.{Auction, UserAuction}
use aucnotif.Database.{Database}
use aucnotif.Repositories.Auctions.{list_due}
use aucnotif.Repositories.UserAuctions.{
  count_watchers, delete_links_for_finalized_auctions, is_finalized,
}
use aucnotif.Repositories.Snapshots.{purge_old}
use aucnotif.Scheduler.{
  Job, schedule_one, schedule, purge_old_snapshots, tick_body, due_limit, ran_recently,
}
use aucnotif.Watchlist.Keys.{
  Keys, keys, UserKey, AuctionKey, LinkKey, link_key, is_between, user_of, auction_of, linked,
  listed, WellFormed,
}
use aucnotif.Watchlist.Rows.{keys-set_next_poll_at}
use aucnotif.Watchlist.Polls.{keys-stop_monitoring}

keys-schedule_one :
    (settings : Settings) (now : Instant) (a : Auction) (done : List Job × Database)
    → keys (schedule_one settings now a done).1 ≡ keys done.1
unfolding schedule_one
keys-schedule_one settings now a (jobs, db) = elim (Bool-cases (count_watchers a.id db == 0)) [
  | inl e ↦ rw e (keys-stop_monitoring a.id db)
  | inr e ↦ rw e (keys-set_next_poll_at a.id (now +ℤ seconds settings.poll_lock_ttl_seconds) db)
]

keys-schedule :
    (settings : Settings) (now : Instant) (due : List Auction) (done : List Job × Database)
    → keys (schedule settings now due done).1 ≡ keys done.1
unfolding schedule
keys-schedule settings now [] done = refl
keys-schedule settings now (a ∷ due) done =
    keys-schedule settings now due (schedule_one settings now a done)
    ∙ keys-schedule_one settings now a done

keys-purge_old_snapshots :
    (settings : Settings) (now : Instant) (last_run : Option Instant) (db : Database)
    → keys (purge_old_snapshots settings now last_run db).0 ≡ keys db
unfolding purge_old_snapshots purge_old keys
keys-purge_old_snapshots settings now last_run db =
    elim (Bool-cases (settings.snapshot_retention_days == 0)) [
      | inl e ↦ rw e refl
      | inr e ↦ elim (Bool-cases (ran_recently now last_run)) [
        | inl f ↦ rw (e, f) refl
        | inr f ↦ rw (e, f) refl
      ]
    ]

-- The keys of a database whose links are those that a condition does not take.
abbrev pub kept_links : (UserAuction → Bool) → Database → Keys
kept_links p db = record (keys db) { links = map link_key (delete_where p db.user_auctions) }

keys-delete_links :
    (db : Database)
    → keys (delete_links_for_finalized_auctions db).1 ≡ kept_links (is_finalized db) db
unfolding keys delete_links_for_finalized_auctions
keys-delete_links db = refl

kept_links-WellFormed :
    (p : UserAuction → Bool) (db : Database) → WellFormed (keys db) → WellFormed (kept_links p db)
unfolding keys
kept_links-WellFormed p db w = record {
  unique_users = w.unique_users;
  unique_auctions = w.unique_auctions;
  unique_links = Unique-map_kept link_key (λ (l : LinkKey). l.0) p db.user_auctions w.unique_links;
  unique_pairs = Unique-map_kept link_key (λ (l : LinkKey). l.1) p db.user_auctions w.unique_pairs;
  old_users = w.old_users;
  old_auctions = w.old_auctions;
  old_links = All-map_kept link_key _ p db.user_auctions w.old_links;
  old_link_users = All-map_kept link_key _ p db.user_auctions w.old_link_users;
  old_link_auctions = All-map_kept link_key _ p db.user_auctions w.old_link_auctions;
}

linked-kept :
    (p : UserAuction → Bool) (xs : List UserAuction) (u : Option UserKey) (a : Option AuctionKey)
    → linked u a (map link_key (delete_where p xs)) ≡ true
    → linked u a (map link_key xs) ≡ true
linked-kept p xs none a h = h
linked-kept p xs (some u) none h = h
linked-kept p xs (some u) (some a) h = select_one-kept link_key (is_between u.0 a.0) p xs h

-- The keys after a tick.
pub keys-tick :
    (settings : Settings) (now : Instant) (last_run : Option Instant) (db : Database)
    → let scheduled = (schedule settings now (list_due now due_limit db) ([], db)).1 in
      keys (tick_body settings now last_run db).db ≡ kept_links (is_finalized scheduled) scheduled
unfolding tick_body
keys-tick settings now last_run db =
    let scheduled = (schedule settings now (list_due now due_limit db) ([], db)).1 in
    keys-purge_old_snapshots settings now last_run (delete_links_for_finalized_auctions scheduled).1
    ∙ keys-delete_links scheduled

module _ (settings : Settings) (now : Instant) (last_run : Option Instant) (db : Database)
    (w : WellFormed (keys db)) where
  abbrev pub scheduled : Database
  scheduled = (schedule settings now (list_due now due_limit db) ([], db)).1

  pub scheduled-keys : keys scheduled ≡ keys db
  scheduled-keys = keys-schedule settings now (list_due now due_limit db) ([], db)

  pub tick-WellFormed : WellFormed (keys (tick_body settings now last_run db).db)
  tick-WellFormed = subst WellFormed (sym (keys-tick settings now last_run db)) (
      kept_links-WellFormed (is_finalized scheduled) scheduled
        (subst WellFormed (sym scheduled-keys) w))

  -- Who watches an auction after a tick watched it before.
  pub tick-listed :
      (t : ℕ) (e : Text)
      → listed t e (keys (tick_body settings now last_run db).db) ≡ true
      → listed t e (keys db) ≡ true
  unfolding keys
  tick-listed t e h =
      subst (λ k. listed t e k ≡ true) scheduled-keys
        (linked-kept (is_finalized scheduled) scheduled.user_auctions (user_of t (keys scheduled))
          (auction_of e (keys scheduled))
          (subst (λ k. listed t e k ≡ true) (keys-tick settings now last_run db) h))
