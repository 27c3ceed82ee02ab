-- ===== src/Scheduler/Pending.antt =====
-- Notifications that are still to be sent, under the clean-up of a tick.
use aucnotif.Prelude.{
  ℕ, ◌≡◌, refl, sym, ap, ◌∙◌, Bool, true, false, not, ◌&&◌, Option, some, List, [], ◌∷◌, ◌==◌,
  ==_iff, inl, inr, Bool-cases,
}
use aucnotif.Prelude.Lists.{select, select_one, exists_where, All-of_tests}
use aucnotif.Prelude.Rows.{
  select_one-not_deleted, exists_where-found, exists_where-none, true≢false,
}
use aucnotif.Times.{Instant}
use aucnotif.Config.{Settings}
use aucnotif.Models.{Auction, UserAuction, SentNotification}
use aucnotif.Database.{Database}
use aucnotif.Repositories.Auctions
use aucnotif.Repositories.Auctions.{list_due}
use aucnotif.Repositories.Notifications.{get_by_id}
use aucnotif.Repositories.Snapshots.{purge_old}
use aucnotif.Repositories.UserAuctions.{
  count_watchers, delete_links_for_finalized_auctions, is_finalized, is_pending,
}
use aucnotif.Scheduler.{
  Job, schedule_one, schedule, purge_old_snapshots, tick_body, due_limit, ran_recently,
}

notifications-schedule_one :
    (settings : Settings) (now : Instant) (a : Auction) (done : List Job × Database)
    → (schedule_one settings now a done).1.notifications ≡ done.1.notifications
unfolding schedule_one Auctions.stop_monitoring Auctions.set_next_poll_at Auctions.modify
notifications-schedule_one settings now a (jobs, db) =
    elim (Bool-cases (count_watchers a.id db == 0)) [ inl e ↦ rw e refl | inr e ↦ rw e refl ]

notifications-schedule :
    (settings : Settings) (now : Instant) (due : List Auction) (done : List Job × Database)
    → (schedule settings now due done).1.notifications ≡ done.1.notifications
unfolding schedule
notifications-schedule settings now [] done = refl
notifications-schedule settings now (a ∷ due) done =
    notifications-schedule settings now due (schedule_one settings now a done)
    ∙ notifications-schedule_one settings now a done

notifications-purge :
    (settings : Settings) (now : Instant) (last_run : Option Instant) (db : Database)
    → (purge_old_snapshots settings now last_run db).0.notifications ≡ db.notifications
unfolding purge_old_snapshots purge_old
notifications-purge settings now last_run db =
    elim (Bool-cases (settings.snapshot_retention_days == 0)) [
      | inl e ↦ rw e refl
      | inr e ↦ elim (Bool-cases (ran_recently now last_run)) [
        | inl f ↦ rw (e, f) refl
        | inr f ↦ rw (e, f) refl
      ]
    ]

and_not : (b c : Bool) → c ≡ true → (b && not c) ≡ true → ⊥
and_not true true h k = true≢false (sym k)
and_not true false h k = true≢false (sym h)
and_not false c h k = true≢false (sym k)

module _ (id : ℕ) (n : SentNotification) (db : Database) (known : get_by_id id db ≡ some n)
    (waiting : is_pending n.status ≡ true) where
  -- The link of a pending notification is not finalized.
  not_finalized : (l : UserAuction) → is_finalized db l ≡ true → (l.id == n.user_auction_id) ≡ false
  unfolding is_finalized get_by_id
  not_finalized l h = elim (Bool-cases (l.id == n.user_auction_id)) [
    | inr e ↦ e
    | inl e ↦ absurd (and_not _ _ (there e) h)
  ]
    where
      there :
          (l.id == n.user_auction_id) ≡ true
          → exists_where (λ m. m.user_auction_id == l.id && is_pending m.status) db.notifications
            ≡ true
      there e =
          exists_where-found (λ m. m.id == id)
            (λ m. m.user_auction_id == l.id && is_pending m.status) db.notifications n known
            (rw
              (
                (==_iff n.user_auction_id l.id).1 (sym ((==_iff l.id n.user_auction_id).0 e)),
                waiting,
              )
              refl)

  kept_by_delete : get_by_id id (delete_links_for_finalized_auctions db).1 ≡ some n
  unfolding delete_links_for_finalized_auctions get_by_id
  kept_by_delete =
      select_one-not_deleted (λ m. m.id == id)
        (λ m.
          exists_where (λ (l : UserAuction). l.id == m.user_auction_id)
            (select (is_finalized db) db.user_auctions))
        db.notifications n known
        (exists_where-none (λ (l : UserAuction). l.id == n.user_auction_id)
          (select (is_finalized db) db.user_auctions)
          (All-of_tests (λ (l : UserAuction). (l.id == n.user_auction_id) ≡ false) (is_finalized db)
            not_finalized db.user_auctions))

-- A tick deletes no notification that is still to be sent, whatever links and snapshots it deletes.
pub tick-pending :
    (settings : Settings) (now : Instant) (last_run : Option Instant) (id : ℕ)
    (n : SentNotification) (db : Database)
    → get_by_id id db ≡ some n
    → is_pending n.status ≡ true
    → get_by_id id (tick_body settings now last_run db).db ≡ some n
unfolding tick_body
tick-pending settings now last_run id n db known waiting =
    let scheduled = (schedule settings now (list_due now due_limit db) ([], db)).1 in
    let cleaned = (delete_links_for_finalized_auctions scheduled).1 in
    same_table _ cleaned (notifications-purge settings now last_run cleaned)
    ∙ kept_by_delete id n scheduled
        (same_table scheduled db
            (notifications-schedule settings now (list_due now due_limit db) ([], db))
          ∙ known)
        waiting
  where
    same_table :
        (a b : Database) → a.notifications ≡ b.notifications → get_by_id id a ≡ get_by_id id b
    same_table a b h = unfold get_by_id in ap (λ rows. select_one (λ m. m.id == id) rows) h
