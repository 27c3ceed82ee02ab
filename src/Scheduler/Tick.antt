-- ===== src/Scheduler/Tick.antt =====
-- One tick: what it leaves due, and the polls that it puts into the queue.
use aucnotif.Prelude.{
  ℕ, ◌≤◌, ◌≡◌, refl, sym, ap, ◌∙◌, subst, arith, false, Option, List, [], ◌∷◌, ◌++◌, ◌==◌,
  if◌then◌else◌, inl, inr, Bool-cases,
}
use mathlib.Core.List.{append-nil, append_assoc}
use mathlib.Core.Bool.{true≢false}
use aucnotif.Prelude.Lists.{All, All-imply}
use aucnotif.Times.{Instant}
use aucnotif.Config.{Settings}
use aucnotif.Models.{Auction}
use aucnotif.Database.{Database}
use aucnotif.Repositories.Auctions.{is_due, list_due, stop_monitoring, set_next_poll_at, modify}
use aucnotif.Repositories.UserAuctions.{count_watchers, delete_links_for_finalized_auctions}
use aucnotif.Repositories.Snapshots.{purge_old}
use aucnotif.Scheduler.{
  Job, poll_auction, due_limit, schedule_one, schedule, tick_body, purge_old_snapshots,
  recover_pending_notifications,
}
use aucnotif.Scheduler.Due.{Covered, Fits, Covered-list_due, Covered-schedule}

-- The poll jobs for those of the auctions that have watchers.
abbrev pub watched : Database → List Auction → List Job
watched db [] = []
watched db (a ∷ rest) =
    if count_watchers a.id db == 0 then watched db rest else poll_auction a.id ∷ watched db rest

watched-same :
    (db db' : Database) (due : List Auction)
    → ((id : ℕ) → count_watchers id db ≡ count_watchers id db')
    → watched db due ≡ watched db' due
watched-same db db' [] h = refl
watched-same db db' (a ∷ rest) h = rw (h a.id) (
    ap (λ js. if count_watchers a.id db' == 0 then js else poll_auction a.id ∷ js)
      (watched-same db db' rest h))

module _ (settings : Settings) (now : Instant) where
  count-schedule_one :
      (a : Auction) (jobs : List Job) (db : Database) (id : ℕ)
      → count_watchers id (schedule_one settings now a (jobs, db)).1 ≡ count_watchers id db
  unfolding schedule_one stop_monitoring set_next_poll_at modify count_watchers
  count-schedule_one a jobs db id = elim (Bool-cases (count_watchers a.id db == 0)) [
    | inl e ↦ rw e refl
    | inr e ↦ rw e refl
  ]

  jobs-schedule_one :
      (a : Auction) (jobs : List Job) (db : Database)
      → (schedule_one settings now a (jobs, db)).0
        ≡ (if count_watchers a.id db == 0 then jobs else jobs ++ poll_auction a.id ∷ [])
  unfolding schedule_one
  jobs-schedule_one a jobs db = elim (Bool-cases (count_watchers a.id db == 0)) [
    | inl e ↦ rw e refl
    | inr e ↦ rw e refl
  ]

  jobs-schedule :
      (due : List Auction) (jobs : List Job) (db : Database)
      → (schedule settings now due (jobs, db)).0 ≡ jobs ++ watched db due
  unfolding schedule
  jobs-schedule [] jobs db = sym (append-nil jobs)
  jobs-schedule (a ∷ rest) jobs db =
      let done = schedule_one settings now a (jobs, db) in
      jobs-schedule rest done.0 done.1
      ∙ (ap (λ js. done.0 ++ js) (watched-same done.1 db rest (count-schedule_one a jobs db))
          ∙ rw (jobs-schedule_one a jobs db) (elim (Bool-cases (count_watchers a.id db == 0)) [
            | inl e ↦ rw e refl
            | inr e ↦ rw e (append_assoc jobs (poll_auction a.id ∷ []) (watched db rest))
          ]))

  purge-auctions :
      (last_run : Option Instant) (db : Database)
      → (purge_old_snapshots settings now last_run db).0.auctions ≡ db.auctions
  unfolding purge_old_snapshots purge_old
  purge-auctions last_run db = ground arith

  -- If no more auctions are due than one tick takes and the lock's time to live is not zero, then
  -- after the tick no auction is due at its time, and the jobs that it has put into the queue begin
  -- with a poll of each auction that was due and has a watcher, in the order of `list_due`; the due
  -- auctions that nobody watches are not polled.
  pub tick-NothingDue :
      (last_run : Option Instant) (db : Database)
      → 1 ≤ settings.poll_lock_ttl_seconds
      → Fits now db
      → All (λ a. is_due now a ≡ false) (tick_body settings now last_run db).db.auctions
        × ((sends : List Job) × ((tick_body settings now last_run db).jobs
              ≡ watched db (list_due now due_limit db) ++ sends))
  unfolding tick_body delete_links_for_finalized_auctions
  tick-NothingDue last_run db ttl fits =
      let due = list_due now due_limit db in
      let scheduled = (schedule settings now due ([], db)).1 in
      let cleaned = (delete_links_for_finalized_auctions scheduled).1 in
      (
        subst (All (λ a. is_due now a ≡ false)) (sym (purge-auctions last_run cleaned)) (
            All-imply (Covered now []) (λ a. is_due now a ≡ false) scheduled.auctions
              (λ r c. elim c [ inl e ↦ e | inr e ↦ absurd (true≢false (sym e)) ])
              (Covered-schedule settings now due [] db ttl (Covered-list_due now db fits))),
        (
          recover_pending_notifications now cleaned,
          ap (λ js. js ++ recover_pending_notifications now cleaned) (jobs-schedule due [] db),
        ),
      )
