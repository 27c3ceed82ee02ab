-- ===== src/Scheduler.antt =====
-- app/scheduler/scheduler.py: one tick. The queue is the list of the jobs that the tick puts into it.
pub mod Pending
pub mod Due
pub mod Tick
use aucnotif.Prelude.{
  ℕ, ◌*◌, max, Bool, false, Option, none, some, List, [], ◌∷◌, ◌++◌, map, ◌==◌, if◌then◌else◌,
}
use aucnotif.Prelude.Int.{◌+ℤ◌, ◌-ℤ◌, ltb_ℤ}
use aucnotif.Prelude.Text.{Text}
use aucnotif.Times.{Instant, Duration, seconds, minutes, hours}
use aucnotif.Config.{Settings}
use aucnotif.Models.{Auction}
use aucnotif.Database.{Database}
use aucnotif.Repositories.Auctions.{list_due, stop_monitoring, set_next_poll_at, count_monitored}
use aucnotif.Repositories.UserAuctions.{count_watchers, delete_links_for_finalized_auctions}
use aucnotif.Repositories.Notifications.{list_pending_older_than}
use aucnotif.Repositories.Snapshots.{purge_old}
use aucnotif.Infrastructure.Locks.{Cell, RedisLock, try_acquire, release}

pub data Job : Type 0 where
  poll_auction send_notification : ℕ → Job

abbrev pub pending_recovery_delay : Duration
pending_recovery_delay = minutes 5

-- The default of `list_due`'s `limit`.
abbrev pub due_limit : ℕ
due_limit = 200

module _ (settings : Settings) (now : Instant) where
  -- The body of the loop over the due auctions, on the jobs so far and the database.
  unfoldable pub schedule_one : Auction → List Job × Database → List Job × Database
  schedule_one auction (jobs, db) =
      if count_watchers auction.id db == 0 then (jobs, stop_monitoring auction.id db) else (
        jobs ++ poll_auction auction.id ∷ [],
        set_next_poll_at auction.id (now +ℤ seconds settings.poll_lock_ttl_seconds) db,
      )

  unfoldable pub schedule : List Auction → List Job × Database → List Job × Database
  schedule [] done = done
  schedule (auction ∷ rest) done = schedule rest (schedule_one auction done)

unfoldable pub recover_pending_notifications : Instant → Database → List Job
recover_pending_notifications now db =
    map send_notification (list_pending_older_than (now -ℤ pending_recovery_delay) db)

-- The last run's time, which Redis keeps, tells whether a day has passed.
abbrev pub ran_recently : Instant → Option Instant → Bool
ran_recently now none = false
ran_recently now (some last_run) = ltb_ℤ (now -ℤ last_run) (hours 23)

unfoldable pub purge_old_snapshots :
    Settings → Instant → Option Instant → Database → Database × Option Instant
purge_old_snapshots settings now last_run db =
    if settings.snapshot_retention_days == 0
    then (db, last_run)
    else if ran_recently now last_run
    then (db, last_run)
    else ((purge_old (now -ℤ hours (24 * settings.snapshot_retention_days)) db).1, some now)

pub record Ticked : Type 0 where
  pub db : Database
  pub jobs : List Job
  pub last_run : Option Instant
  pub monitored : ℕ

-- `_tick`, without the size of the queue, which is only reported.
unfoldable pub tick_body : Settings → Instant → Option Instant → Database → Ticked
tick_body settings now last_run db =
    let (jobs, scheduled) = schedule settings now (list_due now due_limit db) ([], db) in
    let (removed, cleaned) = delete_links_for_finalized_auctions scheduled in
    let recovered = recover_pending_notifications now cleaned in
    let (purged, last_run') = purge_old_snapshots settings now last_run cleaned in
    record {
      db = purged;
      jobs = jobs ++ recovered;
      last_run = last_run';
      monitored = count_monitored purged;
    }

abbrev pub tick_lock : Settings → Text → RedisLock
tick_lock settings token = record {
  token = token;
  ttl = max settings.scheduler_tick_seconds 10;
  held = false;
}

-- `tick`: nothing is done if another scheduler holds the lock.
unfoldable pub tick :
    Settings → Text → Instant → Instant → Option Instant → Cell → Database → Option Ticked × Cell
tick settings token now ended last_run cell db =
    let (ok, lock, taken) = try_acquire now (tick_lock settings token) cell in
    if ok
    then (some (tick_body settings now last_run db), (release ended lock taken).2)
    else (none, taken)
