-- ===== src/Workers/PollAuction.antt =====
-- `poll_auction` of app/workers/tasks.py: one poll under the auction's lock. The counters and the log are
-- not modelled.
use aucnotif.Prelude.{ℕ, false, Option, none, some, List, [], if◌then◌else◌}
use aucnotif.Prelude.Text.{Text}
use aucnotif.Times.{Instant}
use aucnotif.Config.{Settings}
use aucnotif.Database.{Database}
use aucnotif.Providers.{Fetched}
use aucnotif.Infrastructure.Locks.{Cell, RedisLock, try_acquire, release}
use aucnotif.Services.Monitoring.{PollResult, Polled, poll}

pub data JobResult : Type 0 where
  locked : JobResult
  done : PollResult → JobResult
  exception : JobResult

pub record Job : Type 0 where
  pub result : JobResult
  pub db : Database
  pub enqueued : List ℕ
  pub cell : Cell

-- The `try … finally`: what `poll` did, and the lock released at `ended`.
unfoldable pub close : Instant → RedisLock → Cell → Database → Option Polled → Job
close ended lock cell db none = record {
  result = exception;
  db = db;
  enqueued = [];
  cell = (release ended lock cell).2;
}
close ended lock cell db (some (result, db', ids)) = record {
  result = done result;
  db = db';
  enqueued = ids;
  cell = (release ended lock cell).2;
}

abbrev pub poll_lock : Settings → Text → RedisLock
poll_lock settings token = record {
  token = token;
  ttl = settings.poll_lock_ttl_seconds;
  held = false;
}

-- `token` is the lock's fresh `uuid4`, and `cell` what the server holds for this auction's key.
unfoldable pub poll_auction :
    Settings → (Text → Fetched) → Text → Instant → Instant → ℕ → Cell → Database → Job
poll_auction settings provider token now ended auction_id cell db =
    let (ok, lock, taken) = try_acquire now (poll_lock settings token) cell in
    let run = close ended lock taken db (poll settings provider now auction_id db) in
    if ok then run else record { result = locked; db = db; enqueued = []; cell = taken }
