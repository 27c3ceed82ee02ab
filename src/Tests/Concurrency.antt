-- ===== src/Tests/Concurrency.antt =====
-- The lock, the rate limiters and the sender.
use aucnotif.Prelude.{
  ℕ, zero, suc, ◌+◌, ◌*◌, ◌-◌, ◌≤◌, ◌≡◌, ◌≢◌, refl, Bool, true, false, Option, none, some, List, [],
  ◌∷◌, arith,
}
use aucnotif.Prelude.Int.{pos, ◌+ℤ◌, ◌-ℤ◌, ◌<ℤ◌, int_laws}
use aucnotif.Prelude.Lists.{All}
use aucnotif.Prelude.Text.{codes}
use aucnotif.Infrastructure.Locks.{RedisLock, try_acquire, release, set_if_absent, live}
use aucnotif.Infrastructure.Locks.Exclusion.{
  Command, attempt, give_back, serve_all, AllRefused, IsOther, entry_of, exclusive, taken_over,
}
use aucnotif.Infrastructure.RateLimit.{
  InMemoryRateLimiter, Hash, init, acquire, script, refilled, acquire_redis, acquire_with_wait,
}
use aucnotif.Infrastructure.RateLimit.Ends.{EndedBy, acquire_with_wait_ends}
use aucnotif.Infrastructure.RateLimit.Redis.{redis_denied_again, redis_never_waits}
use aucnotif.Infrastructure.RateLimit.Grants.{grants, last_call, grants_rate}
use aucnotif.Times.{seconds}
use aucnotif.Models.{SentNotification, pending}
use aucnotif.Domain.Notifications.{change, snapshot_key}
use aucnotif.Notifications.Sender.{Reply, accepted, retry_after, Sending, send}
use aucnotif.Notifications.Sender.Retries.{Ended, send_ends}
use aucnotif.Tests.Data.{settings}

abbrev lock_of : ℕ → RedisLock
lock_of token = record { token = token ∷ []; ttl = 90; held = false }

got : (try_acquire (pos 0) (lock_of 1) none).0 ≡ true
unfolding try_acquire set_if_absent live
got = refl

abbrev others : List Command
others = attempt (2 ∷ []) 90 (pos 5) ∷ give_back (3 ∷ []) (pos 6) ∷ []

differs : (n : ℕ) → 2 ≤ n → (n ∷ []) ≢ (1 ∷ [])
differs n h e = grind arith

foreign : All (IsOther (entry_of (lock_of 1) (pos 0))) others
foreign =
    ((differs 2 (omega arith), omega int_laws), ((differs 3 (omega arith), omega int_laws), tt))

exclusive_example :
    let (_, holder, taken) = try_acquire (pos 0) (lock_of 1) none in
    AllRefused others taken
    × (serve_all others taken ≡ taken)
    × (release (pos 80) holder (serve_all others taken)
        ≡ (true, record holder { held = false }, none))
exclusive_example = exclusive (pos 0) (pos 80) (lock_of 1) none others got foreign (omega int_laws)

taken_over_example :
    let (_, holder, taken) = try_acquire (pos 0) (lock_of 1) none in
    let (ok, _, retaken) = try_acquire (pos 90000000) (lock_of 2) taken in
    (ok ≡ true)
    × (holder.held ≡ true)
    × (release (pos 120000000) holder retaken ≡ (false, holder, retaken))
taken_over_example =
    taken_over (pos 0) (pos 90000000) (pos 120000000) (lock_of 1) (lock_of 2) none got
      (omega int_laws) (omega int_laws) (differs 2 (omega arith))

-- One call a second, with a burst of two.
abbrev limiter : InMemoryRateLimiter
limiter = init 1000000 2 0

abbrev calls : List ℕ
calls = 0 ∷ 100 ∷ 200 ∷ 1000300 ∷ []

grants_rate_example :
    (grants calls limiter).0 * 1000000 + (grants calls limiter).1.tokens
    ≤ 2000000 + (last_call 0 calls - 0)
grants_rate_example =
    grants_rate calls limiter (omega arith, (omega arith, (omega arith, (omega arith, tt))))

abbrev drained : InMemoryRateLimiter
drained = record { period = 1000000; tokens = 300000; burst = 2; last = 50 }

acquire_with_wait_ends_example :
    (r : Bool × ℕ × InMemoryRateLimiter) × ((acquire_with_wait acquire (λ w. w) 100 140 50 drained
        ≡ some r)
      × EndedBy acquire (λ w. w) 140 r)
acquire_with_wait_ends_example =
    acquire_with_wait_ends acquire (λ w. w) 100 140 50 drained (λ w. omega arith) (omega arith)

abbrev hash : Option Hash
hash = some (record { tokens = pos 400000; ts = pos 0; expires = seconds 60 })

redis_waits : pos 0 <ℤ (script 1000000 1 (pos 0) (pos 0) hash).0
unfolding script refilled ◌+ℤ◌ ◌-ℤ◌
redis_waits = omega int_laws

redis_denied_again_example :
    (script 1000000 1
      (seconds 2)
      (pos 0 +ℤ (script 1000000 1 (pos 0) (pos 0) hash).0)
      (some (script 1000000 1 (pos 0) (pos 0) hash).1)).0
    ≡ pos 1000000
redis_denied_again_example =
    redis_denied_again 1000000 1 (pos 0) (seconds 2) (pos 0) hash (omega arith) redis_waits
      (omega int_laws)

redis_never_waits_example : (acquire_redis (λ _. pos 0) 500000 1 (pos 0) (pos 0) hash).0 ≡ pos 0
redis_never_waits_example =
    redis_never_waits (λ _. pos 0) 500000 1 (pos 0) (pos 0) hash (λ _ _ _. refl) (omega int_laws)
      (omega int_laws, omega int_laws)

abbrev notification : SentNotification
notification = record {
  id = 1;
  user_auction_id = 1;
  kind = change;
  dedup_key = snapshot_key 7;
  text = some (codes "hello");
  status = pending;
  created_at = pos 0;
  sent_at = none;
}

-- Telegram asks for a pause once.
abbrev bot : ℕ → Reply
bot zero = accepted
bot (suc zero) = retry_after 3
bot (suc (suc n)) = accepted

send_ends_example :
    (r : Sending) × ((send settings bot notification ≡ some r) × Ended settings bot r)
send_ends_example = send_ends settings bot notification (codes "hello") refl
