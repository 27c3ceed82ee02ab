-- ===== src/Infrastructure/RateLimit.antt =====
-- app/infrastructure/ratelimit.py and redis_rate_limit.py: token buckets. Python and Lua count tokens in
-- floats at a rate; here a token is one `period` (the inverse of the rate) of time, so that all of the
-- arithmetic is exact: `tokens` below is the program's number times the period.
pub mod Grants
pub mod Redis
pub mod Ends
use aucnotif.Prelude.{
  ℕ, zero, suc, ◌+◌, ◌-◌, ◌*◌, min, Bool, true, false, Option, none, some, leb, ltb, if◌then◌else◌,
}
use aucnotif.Prelude.Int.{ℤ, pos, ◌+ℤ◌, ◌-ℤ◌, leb_ℤ, ltb_ℤ}
use aucnotif.Times.{Instant, Duration, seconds}

pub record InMemoryRateLimiter : Type 0 where
  pub period : ℕ
  pub tokens : ℕ
  pub burst : ℕ
  pub last : ℕ

abbrev pub init : ℕ → ℕ → ℕ → InMemoryRateLimiter
init period burst now = record {
  period = period;
  tokens = burst * period;
  burst = burst;
  last = now;
}

-- The waiting time, and the limiter after the call. The clock is monotonic.
unfoldable pub acquire : ℕ → InMemoryRateLimiter → ℕ × InMemoryRateLimiter
acquire now self =
    let tokens = min (self.burst * self.period) (self.tokens + (now - self.last)) in
    if leb self.period tokens
    then (0, record self { tokens = tokens - self.period; last = now })
    else (self.period - tokens, record self { tokens = tokens; last = now })

-- The hash under the limiter's key, if it is there. It expires on the server's clock.
pub record Hash : Type 0 where
  pub tokens : ℤ
  pub ts : Instant
  pub expires : Instant

-- What `HMGET` finds at a time of the server.
abbrev pub live : Instant → Option Hash → Option Hash
live server none = none
live server (some b) = if ltb_ℤ server b.expires then some b else none

abbrev pub min_ℤ : ℤ → ℤ → ℤ
min_ℤ a b = if leb_ℤ a b then a else b

unfoldable pub refilled : ℕ → ℕ → Instant → Option Hash → ℤ
refilled period capacity now none = pos (capacity * period)
refilled period capacity now (some b) = min_ℤ (pos (capacity * period)) (b.tokens +ℤ (now -ℤ b.ts))

-- The Lua script: the wait that it returns, and the hash that it writes, for a minute. `server` is the server's
-- clock, `now` the caller's.
unfoldable pub script : ℕ → ℕ → Instant → Instant → Option Hash → Duration × Hash
unfolding refilled
script period capacity server now hash =
    let tokens = refilled period capacity now (live server hash) in
    let wait = pos period -ℤ tokens in
    let expires = server +ℤ seconds 60 in
    if leb_ℤ (pos period) tokens
    then (pos 0, record { tokens = tokens -ℤ pos period; ts = now; expires = expires })
    else (wait, record { tokens = pos 0; ts = now +ℤ wait; expires = expires })

-- `RedisRateLimiter.acquire`: `reply` is what the server makes of a number that a script returns.
unfoldable pub acquire_redis :
    (Duration → Duration) → ℕ → ℕ → Instant → Instant → Option Hash → Duration × Hash
unfolding script
acquire_redis reply period capacity server now hash =
    let (wait, written) = script period capacity server now hash in (reply wait, written)

-- `acquire_with_wait` on fuel, for any limiter: what a call changes, and what others do until the next one, is in
-- its state. A pause of `wait` takes `sleep wait`, with the time that the next call takes. `none` means that the fuel ran out.
module _ {S : Type 0} (acquire_at : ℕ → S → ℕ × S) (sleep : ℕ → ℕ) where
  unfoldable pub acquire_with_wait : ℕ → ℕ → ℕ → S → Option (Bool × ℕ × S)
  acquire_with_wait zero deadline now limiter = none
  acquire_with_wait (suc fuel) deadline now limiter =
      let (wait, limiter') = acquire_at now limiter in
      let again = acquire_with_wait fuel deadline (now + sleep wait) limiter' in
      if leb wait 0
      then some (true, now, limiter')
      else if ltb deadline (now + wait)
      then some (false, now, limiter')
      else again
