-- ===== src/Infrastructure/RateLimit/Redis.antt =====
-- What the script in Redis tells a caller to wait, and what waiting so long is good for.
use aucnotif.Prelude.{ℕ, ◌*◌, ◌<◌, ◌≡◌, Option, none, some, true, inl, inr, Bool-cases, arith}
use aucnotif.Prelude.Int.{pos, ◌+ℤ◌, ◌-ℤ◌, ◌≤ℤ◌, ◌<ℤ◌, int_laws, -ℤ_parts, ℤ, ltb_ℤ}
use aucnotif.Times.{Instant, Duration, seconds}
use aucnotif.Infrastructure.RateLimit.{Hash, live, min_ℤ, script, refilled, acquire_redis}

zero_sum : (t : Instant) → pos 0 +ℤ (t -ℤ t) ≡ pos 0
zero_sum t = omega int_laws

minus_zero : (a : ℤ) → a -ℤ pos 0 ≡ a
minus_zero a = omega int_laws

denied-written :
    (period capacity : ℕ) (server now : Instant) (hash : Option Hash)
    → pos 0 <ℤ (script period capacity server now hash).0
    → (script period capacity server now hash).1 ≡ record {
      tokens = pos 0;
      ts = now +ℤ (script period capacity server now hash).0;
      expires = server +ℤ seconds 60;
    }
unfolding script
denied-written period capacity server now hash w =
    ground (arith, -ℤ_parts (pos period) (refilled period capacity now (live server hash)))

refilled-at_ts :
    (period capacity : ℕ) (t expires : Instant)
    → refilled period capacity t (some (record { tokens = pos 0; ts = t; expires = expires }))
      ≡ pos 0
unfolding refilled
refilled-at_ts period capacity t expires = ground (arith, zero_sum t)

alive : (server expires : Instant) → server <ℤ expires → ltb_ℤ server expires ≡ true
alive server expires h = ground arith

denied-at_ts :
    (period capacity : ℕ) (server t expires : Instant)
    → 0 < period
    → server <ℤ expires
    → (script period capacity server t
        (some (record { tokens = pos 0; ts = t; expires = expires }))).0
      ≡ pos period
unfolding script
denied-at_ts period capacity server t expires p early =
    rw (alive server expires early)
      (rw (refilled-at_ts period capacity t expires) (ground (arith, minus_zero (pos period))))

-- With the script in Redis, at a rate that is finite, a call that is denied and made again after exactly the wait
-- that the script computed is denied again, with a wait of a whole period, whatever the hash held, if less than a
-- minute has passed on the server's clock, after which the hash expires.
pub redis_denied_again :
    (period capacity : ℕ) (server server' now : Instant) (hash : Option Hash)
    → 0 < period
    → pos 0 <ℤ (script period capacity server now hash).0
    → server' <ℤ server +ℤ seconds 60
    → (script period capacity server'
        (now +ℤ (script period capacity server now hash).0)
        (some (script period capacity server now hash).1)).0
      ≡ pos period
redis_denied_again period capacity server server' now hash p w early =
    rw (denied-written period capacity server now hash w)
      (denied-at_ts period capacity server' _ _ p early)

-- The hash was written by now, and holds no debt.
abbrev pub IsSettled : Instant → Option Hash → Type 0
IsSettled now none = Unit
IsSettled now (some b) = (pos 0 ≤ℤ b.tokens) × (b.ts ≤ℤ now)

refilled-pos :
    (period capacity : ℕ) (now : Instant) (hash : Option Hash)
    → IsSettled now hash
    → pos 0 ≤ℤ refilled period capacity now hash
unfolding refilled
refilled-pos period capacity now none h = omega int_laws
refilled-pos period capacity now (some b) h =
    at_least (pos (capacity * period)) (b.tokens +ℤ (now -ℤ b.ts)) (omega int_laws)
      (omega (int_laws, h.0, h.1))
  where
    at_least : (x y : ℤ) → pos 0 ≤ℤ x → pos 0 ≤ℤ y → pos 0 ≤ℤ min_ℤ x y
    at_least x y a b = ground arith

script-wait_le :
    (period capacity : ℕ) (server now : Instant) (hash : Option Hash)
    → pos 0 ≤ℤ refilled period capacity now (live server hash)
    → (pos 0 ≤ℤ (script period capacity server now hash).0)
      × ((script period capacity server now hash).0 ≤ℤ pos period)
unfolding script
script-wait_le period capacity server now hash h =
    ground (arith, -ℤ_parts (pos period) (refilled period capacity now (live server hash)))

live-IsSettled :
    (server now : Instant) (hash : Option Hash)
    → IsSettled now hash
    → IsSettled now (live server hash)
live-IsSettled server now none h = tt
live-IsSettled server now (some b) h = elim (Bool-cases (ltb_ℤ server b.expires)) [
  | inl e ↦ rw e h
  | inr e ↦ rw e tt
]

-- At a rate of more than one call a second, and with a server that cuts a script's number down to
-- whole seconds, as Redis documents, no call is ever told to wait, however few tokens there are (as
-- long as the hash has no debt and no time ahead of the caller's clock), whether it has expired or not.
pub redis_never_waits :
    (reply : Duration → Duration) (period capacity : ℕ) (server now : Instant) (hash : Option Hash)
    → ((w : Duration) → pos 0 ≤ℤ w → w <ℤ seconds 1 → reply w ≡ pos 0)
    → pos period <ℤ seconds 1
    → IsSettled now hash
    → (acquire_redis reply period capacity server now hash).0 ≡ pos 0
unfolding acquire_redis
redis_never_waits reply period capacity server now hash cuts fast settled =
    let (low, high) = script-wait_le period capacity server now hash (
      refilled-pos period capacity now (live server hash)
        (live-IsSettled server now hash settled)) in
    cuts _ low (omega (int_laws, high, fast))
