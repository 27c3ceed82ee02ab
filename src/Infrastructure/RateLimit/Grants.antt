-- ===== src/Infrastructure/RateLimit/Grants.antt =====
-- What the two token buckets grant: never faster than the rate, and whether waiting helps.
use aucnotif.Prelude.{
  ℕ, suc, ◌+◌, ◌-◌, ◌*◌, ◌≤◌, ◌<◌, ◌≡◌, Bool, true, false, List, [], ◌∷◌, arith, leb, if◌then◌else◌,
}
use aucnotif.Infrastructure.RateLimit.{InMemoryRateLimiter, acquire}

-- The number of grants among calls at these times, and the limiter after them.
pub grants : List ℕ → InMemoryRateLimiter → ℕ × InMemoryRateLimiter
grants [] l = (0, l)
grants (now ∷ rest) l =
    let (wait, l') = acquire now l in
    let (n, last) = grants rest l' in (if leb wait 0 then suc n else n, last)

abbrev pub IsMonotonic : ℕ → List ℕ → Type 0
IsMonotonic t [] = Unit
IsMonotonic t (now ∷ rest) = (t ≤ now) × IsMonotonic now rest

abbrev pub last_call : ℕ → List ℕ → ℕ
last_call t [] = t
last_call t (now ∷ rest) = last_call now rest

period-acquire : (now : ℕ) (l : InMemoryRateLimiter) → (acquire now l).1.period ≡ l.period
unfolding acquire
period-acquire now l = ground arith

last-acquire : (now : ℕ) (l : InMemoryRateLimiter) → (acquire now l).1.last ≡ now
unfolding acquire
last-acquire now l = ground arith

-- What one call spends and keeps is at most what was there and what has flowed in.
spent-acquire :
    (now : ℕ) (l : InMemoryRateLimiter)
    → (if leb (acquire now l).0 0 then l.period else 0) + (acquire now l).1.tokens
      ≤ l.tokens + (now - l.last)
unfolding acquire
spent-acquire now l = ground arith

last_call-le : (t : ℕ) (times : List ℕ) → IsMonotonic t times → t ≤ last_call t times
last_call-le t [] h = omega arith
last_call-le t (now ∷ rest) h = omega (arith, last_call-le now rest h.1)

-- One more call: `g` grants and `kept` tokens behind it.
one_more :
    (granted : Bool) (g period kept tokens tokens' t now last : ℕ)
    → (if granted then period else 0) + tokens' ≤ tokens + (now - t)
    → g * period + kept ≤ tokens' + (last - now)
    → t ≤ now
    → now ≤ last
    → (if granted then suc g else g) * period + kept ≤ tokens + (last - t)
one_more true g period kept tokens tokens' t now last p q h k = omega arith
one_more false g period kept tokens tokens' t now last p q h k = omega arith

-- Calls at times that never go back are granted no faster than the rate: each grant takes one period,
-- and the periods taken are covered by the tokens that were there and by the time that has passed.
pub grants_rate :
    (times : List ℕ) (l : InMemoryRateLimiter)
    → IsMonotonic l.last times
    → (grants times l).0 * l.period + (grants times l).1.tokens
      ≤ l.tokens + (last_call l.last times - l.last)
unfolding grants
grants_rate [] l h = omega arith
grants_rate (now ∷ rest) l h =
    let l' = (acquire now l).1 in
    one_more (leb (acquire now l).0 0) (grants rest l').0 l.period (grants rest l').1.tokens
      l.tokens l'.tokens l.last now (last_call now rest) (spent-acquire now l)
      (rw (period-acquire now l, last-acquire now l) at
        (grants_rate rest l' (rw (last-acquire now l) h.1)))
      h.0 (last_call-le now rest h.1)

burst-acquire : (now : ℕ) (l : InMemoryRateLimiter) → (acquire now l).1.burst ≡ l.burst
unfolding acquire
burst-acquire now l = ground arith

tokens-denied :
    (now : ℕ) (l : InMemoryRateLimiter)
    → 0 < (acquire now l).0
    → (acquire now l).0 + (acquire now l).1.tokens ≡ l.period
unfolding acquire
tokens-denied now l w = ground arith

le-mul : (b p : ℕ) → 1 ≤ b → p ≤ b * p
le-mul b p h = grind arith

granted_if :
    (now : ℕ) (l : InMemoryRateLimiter)
    → l.period ≤ l.burst * l.period
    → l.period ≤ l.tokens + (now - l.last)
    → (acquire now l).0 ≡ 0
unfolding acquire
granted_if now l b t = ground arith

-- In memory, a call that has to wait is granted if it is made again after exactly that wait and nothing
-- else has called in between; the bucket must hold at least one token.
pub wait_then_granted :
    (now : ℕ) (l : InMemoryRateLimiter)
    → 1 ≤ l.burst
    → 0 < (acquire now l).0
    → (acquire (now + (acquire now l).0) (acquire now l).1).0 ≡ 0
wait_then_granted now l b w =
    granted_if (now + (acquire now l).0) (acquire now l).1
      (rw (period-acquire now l, burst-acquire now l) (le-mul l.burst l.period b))
      (rw (period-acquire now l, last-acquire now l) (omega (arith, tokens-denied now l w)))
