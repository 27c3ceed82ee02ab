-- ===== src/Infrastructure/Locks.antt =====
-- app/infrastructure/locks.py: a lock on one Redis key, with a time to live and a token. A `Cell` is what
-- the server holds under the key; its two commands are those that the code sends, and an entry that has
-- reached its time is gone, as the server documents it.
pub mod Exclusion
use aucnotif.Prelude.{ℕ, zero, suc, Bool, true, false, not, Option, none, some, if◌then◌else◌}
use aucnotif.Prelude.Int.{◌+ℤ◌, leb_ℤ}
use aucnotif.Prelude.Text.{Text, text_eq}
use aucnotif.Times.{Instant, seconds}

pub record Entry : Type 0 where
  pub token : Text
  pub expires_at : Instant

abbrev pub Cell : Type 0
Cell = Option Entry

-- `GET`: what the key holds now.
unfoldable pub live : Instant → Cell → Cell
live now none = none
live now (some e) = if leb_ℤ e.expires_at now then none else some e

-- `SET key token NX EX ttl`.
unfoldable pub set_if_absent : Instant → Text → ℕ → Cell → Bool × Cell
set_if_absent now token ttl cell = elim (live now cell) [
  | none ↦ (true, some (record { token = token; expires_at = now +ℤ seconds ttl }))
  | some e ↦ (false, some e)
]

-- `_RELEASE_SCRIPT`: deletes the key only if it holds the token.
unfoldable pub release_script : Instant → Text → Cell → Bool × Cell
release_script now token cell = elim (live now cell) [
  | none ↦ (false, none)
  | some e ↦ if text_eq e.token token then (true, none) else (false, some e)
]

pub record RedisLock : Type 0 where
  pub token : Text
  pub ttl : ℕ
  pub held : Bool

-- `_try_acquire`, which is `acquire` without `blocking`.
unfoldable pub try_acquire : Instant → RedisLock → Cell → Bool × RedisLock × Cell
unfolding set_if_absent
try_acquire now lock cell =
    let (ok, cell') = set_if_absent now lock.token lock.ttl cell in
    (ok, record lock { held = ok }, cell')

unfoldable pub release : Instant → RedisLock → Cell → Bool × RedisLock × Cell
unfolding release_script
release now lock cell =
    let (released, cell') = release_script now lock.token cell in
    if lock.held
    then (released, if released then record lock { held = false } else lock, cell')
    else (false, lock, cell)

-- `acquire(blocking=True)`: the server's cell and the clock are given for each round, since other
-- processes act while the loop sleeps. `none` means that the fuel ran out.
unfoldable pub acquire_blocking :
    ℕ → (ℕ → Instant × Cell) → Instant → ℕ → RedisLock → Option (Bool × RedisLock × Cell)
unfolding try_acquire
acquire_blocking zero world deadline round lock = none
acquire_blocking (suc fuel) world deadline round lock =
    let (now, cell) = world round in
    let (ok, lock', cell') = try_acquire now lock cell in
    let again = acquire_blocking fuel world deadline (suc round) lock' in
    if ok
    then some (true, lock', cell')
    else if leb_ℤ deadline now
    then some (false, lock', cell')
    else again
