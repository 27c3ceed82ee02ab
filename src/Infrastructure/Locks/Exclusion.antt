-- ===== src/Infrastructure/Locks/Exclusion.antt =====
-- The lock excludes others until its time is over, and a release never frees another's lock.
use aucnotif.Prelude.{
  ℕ, ◌≡◌, ◌≢◌, refl, sym, ap, Bool, true, false, none, some, List, [], ◌∷◌, arith,
}
use aucnotif.Prelude.Int.{◌+ℤ◌, ◌≤ℤ◌, ◌<ℤ◌}
use aucnotif.Prelude.Lists.{All}
use aucnotif.Prelude.Text.{Text, text_eq, text_eq_iff}
use aucnotif.Times.{Instant, seconds}
use aucnotif.Infrastructure.Locks.{
  Entry, Cell, live, set_if_absent, release_script, RedisLock, try_acquire, release,
}

-- What any process may send to the server: an attempt to take the lock, or a release.
pub data Command : Type 0 where
  attempt : Text → ℕ → Instant → Command
  give_back : Text → Instant → Command

abbrev pub token_of : Command → Text
token_of (attempt token ttl at) = token
token_of (give_back token at) = token

abbrev pub time_of : Command → Instant
time_of (attempt token ttl at) = at
time_of (give_back token at) = at

pub serve : Command → Cell → Bool × Cell
serve (attempt token ttl at) cell = set_if_absent at token ttl cell
serve (give_back token at) cell = release_script at token cell

pub serve_all : List Command → Cell → Cell
serve_all [] cell = cell
serve_all (c ∷ rest) cell = serve_all rest (serve c cell).1

-- The server says no to every one of the commands in turn.
pub AllRefused : List Command → Cell → Type 0
AllRefused [] cell = Unit
AllRefused (c ∷ rest) cell = ((serve c cell).0 ≡ false) × AllRefused rest (serve c cell).1

-- A command of another process, before the entry's time is over.
abbrev pub IsOther : Entry → Command → Type 0
IsOther e c = (token_of c ≢ e.token) × (time_of c <ℤ e.expires_at)

text_ne : (s t : Text) → s ≢ t → text_eq s t ≡ false
text_ne s t h = ground (arith, text_eq_iff s t)

live_before : (now : Instant) (e : Entry) → now <ℤ e.expires_at → live now (some e) ≡ some e
unfolding live
live_before now e h = ground arith

live_after : (now : Instant) (e : Entry) → e.expires_at ≤ℤ now → live now (some e) ≡ none
unfolding live
live_after now e h = ground arith

serve-other : (c : Command) (e : Entry) → IsOther e c → serve c (some e) ≡ (false, some e)
unfolding serve set_if_absent release_script
serve-other (attempt token ttl at) e h = rw (live_before at e h.1, set_if_absent)
serve-other (give_back token at) e h =
    rw (live_before at e h.1, release_script) (rw (text_ne e.token token (λ p. h.0 (sym p))))

serve_all-other :
    (commands : List Command) (e : Entry)
    → All (IsOther e) commands
    → AllRefused commands (some e) × (serve_all commands (some e) ≡ some e)
unfolding serve_all AllRefused
serve_all-other [] e h = (tt, refl)
serve_all-other (c ∷ rest) e h =
    rw (serve-other c e h.0)
      (let (refused, same) = serve_all-other rest e h.1 in ((refl, refused), same))

-- The entry that a successful `acquire` leaves.
abbrev pub entry_of : RedisLock → Instant → Entry
entry_of lock now = record { token = lock.token; expires_at = now +ℤ seconds lock.ttl }

pub acquire_free :
    (now : Instant) (lock : RedisLock) (cell : Cell)
    → live now cell ≡ none
    → (try_acquire now lock cell).0 ≡ true
unfolding try_acquire set_if_absent
acquire_free now lock cell h = rw (h, set_if_absent)

pub acquired-cell :
    (now : Instant) (lock : RedisLock) (cell : Cell)
    → (try_acquire now lock cell).0 ≡ true
    → (try_acquire now lock cell).2 ≡ some (entry_of lock now)
unfolding try_acquire set_if_absent
acquired-cell now lock cell h = ground (arith)

pub acquired-held :
    (now : Instant) (lock : RedisLock) (cell : Cell)
    → (try_acquire now lock cell).0 ≡ true
    → (try_acquire now lock cell).1 ≡ record lock { held = true }
unfolding try_acquire
acquired-held now lock cell h = ap (λ b. record lock { held = b }) h

acquire_expired :
    (now : Instant) (lock : RedisLock) (e : Entry)
    → e.expires_at ≤ℤ now
    → (try_acquire now lock (some e)).0 ≡ true
unfolding try_acquire set_if_absent
acquire_expired now lock e h = rw (live_after now e h, set_if_absent)

pub release_own :
    (at : Instant) (lock : RedisLock) (e : Entry)
    → at <ℤ e.expires_at
    → e.token ≡ lock.token
    → release at (record lock { held = true }) (some e) ≡ (true, record lock { held = false }, none)
unfolding release release_script
release_own at lock e soon same =
    rw (live_before at e soon, release_script) (rw ((text_eq_iff e.token lock.token).1 same))

release_foreign :
    (at : Instant) (lock : RedisLock) (e : Entry)
    → at <ℤ e.expires_at
    → e.token ≢ lock.token
    → release at (record lock { held = true }) (some e)
      ≡ (false, record lock { held = true }, some e)
unfolding release release_script
release_foreign at lock e soon ne =
    rw (live_before at e soon, release_script) (rw (text_ne e.token lock.token ne))

-- After a successful `acquire`, as long as its time to live lasts, every attempt and every release of
-- processes with other tokens is refused, the entry stays, and the holder can still release it, which
-- leaves the key free.
pub exclusive :
    (now at : Instant) (lock : RedisLock) (cell : Cell) (others : List Command)
    → (try_acquire now lock cell).0 ≡ true
    → All (IsOther (entry_of lock now)) others
    → at <ℤ now +ℤ seconds lock.ttl
    → let (_, holder, taken) = try_acquire now lock cell in
      AllRefused others taken
      × (serve_all others taken ≡ taken)
      × (release at holder (serve_all others taken) ≡ (true, record holder { held = false }, none))
exclusive now at lock cell others got ok soon =
    let e = entry_of lock now in
    let (refused, same) = serve_all-other others e ok in
    rw (acquired-cell now lock cell got)
      (refused, same, rw (same, acquired-held now lock cell got) (release_own at lock e soon refl))

-- When the time to live is over, another process gets the lock although the first one has not released
-- it; and the late release of the first one is refused and leaves the other's entry in place.
pub taken_over :
    (now later late : Instant) (lock other : RedisLock) (cell : Cell)
    → (try_acquire now lock cell).0 ≡ true
    → now +ℤ seconds lock.ttl ≤ℤ later
    → late <ℤ later +ℤ seconds other.ttl
    → other.token ≢ lock.token
    → let (_, holder, taken) = try_acquire now lock cell in
      let (ok, _, retaken) = try_acquire later other taken in
      (ok ≡ true) × (holder.held ≡ true) × (release late holder retaken ≡ (false, holder, retaken))
taken_over now later late lock other cell got over soon ne = rw (acquired-cell now lock cell got) (
  acquire_expired later other (entry_of lock now) over,
  ap (λ (l : RedisLock). l.held) (acquired-held now lock cell got),
  rw
      (
        acquired-cell later other (some (entry_of lock now))
            (acquire_expired later other (entry_of lock now) over),
        acquired-held now lock cell got,
      )
      (release_foreign late lock (entry_of other later) soon ne),
)
