-- ===== src/Domain/Notifications/Timing.antt =====
-- The timed notifications over a run of polls: each poll compares with the time of the one before.
use aucnotif.Prelude.{◌+◌, ◌≡◌, some, List, [], ◌∷◌, ◌++◌, arith, if◌then◌else◌}
use aucnotif.Prelude.Int.{◌-ℤ◌, ◌≤ℤ◌}
use aucnotif.Prelude.Lists.{All}
use aucnotif.Times.{Instant, Duration}
use aucnotif.Domain.AuctionState.{AuctionState}
use aucnotif.Domain.Diff.{diff_states, default_config}
use aucnotif.Domain.Notifications.{
  NotificationKind, NotificationThresholds, NotificationDecision, crossed, evaluate_notifications,
}
use aucnotif.Domain.Notifications.Kinds.{
  count_kind, count_kind-append, threshold_for, count-evaluate_timed,
}

module _ (th : NotificationThresholds) where
  -- What a run of polls decides on, from the time and the state of the poll before it.
  pub run : Instant → AuctionState → List AuctionState → List NotificationDecision
  run t previous [] = []
  run t previous (s ∷ rest) =
      evaluate_notifications (some previous) s (diff_states (some previous) s default_config) t
        s.observed_at th
      ++ run s.observed_at s rest

-- The polls are in the order of their times.
abbrev pub IsChronological : Instant → List AuctionState → Type 0
IsChronological t [] = Unit
IsChronological t (s ∷ rest) = (t ≤ℤ s.observed_at) × IsChronological s.observed_at rest

abbrev pub last_poll : Instant → List AuctionState → Instant
last_poll t [] = t
last_poll t (s ∷ rest) = last_poll s.observed_at rest

last_poll-le :
    (t : Instant) (polls : List AuctionState) → IsChronological t polls → t ≤ℤ last_poll t polls
last_poll-le t [] h = omega arith
last_poll-le t (s ∷ rest) h = omega (arith, last_poll-le s.observed_at rest h.1)

-- Two intervals that meet make one.
crossed-append :
    (t m last x : Instant)
    → t ≤ℤ m
    → m ≤ℤ last
    → (if crossed t m x then 1 else 0) + (if crossed m last x then 1 else 0)
      ≡ (if crossed t last x then 1 else 0)
crossed-append t m last x h k = ground arith

-- Over any run of polls in the order of time, as long as the end time stays the same, a timed
-- notification is decided on exactly once if its moment (the end time minus its threshold) lies after
-- the poll before the run and not after the last poll of it, and never otherwise.
pub timed_once :
    (th : NotificationThresholds) (k : NotificationKind) (e t : Instant) (d : Duration)
    (previous : AuctionState) (polls : List AuctionState)
    → threshold_for th k ≡ some d
    → All (λ s. s.end_time ≡ some e) polls
    → IsChronological t polls
    → count_kind k (run th t previous polls)
      ≡ (if crossed t (last_poll t polls) (e -ℤ d) then 1 else 0)
unfolding run
timed_once th k e t d previous [] h ends times = ground arith
timed_once th k e t d previous (s ∷ rest) h ends times = rw count_kind-append (
    rw
      (
        count-evaluate_timed previous s k (diff_states (some previous) s default_config) th e t
            s.observed_at d ends.0 h,
        timed_once th k e s.observed_at d s rest h ends.1 times.1,
      )
      (crossed-append t s.observed_at (last_poll s.observed_at rest) (e -ℤ d) times.0
        (last_poll-le s.observed_at rest times.1)))
