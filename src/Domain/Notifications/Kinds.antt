-- ===== src/Domain/Notifications/Kinds.antt =====
-- How often each kind of notification is decided on in one poll.
use aucnotif.Prelude.{
  ℕ, suc, ◌+◌, ◌≤◌, ◌≡◌, refl, Bool, true, false, Option, none, some, List, [], ◌∷◌, ◌++◌, arith,
  if◌then◌else◌,
}
use aucnotif.Prelude.Int.{◌-ℤ◌}
use aucnotif.Times.{Instant, Duration}
use aucnotif.Domain.AuctionState.{AuctionState}
use aucnotif.Domain.Diff.{AuctionStateDiff}
use aucnotif.Domain.Notifications.{
  NotificationKind, t_30m, t_15m, t_5m, change, extension, closed, NotificationThresholds,
  NotificationDecision, crossed, timed_decisions, state_decisions, timed_kinds, timed_part,
  evaluate_notifications, is_timed,
}

abbrev pub same_kind : NotificationKind → NotificationKind → Bool
same_kind t_30m t_30m = true
same_kind t_15m t_15m = true
same_kind t_5m t_5m = true
same_kind change change = true
same_kind extension extension = true
same_kind closed closed = true
same_kind _ _ = false

abbrev pub count_kind : NotificationKind → List NotificationDecision → ℕ
count_kind k [] = 0
count_kind k (d ∷ ds) = if same_kind k d.kind then suc (count_kind k ds) else count_kind k ds

pub count_kind-append :
    (k : NotificationKind) (xs ys : List NotificationDecision)
    → count_kind k (xs ++ ys) ≡ count_kind k xs + count_kind k ys
count_kind-append k [] ys = omega arith
count_kind-append k (d ∷ ds) ys = ground (arith, count_kind-append k ds ys)

abbrev pub threshold_for : NotificationThresholds → NotificationKind → Option Duration
threshold_for th t_30m = some th.before_30m
threshold_for th t_15m = some th.before_15m
threshold_for th t_5m = some th.before_5m
threshold_for th _ = none

is_timed-threshold :
    (k : NotificationKind) (th : NotificationThresholds) (d : Duration)
    → threshold_for th k ≡ some d
    → is_timed k ≡ true
is_timed-threshold t_30m th d h = refl
is_timed-threshold t_15m th d h = refl
is_timed-threshold t_5m th d h = refl
is_timed-threshold _ th d h = cc

module _ (previous current : AuctionState) where
  -- Of a kind with a threshold the loop yields one decision, if its moment was crossed.
  count-timed :
      (k : NotificationKind) (th : NotificationThresholds) (e t now : Instant) (d : Duration)
      → threshold_for th k ≡ some d
      → count_kind k (timed_decisions previous current e t now (timed_kinds th))
        ≡ (if crossed t now (e -ℤ d) then 1 else 0)
  unfolding timed_decisions
  count-timed t_30m th e t now d h = ground arith
  count-timed t_15m th e t now d h = ground arith
  count-timed t_5m th e t now d h = ground arith
  count-timed _ th e t now d h = cc

  count-state_timed :
      (k : NotificationKind) (diff : AuctionStateDiff)
      → is_timed k ≡ true
      → count_kind k (state_decisions previous current diff) ≡ 0
  unfolding state_decisions
  count-state_timed t_30m diff h = ground arith
  count-state_timed t_15m diff h = ground arith
  count-state_timed t_5m diff h = ground arith
  count-state_timed _ diff h = cc

  count-state-le :
      (k : NotificationKind) (diff : AuctionStateDiff)
      → count_kind k (state_decisions previous current diff) ≤ 1
  unfolding state_decisions
  count-state-le t_30m diff = ground arith
  count-state-le _ diff = ground arith

  count-timed-le :
      (k : NotificationKind) (th : NotificationThresholds) (e t now : Instant)
      → count_kind k (timed_decisions previous current e t now (timed_kinds th))
        ≤ (if is_timed k then 1 else 0)
  unfolding timed_decisions
  count-timed-le t_30m th e t now = ground arith
  count-timed-le _ th e t now = ground arith

  -- A decision on the auction's state is never of a timed kind, and the loop's always are.
  count-parts-le :
      (k : NotificationKind) (diff : AuctionStateDiff) (th : NotificationThresholds)
      (e t now : Instant)
      → count_kind k (timed_decisions previous current e t now (timed_kinds th))
          + count_kind k (state_decisions previous current diff)
        ≤ 1
  count-parts-le k diff th e t now =
      ground (arith, count-timed-le k th e t now, count-state-le k diff, count-state_timed k diff)

  count-any_end-le :
      (k : NotificationKind) (diff : AuctionStateDiff) (th : NotificationThresholds)
      (t now : Instant) (end : Option Instant)
      → count_kind k (timed_part previous current t now th end)
          + count_kind k (state_decisions previous current diff)
        ≤ 1
  count-any_end-le k diff th t now none = omega (arith, count-state-le k diff)
  count-any_end-le k diff th t now (some e) = count-parts-le k diff th e t now

  -- Of a timed kind a poll decides exactly when its moment was crossed since the poll before.
  count-known_end :
      (k : NotificationKind) (diff : AuctionStateDiff) (th : NotificationThresholds)
      (t now : Instant) (d : Duration) (e : Instant) (end : Option Instant)
      → end ≡ some e
      → threshold_for th k ≡ some d
      → count_kind k (timed_part previous current t now th end)
          + count_kind k (state_decisions previous current diff)
        ≡ (if crossed t now (e -ℤ d) then 1 else 0)
  count-known_end k diff th t now d e none known h = cc
  count-known_end k diff th t now d e (some e') known h =
      ground (
        arith,
        count-timed k th e t now d h,
        count-state_timed k diff (is_timed-threshold k th d h),
      )

  pub count-evaluate_timed :
      (k : NotificationKind) (diff : AuctionStateDiff) (th : NotificationThresholds)
      (e t now : Instant) (d : Duration)
      → current.end_time ≡ some e
      → threshold_for th k ≡ some d
      → count_kind k (evaluate_notifications (some previous) current diff t now th)
        ≡ (if crossed t now (e -ℤ d) then 1 else 0)
  unfolding evaluate_notifications
  count-evaluate_timed k diff th e t now d known h =
      rw count_kind-append (count-known_end k diff th t now d e current.end_time known h)

-- One poll decides on each kind of notification at most once.
pub decides_once :
    (previous : Option AuctionState) (current : AuctionState) (diff : AuctionStateDiff)
    (previous_poll_time now : Instant) (th : NotificationThresholds) (k : NotificationKind)
    → count_kind k (evaluate_notifications previous current diff previous_poll_time now th) ≤ 1
decides_once none current diff t now th k = unfold evaluate_notifications in omega arith
decides_once (some previous) current diff t now th k =
    unfold evaluate_notifications in
    rw count_kind-append (count-any_end-le previous current k diff th t now current.end_time)
