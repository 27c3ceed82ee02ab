-- ===== src/Domain/Notifications/Keys.antt =====
-- Every decision of a poll has an idempotency key.
use aucnotif.Prelude.{
  ℕ, ◌≡◌, refl, Bool, ◌&&◌, ◌||◌, true, Option, none, some, List, [], ◌∷◌, arith, is_some,
}
use aucnotif.Prelude.Int.{◌-ℤ◌}
use aucnotif.Prelude.Lists.{All-if, All, All-append}
use aucnotif.Times.{Instant, Duration}
use aucnotif.Domain.AuctionState.{AuctionState}
use aucnotif.Domain.Diff.{AuctionStateDiff, has_changes, extension_detected}
use aucnotif.Domain.Notifications.{
  NotificationKind, NotificationThresholds, NotificationDecision, timed_decisions, state_decisions,
  timed_kinds, timed_part, decide_as, evaluate_notifications, dedup_key_for, id_key, is_timed,
  crossed, change, extension, closed,
}

abbrev pub HasKey : Option ℕ → NotificationDecision → Type 0
HasKey snapshot_id decision = is_some (dedup_key_for decision snapshot_id) ≡ true

HasKey-id :
    (snapshot_id : Option ℕ) → is_some snapshot_id ≡ true → is_some (id_key snapshot_id) ≡ true
HasKey-id none h = h
HasKey-id (some n) h = refl

has_changes-closed :
    (diff : AuctionStateDiff) (closed_now : Bool)
    → (diff.is_closed_changed && closed_now) ≡ true
    → has_changes diff ≡ true
unfolding has_changes
has_changes-closed diff closed_now h = ground arith

has_changes-extension :
    (diff : AuctionStateDiff) → extension_detected diff ≡ true → has_changes diff ≡ true
unfolding has_changes extension_detected
has_changes-extension diff h = ground arith

module _ (previous current : AuctionState) (snapshot_id : Option ℕ) where
  HasKey-timed_as :
      (k : NotificationKind) (e : Instant)
      → current.end_time ≡ some e
      → is_timed k ≡ true
      → HasKey snapshot_id (decide_as previous current k)
  unfolding dedup_key_for
  HasKey-timed_as k e h timed = rw timed (rw h)

  HasKey-timed :
      (e t now : Instant)
      → current.end_time ≡ some e
      → (kinds : List (NotificationKind × Duration)) → All (λ entry. is_timed entry.0 ≡ true) kinds
      → All (HasKey snapshot_id) (timed_decisions previous current e t now kinds)
  unfolding timed_decisions
  HasKey-timed e t now known [] h = tt
  HasKey-timed e t now known ((k, d) ∷ rest) h =
      let later = HasKey-timed e t now known rest h.1 in
      All-if (HasKey snapshot_id) (crossed t now (e -ℤ d)) _ _
        (λ _. (HasKey-timed_as k e known h.0, later)) (λ _. later)

  HasKey-timed_part :
      (t now : Instant) (th : NotificationThresholds) (end : Option Instant)
      → current.end_time ≡ end
      → All (HasKey snapshot_id) (timed_part previous current t now th end)
  HasKey-timed_part t now th none h = tt
  HasKey-timed_part t now th (some e) h =
      HasKey-timed e t now h (timed_kinds th) (refl, (refl, (refl, tt)))

  HasKey-state :
      (diff : AuctionStateDiff)
      → (has_changes diff ≡ true → is_some snapshot_id ≡ true)
      → All (HasKey snapshot_id) (state_decisions previous current diff)
  unfolding state_decisions dedup_key_for
  HasKey-state diff h =
      All-if (HasKey snapshot_id) (diff.is_closed_changed && current.is_closed) _ _
        (λ was_closed. (keyed (has_changes-closed diff current.is_closed was_closed), tt))
        λ _.
          All-if (HasKey snapshot_id) (extension_detected diff) _ _
            (λ extended.
              let key = keyed (has_changes-extension diff extended) in
              (
                key,
                All-if (HasKey snapshot_id)
                    (has_changes diff
                      && (diff.price_changed || (diff.bid_count_changed || diff.new_bid_detected)))
                    (decide_as previous current change ∷ []) [] (λ _. (key, tt)) (λ _. tt),
              ))
            λ _.
              All-if (HasKey snapshot_id) (has_changes diff) _ _ (λ changed. (keyed changed, tt))
                (λ _. tt)
    where
      keyed : has_changes diff ≡ true → is_some (id_key snapshot_id) ≡ true
      keyed changed = HasKey-id snapshot_id (h changed)

-- If a snapshot was stored whenever the diff has changes, every decision of a poll has a key:
-- `dedup_key_for` raises for none of them.
pub decisions-HasKey :
    (previous : Option AuctionState) (current : AuctionState) (diff : AuctionStateDiff)
    (previous_poll_time now : Instant) (th : NotificationThresholds) (snapshot_id : Option ℕ)
    → (has_changes diff ≡ true → is_some snapshot_id ≡ true)
    → All
        (HasKey snapshot_id)
        (evaluate_notifications previous current diff previous_poll_time now th)
unfolding evaluate_notifications
decisions-HasKey none current diff t now th snapshot_id h = tt
decisions-HasKey (some previous) current diff t now th snapshot_id h =
    All-append (HasKey snapshot_id) _ _
      (HasKey-timed_part previous current snapshot_id t now th current.end_time refl)
      (HasKey-state previous current snapshot_id diff h)

module _ {κ} (P : NotificationDecision → Type κ) (previous current : AuctionState)
    (decided : (k : NotificationKind) → P (decide_as previous current k)) where
  All-timed :
      (e t now : Instant) (kinds : List (NotificationKind × Duration))
      → All P (timed_decisions previous current e t now kinds)
  unfolding timed_decisions
  All-timed e t now [] = tt
  All-timed e t now ((k, d) ∷ rest) =
      All-if P (crossed t now (e -ℤ d)) _ _ (λ _. (decided k, All-timed e t now rest))
        (λ _. All-timed e t now rest)

  All-timed_part :
      (t now : Instant) (th : NotificationThresholds) (end : Option Instant)
      → All P (timed_part previous current t now th end)
  All-timed_part t now th none = tt
  All-timed_part t now th (some e) = All-timed e t now (timed_kinds th)

  All-state : (diff : AuctionStateDiff) → All P (state_decisions previous current diff)
  unfolding state_decisions
  All-state diff =
      All-if P (diff.is_closed_changed && current.is_closed) _ _ (λ _. (decided closed, tt))
        λ _.
          All-if P (extension_detected diff) _ _
            (λ _. (
              decided extension,
              All-if P
                  (has_changes diff
                    && (diff.price_changed || (diff.bid_count_changed || diff.new_bid_detected)))
                  (decide_as previous current change ∷ []) [] (λ _. (decided change, tt)) (λ _. tt),
            ))
            λ _. All-if P (has_changes diff) _ _ (λ _. (decided change, tt)) (λ _. tt)

  -- What holds of each kind of decision on two states holds of every decision of a poll.
  pub All-evaluate :
      (diff : AuctionStateDiff) (t now : Instant) (th : NotificationThresholds)
      → All P (evaluate_notifications (some previous) current diff t now th)
  unfolding evaluate_notifications
  All-evaluate diff t now th =
      All-append P _ _ (All-timed_part t now th current.end_time) (All-state diff)
