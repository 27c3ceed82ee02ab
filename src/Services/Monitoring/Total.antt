-- ===== src/Services/Monitoring/Total.antt =====
-- When a poll raises, so that its transaction is lost.
use aucnotif.Repositories.Snapshots.{instant}
use aucnotif.Repositories.Columns.{takes_snapshot}
use aucnotif.Prelude.{
  ◌<◌, ℕ, ◌≡◌, refl, ◌∙◌, Bool, true, false, not, ◌&&◌, ◌||◌, Option, none, some, List, [], ◌∷◌,
  arith, is_some, inl, inr, Option-cases, if◌then◌else◌,
}
use aucnotif.Prelude.Lists.{All, All-×}
use aucnotif.Prelude.Text.{Text}
use aucnotif.Times.{aware, naive, Datetime, Instant}
use aucnotif.Config.{Settings}
use aucnotif.Schemas.Json.{Json}
use aucnotif.Domain.AuctionState.{AuctionState}
use aucnotif.Domain.Diff.{AuctionStateDiff, has_changes, diff_states, default_config}
use aucnotif.Domain.Notifications
use aucnotif.Domain.Notifications.{
  compares, in_range, NotificationKind, NotificationThresholds, NotificationDecision,
  evaluate_notifications, decide_as,
}
use aucnotif.Domain.Notifications.Keys.{HasKey, decisions-HasKey, All-evaluate}
use aucnotif.Models.{Auction, User, UserAuction, AuctionSnapshot}
use aucnotif.Database.{Database}
use aucnotif.Repositories.Auctions
use aucnotif.Repositories.Snapshots
use aucnotif.Repositories.UserAuctions.{list_watchers}
use aucnotif.Notifications.Renderer.{render}
use aucnotif.Notifications.Renderer.Raises.{is_change, end_appears, render_raises}
use aucnotif.Notifications.Engine.Jobs.{IsDefined, IsReady, create_jobs-IsDefined, bind-IsDefined}
use aucnotif.Providers.{crashed, Fetched, fetched, failed}
use aucnotif.Services.Monitoring.{
  goes_through, inactive, poll, observe, notify, previous_state, store_observation, last_poll_time,
  on_fetched,
}

abbrev Renders : Text → Instant → NotificationDecision → Type 0
Renders url at d = (label : Option Text) → IsDefined (render d url label at)

not_both : (a b : Bool) → b ≡ false → not (a && b) ≡ true
not_both a b h = ground arith

decisions-Renders :
    (previous : Option AuctionState) (current : AuctionState) (diff : AuctionStateDiff)
    (t now at : Instant) (th : NotificationThresholds) (url : Text)
    → end_appears previous (some current) ≡ false
    → All (Renders url at) (evaluate_notifications previous current diff t now th)
decisions-Renders none current diff t now at th url e = unfold evaluate_notifications in tt
decisions-Renders (some p) current diff t now at th url e =
    All-evaluate (Renders url at) p current
      (λ k label.
        render_raises (decide_as p current k) url label at
        ∙ not_both (is_change k) (end_appears (some p) (some current)) e)
      diff t now th

-- All decisions of a poll have a key and a text, if no end time appears.
decisions-IsReady :
    (previous : Option AuctionState) (current : AuctionState) (diff : AuctionStateDiff)
    (t now at : Instant) (th : NotificationThresholds) (snapshot_id : Option ℕ) (url : Text)
    → (has_changes diff ≡ true → is_some snapshot_id ≡ true)
    → end_appears previous (some current) ≡ false
    → All (IsReady url snapshot_id at) (evaluate_notifications previous current diff t now th)
decisions-IsReady previous current diff t now at th snapshot_id url h e =
    All-× (HasKey snapshot_id) (Renders url at) _
      (decisions-HasKey previous current diff t now th snapshot_id h)
      (decisions-Renders previous current diff t now at th url e)

notify-IsDefined :
    (ds : List NotificationDecision) (ws : List (User × UserAuction)) (snapshot_id : Option ℕ)
    (url : Text) (now : Instant) (db : Database)
    → All (IsReady url snapshot_id now) ds
    → IsDefined (notify ds ws snapshot_id url now db)
unfolding notify
notify-IsDefined [] ws snapshot_id url now db h = refl
notify-IsDefined (d ∷ ds) [] snapshot_id url now db h = refl
notify-IsDefined (d ∷ ds) (w ∷ ws) snapshot_id url now db h =
    create_jobs-IsDefined (d ∷ ds) (w ∷ ws) snapshot_id url now db h

-- A snapshot is stored exactly if there is a change.
stored-id :
    (changed : Bool) (id : ℕ) (state : AuctionState) (raw : Option Json) (db : Database)
    → is_some (store_observation changed id state raw db).0 ≡ changed
unfolding store_observation
stored-id true id state raw db = refl
stored-id false id state raw db = refl

or_right : (a b : Bool) → b ≡ true → (a || b) ≡ true
or_right a b h = ground arith

observe-IsDefined :
    (settings : Settings) (now : Instant) (id : ℕ) (a : Auction) (t : Instant)
    (state : AuctionState) (raw : Option Json) (db : Database)
    → end_appears
        (previous_state (Snapshots.get_latest id (Auctions.clear_error id db)))
        (some state)
      ≡ false
    → IsDefined (observe settings now id a t state raw db)
unfolding observe
observe-IsDefined settings now id a t state raw db e =
    let cleared = Auctions.clear_error id db in
    let previous = previous_state (Snapshots.get_latest id cleared) in
    let diff = diff_states previous state default_config in
    let changed = not (is_some previous) || has_changes diff in
    let stored = store_observation changed id state raw cleared in
    bind-IsDefined _ _
      (notify-IsDefined _ (list_watchers id stored.1) stored.0 a.url now stored.1 (
        decisions-IsReady previous state diff t state.observed_at now
          (Notifications.from_settings settings) stored.0 a.url
          (λ h. stored-id changed id state raw cleared ∙ or_right _ _ h) e))
      (λ _ _. refl)

latest-cleared :
    (id : ℕ) (db : Database)
    → Snapshots.get_latest id (Auctions.clear_error id db) ≡ Snapshots.get_latest id db
unfolding Snapshots.get_latest Auctions.clear_error Auctions.modify
latest-cleared id db = refl

-- The times that an end time is compared at are times of the year 1 or later.
abbrev pub EndInRange : NotificationThresholds → Option Instant → Type 0
EndInRange th none = Unit
EndInRange th (some e) = in_range e th ≡ true

-- The time of the last poll has a time zone.
abbrev pub IsAware : Datetime → Type 0
IsAware (naive reading) = ⊥
IsAware (aware t) = Unit

-- What a fetch must be for the poll of this auction to go through. An error: with fewer than 1024 errors before it, so
-- that the power in `backoff` is a float. A state: the last poll's time can be compared, the columns take it, its end
-- time less a threshold is a time, and it shows no end time where the latest snapshot has none.
abbrev pub IsOrdinary : Settings → Auction → Option AuctionSnapshot → Fetched → Type 0
IsOrdinary settings a latest (failed e) = a.consecutive_errors < 1024
IsOrdinary settings a latest crashed = ⊥
IsOrdinary settings a latest (fetched state raw) =
    IsAware (last_poll_time a)
    × ((takes_snapshot state raw ≡ true)
        × (EndInRange (Notifications.from_settings settings) state.end_time
            × (end_appears (previous_state latest) (some state) ≡ false)))

compares-IsAware :
    (t : Datetime) (th : NotificationThresholds) (e : Option Instant)
    → IsAware t
    → EndInRange th e
    → compares t th e ≡ true
compares-IsAware (naive reading) th e h k = absurd h
compares-IsAware (aware t) th none h k = refl
compares-IsAware (aware t) th (some e) h k = k

both : (a b c d : Bool) → b ≡ true → d ≡ true → (not a || b) && (not c || d) ≡ true
both a b c d h k = ground arith

goes_through_lem :
    (settings : Settings) (id : ℕ) (a : Auction) (state : AuctionState) (raw : Option Json)
    (db : Database)
    → takes_snapshot state raw ≡ true
    → compares (last_poll_time a) (Notifications.from_settings settings) state.end_time ≡ true
    → goes_through settings id a state raw db ≡ true
unfolding goes_through
goes_through_lem settings id a state raw db taken compared = both _ _ _ _ taken compared

fetched-IsDefined :
    (settings : Settings) (now : Instant) (id : ℕ) (a : Auction) (db : Database) (f : Fetched)
    → IsOrdinary settings a (Snapshots.get_latest id db) f
    → IsDefined (on_fetched settings now id a db f)
fetched-IsDefined settings now id a db (failed e) h = refl
fetched-IsDefined settings now id a db crashed h = absurd h
fetched-IsDefined settings now id a db (fetched state raw)
      (known_zone, (taken, (in_time, no_end))) =
    let compared =
      compares-IsAware (last_poll_time a) (Notifications.from_settings settings) state.end_time
        known_zone in_time in
    rw (goes_through_lem settings id a state raw db taken compared) (
      observe-IsDefined settings now id a (instant (last_poll_time a)) state raw db
        (rw (latest-cleared id db) no_end))

if-IsDefined :
    {A : Type 0} (b : Bool) (x y : Option A)
    → IsDefined x
    → IsDefined y
    → IsDefined (if b then x else y)
if-IsDefined true x y p q = p
if-IsDefined false x y p q = q

-- A poll ends in a commit, whoever is watching and whichever of its five errors the provider raises, up to 1024 errors in
-- a row. Where it returns a state, this needs that the auction's last poll has a time zone, that the columns take
-- the state, that its end time less a threshold is a time, and that it has no end time where the latest snapshot has
-- none; no other exception may come from the provider. Every decision has a key then, since a snapshot is stored with
-- every change, and every decision has a text.
pub poll_commits :
    (settings : Settings) (provider : Text → Fetched) (now : Instant) (id : ℕ) (db : Database)
    → ((a : Auction)
        → Auctions.get_by_id id db ≡ some a
        → IsOrdinary settings a (Snapshots.get_latest id db) (provider a.url))
    → IsDefined (poll settings provider now id db)
unfolding poll
poll_commits settings provider now id db h = elim (Option-cases (Auctions.get_by_id id db)) [
  | inl unknown ↦ rw (unknown, poll) refl
  | inr (a, known) ↦
      rw (known, poll)
        (if-IsDefined a.monitoring_active (on_fetched settings now id a db (provider a.url))
          (some (inactive, db, []))
          (fetched-IsDefined settings now id a db (provider a.url) (h a known)) refl)
]
