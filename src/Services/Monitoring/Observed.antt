-- ===== src/Services/Monitoring/Observed.antt =====
-- What is left of a poll whose fetch succeeded: its parts, and the tables that only they change.
use aucnotif.Repositories.Snapshots.{instant}
use aucnotif.Prelude.{
  ◌∙◌, false, none≢some, sym, if◌then◌else◌, none, ℕ, ◌≡◌, refl, Bool, true, not, ◌||◌, Option,
  some, List, [], ◌∷◌, is_some, some_inv, subst,
}
use aucnotif.Prelude.Text.{Text}
use aucnotif.Times.{Instant}
use aucnotif.Config.{Settings}
use aucnotif.Schemas.Json.{Json}
use aucnotif.Domain.AuctionState.{AuctionState}
use aucnotif.Domain.Diff.{has_changes, diff_states, default_config}
use aucnotif.Domain.Notifications
use aucnotif.Domain.Notifications.{NotificationDecision, evaluate_notifications}
use aucnotif.Models.{Auction, User, UserAuction}
use aucnotif.Database.{Database}
use aucnotif.Repositories.Auctions
use aucnotif.Repositories.Snapshots
use aucnotif.Repositories.UserAuctions.{list_watchers}
use aucnotif.Notifications.Engine.{Created}
use aucnotif.Notifications.Engine.Steps.{SameTables, create_jobs-SameTables, bind_inv}
use aucnotif.Providers.{Fetched, fetched}
use aucnotif.Services.Monitoring.{
  Polled, polled, poll, observe, notify, previous_state, store_observation, last_poll_time,
  goes_through, rescheduled,
}

module _ (settings : Settings) (now : Instant) (id : ℕ) (auction : Auction) (t : Instant)
    (state : AuctionState) (raw : Option Json) (db : Database) where
  abbrev pub cleared : Database
  cleared = Auctions.clear_error id db

  abbrev pub before : Option AuctionState
  before = previous_state (Snapshots.get_latest id cleared)

  -- Whether the poll stores a snapshot.
  abbrev pub changed : Bool
  changed = not (is_some before) || has_changes (diff_states before state default_config)

  abbrev pub stored : Option ℕ × Database
  stored = store_observation changed id state raw cleared

  abbrev pub decisions : List NotificationDecision
  decisions =
      evaluate_notifications before state (diff_states before state default_config) t
        state.observed_at (Notifications.from_settings settings)

  -- A poll that commits: the fan-out's result, and the last assignments to the row.
  pub observe_inv :
      (p : Polled)
      → observe settings now id auction t state raw db ≡ some p
      → (c : Created) × ((notify decisions
              (list_watchers id stored.1)
              stored.0
              auction.url
              now
              stored.1
            ≡ some c)
          × ((polled, Auctions.modify id (rescheduled settings state) c.1, c.0) ≡ p))
  unfolding observe
  observe_inv p h =
      let (c, (e, done)) =
        bind_inv (notify decisions (list_watchers id stored.1) stored.0 auction.url now stored.1) _
          h in
      (c, (e, some_inv done))

SameTables-refl : (db : Database) → SameTables db db
SameTables-refl db = record {
  users = refl;
  auctions = refl;
  user_auctions = refl;
  snapshots = refl;
  next_snapshot = refl;
}

pub notify-SameTables :
    (ds : List NotificationDecision) (ws : List (User × UserAuction)) (snapshot_id : Option ℕ)
    (url : Text) (now : Instant) (db : Database) (done : Created)
    → notify ds ws snapshot_id url now db ≡ some done
    → SameTables db done.1
unfolding notify
notify-SameTables [] ws sid url now db done h =
    subst (λ (c : Created). SameTables db c.1) (some_inv h) (SameTables-refl db)
notify-SameTables (d ∷ ds) [] sid url now db done h =
    subst (λ (c : Created). SameTables db c.1) (some_inv h) (SameTables-refl db)
notify-SameTables (d ∷ ds) (w ∷ ws) sid url now db done h =
    create_jobs-SameTables (d ∷ ds) (w ∷ ws) sid url now db done h

if_some :
    {A : Type 0} (b : Bool) (x : Option A) (a : A) → (if b then x else none) ≡ some a → x ≡ some a
if_some true x a h = h
if_some false x a h = absurd (none≢some h)

-- A poll of a monitored auction whose fetch succeeds is `observe`, if it goes through.
poll-fetched :
    (settings : Settings) (provider : Text → Fetched) (now : Instant) (id : ℕ) (db : Database)
    (a : Auction) (state : AuctionState) (raw : Option Json)
    → Auctions.get_by_id id db ≡ some a
    → a.monitoring_active ≡ true
    → provider a.url ≡ fetched state raw
    → poll settings provider now id db ≡ (
        if goes_through settings id a state raw db
        then observe settings now id a (instant (last_poll_time a)) state raw db
        else none)
unfolding poll
poll-fetched settings provider now id db a state raw known on got =
    rw (known, poll) (simp (on, got))

pub poll_observes :
    (settings : Settings) (provider : Text → Fetched) (now : Instant) (id : ℕ) (db : Database)
    (a : Auction) (state : AuctionState) (raw : Option Json) (p : Polled)
    → Auctions.get_by_id id db ≡ some a
    → a.monitoring_active ≡ true
    → provider a.url ≡ fetched state raw
    → poll settings provider now id db ≡ some p
    → observe settings now id a (instant (last_poll_time a)) state raw db ≡ some p
poll_observes settings provider now id db a state raw p known on got h =
    if_some (goes_through settings id a state raw db)
      (observe settings now id a (instant (last_poll_time a)) state raw db) p
      (sym (poll-fetched settings provider now id db a state raw known on got) ∙ h)
