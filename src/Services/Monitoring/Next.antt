-- ===== src/Services/Monitoring/Next.antt =====
-- The auction's row after a poll that fetched a state and commits.
use aucnotif.Repositories.Snapshots.{instant}
use aucnotif.Prelude.{
  ℕ, ◌≡◌, refl, sym, ◌∙◌, ap, Bool, true, false, not, Option, none, some, if◌then◌else◌, inl, inr,
  Bool-cases, ◌==◌,
}
use aucnotif.Prelude.Int.{◌+ℤ◌}
use aucnotif.Prelude.Lists.{select_one}
use aucnotif.Prelude.Tables.{map_option}
use aucnotif.Prelude.Text.{Text}
use aucnotif.Times.{aware, Instant}
use aucnotif.Config.{Settings}
use aucnotif.Schemas.Json.{Json}
use aucnotif.Domain.AuctionState.{AuctionState, until_end}
use aucnotif.Domain.Polling
use aucnotif.Domain.Polling.{polling_interval_for}
use aucnotif.Models.{Auction}
use aucnotif.Database.{Database}
use aucnotif.Repositories.Auctions
use aucnotif.Repositories.Auctions.{get_by_id, with_state, without_error}
use aucnotif.Repositories.Snapshots
use aucnotif.Repositories.UserAuctions.{list_watchers}
use aucnotif.Providers.{Fetched, fetched}
use aucnotif.Services.Monitoring.{
  Polled, poll, last_poll_time, observe, store_observation, rescheduled,
}
use aucnotif.Services.Monitoring.Errors.{get-modify}
use aucnotif.Services.Monitoring.Observed.{
  stored, changed, observe_inv, notify-SameTables, poll_observes,
}

get-same :
    (id : ℕ) (db db' : Database) → db.auctions ≡ db'.auctions → get_by_id id db ≡ get_by_id id db'
unfolding get_by_id
get-same id db db' h = ap (λ rows. select_one (λ a. a.id == id) rows) h

-- The row once the observation is stored.
abbrev pub stored_row : Bool → AuctionState → Auction → Auction
stored_row true state a = with_state state (without_error a)
stored_row false state a = without_error a

get-stored :
    (c : Bool) (id : ℕ) (state : AuctionState) (raw : Option Json) (db : Database) (a : Auction)
    → get_by_id id db ≡ some a
    → get_by_id id (store_observation c id state raw (Auctions.clear_error id db)).1
      ≡ some (stored_row c state a)
unfolding store_observation Auctions.clear_error Auctions.update_from_state
get-stored false id state raw db a known =
    get-modify id without_error db (λ _. refl) ∙ ap (map_option without_error) known
get-stored true id state raw db a known =
    let cleared = Auctions.modify id without_error db in
    get-modify id (with_state state) (Snapshots.create id state raw cleared).1 (λ _. refl)
    ∙ ap (map_option (with_state state)) (
        get-same id (Snapshots.create id state raw cleared).1 cleared
          (unfold Snapshots.create in refl)
        ∙ (get-modify id without_error db (λ _. refl) ∙ ap (map_option without_error) known))

rescheduled-id :
    (settings : Settings) (state : AuctionState) (a : Auction)
    → (rescheduled settings state a).id ≡ a.id
unfolding rescheduled
rescheduled-id settings state a = elim (Bool-cases state.is_closed) [
  | inl e ↦ rw e refl
  | inr e ↦ rw e refl
]

observe-row :
    (settings : Settings) (now : Instant) (id : ℕ) (a : Auction) (t : Instant)
    (state : AuctionState) (raw : Option Json) (db : Database) (p : Polled)
    → get_by_id id db ≡ some a
    → observe settings now id a t state raw db ≡ some p
    → get_by_id id p.1
      ≡ some (
          rescheduled settings state
            (stored_row (changed settings now id a t state raw db) state a))
observe-row settings now id a t state raw db p known h =
    let (c, (e, done)) = observe_inv settings now id a t state raw db p h in
    let s = stored settings now id a t state raw db in
    ap (λ (q : Polled). get_by_id id q.1) (sym done)
    ∙ (get-modify id (rescheduled settings state) c.1 (rescheduled-id settings state)
        ∙ ap (map_option (rescheduled settings state)) (
            get-same id c.1 s.1
              (sym (notify-SameTables _ (list_watchers id s.1) s.0 a.url now s.1 c e).auctions)
            ∙ get-stored (changed settings now id a t state raw db) id state raw db a known))

-- What the row says of the next poll.
pub record IsScheduled (settings : Settings) (state : AuctionState) (a : Auction) : Type 0 where
  pub no_errors : a.consecutive_errors ≡ 0
  pub no_error : a.last_error ≡ none
  pub polled_at : a.last_polled_at ≡ some (aware state.observed_at)
  pub active : a.monitoring_active ≡ not state.is_closed
  pub next : a.next_poll_at ≡ (
      if state.is_closed
      then none
      else some (
          state.observed_at
          +ℤ polling_interval_for (until_end state) (Polling.from_settings settings)))

rescheduled-IsScheduled :
    (settings : Settings) (state : AuctionState) (a : Auction)
    → a.consecutive_errors ≡ 0
    → a.last_error ≡ none
    → a.monitoring_active ≡ true
    → IsScheduled settings state (rescheduled settings state a)
unfolding rescheduled
rescheduled-IsScheduled settings state a n m on = elim (Bool-cases state.is_closed) [
  | inl e ↦ record {
    no_errors = rw e n;
    no_error = rw e m;
    polled_at = rw e refl;
    active = rw e refl;
    next = rw e refl;
  }
  | inr e ↦ record {
    no_errors = rw e n;
    no_error = rw e m;
    polled_at = rw e refl;
    active = rw e on;
    next = rw e refl;
  }
]

row-IsScheduled :
    (settings : Settings) (state : AuctionState) (a : Auction) (c : Bool)
    → a.monitoring_active ≡ true
    → IsScheduled settings state (rescheduled settings state (stored_row c state a))
row-IsScheduled settings state a true on =
    rescheduled-IsScheduled settings state (stored_row true state a) refl refl on
row-IsScheduled settings state a false on =
    rescheduled-IsScheduled settings state (stored_row false state a) refl refl on

-- After a poll of a monitored auction that fetched a state and committed, the auction's row has no errors
-- and the time of the observation as that of the last poll; a closed auction is not monitored any more and
-- has no next poll, and one that is not closed is monitored and is polled next after the interval that
-- the time left to its end calls for.
pub polled-IsScheduled :
    (settings : Settings) (provider : Text → Fetched) (now : Instant) (id : ℕ) (db : Database)
    (a : Auction) (state : AuctionState) (raw : Option Json) (p : Polled)
    → get_by_id id db ≡ some a
    → a.monitoring_active ≡ true
    → provider a.url ≡ fetched state raw
    → poll settings provider now id db ≡ some p
    → (a' : Auction) × ((get_by_id id p.1 ≡ some a') × IsScheduled settings state a')
polled-IsScheduled settings provider now id db a state raw p known on got done =
    let t = instant (last_poll_time a) in
    (
      rescheduled settings state (stored_row (changed settings now id a t state raw db) state a),
      (
        observe-row settings now id a t state raw db p known
            (poll_observes settings provider now id db a state raw p known on got done),
        row-IsScheduled settings state a (changed settings now id a t state raw db) on,
      ),
    )
