-- ===== src/Services/Monitoring/Latest.antt =====
-- After a poll the latest snapshot shows what was fetched.
use aucnotif.Prelude.{
  ℕ, ◌<◌, ◌≡◌, refl, sym, ap, ◌∙◌, subst, true, false, not, ◌||◌, Option, none, some, List, [], ◌∷◌,
  arith, is_some, inl, inr, Bool-cases, some_inv, none≢some, ◌==◌,
}
use aucnotif.Prelude.Int.{◌≤ℤ◌}
use aucnotif.Prelude.Lists.{All, All-select, select}
use aucnotif.Prelude.Text.{Text}
use aucnotif.Providers.{Fetched, fetched}
use aucnotif.Times.{Instant}
use aucnotif.Config.{Settings}
use aucnotif.Schemas.Json.{Json}
use aucnotif.Domain.AuctionState.{AuctionState}
use aucnotif.Domain.Diff.{has_changes, diff_states, default_config}
use aucnotif.Domain.Diff.Laws.{SameTracked, diff_unchanged_iff}
use aucnotif.Models.{Auction, AuctionSnapshot}
use aucnotif.Database.{Database}
use aucnotif.Repositories.Auctions
use aucnotif.Repositories.Snapshots
use aucnotif.Repositories.Snapshots.{instant, later, first_of_two, latest, get_latest, snapshot_of}
use aucnotif.Repositories.UserAuctions.{list_watchers}
use aucnotif.Services.StateMapper.Reread.{reread-SameTracked, SameTracked-trans}
use aucnotif.Services.Monitoring.{
  Polled, poll, last_poll_time, observe, previous_state, store_observation,
}
use aucnotif.Services.Monitoring.Observed.{
  stored, before, changed, observe_inv, notify-SameTables, poll_observes,
}

-- The snapshots were observed by this time, and are numbered below the next one.
abbrev pub IsPast : Instant → ℕ → AuctionSnapshot → Type 0
IsPast t next s = (instant s.observed_at ≤ℤ t) × (s.id < next)

newest_first :
    (new : AuctionSnapshot) (t : Instant) (next : ℕ) (o : Option AuctionSnapshot)
    → instant new.observed_at ≡ t
    → new.id ≡ next
    → ((s : AuctionSnapshot) → o ≡ some s → IsPast t next s)
    → first_of_two new o ≡ some new
newest_first new t next none e n past = refl
newest_first new t next (some s) e n past = rw (later_than (past s refl)) refl
  where
    later_than : IsPast t next s → later new s ≡ true
    later_than p = ground (arith, e, n)

latest-IsPast :
    (t : Instant) (next : ℕ) (rows : List AuctionSnapshot)
    → All (IsPast t next) rows
    → (s : AuctionSnapshot) → latest rows ≡ some s
    → IsPast t next s
latest-IsPast t next [] h s e = absurd (none≢some e)
latest-IsPast t next (r ∷ rows) h s e = two (latest rows) (latest-IsPast t next rows h.1) e
  where
    two :
        (o : Option AuctionSnapshot)
        → ((x : AuctionSnapshot) → o ≡ some x → IsPast t next x)
        → first_of_two r o ≡ some s
        → IsPast t next s
    two none past k = subst (IsPast t next) (some_inv k) h.0
    two (some x) past k = elim (Bool-cases (later r x)) [
      | inl y ↦ subst (IsPast t next) (some_inv (rw y at k)) h.0
      | inr n ↦ past s (rw n at k)
    ]

-- The snapshot of a poll is the latest one, if the others are past.
latest-new :
    (id next : ℕ) (state : AuctionState) (raw : Option Json) (rows : List AuctionSnapshot)
    → All (IsPast state.observed_at next) rows
    → latest (select (λ s. s.auction_id == id) (snapshot_of next id state raw ∷ rows))
      ≡ some (snapshot_of next id state raw)
latest-new id next state raw rows past = rw (same_number id) (
    newest_first (snapshot_of next id state raw) state.observed_at next _ refl refl (
      latest-IsPast state.observed_at next _
        (All-select (IsPast state.observed_at next) (λ s. s.auction_id == id) rows past)))
  where
    same_number : (n : ℕ) → (n == n) ≡ true
    same_number n = ground arith

-- The state that the latest snapshot of the auction shows agrees with this one in what is tracked.
abbrev pub Shows : AuctionState → Option AuctionState → Type 0
Shows state none = ⊥
Shows state (some q) = SameTracked q state

stored-Shows :
    (id : ℕ) (state : AuctionState) (raw : Option Json) (db : Database)
    (previous : Option AuctionState)
    → previous ≡ previous_state (get_latest id db)
    → All (IsPast state.observed_at db.next_snapshot) db.snapshots
    → Shows state (
        previous_state (
          get_latest id
            (store_observation
              (not (is_some previous) || has_changes (diff_states previous state default_config))
              id
              state
              raw
              db).1))
unfolding store_observation get_latest Auctions.update_from_state Auctions.modify Snapshots.create
stored-Shows id state raw db none e past =
    subst (λ (o : Option AuctionSnapshot). Shows state (previous_state o))
      (sym (latest-new id db.next_snapshot state raw db.snapshots past))
      (reread-SameTracked db.next_snapshot id state raw)
stored-Shows id state raw db (some q) e past =
    elim (Bool-cases (has_changes (diff_states (some q) state default_config))) [
      | inl changed ↦ rw changed (
          subst (λ (o : Option AuctionSnapshot). Shows state (previous_state o))
            (sym (latest-new id db.next_snapshot state raw db.snapshots past))
            (reread-SameTracked db.next_snapshot id state raw))
      | inr same ↦ rw same (subst (Shows state) e ((diff_unchanged_iff q state).0 same))
    ]

-- The snapshots after a poll whose fetch succeeded are those that it stored.
observe-snapshots :
    (settings : Settings) (now : Instant) (id : ℕ) (a : Auction) (t : Instant)
    (state : AuctionState) (raw : Option Json) (db : Database) (p : Polled)
    → observe settings now id a t state raw db ≡ some p
    → p.1.snapshots ≡ (stored settings now id a t state raw db).1.snapshots
unfolding Auctions.modify
observe-snapshots settings now id a t state raw db p h =
    let (c, (e, done)) = observe_inv settings now id a t state raw db p h in
    let s = stored settings now id a t state raw db in
    ap (λ (q : Polled). q.1.snapshots) (sym done)
    ∙ sym (notify-SameTables _ (list_watchers id s.1) s.0 a.url now s.1 c e).snapshots

latest-same :
    (id : ℕ) (db db' : Database)
    → db.snapshots ≡ db'.snapshots
    → get_latest id db ≡ get_latest id db'
unfolding get_latest
latest-same id db db' h = ap (λ rows. latest (select (λ s. s.auction_id == id) rows)) h

observe-Shows :
    (settings : Settings) (now : Instant) (id : ℕ) (a : Auction) (t : Instant)
    (state : AuctionState) (raw : Option Json) (db : Database) (p : Polled)
    → All (IsPast state.observed_at db.next_snapshot) db.snapshots
    → observe settings now id a t state raw db ≡ some p
    → Shows state (previous_state (get_latest id p.1))
unfolding Auctions.clear_error Auctions.modify
observe-Shows settings now id a t state raw db p past h =
    subst (λ (o : Option AuctionSnapshot). Shows state (previous_state o))
      (sym (latest-same id p.1 _ (observe-snapshots settings now id a t state raw db p h)))
      (stored-Shows id state raw (Auctions.clear_error id db) _ refl past)

unchanged-Shows :
    (s s' : AuctionState) (o : Option AuctionState)
    → Shows s o
    → SameTracked s s'
    → (not (is_some o) || has_changes (diff_states o s' default_config)) ≡ false
unchanged-Shows s s' none h k = absurd h
unchanged-Shows s s' (some q) h k = (diff_unchanged_iff q s').1 (SameTracked-trans q s s' h k)

observe-unchanged :
    (settings : Settings) (now : Instant) (id : ℕ) (a : Auction) (t : Instant)
    (state : AuctionState) (raw : Option Json) (db : Database) (p : Polled)
    → changed settings now id a t state raw db ≡ false
    → observe settings now id a t state raw db ≡ some p
    → p.1.snapshots ≡ db.snapshots
unfolding store_observation Auctions.clear_error Auctions.modify
observe-unchanged settings now id a t state raw db p same h =
    observe-snapshots settings now id a t state raw db p h
    ∙ ap (λ c. (store_observation c id state raw (Auctions.clear_error id db)).1.snapshots) same

-- When a poll has fetched a state no earlier than any snapshot, all numbered below the next one,
-- and has committed, a second poll of the auction that fetches a state with the same price, bid
-- count, end time, buy-now price, closedness and winner stores no snapshot.
pub repeated_poll :
    (settings : Settings) (first second : Text → Fetched) (now now' : Instant) (id : ℕ)
    (db : Database) (a a' : Auction) (state state' : AuctionState) (raw raw' : Option Json)
    (p p' : Polled)
    → Auctions.get_by_id id db ≡ some a
    → a.monitoring_active ≡ true
    → first a.url ≡ fetched state raw
    → All (IsPast state.observed_at db.next_snapshot) db.snapshots
    → poll settings first now id db ≡ some p
    → Auctions.get_by_id id p.1 ≡ some a'
    → a'.monitoring_active ≡ true
    → second a'.url ≡ fetched state' raw'
    → SameTracked state state'
    → poll settings second now' id p.1 ≡ some p'
    → p'.1.snapshots ≡ p.1.snapshots
unfolding Auctions.clear_error Auctions.modify
repeated_poll settings first second now now' id db a a' state state' raw raw' p p' known on got past
      one known' on' got' same two =
    let shown =
      observe-Shows settings now id a (instant (last_poll_time a)) state raw db p past
        (poll_observes settings first now id db a state raw p known on got one) in
    observe-unchanged settings now' id a' (instant (last_poll_time a')) state' raw' p.1 p'
      (unchanged-Shows state state'
        (before settings now' id a' (instant (last_poll_time a')) state' raw' p.1)
        (subst (λ (o : Option AuctionSnapshot). Shows state (previous_state o))
          (latest-same id p.1 (Auctions.clear_error id p.1) refl) shown)
        same)
      (poll_observes settings second now' id p.1 a' state' raw' p' known' on' got' two)
