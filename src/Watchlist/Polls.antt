-- ===== src/Watchlist/Polls.antt =====
-- A poll of app/services/monitoring_service.py leaves the keys of the database as they are.
use aucnotif.Repositories.Snapshots.{instant}
use aucnotif.Prelude.{
  ℕ, suc, ◌≡◌, refl, sym, ap, ◌∙◌, Bool, true, false, Option, some, List, [], ◌∷◌, leb, inl, inr,
  Bool-cases, Option-cases, some_inv,
}
use aucnotif.Prelude.Int.{◌+ℤ◌}
use aucnotif.Prelude.Text.{Text}
use aucnotif.Times.{Instant}
use aucnotif.Config.{Settings}
use aucnotif.Schemas.Json.{Json}
use aucnotif.Domain.AuctionState.{AuctionState}
use aucnotif.Domain.Notifications.{NotificationDecision}
use aucnotif.Models.{User, Auction, UserAuction}
use aucnotif.Database.{Database}
use aucnotif.Repositories.Auctions
use aucnotif.Repositories.Snapshots
use aucnotif.Repositories.Notifications.{modify}
use aucnotif.Repositories.UserAuctions.{list_watchers}
use aucnotif.Notifications.Engine.{create_jobs, Created}
use aucnotif.Notifications.Engine.Steps.{Step, skipped, made, watchers_induction}
use aucnotif.Providers.{
  crashed, ProviderError, rate_limited_error, anti_bot_error, page_data_not_found_error,
  page_data_parse_error, auction_gone_error, Fetched, fetched, failed,
}
use aucnotif.Services.Monitoring.{
  Polled, ErrorType, poll, observe, notify, store_observation, on_fetched, committed,
  on_provider_error, handle_error, stop_with_error, retry_later, backoff, current_errors,
  last_poll_time, goes_through, rescheduled, with_last_error,
}
use aucnotif.Services.Monitoring.Observed.{observe_inv, stored, decisions, changed}
use aucnotif.Watchlist.Keys.{keys}
use aucnotif.Watchlist.Rows.{keys-modify}

keys-Step :
    (url : Text) (snapshot_id : Option ℕ) (now : Instant) (start : Database) (link : UserAuction)
    (d : NotificationDecision) (done done' : Created)
    → Step url snapshot_id now link d done done'
    → keys done.1 ≡ keys start
    → keys done'.1 ≡ keys start
unfolding keys modify
keys-Step url sid now start link d done done' (skipped key c e) s = rw e s
keys-Step url sid now start link d done done' (made key text k c e) s = rw e s

keys-create_jobs :
    (ds : List NotificationDecision) (ws : List (User × UserAuction)) (snapshot_id : Option ℕ)
    (url : Text) (now : Instant) (db : Database) (done : Created)
    → create_jobs ds ws snapshot_id url now db ≡ some done
    → keys done.1 ≡ keys db
unfolding create_jobs
keys-create_jobs ds ws snapshot_id url now db done h =
    watchers_induction url snapshot_id now (λ c. keys c.1 ≡ keys db)
      (keys-Step url snapshot_id now db) ds ws ([], db) done h refl

keys-notify :
    (ds : List NotificationDecision) (ws : List (User × UserAuction)) (snapshot_id : Option ℕ)
    (url : Text) (now : Instant) (db : Database) (done : Created)
    → notify ds ws snapshot_id url now db ≡ some done
    → keys done.1 ≡ keys db
unfolding notify
keys-notify [] ws sid url now db done h = ap (λ (c : Created). keys c.1) (sym (some_inv h))
keys-notify (d ∷ ds) [] sid url now db done h = ap (λ (c : Created). keys c.1) (sym (some_inv h))
keys-notify (d ∷ ds) (w ∷ ws) sid url now db done h =
    keys-create_jobs (d ∷ ds) (w ∷ ws) sid url now db done h

keys-store_observation :
    (b : Bool) (id : ℕ) (state : AuctionState) (raw : Option Json) (db : Database)
    → keys (store_observation b id state raw db).1 ≡ keys db
unfolding store_observation Auctions.update_from_state
keys-store_observation false id state raw db = refl
keys-store_observation true id state raw db =
    keys-modify id (Auctions.with_state state) (Snapshots.create id state raw db).1 (λ _. refl)
    ∙ (unfold Snapshots.create keys in refl)

keys-clear_error : (id : ℕ) (db : Database) → keys (Auctions.clear_error id db) ≡ keys db
unfolding Auctions.clear_error
keys-clear_error id db = keys-modify id Auctions.without_error db (λ _. refl)

keys-observe :
    (settings : Settings) (now : Instant) (id : ℕ) (auction : Auction) (t : Instant)
    (state : AuctionState) (raw : Option Json) (db : Database)
    → keys (committed db (observe settings now id auction t state raw db)) ≡ keys db
keys-observe settings now id auction t state raw db =
    elim (Option-cases (observe settings now id auction t state raw db)) [
      | inl e ↦ ap (λ o. keys (committed db o)) e
      | inr (p, e) ↦
          let (c, (n, done)) = observe_inv settings now id auction t state raw db p e in
          ap (λ o. keys (committed db o)) e
          ∙ ap (λ (q : Polled). keys q.1) (sym done)
          ∙ keys-modify id (rescheduled settings state) c.1 (λ a. rescheduled-key a)
          ∙ keys-notify (decisions settings now id auction t state raw db)
              (list_watchers id (stored settings now id auction t state raw db).1)
              (stored settings now id auction t state raw db).0 auction.url now _ c n
          ∙ keys-store_observation (changed settings now id auction t state raw db) id state raw
              (Auctions.clear_error id db)
          ∙ keys-clear_error id db
    ]
  where
    rescheduled-key :
        (a : Auction)
        → Path
            (ℕ × Text)
            ((rescheduled settings state a).id, (rescheduled settings state a).external_id)
            (a.id, a.external_id)
    rescheduled-key a = elim (Bool-cases state.is_closed) [
      | inl e ↦ unfold rescheduled in rw e refl
      | inr e ↦ unfold rescheduled in rw e refl
    ]

pub keys-stop_monitoring :
    (id : ℕ) (db : Database) → keys (Auctions.stop_monitoring id db) ≡ keys db
unfolding Auctions.stop_monitoring
keys-stop_monitoring id db = keys-modify id Auctions.stopped db (λ _. refl)

keys-record_error :
    (id : ℕ) (message : Text) (dt : Instant) (db : Database)
    → keys (Auctions.record_error id message dt db).1 ≡ keys db
unfolding Auctions.record_error
keys-record_error id message dt db = elim (Option-cases (Auctions.get_by_id id db)) [
  | inl e ↦ rw (e, Auctions.record_error) refl
  | inr (a, e) ↦
      rw (e, Auctions.record_error) (keys-modify id (Auctions.with_error message dt) db (λ _. refl))
]

keys-handle_error :
    (settings : Settings) (now : Instant) (id : ℕ) (t : ErrorType) (message : Text) (stop : Bool)
    (db : Database)
    → keys (handle_error settings now id t message stop db).1 ≡ keys db
unfolding handle_error stop_with_error retry_later
keys-handle_error settings now id t message true db =
    keys-modify id (with_last_error message) (Auctions.stop_monitoring id db) (λ _. refl)
    ∙ keys-stop_monitoring id db
keys-handle_error settings now id t message false db =
    let next_poll_at = now +ℤ backoff settings (suc (current_errors id db)) in
    let recorded = Auctions.record_error id message next_poll_at db in
    elim (Bool-cases (leb settings.yahoo_max_consecutive_errors recorded.0)) [
      | inl e ↦
          rw e (keys-stop_monitoring id recorded.1 ∙ keys-record_error id message next_poll_at db)
      | inr e ↦ rw e (keys-record_error id message next_poll_at db)
    ]

keys-on_provider_error :
    (settings : Settings) (now : Instant) (id : ℕ) (e : ProviderError) (db : Database)
    → keys (on_provider_error settings now id e db).1 ≡ keys db
unfolding on_provider_error
keys-on_provider_error settings now id (rate_limited_error s m) db =
    keys-handle_error settings now id _ _ false db
keys-on_provider_error settings now id (anti_bot_error m) db =
    keys-handle_error settings now id _ m true db
keys-on_provider_error settings now id (auction_gone_error m) db =
    keys-handle_error settings now id _ m true db
keys-on_provider_error settings now id (page_data_parse_error m) db =
    keys-handle_error settings now id _ m false db
keys-on_provider_error settings now id (page_data_not_found_error m) db =
    keys-handle_error settings now id _ m false db

keys-on_fetched :
    (settings : Settings) (now : Instant) (id : ℕ) (a : Auction) (db : Database) (f : Fetched)
    → keys (committed db (on_fetched settings now id a db f)) ≡ keys db
keys-on_fetched settings now id a db (fetched state raw) =
    elim (Bool-cases (goes_through settings id a state raw db)) [
      | inl through ↦
          rw through (keys-observe settings now id a (instant (last_poll_time a)) state raw db)
      | inr refused ↦ rw refused refl
    ]
keys-on_fetched settings now id a db crashed = refl
keys-on_fetched settings now id a db (failed e) = keys-on_provider_error settings now id e db

pub keys-poll :
    (settings : Settings) (provider : Text → Fetched) (now : Instant) (id : ℕ) (db : Database)
    → keys (committed db (poll settings provider now id db)) ≡ keys db
unfolding poll
keys-poll settings provider now id db = elim (Option-cases (Auctions.get_by_id id db)) [
  | inl e ↦ rw (e, poll) refl
  | inr (a, e) ↦
      rw (e, poll)
        (elim (Bool-cases a.monitoring_active) [
          | inl on ↦ simp on (keys-on_fetched settings now id a db (provider a.url))
          | inr off ↦ simp off
        ])
]
