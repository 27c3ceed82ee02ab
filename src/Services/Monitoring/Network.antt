-- ===== src/Services/Monitoring/Network.antt =====
-- What one answer of the site does to the monitoring.
use aucnotif.Prelude.{ℕ, ◌≡◌, refl, ap, ◌∙◌, Bool, true, false, Option, none, some}
use aucnotif.Prelude.Text.{Text}
use aucnotif.Prelude.Tables.{map_option}
use aucnotif.Times.{Instant}
use aucnotif.Config.{Settings}
use aucnotif.Schemas.Json.{Json, Fields}
use aucnotif.Schemas.Yahoo.{PageDataItems}
use aucnotif.Models.{Auction}
use aucnotif.Database.{Database}
use aucnotif.Repositories.Auctions.{get_by_id, stop_monitoring, stopped, modify}
use aucnotif.Providers.{
  Fetched, failed, rate_limited_error, anti_bot_error, page_data_parse_error,
  page_data_not_found_error, auction_gone_error,
}
use aucnotif.Providers.Yahoo.Client.{Answer, Page, html, raised, fetch_html}
use aucnotif.Providers.Yahoo.Client.Gone.{is_gone, taken_for_gone, gone_exactly}
use aucnotif.Providers.Yahoo.Provider.{PageData, fetch_state_with_raw, from_page}
use aucnotif.Services.Monitoring.{
  Polled, poll, stop_with_error, handle_error, on_provider_error, gone, with_last_error,
}
use aucnotif.Services.Monitoring.Errors.{get-modify}

gone_inv : (page : Page) → is_gone page ≡ true → (m : Text) × (page ≡ raised (auction_gone_error m))
gone_inv (html text) h = cc
gone_inv (raised (rate_limited_error s m)) h = cc
gone_inv (raised (anti_bot_error m)) h = cc
gone_inv (raised (page_data_not_found_error m)) h = cc
gone_inv (raised (page_data_parse_error m)) h = cc
gone_inv (raised (auction_gone_error m)) h = (m, refl)

poll-gone :
    (settings : Settings) (provider : Text → Fetched) (now : Instant) (id : ℕ) (db : Database)
    (a : Auction) (m : Text)
    → get_by_id id db ≡ some a
    → a.monitoring_active ≡ true
    → provider a.url ≡ failed (auction_gone_error m)
    → poll settings provider now id db ≡ some (stop_with_error id gone m db)
unfolding poll on_provider_error handle_error
poll-gone settings provider now id db a m known on got = rw (known, poll) (simp (on, got))

stopped-row :
    (id : ℕ) (m : Text) (db : Database) (a : Auction)
    → get_by_id id db ≡ some a
    → get_by_id id (stop_with_error id gone m db).1 ≡ some (with_last_error m (stopped a))
unfolding stop_with_error stop_monitoring
stopped-row id m db a known =
    get-modify id (with_last_error m) (modify id stopped db) (λ _. refl)
    ∙ ap (map_option (with_last_error m))
        (get-modify id stopped db (λ _. refl) ∙ ap (map_option stopped) known)

-- The auction is there, and is not monitored any more.
abbrev pub IsStopped : Option Auction → Type 0
IsStopped none = ⊥
IsStopped (some a) = (a.monitoring_active ≡ false) × (a.next_poll_at ≡ none)

-- One poll of a monitored auction that meets a network error other than a timeout, or a status
-- other than 200, 403, 429 and those from 500 on, stops the monitoring at once: the auction has no
-- next poll.
pub network_error_stops :
    (loads : Text → Option Json) (model_validate : Fields → PageData)
    (explain : PageDataItems → Text) (digit_of : ℕ → Option ℕ) (store_raw_data : Bool)
    (settings : Settings) (get : Text → Answer) (now : Instant) (id : ℕ) (db : Database)
    (a : Auction)
    → get_by_id id db ≡ some a
    → a.monitoring_active ≡ true
    → taken_for_gone (get a.url) ≡ true
    → (p : Polled) × ((poll settings
            (λ url.
              fetch_state_with_raw loads model_validate explain digit_of store_raw_data url now
                (get url))
            now
            id
            db
          ≡ some p)
        × IsStopped (get_by_id id p.1))
unfolding fetch_state_with_raw
network_error_stops loads validate explain digit_of raw settings get now id db a known on bad =
    let (m, e) = gone_inv (fetch_html (get a.url)) (gone_exactly (get a.url) ∙ bad) in
    (
      stop_with_error id gone m db,
      (
        poll-gone settings _ now id db a m known on
            (ap (from_page loads validate explain digit_of raw a.url now) e),
        rw (stopped-row id m db a known) (refl, refl),
      ),
    )
