-- ===== src/Services/Monitoring/Errors.antt =====
-- Errors in a row: they are counted, and the last one that the settings allow stops the monitoring.
use aucnotif.Prelude.{
  ℕ, suc, ◌+◌, ◌≤◌, ◌<◌, ◌≡◌, refl, ◌∙◌, ap, min, Bool, true, false, Option, none, some, List, [],
  ◌∷◌, arith, ltb, leb, ltb→lt, ◌⊎◌, if◌then◌else◌, inl, inr, Bool-cases, ◌==◌,
}
use aucnotif.Prelude.Int.{◌+ℤ◌}
use aucnotif.Prelude.Lists.{length, All}
use aucnotif.Prelude.Tables.{map_option, select_one-update_self}
use aucnotif.Prelude.Text.{Text}
use aucnotif.Times.{Instant}
use aucnotif.Config.{Settings}
use aucnotif.Models.{Auction}
use aucnotif.Database.{Database}
use aucnotif.Repositories.Auctions.{
  get_by_id, modify, with_error, stopped, record_error, stop_monitoring,
}
use aucnotif.Providers.{
  failed, ProviderError, rate_limited_error, anti_bot_error, page_data_parse_error,
  page_data_not_found_error, auction_gone_error,
}
use aucnotif.Services.Monitoring.{
  poll, retry_later, backoff, current_errors, ErrorType, rate_limited, parse_error, no_pagedata,
  http_message, on_provider_error, handle_error, committed,
}

-- An assignment to the auction with an id is seen by the next query for it.
pub get-modify :
    (id : ℕ) (f : Auction → Auction) (db : Database)
    → ((a : Auction) → (f a).id ≡ a.id)
    → get_by_id id (modify id f db) ≡ map_option f (get_by_id id db)
unfolding get_by_id modify
get-modify id f db same =
    select_one-update_self (λ a. a.id == id) f db.auctions (λ a. ap (λ i. i == id) (same a))

-- What a temporary error does to the auction's row.
pub failed_row : Settings → Instant → Text → Auction → Auction
failed_row settings now message a =
    let counted = with_error message (now +ℤ backoff settings (suc a.consecutive_errors)) a in
    if leb settings.yahoo_max_consecutive_errors (suc a.consecutive_errors)
    then stopped counted
    else counted

module _ (settings : Settings) (now : Instant) (id : ℕ) (message : Text) (a : Auction)
    (db : Database) (known : get_by_id id db ≡ some a) where
  record-known :
      (dt : Instant)
      → record_error id message dt db
        ≡ (suc a.consecutive_errors, modify id (with_error message dt) db)
  unfolding record_error
  record-known dt = rw (known, record_error)

  errors-known : current_errors id db ≡ a.consecutive_errors
  unfolding current_errors
  errors-known = rw (known, current_errors)

  -- After a temporary error the auction's row is the one above.
  pub retry_later-row :
      (t : ErrorType)
      → get_by_id id (retry_later settings now id t message db).1
        ≡ some (failed_row settings now message a)
  unfolding retry_later stop_monitoring failed_row
  retry_later-row t =
      let counted = with_error message (now +ℤ backoff settings (suc a.consecutive_errors)) in
      rw errors-known (
        rw record-known
          (elim (Bool-cases
            (leb settings.yahoo_max_consecutive_errors (suc a.consecutive_errors))) [
              | inl last ↦ rw last (
                  rw (get-modify id stopped _ (λ _. refl))
                    (rw (get-modify id counted db (λ _. refl)) (rw known)))
              | inr more ↦ rw more (rw (get-modify id counted db (λ _. refl)) (rw known))
            ]))

-- The errors that do not stop the monitoring at once.
abbrev pub IsTransient : ProviderError → Type 0
IsTransient (anti_bot_error m) = ⊥
IsTransient (auction_gone_error m) = ⊥
IsTransient _ = Unit

-- The message that is kept: for a `RateLimitedError` with its status.
abbrev pub message_of : ProviderError → Text
message_of (rate_limited_error status m) = http_message status m
message_of (anti_bot_error m) = m
message_of (auction_gone_error m) = m
message_of (page_data_parse_error m) = m
message_of (page_data_not_found_error m) = m

on_transient-row :
    (settings : Settings) (now : Instant) (id : ℕ) (e : ProviderError) (a : Auction) (db : Database)
    → get_by_id id db ≡ some a
    → IsTransient e
    → get_by_id id (on_provider_error settings now id e db).1
      ≡ some (failed_row settings now (message_of e) a)
unfolding on_provider_error handle_error
on_transient-row settings now id (rate_limited_error status m) a db known t =
    retry_later-row settings now id (http_message status m) a db known rate_limited
on_transient-row settings now id (anti_bot_error m) a db known t = elim t [ ]
on_transient-row settings now id (page_data_not_found_error m) a db known t =
    retry_later-row settings now id m a db known no_pagedata
on_transient-row settings now id (page_data_parse_error m) a db known t =
    retry_later-row settings now id m a db known parse_error
on_transient-row settings now id (auction_gone_error m) a db known t = elim t [ ]

-- Polls of one auction at these times, each failing with the error beside it.
pub poll_failing : Settings → ℕ → List (Instant × ProviderError) → Database → Database
poll_failing settings id [] db = db
poll_failing settings id ((now, e) ∷ rest) db =
    poll_failing settings id rest (committed db (poll settings (λ _. failed e) now id db))

-- The row after such polls: how many errors, and whether it is monitored.
abbrev pub Counts : ℕ → Bool → Option Auction → Type 0
Counts errors active none = ⊥
Counts errors active (some a) = (a.consecutive_errors ≡ errors) × (a.monitoring_active ≡ active)

poll-failing-row :
    (settings : Settings) (id : ℕ) (now : Instant) (e : ProviderError) (a : Auction) (db : Database)
    → get_by_id id db ≡ some a
    → IsTransient e
    → (active : Bool) → a.monitoring_active ≡ active
    → get_by_id id (committed db (poll settings (λ _. failed e) now id db))
      ≡ some (if active then failed_row settings now (message_of e) a else a)
unfolding poll
poll-failing-row settings id now e a db known t true on =
    rw (known, poll) (simp on (on_transient-row settings now id e a db known t))
poll-failing-row settings id now e a db known t false off = rw (known, poll) (simp off known)

-- One more failing poll, for an auction with `n` errors that is monitored while they are below the limit.
Counts-failed :
    (settings : Settings) (now : Instant) (message : Text) (n : ℕ) (a : Auction)
    → n < settings.yahoo_max_consecutive_errors
    → a.consecutive_errors ≡ n
    → a.monitoring_active ≡ true
    → Counts
        (suc n)
        (ltb (suc n) settings.yahoo_max_consecutive_errors)
        (some (failed_row settings now message a))
unfolding failed_row
Counts-failed settings now message n a room e on = ground arith

plus_zero : (n : ℕ) → n ≡ n + 0
plus_zero n = omega arith

not_ltb : (m n : ℕ) → ltb m n ≡ false → n ≤ m
not_ltb m n h = ground arith

ltb_same : (limit k m : ℕ) → (k ≡ m) ⊎ ((limit ≤ k) × (limit ≤ m)) → ltb k limit ≡ ltb m limit
ltb_same limit k m h = ground arith

-- The two numbers are the same up to the limit.
Counts-same :
    (limit k m : ℕ) (o : Option Auction)
    → min k limit ≡ min m limit
    → (k ≡ m) ⊎ ((limit ≤ k) × (limit ≤ m))
    → Counts (min k limit) (ltb k limit) o
    → Counts (min m limit) (ltb m limit) o
Counts-same limit k m none e s h = h
Counts-same limit k m (some a) e s h = (h.0 ∙ e, h.1 ∙ ltb_same limit k m s)

-- If every fetch fails with an error that does not stop the monitoring at once, the errors in a row
-- are counted up to `yahoo_max_consecutive_errors`, and the poll that reaches that number stops the
-- monitoring: an auction with no more errors than the limit, and monitored exactly if they are
-- fewer, has after any number of such polls as many errors more, cut off at the limit, and is
-- monitored exactly if they are fewer still.
pub stops_after_errors :
    (settings : Settings) (id : ℕ) (fails : List (Instant × ProviderError)) (a : Auction)
    (db : Database) (n : ℕ)
    → get_by_id id db ≡ some a
    → All (λ f. IsTransient f.1) fails
    → n ≤ settings.yahoo_max_consecutive_errors
    → a.consecutive_errors ≡ n
    → a.monitoring_active ≡ ltb n settings.yahoo_max_consecutive_errors
    → Counts
        (min (n + length fails) settings.yahoo_max_consecutive_errors)
        (ltb (n + length fails) settings.yahoo_max_consecutive_errors)
        (get_by_id id (poll_failing settings id fails db))
unfolding poll_failing
stops_after_errors settings id [] a db n known t le e active =
    rw known
      (omega arith, active ∙ ap (λ m. ltb m settings.yahoo_max_consecutive_errors) (plus_zero n))
stops_after_errors settings id ((now, err) ∷ rest) a db n known t le e active =
    let limit = settings.yahoo_max_consecutive_errors in
    let db' = committed db (poll settings (λ _. failed err) now id db) in
    elim (Bool-cases (ltb n limit)) [
      | inl below ↦
          let a' = failed_row settings now (message_of err) a in
          let (e', active') =
            Counts-failed settings now (message_of err) n a (ltb→lt n limit below) e
              (active ∙ below) in
          Counts-same limit (suc n + length rest) (n + suc (length rest)) _ (omega arith)
            (omega arith)
            (stops_after_errors settings id rest a' db' (suc n)
              (poll-failing-row settings id now err a db known t.0 true (active ∙ below)) t.1
              (omega (arith, ltb→lt n limit below)) e' active')
      | inr reached ↦
          Counts-same limit (n + length rest) (n + suc (length rest)) _
            (omega (arith, not_ltb n limit reached)) (omega (arith, not_ltb n limit reached))
            (stops_after_errors settings id rest a db' n
              (poll-failing-row settings id now err a db known t.0 false (active ∙ reached)) t.1 le
              e active)
    ]
