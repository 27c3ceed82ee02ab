-- ===== src/Tests/Watchlists.antt =====
-- A run of the whole program on an empty database: a link is added twice, polled, and removed.
use aucnotif.Prelude.{◌≡◌, refl, true, false, none, some, List, [], ◌∷◌, arith}
use aucnotif.Prelude.Int.{pos}
use aucnotif.Prelude.Text.{Text, codes}
use aucnotif.Models.{SentNotification, pending}
use aucnotif.Domain.Notifications.{t_5m, end_time_key}
use aucnotif.Database.{Database, empty}
use aucnotif.Providers.{Fetched, fetched}
use aucnotif.Repositories.Notifications.{get_by_id}
use aucnotif.Scheduler.{tick_body}
use aucnotif.Scheduler.Pending.{tick-pending}
use aucnotif.Watchlist.{watchlist}
use aucnotif.Watchlist.Keys.{WellFormed, keys}
use aucnotif.Watchlist.Refines.{
  Request, adds, removes, labels, polls, ticks, serve_all, Trace, serve_all-refines,
  serve_all-WellFormed,
}
use aucnotif.Tests.Data.{settings, database, url, seen_at, end, user, auction, link}
use aucnotif.Watchlist.Open.{tick_keeps_open}
use aucnotif.Repositories.Users
use aucnotif.Repositories.Auctions
use aucnotif.Repositories.UserAuctions

abbrev online : Text → Fetched
online page = fetched (seen_at 100 (pos 10) (some end)) none

abbrev requests : List Request
requests =
    adds online (pos 10) 42 url
    ∷ adds online (pos 20) 77 url
    ∷ polls online (pos 30) 1
    ∷ labels 42 (codes "x1") (some (codes "mine"))
    ∷ removes (pos 40) 77 (codes "x1")
    ∷ ticks (pos 50) none
    ∷ []

serve_all-refines_example :
    Trace
      (λ _ _. false)
      (serve_all settings requests empty).0
      (watchlist (serve_all settings requests empty).1)
serve_all-refines_example = serve_all-refines settings requests

serve_all-WellFormed_example : WellFormed (keys (serve_all settings requests empty).1)
serve_all-WellFormed_example = serve_all-WellFormed settings requests

abbrev waiting : SentNotification
waiting = record {
  id = 7;
  user_auction_id = 1;
  kind = t_5m;
  dedup_key = end_time_key end;
  text = some (codes "soon");
  status = pending;
  created_at = pos 20;
  sent_at = none;
}

abbrev with_waiting : Database
with_waiting = record database { notifications = waiting ∷ [] }

known : get_by_id 7 with_waiting ≡ some waiting
unfolding get_by_id
known = refl

tick-pending_example :
    get_by_id 7 (tick_body settings (pos 100) none with_waiting).db ≡ some waiting
tick-pending_example = tick-pending settings (pos 100) none 7 waiting with_waiting known refl

database-WellFormed : WellFormed (keys database)
unfolding keys
database-WellFormed = record {
  unique_users = (tt, tt);
  unique_auctions = (tt, tt);
  unique_links = (tt, tt);
  unique_pairs = (tt, tt);
  old_users = (omega arith, tt);
  old_auctions = (omega arith, tt);
  old_links = (omega arith, tt);
  old_link_users = (omega arith, tt);
  old_link_auctions = (omega arith, tt);
}

user_known : Users.get_by_telegram_id 42 database ≡ some user
unfolding Users.get_by_telegram_id
user_known = refl

auction_known : Auctions.get_by_external_id (codes "x1") database ≡ some auction
unfolding Auctions.get_by_external_id
auction_known = refl

linked : UserAuctions.get 1 1 database ≡ some link
unfolding UserAuctions.get
linked = refl

tick_keeps_open_example :
    watchlist (tick_body settings (pos 100) none database).db 42 (codes "x1") ≡ true
tick_keeps_open_example =
    tick_keeps_open settings (pos 100) none database database-WellFormed 42 (codes "x1") user
      auction link user_known auction_known linked refl
