-- ===== src/Watchlist/Refines.antt =====
-- The service of app/services/auction_service.py as a server of requests, between which app/workers polls and
-- app/scheduler ticks, and the specification that it meets.
use aucnotif.Prelude.{
  ℕ, ◌≡◌, sym, ap, ◌∙◌, Bool, true, false, subst, Option, List, [], ◌∷◌, is_some, if◌then◌else◌,
}
use aucnotif.Prelude.Text.{Text}
use aucnotif.Times.{Instant}
use aucnotif.Config.{Settings}
use aucnotif.Database.{Database, empty}
use aucnotif.Repositories.Users
use aucnotif.Providers.{Fetched}
use aucnotif.Services.Auctions.{
  AddOutcome, RemoveResult, removed, not_found, add_watch, remove_watch, toggle_notifications,
  set_label, find, get_watch_item,
}
use aucnotif.Services.Monitoring.{poll, committed}
use aucnotif.Scheduler.{tick_body}
use aucnotif.Watchlist.{Watchlist, watchlist, add, Tells, erase}
use aucnotif.Watchlist.Polls.{keys-poll}
use aucnotif.Watchlist.Ticks.{tick-WellFormed, tick-listed}
use aucnotif.Watchlist.Keys.{keys, listed, WellFormed, watchlist-keys}
use aucnotif.Watchlist.Links.{Shows}
use aucnotif.Watchlist.Adds.{add_watch-Shows}
use aucnotif.Watchlist.Removes.{remove_watch-Shows, toggle_notifications-Shows, set_label-Shows}

-- A request: the time, the user's Telegram id, and the link or the auction's external id; or one of the two
-- things that the program does by itself. What the provider answers may differ from one to the next.
pub data Request : Type 0 where
  adds : (Text → Fetched) → Instant → ℕ → Text → Request
  removes : Instant → ℕ → Text → Request
  toggles : ℕ → Text → Request
  labels : ℕ → Text → Option Text → Request
  polls : (Text → Fetched) → Instant → ℕ → Request
  ticks : Instant → Option Instant → Request

pub data Response : Type 0 where
  added_as : AddOutcome → Response
  removed_as : RemoveResult → Response
  changed_to : Option Bool → Response
  nothing_said : Response

abbrev answered {ℓ} : {A : Type ℓ} → (A → Response) → A × Database → Response × Database
answered f (a, db) = (f a, db)

unfoldable pub serve : Settings → Request → Database → Response × Database
serve settings (adds provider now telegram_id url) db =
    answered added_as (add_watch settings provider now telegram_id url db)
serve settings (removes now telegram_id external_id) db =
    answered removed_as (remove_watch settings now telegram_id external_id db)
serve settings (toggles telegram_id external_id) db =
    answered changed_to (toggle_notifications telegram_id external_id db)
serve settings (labels telegram_id external_id label) db =
    answered changed_to (set_label telegram_id external_id label db)
serve settings (polls provider now auction_id) db =
    (nothing_said, committed db (poll settings provider now auction_id db))
serve settings (ticks now last_run) db = (nothing_said, (tick_body settings now last_run db).db)

unfoldable pub serve_all : Settings → List Request → Database → List (Request × Response) × Database
serve_all settings [] db = ([], db)
serve_all settings (q ∷ qs) db =
    let (r, next) = serve settings q db in
    let (rs, last) = serve_all settings qs next in ((q, r) ∷ rs, last)

abbrev pub Same : Watchlist → Watchlist → Type 0
Same v w = (t : ℕ) (e : Text) → v t e ≡ w t e

-- No entry that was not there.
abbrev pub Within : Watchlist → Watchlist → Type 0
Within v w = (t : ℕ) (e : Text) → v t e ≡ true → w t e ≡ true

-- Which answer a request may have, and the watchlist after it: an add that is accepted inserts an entry and
-- tells whether it was there, a
-- removal erases one and tells whether it was there, the others tell whether
-- there is one. A poll changes nothing, and a tick makes no entry.
abbrev pub Allows : Watchlist → Request → Response → Watchlist → Type 0
Allows w (adds provider now telegram_id url) (added_as outcome) v =
    Same v (add outcome telegram_id w) × Tells outcome telegram_id w
Allows w (removes now telegram_id external_id) (removed_as result) v =
    Same v (erase telegram_id external_id w)
    × (result ≡ (if w telegram_id external_id then removed else not_found))
Allows w (toggles telegram_id external_id) (changed_to result) v =
    Same v w × (is_some result ≡ w telegram_id external_id)
Allows w (labels telegram_id external_id label) (changed_to result) v =
    Same v w × (is_some result ≡ w telegram_id external_id)
Allows w (polls provider now auction_id) nothing_said v = Same v w
Allows w (ticks now last_run) nothing_said v = Within v w
Allows w _ _ v = ⊥

-- A run of the specification.
pub data Trace : Watchlist → List (Request × Response) → Watchlist → Type 0 where
  over : {w : Watchlist} → Trace w [] w
  then_one :
      {u v w : Watchlist} {q : Request} {r : Response} {rest : List (Request × Response)}
      → Allows u q r v
      → Trace v rest w
      → Trace u ((q, r) ∷ rest) w

-- No row, so no constraint is broken.
empty-WellFormed : WellFormed (keys empty)
unfolding keys
empty-WellFormed = record {
  unique_users = tt;
  unique_auctions = tt;
  unique_links = tt;
  unique_pairs = tt;
  old_users = tt;
  old_auctions = tt;
  old_links = tt;
  old_link_users = tt;
  old_link_auctions = tt;
}

watchlist-Shows : (db : Database) → WellFormed (keys db) → Shows (keys db) (watchlist db)
watchlist-Shows db h = (h, λ t e. sym (watchlist-keys t e db))

Shows-Same : (db : Database) (w : Watchlist) → Shows (keys db) w → Same (watchlist db) w
Shows-Same db w h = λ t e. watchlist-keys t e db ∙ h.1 t e

serve-Allows :
    (settings : Settings) (q : Request) (db : Database)
    → WellFormed (keys db)
    → WellFormed (keys (serve settings q db).1)
      × Allows (watchlist db) q (serve settings q db).0 (watchlist (serve settings q db).1)
unfolding serve
serve-Allows settings (adds provider now t url) db h =
    let k = add_watch-Shows settings provider now t url db (watchlist db) (watchlist-Shows db h) in
    (k.0.0, (Shows-Same _ _ k.0, k.1))
serve-Allows settings (removes now t e) db h =
    let k = remove_watch-Shows t e (watchlist db) db (watchlist-Shows db h) settings now in
    (
      k.0.0,
      (
        Shows-Same _ _ k.0,
        k.1 ∙ ap (λ b. if b then removed else not_found) (sym (watchlist-keys t e db)),
      ),
    )
serve-Allows settings (toggles t e) db h =
    let k = toggle_notifications-Shows t e (watchlist db) db (watchlist-Shows db h) in
    (k.0.0, (Shows-Same _ _ k.0, k.1 ∙ sym (watchlist-keys t e db)))
serve-Allows settings (labels t e label) db h =
    let k = set_label-Shows t e (watchlist db) db (watchlist-Shows db h) label in
    (k.0.0, (Shows-Same _ _ k.0, k.1 ∙ sym (watchlist-keys t e db)))
serve-Allows settings (polls provider now id) db h =
    let same = keys-poll settings provider now id db in
    (
      subst WellFormed (sym same) h,
      λ t e. watchlist-keys t e _ ∙ ap (listed t e) same ∙ sym (watchlist-keys t e db),
    )
serve-Allows settings (ticks now last_run) db h = (
  tick-WellFormed settings now last_run db h,
  λ t e there.
      watchlist-keys t e db
      ∙ tick-listed settings now last_run db h t e (sym (watchlist-keys t e _) ∙ there),
)

serve_all-Trace :
    (settings : Settings) (qs : List Request) (db : Database)
    → WellFormed (keys db)
    → WellFormed (keys (serve_all settings qs db).1)
      × Trace (watchlist db) (serve_all settings qs db).0 (watchlist (serve_all settings qs db).1)
unfolding serve_all
serve_all-Trace settings [] db h = (h, over)
serve_all-Trace settings (q ∷ qs) db h =
    let (kept, allowed) = serve-Allows settings q db h in
    let (end, trace) = serve_all-Trace settings qs (serve settings q db).1 kept in
    (end, then_one allowed trace)

-- From the empty database on, any sequence of requests, polls and ticks is answered as the specification of a watchlist allows that
-- starts with no entry, and the specification ends with the watchlist of the database.
pub serve_all-refines :
    (settings : Settings) (requests : List Request)
    → Trace
        (λ _ _. false)
        (serve_all settings requests empty).0
        (watchlist (serve_all settings requests empty).1)
unfolding watchlist get_watch_item find Users.get_by_telegram_id
serve_all-refines settings requests = (serve_all-Trace settings requests empty empty-WellFormed).1

-- From the empty database on, every sequence of requests, polls and ticks leaves rows whose ids are unique, no two links between
-- one user and one auction, sequences that are ahead of every id, and links to ids that were given out.
pub serve_all-WellFormed :
    (settings : Settings) (requests : List Request)
    → WellFormed (keys (serve_all settings requests empty).1)
serve_all-WellFormed settings requests =
    (serve_all-Trace settings requests empty empty-WellFormed).0
