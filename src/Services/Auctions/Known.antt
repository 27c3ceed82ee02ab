-- ===== src/Services/Auctions/Known.antt =====
-- The auction that app/services/auction_service.py adds has an id as it stands in a link.
use aucnotif.Repositories.Columns.{takes_id, takes_state}
use aucnotif.Prelude.{
  if_keeps, ◌&&◌, ℕ, ◌≡◌, refl, sym, ap, subst, not, ◌&&◌, is_some, inl, inr, Bool-cases,
  Option-cases,
}
use aucnotif.Prelude.Rows.{select_one-holds}
use aucnotif.Prelude.Text.{Text, text_eq, text_eq_iff}
use aucnotif.Times.{Instant}
use aucnotif.Config.{Settings}
use aucnotif.Models.{User, Auction}
use aucnotif.Database.{Database}
use aucnotif.Domain.Validation.{validate_auction_url}
use aucnotif.Domain.Validation.Canonical.{IsId, validated-IsId}
use aucnotif.Repositories.Users
use aucnotif.Repositories.Auctions
use aucnotif.Repositories.UserAuctions
use aucnotif.Providers.{Fetched, fetched, failed, crashed}
use aucnotif.Services.Auctions.{
  AddOutcome, added, invalid_url, provider_failed, raised, add_watch, watch_id, watch_as, watch_new,
  watch, create_link,
}
use aucnotif.Services.Auctions.Watched.{watch-linked, watch-new, watch-closed}

-- The auction of an outcome has this external id.
abbrev IsAbout : Text → AddOutcome → Type 0
IsAbout id (added auction already user) = auction.external_id ≡ id
IsAbout id invalid_url = Unit
IsAbout id (provider_failed e) = Unit
IsAbout id raised = Unit

create_link-IsAbout :
    (now : Instant) (user : User) (auction : Auction) (db : Database)
    → IsAbout auction.external_id (create_link now user auction db).0
unfolding create_link
create_link-IsAbout now user auction db =
    if_keeps (λ (r : AddOutcome × Database). IsAbout auction.external_id r.0)
      (not auction.monitoring_active && not auction.is_closed) _ _ refl refl

watch-IsAbout :
    (now : Instant) (user : User) (auction : Auction) (db : Database)
    → IsAbout auction.external_id (watch now user auction db).0
watch-IsAbout now user auction db =
    let P = λ (r : AddOutcome × Database). IsAbout auction.external_id r.0 in
    elim (Bool-cases auction.is_closed) [
      | inl c ↦ subst P (sym (watch-closed now user auction db c)) refl
      | inr c ↦ elim (Option-cases (UserAuctions.get user.id auction.id db)) [
        | inl e ↦
            subst P (sym (watch-new now user auction db c e))
              (create_link-IsAbout now user auction db)
        | inr (l, e) ↦ subst P (sym (watch-linked now user auction db c (ap is_some e))) refl
      ]
    ]

watch_new-IsAbout :
    (now : Instant) (url id : Text) (user : User) (before db : Database) (f : Fetched)
    → IsAbout id (watch_new now url id user before db f).0
unfolding watch_new
watch_new-IsAbout now url id user before db (failed e) = tt
watch_new-IsAbout now url id user before db crashed = tt
watch_new-IsAbout now url id user before db (fetched state raw) =
    let created = Auctions.create url id state now db in
    if_keeps (λ (r : AddOutcome × Database). IsAbout id r.0) (takes_id id && takes_state state)
      (watch now user created.0 created.1) (raised, before)
      (unfold Auctions.create in watch-IsAbout now user created.0 created.1) tt

watch_as-IsAbout :
    (provider : Text → Fetched) (now : Instant) (url id : Text) (before : Database)
    (u : User × Database)
    → IsAbout id (watch_as provider now url id before u).0
unfolding watch_as Auctions.get_by_external_id
watch_as-IsAbout provider now url id before (user, db) =
    elim (Option-cases (Auctions.get_by_external_id id db)) [
      | inl e ↦ rw (e, watch_as) (watch_new-IsAbout now url id user before db (provider url))
      | inr (a, e) ↦
          rw (e, watch_as)
            (subst (λ x. IsAbout x (watch now user a db).0)
              ((text_eq_iff a.external_id id).0
                (select_one-holds (λ (x : Auction). text_eq x.external_id id) db.auctions a e))
              (watch-IsAbout now user a db))
    ]

-- What an outcome says about the auction's id.
abbrev pub IsKnown : AddOutcome → Type 0
IsKnown (added auction already user) = IsId auction.external_id
IsKnown invalid_url = Unit
IsKnown (provider_failed e) = Unit
IsKnown raised = Unit

outcome-IsKnown : (id : Text) (o : AddOutcome) → IsId id → IsAbout id o → IsKnown o
outcome-IsKnown id (added auction already user) valid about = subst IsId (sym about) valid
outcome-IsKnown id invalid_url valid about = tt
outcome-IsKnown id (provider_failed e) valid about = tt
outcome-IsKnown id raised valid about = tt

pub add_watch-IsKnown :
    (settings : Settings) (provider : Text → Fetched) (now : Instant) (telegram_id : ℕ) (url : Text)
    (db : Database)
    → IsKnown (add_watch settings provider now telegram_id url db).0
unfolding add_watch watch_id
add_watch-IsKnown settings provider now telegram_id url db =
    elim (Option-cases (validate_auction_url url)) [
      | inl e ↦ rw (e, add_watch) tt
      | inr (link, e) ↦
          let (id, _, _, f, valid) = validated-IsId url link e in
          rw (e, f, add_watch)
            (outcome-IsKnown id _ valid (
              watch_as-IsAbout provider now link id db
                (Users.get_or_create telegram_id settings.default_language db)))
    ]
