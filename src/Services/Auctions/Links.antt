-- ===== src/Services/Auctions/Links.antt =====
-- A call of `add_watch` that succeeds leaves the user watching the auction, if it is not closed.
use aucnotif.Prelude.{
  ℕ, ◌≡◌, refl, sym, ap, ◌∙◌, subst, true, false, not, ◌&&◌, some, is_some, ◌==◌, if◌then◌else◌,
  inl, inr, Bool-cases, Option-cases,
}
use aucnotif.Prelude.Tables.{map_option, select_one-update_where}
use aucnotif.Prelude.Text.{Text, text_eq, text_eq_iff}
use aucnotif.Times.{Instant}
use aucnotif.Domain.AuctionState.{AuctionState}
use aucnotif.Models.{User, Auction}
use aucnotif.Database.{Database}
use aucnotif.Repositories.Users
use aucnotif.Repositories.Auctions
use aucnotif.Repositories.Columns.{takes_id, takes_state}
use aucnotif.Repositories.UserAuctions
use aucnotif.Providers.{Fetched, fetched, failed, crashed}
use aucnotif.Services.Auctions.{AddOutcome, create_link, watch, watch_new, watch_as}
use aucnotif.Services.Auctions.Watched.{
  Watches, watch-linked, watch-new, watch-closed, same_id, contradiction, outcome_closed,
  outcome_user,
}

module _ (telegram_id : ℕ) (external_id : Text) (user : User) where
  -- A new link is found again, and the auction too, whether its monitoring is resumed or not.
  create_link-Watches :
      (now : Instant) (auction : Auction) (db : Database)
      → Users.get_by_telegram_id telegram_id db ≡ some user
      → Auctions.get_by_external_id external_id db ≡ some auction
      → auction.is_closed ≡ false
      → Watches telegram_id external_id user (create_link now user auction db).1
  unfolding create_link UserAuctions.create UserAuctions.get Auctions.get_by_external_id
      Users.get_by_telegram_id Auctions.resume_monitoring Auctions.modify
  create_link-Watches now auction db k m o =
      elim (Bool-cases (not auction.monitoring_active && not auction.is_closed)) [
        | inl e ↦ rw e (record {
          user_known = k;
          auction = Auctions.resumed now auction;
          auction_known =
              select_one-update_where (λ a. a.id == auction.id) (Auctions.resumed now)
                (λ a. text_eq a.external_id external_id) db.auctions (λ _. refl)
              ∙ (ap (map_option (λ a. if a.id == auction.id then Auctions.resumed now a else a)) m
                  ∙ rw (same_id auction.id) refl);
          is_open = o;
          linked = rw (same_id user.id, same_id auction.id) refl;
        })
        | inr e ↦ rw e (record {
          user_known = k;
          auction = auction;
          auction_known = m;
          is_open = o;
          linked = rw (same_id user.id, same_id auction.id) refl;
        })
      ]

  watch-Watches :
      (now : Instant) (auction : Auction) (db : Database)
      → Users.get_by_telegram_id telegram_id db ≡ some user
      → Auctions.get_by_external_id external_id db ≡ some auction
      → outcome_closed (watch now user auction db).0 ≡ false
      → Watches telegram_id external_id user (watch now user auction db).1
  watch-Watches now auction db k m o = elim (Bool-cases auction.is_closed) [
    | inl c ↦ absurd (
        contradiction auction.is_closed c (
          ap (λ (r : AddOutcome × Database). outcome_closed r.0)
            (sym (watch-closed now user auction db c))
          ∙ o))
    | inr c ↦ elim (Option-cases (UserAuctions.get user.id auction.id db)) [
      | inl e ↦
          subst (λ (r : AddOutcome × Database). Watches telegram_id external_id user r.1)
            (sym (watch-new now user auction db c e)) (create_link-Watches now auction db k m c)
      | inr (l, e) ↦
          subst (λ (r : AddOutcome × Database). Watches telegram_id external_id user r.1)
            (sym (watch-linked now user auction db c (ap is_some e)))
            (record {
              user_known = k;
              auction = auction;
              auction_known = m;
              is_open = c;
              linked = ap is_some e;
            })
    ]
  ]

  pub created-known :
      (url : Text) (state : AuctionState) (now : Instant) (db : Database)
      → (Auctions.get_by_external_id external_id (Auctions.create url external_id state now db).1)
        ≡ some (Auctions.create url external_id state now db).0
  unfolding Auctions.create Auctions.get_by_external_id
  created-known url state now db = rw ((text_eq_iff external_id external_id).1 refl) refl

  pub users-created :
      (url : Text) (state : AuctionState) (now : Instant) (db : Database)
      → Users.get_by_telegram_id telegram_id (Auctions.create url external_id state now db).1
        ≡ Users.get_by_telegram_id telegram_id db
  unfolding Auctions.create Users.get_by_telegram_id
  users-created url state now db = refl

  watch_new-Watches :
      (now : Instant) (url : Text) (before db : Database) (f : Fetched)
      → Users.get_by_telegram_id telegram_id db ≡ some user
      → is_some (outcome_user (watch_new now url external_id user before db f).0) ≡ true
      → outcome_closed (watch_new now url external_id user before db f).0 ≡ false
      → Watches telegram_id external_id user (watch_new now url external_id user before db f).1
  unfolding watch_new
  watch_new-Watches now url before db (failed e) k u o = cc
  watch_new-Watches now url before db crashed k u o = cc
  watch_new-Watches now url before db (fetched state raw) k u o =
      elim (Bool-cases (takes_id external_id && takes_state state)) [
        | inr refused ↦ absurd (contradiction false (rw refused at u) refl)
        | inl taken ↦ rw taken (
            watch-Watches now (Auctions.create url external_id state now db).0
              (Auctions.create url external_id state now db).1 (users-created url state now db ∙ k)
              (created-known url state now db) (rw taken at o))
      ]

  pub watch_as-Watches :
      (provider : Text → Fetched) (now : Instant) (url : Text) (before db : Database)
      → Users.get_by_telegram_id telegram_id db ≡ some user
      → is_some (outcome_user (watch_as provider now url external_id before (user, db)).0) ≡ true
      → outcome_closed (watch_as provider now url external_id before (user, db)).0 ≡ false
      → Watches telegram_id external_id user
          (watch_as provider now url external_id before (user, db)).1
  watch_as-Watches provider now url before db k u o =
      elim (Option-cases (Auctions.get_by_external_id external_id db)) [
        | inl e ↦
            let new : watch_as provider now url external_id before (user, db)
                ≡ watch_new now url external_id user before db (provider url) =
              unfold watch_as in rw (e, watch_as) in
            subst (λ (r : AddOutcome × Database). Watches telegram_id external_id user r.1)
              (sym new)
              (watch_new-Watches now url before db (provider url) k
                (subst (λ (r : AddOutcome × Database). is_some (outcome_user r.0) ≡ true) new u)
                (subst (λ (r : AddOutcome × Database). outcome_closed r.0 ≡ false) new o))
        | inr (a, e) ↦
            let old : watch_as provider now url external_id before (user, db)
                ≡ watch now user a db =
              unfold watch_as in rw (e, watch_as) in
            subst (λ (r : AddOutcome × Database). Watches telegram_id external_id user r.1)
              (sym old)
              (watch-Watches now a db k e
                (subst (λ (r : AddOutcome × Database). outcome_closed r.0 ≡ false) old o))
      ]

pub get_or_create-found :
    (telegram_id : ℕ) (language : Text) (db : Database)
    → Users.get_by_telegram_id telegram_id (Users.get_or_create telegram_id language db).1
      ≡ some (Users.get_or_create telegram_id language db).0
get_or_create-found telegram_id language db =
    elim (Option-cases (Users.get_by_telegram_id telegram_id db)) [
      | inl e ↦
          unfold Users.get_or_create in
          rw (e, Users.get_or_create) (created telegram_id language db)
      | inr (u, e) ↦ unfold Users.get_or_create in rw (e, Users.get_or_create) e
    ]
  where
    created :
        (t : ℕ) (l : Text) (d : Database)
        → Users.get_by_telegram_id t (Users.create t l d).1 ≡ some (Users.create t l d).0
    created t l d = unfold Users.create in unfold Users.get_by_telegram_id in rw (same_id t) refl
