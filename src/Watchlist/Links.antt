-- ===== src/Watchlist/Links.antt =====
-- What app/services/auction_service.py does for a known user and a known auction, as a change of the watchlist.
use aucnotif.Prelude.{
  ℕ, ◌≡◌, refl, sym, ap, ◌∙◌, subst, Bool, true, false, not, ◌&&◌, none, some, is_some,
  if◌then◌else◌, inl, inr, Bool-cases, Option-cases,
}
use aucnotif.Prelude.Tables.{map_option}
use aucnotif.Prelude.Rows.{select_one-holds, is_some-map_option}
use aucnotif.Prelude.Text.{Text, text_eq, text_eq_iff}
use aucnotif.Times.{Instant}
use aucnotif.Models.{User, Auction}
use aucnotif.Database.{Database}
use aucnotif.Repositories.Users
use aucnotif.Repositories.Auctions
use aucnotif.Repositories.UserAuctions
use aucnotif.Services.Auctions.{AddOutcome, watch, create_link}
use aucnotif.Services.Auctions.Watched.{watch-linked, watch-new, watch-closed}
use aucnotif.Watchlist.{Watchlist, add, insert, is_entry, Tells}
use aucnotif.Watchlist.Keys.{
  Keys, keys, user_key, auction_key, link_key, listed, WellFormed, user_of-keys, auction_of-keys,
  link_of-keys,
}
use aucnotif.Watchlist.Inserts.{with_link, with_link-WellFormed}
use aucnotif.Watchlist.Entries.{entry_inv}
use aucnotif.Watchlist.Deletes.{listed-with_link}
use aucnotif.Watchlist.Rows.{keys-create_link, keys-resume}

-- Keys that keep the constraints and whose watchlist is `w`.
abbrev pub Shows : Keys → Watchlist → Type 0
Shows k w = WellFormed k × ((t : ℕ) (e : Text) → listed t e k ≡ w t e)

module _ (telegram_id : ℕ) (external_id : Text) (w : Watchlist) where
  Shows-create_link :
      (now : Instant) (user : User) (auction : Auction) (db : Database)
      → Users.get_by_telegram_id telegram_id db ≡ some user
      → Auctions.get_by_external_id external_id db ≡ some auction
      → UserAuctions.get user.id auction.id db ≡ none
      → Shows (keys db) w
      → Shows (with_link user.id auction.id (keys db)) (insert telegram_id external_id w)
  Shows-create_link now user auction db hu ha hl h =
      let ku = user_of-keys telegram_id db ∙ ap (map_option user_key) hu in
      let ka = auction_of-keys external_id db ∙ ap (map_option auction_key) ha in
      (
        with_link-WellFormed (user_key user) (auction_key auction) telegram_id external_id (keys db)
            ku ka (link_of-keys user.id auction.id db ∙ ap (map_option _) hl) h.0,
        λ t e.
            listed-with_link (keys db) h.0 telegram_id external_id (user_key user)
              (auction_key auction) ku ka t e
            ∙ ap (λ b. if is_entry telegram_id external_id t e then true else b) (h.1 t e),
      )

  create_link-keys :
      (now : Instant) (user : User) (auction : Auction) (db : Database)
      → keys (create_link now user auction db).1 ≡ with_link user.id auction.id (keys db)
  unfolding create_link
  create_link-keys now user auction db =
      elim (Bool-cases (not auction.monitoring_active && not auction.is_closed)) [
        | inl e ↦ rw e (
            keys-resume auction.id now (UserAuctions.create user.id auction.id now db).1
            ∙ keys-create_link user.id auction.id now db)
        | inr e ↦ rw e (keys-create_link user.id auction.id now db)
      ]

  -- The outcome of a new link is the auction, with its monitoring resumed or not.
  create_link-add :
      (now : Instant) (user : User) (auction : Auction) (db : Database) (v : Watchlist)
      → auction.is_closed ≡ false
      → add (create_link now user auction db).0 telegram_id v
        ≡ insert telegram_id auction.external_id v
  unfolding create_link
  create_link-add now user auction db v opened =
      elim (Bool-cases (not auction.monitoring_active && not auction.is_closed)) [
        | inl e ↦ rw e (rw opened refl)
        | inr e ↦ rw e (rw opened refl)
      ]

  known_external :
      (auction : Auction) (db : Database)
      → Auctions.get_by_external_id external_id db ≡ some auction
      → external_id ≡ auction.external_id
  unfolding Auctions.get_by_external_id
  known_external auction db ha = sym (
      (text_eq_iff auction.external_id external_id).0
        (select_one-holds (λ a. text_eq a.external_id external_id) db.auctions auction ha))

  -- Adding what is listed already.
  Shows-listed :
      (k : Keys)
      → listed telegram_id external_id k ≡ true
      → Shows k w
      → Shows k (insert telegram_id external_id w)
  Shows-listed k here h = (h.0, entries)
    where
      entries : (t : ℕ) (e : Text) → listed t e k ≡ insert telegram_id external_id w t e
      entries t e = elim (Bool-cases (is_entry telegram_id external_id t e)) [
        | inl same ↦
            let (same_t, same_e) = entry_inv telegram_id t external_id e same in
            rw (same, same_t, same_e) here
        | inr other ↦ rw other (h.1 t e)
      ]

  unfoldable pub Outcome : AddOutcome × Database → Type 0
  Outcome r = Shows (keys r.1) (add r.0 telegram_id w) × Tells r.0 telegram_id w

  create_link-Tells :
      (now : Instant) (user : User) (auction : Auction) (db : Database)
      → auction.is_closed ≡ false
      → w telegram_id auction.external_id ≡ false
      → Tells (create_link now user auction db).0 telegram_id w
  unfolding create_link
  create_link-Tells now user auction db opened new =
      elim (Bool-cases (not auction.monitoring_active && not auction.is_closed)) [
        | inl e ↦ rw e (rw (opened, new) refl)
        | inr e ↦ rw e (rw (opened, new) refl)
      ]

  -- Whether the entry is in the watchlist, by the link that the query finds.
  told :
      (user : User) (auction : Auction) (db : Database) (b : Bool)
      → Users.get_by_telegram_id telegram_id db ≡ some user
      → Auctions.get_by_external_id external_id db ≡ some auction
      → is_some (UserAuctions.get user.id auction.id db) ≡ b
      → Shows (keys db) w
      → (listed telegram_id external_id (keys db) ≡ b) × (w telegram_id auction.external_id ≡ b)
  told user auction db b hu ha hl h =
      let here : listed telegram_id external_id (keys db) ≡ b =
        rw (user_of-keys telegram_id db, hu, auction_of-keys external_id db, ha)
          (ap is_some (link_of-keys user.id auction.id db)
            ∙ is_some-map_option link_key (UserAuctions.get user.id auction.id db)
            ∙ hl) in
      (
        here,
        ap (w telegram_id) (sym (known_external auction db ha))
            ∙ sym (h.1 telegram_id external_id)
            ∙ here,
      )

  pub Outcome-watch :
      (now : Instant) (user : User) (auction : Auction) (db : Database)
      → Users.get_by_telegram_id telegram_id db ≡ some user
      → Auctions.get_by_external_id external_id db ≡ some auction
      → Shows (keys db) w
      → Outcome (watch now user auction db)
  unfolding Outcome
  Outcome-watch now user auction db hu ha h = elim (Bool-cases auction.is_closed) [
    | inl c ↦ subst Outcome (sym (watch-closed now user auction db c)) (rw c (h, refl))
    | inr c ↦ elim (Option-cases (UserAuctions.get user.id auction.id db)) [
      | inl e ↦ subst Outcome (sym (watch-new now user auction db c e)) (
        subst (λ v. Shows (keys (create_link now user auction db).1) v)
            (ap (λ x. insert telegram_id x w) (known_external auction db ha)
              ∙ sym (create_link-add now user auction db w c))
            (subst (λ k. Shows k (insert telegram_id external_id w))
              (sym (create_link-keys now user auction db))
              (Shows-create_link now user auction db hu ha e h)),
        create_link-Tells now user auction db c
            (told user auction db false hu ha (ap is_some e) h).1,
      )
      | inr (l, e) ↦
          let (here, there) = told user auction db true hu ha (ap is_some e) h in
          subst Outcome (sym (watch-linked now user auction db c (ap is_some e))) (
            rw c (
              subst (λ x. Shows (keys db) (insert telegram_id x w)) (known_external auction db ha)
                  (Shows-listed (keys db) here h),
              sym there,
            ))
    ]
  ]
