-- ===== src/Watchlist/Inserts.antt =====
-- New rows of the three tables of a watchlist, as the `create` methods of app/repositories add them.
use aucnotif.Prelude.{
  ℕ, suc, ◌<◌, ◌≡◌, refl, ap, subst, ◌≢◌, false, Option, none, some, List, ◌∷◌, arith, ◌==◌, ==_iff,
  inl, inr, Bool-cases,
}
use aucnotif.Prelude.Lists.{All, All-imply}
use aucnotif.Prelude.Rows.{All-select_one, select_one-none, All-of_none}
use aucnotif.Prelude.Text.{Text, text_eq, text_eq_iff}
use aucnotif.Watchlist.Keys.{
  Keys, UserKey, AuctionKey, LinkKey, has_telegram, has_external, is_between, user_of, auction_of,
  link_of, linked, listed, WellFormed,
}

abbrev pub with_user : ℕ → Keys → Keys
with_user telegram_id k = record k {
  users = (k.next_user, telegram_id) ∷ k.users;
  next_user = suc k.next_user;
}

abbrev pub with_auction : Text → Keys → Keys
with_auction external_id k = record k {
  auctions = (k.next_auction, external_id) ∷ k.auctions;
  next_auction = suc k.next_auction;
}

abbrev pub with_link : ℕ → ℕ → Keys → Keys
with_link user_id auction_id k = record k {
  links = (k.next_link, (user_id, auction_id)) ∷ k.links;
  next_link = suc k.next_link;
}

-- A new id is above all others.
module _ {ℓ} {A : Type ℓ} (id : A → ℕ) where
  All-lt_suc : (n : ℕ) (xs : List A) → All (λ x. id x < n) xs → All (λ x. id x < suc n) xs
  All-lt_suc n xs h = All-imply (λ x. id x < n) (λ x. id x < suc n) xs (λ x e. omega arith) h

  All-ne : (n : ℕ) (xs : List A) → All (λ x. id x < n) xs → All (λ x. id x ≢ n) xs
  All-ne n xs h = All-imply (λ x. id x < n) (λ x. id x ≢ n) xs (λ x e q. omega arith) h

pub with_user-WellFormed :
    (telegram_id : ℕ) (k : Keys) → WellFormed k → WellFormed (with_user telegram_id k)
with_user-WellFormed telegram_id k w = record {
  unique_users = (All-ne (λ (u : UserKey). u.0) k.next_user k.users w.old_users, w.unique_users);
  unique_auctions = w.unique_auctions;
  unique_links = w.unique_links;
  unique_pairs = w.unique_pairs;
  old_users = (omega arith, All-lt_suc (λ (u : UserKey). u.0) k.next_user k.users w.old_users);
  old_auctions = w.old_auctions;
  old_links = w.old_links;
  old_link_users = All-lt_suc (λ (l : LinkKey). l.1.0) k.next_user k.links w.old_link_users;
  old_link_auctions = w.old_link_auctions;
}

pub with_auction-WellFormed :
    (external_id : Text) (k : Keys) → WellFormed k → WellFormed (with_auction external_id k)
with_auction-WellFormed external_id k w = record {
  unique_users = w.unique_users;
  unique_auctions = (
    All-ne (λ (a : AuctionKey). a.0) k.next_auction k.auctions w.old_auctions,
    w.unique_auctions,
  );
  unique_links = w.unique_links;
  unique_pairs = w.unique_pairs;
  old_users = w.old_users;
  old_auctions =
      (omega arith, All-lt_suc (λ (a : AuctionKey). a.0) k.next_auction k.auctions w.old_auctions);
  old_links = w.old_links;
  old_link_users = w.old_link_users;
  old_link_auctions =
      All-lt_suc (λ (l : LinkKey). l.1.1) k.next_auction k.links w.old_link_auctions;
}

not_between→ne : (u a : ℕ) (l : LinkKey) → is_between u a l ≡ false → l.1 ≢ (u, a)
not_between→ne u a l h e = ground (arith, ap (λ (p : ℕ × ℕ). p.0) e, ap (λ (p : ℕ × ℕ). p.1) e)

-- A link between a user and an auction that are there and not linked yet.
pub with_link-WellFormed :
    (u : UserKey) (a : AuctionKey) (telegram_id : ℕ) (external_id : Text) (k : Keys)
    → user_of telegram_id k ≡ some u
    → auction_of external_id k ≡ some a
    → link_of u.0 a.0 k ≡ none
    → WellFormed k
    → WellFormed (with_link u.0 a.0 k)
with_link-WellFormed u a telegram_id external_id k hu ha hl w = record {
  unique_users = w.unique_users;
  unique_auctions = w.unique_auctions;
  unique_links = (All-ne (λ (l : LinkKey). l.0) k.next_link k.links w.old_links, w.unique_links);
  unique_pairs = (
    All-imply (λ l. is_between u.0 a.0 l ≡ false) (λ (l : LinkKey). l.1 ≢ (u.0, a.0)) k.links
        (λ l e. not_between→ne u.0 a.0 l e) (All-of_none (is_between u.0 a.0) k.links hl),
    w.unique_pairs,
  );
  old_users = w.old_users;
  old_auctions = w.old_auctions;
  old_links = (omega arith, All-lt_suc (λ (l : LinkKey). l.0) k.next_link k.links w.old_links);
  old_link_users = (
    All-select_one (has_telegram telegram_id) (λ v. v.0 < k.next_user) k.users u w.old_users hu,
    w.old_link_users,
  );
  old_link_auctions = (
    All-select_one (has_external external_id) (λ b. b.0 < k.next_auction) k.auctions a
        w.old_auctions ha,
    w.old_link_auctions,
  );
}

-- A new user watches nothing.
pub listed-with_user :
    (telegram_id : ℕ) (k : Keys) (t : ℕ) (e : Text)
    → WellFormed k
    → user_of telegram_id k ≡ none
    → listed t e (with_user telegram_id k) ≡ listed t e k
listed-with_user telegram_id k t e w new = elim (Bool-cases (telegram_id == t)) [
  | inl same ↦
      let known : user_of t k ≡ none =
        subst (λ n. user_of n k ≡ none) ((==_iff telegram_id t).0 same) new in
      rw (same, known) (nothing (auction_of e k))
  | inr other ↦ rw other refl
]
  where
    no_link : (a : ℕ) → link_of k.next_user a k ≡ none
    no_link a = select_one-none (is_between k.next_user a) k.links (
        All-imply (λ (l : LinkKey). l.1.0 < k.next_user) (λ l. is_between k.next_user a l ≡ false)
          k.links (λ l h. ground arith) w.old_link_users)

    nothing : (a : Option AuctionKey) → linked (some (k.next_user, telegram_id)) a k.links ≡ false
    nothing none = refl
    nothing (some a) = rw (no_link a.0) refl

-- A new auction is watched by nobody.
pub listed-with_auction :
    (external_id : Text) (k : Keys) (t : ℕ) (e : Text)
    → WellFormed k
    → auction_of external_id k ≡ none
    → listed t e (with_auction external_id k) ≡ listed t e k
listed-with_auction external_id k t e w new = elim (Bool-cases (text_eq external_id e)) [
  | inl same ↦
      let known : auction_of e k ≡ none =
        subst (λ n. auction_of n k ≡ none) ((text_eq_iff external_id e).0 same) new in
      rw (same, known) (nothing (user_of t k))
  | inr other ↦ rw other refl
]
  where
    no_link : (u : ℕ) → link_of u k.next_auction k ≡ none
    no_link u = select_one-none (is_between u k.next_auction) k.links (
        All-imply (λ (l : LinkKey). l.1.1 < k.next_auction)
          (λ l. is_between u k.next_auction l ≡ false) k.links (λ l h. ground arith)
          w.old_link_auctions)

    nothing :
        (u : Option UserKey)
        → linked u (some (k.next_auction, external_id)) k.links ≡ linked u none k.links
    nothing none = refl
    nothing (some u) = rw (no_link u.0) refl
