-- ===== src/Watchlist/Deletes.antt =====
-- A link made and deleted, as app/repositories/user_auctions.py does it.
use aucnotif.Prelude.{
  ℕ, ◌≡◌, refl, sym, ap, ◌∙◌, ◌↔◌, Bool, true, false, ◌&&◌, &&_iff, none, some, is_some, ◌==◌,
  ==_iff, if◌then◌else◌, inl, inr, Bool-cases,
}
use aucnotif.Prelude.Lists.{select_one, delete_where, All-imply, All-×, All-delete_where}
use aucnotif.Prelude.Rows.{
  select_one-holds, select_one-none, select_one-delete_where, Unique-select_one,
  Unique-delete_where, true≢false, All-of_kept,
}
use aucnotif.Prelude.Text.{Text}
use aucnotif.Watchlist.{is_entry}
use aucnotif.Watchlist.Keys.{
  Keys, UserKey, AuctionKey, LinkKey, is_between, user_of, auction_of, link_of, listed, WellFormed,
}
use aucnotif.Watchlist.Entries.{change_entry}
use aucnotif.Watchlist.Inserts.{with_link}

abbrev pub has_id : ℕ → LinkKey → Bool
has_id id l = l.0 == id

abbrev pub without_link : ℕ → Keys → Keys
without_link id k = record k { links = delete_where (has_id id) k.links }

pub without_link-WellFormed : (id : ℕ) (k : Keys) → WellFormed k → WellFormed (without_link id k)
without_link-WellFormed id k w = record {
  unique_users = w.unique_users;
  unique_auctions = w.unique_auctions;
  unique_links = Unique-delete_where (λ (l : LinkKey). l.0) (has_id id) k.links w.unique_links;
  unique_pairs = Unique-delete_where (λ (l : LinkKey). l.1) (has_id id) k.links w.unique_pairs;
  old_users = w.old_users;
  old_auctions = w.old_auctions;
  old_links = All-delete_where _ (has_id id) k.links w.old_links;
  old_link_users = All-delete_where _ (has_id id) k.links w.old_link_users;
  old_link_auctions = All-delete_where _ (has_id id) k.links w.old_link_auctions;
}

between_iff : (u a : ℕ) (l : LinkKey) → (is_between u a l ≡ true) ↔ ((l.1.0 ≡ u) × (l.1.1 ≡ a))
between_iff u a l = &&_iff (l.1.0 == u) (l.1.1 == a) (==_iff l.1.0 u) (==_iff l.1.1 a)

pair_of : (u a : ℕ) (l : LinkKey) → is_between u a l ≡ true → l.1 ≡ (u, a)
pair_of u a l h = let (p, q) = (between_iff u a l).0 h in cc

module _ (k : Keys) (w : WellFormed k) (telegram_id : ℕ) (external_id : Text) (u : UserKey)
    (a : AuctionKey) (hu : user_of telegram_id k ≡ some u)
    (ha : auction_of external_id k ≡ some a) where
  pub listed-with_link :
      (t : ℕ) (e : Text)
      → listed t e (with_link u.0 a.0 k)
        ≡ (if is_entry telegram_id external_id t e then true else listed t e k)
  listed-with_link t e =
      change_entry k w telegram_id external_id u a hu ha true (with_link u.0 a.0 k).links
        (rw ((==_iff u.0 u.0).1 refl, (==_iff a.0 a.0).1 refl) refl) (λ v c h. rw h refl) t e

  module _ (l : LinkKey) (hl : link_of u.0 a.0 k ≡ some l) where
    pair : l.1 ≡ (u.0, a.0)
    pair = pair_of u.0 a.0 l (select_one-holds (is_between u.0 a.0) k.links l hl)

    -- Only the link that was found is between the two.
    gone : select_one (is_between u.0 a.0) (without_link l.0 k).links ≡ none
    gone = select_one-none (is_between u.0 a.0) (without_link l.0 k).links (
        All-imply (λ (x : LinkKey). (x.1 ≡ l.1 → x ≡ l) × (has_id l.0 x ≡ false))
          (λ x. is_between u.0 a.0 x ≡ false) (without_link l.0 k).links
          (λ x h. not_between x h.0 h.1)
          (All-× (λ (x : LinkKey). x.1 ≡ l.1 → x ≡ l) (λ x. has_id l.0 x ≡ false)
            (without_link l.0 k).links
            (All-delete_where (λ (x : LinkKey). x.1 ≡ l.1 → x ≡ l) (has_id l.0) k.links
              (Unique-select_one (λ (x : LinkKey). x.1) (is_between u.0 a.0) k.links l
                w.unique_pairs hl))
            (All-of_kept (has_id l.0) k.links)))
      where
        not_between :
            (x : LinkKey)
            → (x.1 ≡ l.1 → x ≡ l)
            → has_id l.0 x ≡ false
            → is_between u.0 a.0 x ≡ false
        not_between x only kept = elim (Bool-cases (is_between u.0 a.0 x)) [
          | inr e ↦ e
          | inl e ↦ absurd (
              true≢false (
                sym (
                  (==_iff x.0 l.0).1
                    (ap (λ (y : LinkKey). y.0) (only (pair_of u.0 a.0 x e ∙ sym pair))))
                ∙ kept))
        ]

    stays :
        (v c : ℕ)
        → (u.0 == v && a.0 == c) ≡ false
        → select_one (is_between v c) (without_link l.0 k).links
          ≡ select_one (is_between v c) k.links
    stays v c other = select_one-delete_where (is_between v c) (has_id l.0) k.links (
        All-imply (λ (x : LinkKey). x.0 ≡ l.0 → x ≡ l)
          (λ x. has_id l.0 x ≡ true → is_between v c x ≡ false) k.links
          (λ x only h.
            ap (is_between v c) (only ((==_iff x.0 l.0).0 h))
            ∙ ap (λ (p : ℕ × ℕ). p.0 == v && p.1 == c) pair
            ∙ other)
          (Unique-select_one (λ (x : LinkKey). x.0) (is_between u.0 a.0) k.links l w.unique_links
            hl))

    pub listed-without_link :
        (t : ℕ) (e : Text)
        → listed t e (without_link l.0 k)
          ≡ (if is_entry telegram_id external_id t e then false else listed t e k)
    listed-without_link t e =
        change_entry k w telegram_id external_id u a hu ha false (without_link l.0 k).links
          (ap is_some gone) (λ v c h. ap is_some (stays v c h)) t e
