-- ===== src/Watchlist/Entries.antt =====
-- How the watchlist changes when the links between one user and one auction change.
use aucnotif.Prelude.{
  ℕ, ◌≡◌, refl, sym, ◌∙◌, subst, Bool, true, false, ◌&&◌, &&_iff, some, List, is_some, ◌==◌, ==_iff,
  if◌then◌else◌, inl, inr, Bool-cases, Option-cases,
}
use aucnotif.Prelude.Lists.{select_one}
use aucnotif.Prelude.Rows.{true≢false}
use aucnotif.Prelude.Text.{Text, text_eq, text_eq_iff}
use aucnotif.Watchlist.{is_entry}
use aucnotif.Watchlist.Keys.{
  Keys, UserKey, AuctionKey, LinkKey, is_between, user_of, auction_of, linked, listed, WellFormed,
  same_telegram, same_external,
}

-- The entry for which two rows are found that a link is between.
pub entry_between :
    (k : Keys) (telegram_id t : ℕ) (external_id e : Text) (u v : UserKey) (a b : AuctionKey)
    → WellFormed k
    → user_of telegram_id k ≡ some u
    → auction_of external_id k ≡ some a
    → user_of t k ≡ some v
    → auction_of e k ≡ some b
    → u.0 ≡ v.0
    → a.0 ≡ b.0
    → is_entry telegram_id external_id t e ≡ true
entry_between k telegram_id t external_id e u v a b w hu ha hv hb same_u same_a =
    (&&_iff (t == telegram_id) (text_eq e external_id) (==_iff t telegram_id)
        (text_eq_iff e external_id)).1
      (
        sym (same_telegram k telegram_id t u v w hu hv same_u),
        sym (same_external k external_id e a b w ha hb same_a),
      )

pub entry_inv :
    (telegram_id t : ℕ) (external_id e : Text)
    → is_entry telegram_id external_id t e ≡ true
    → (t ≡ telegram_id) × (e ≡ external_id)
entry_inv telegram_id t external_id e h =
    (&&_iff (t == telegram_id) (text_eq e external_id) (==_iff t telegram_id)
        (text_eq_iff e external_id)).0
      h

abbrev present : ℕ → ℕ → List LinkKey → Bool
present u a links = is_some (select_one (is_between u a) links)

module _ (k : Keys) (w : WellFormed k) (telegram_id : ℕ) (external_id : Text) (u : UserKey)
    (a : AuctionKey) (hu : user_of telegram_id k ≡ some u) (ha : auction_of external_id k ≡ some a)
    (b : Bool) (links : List LinkKey) (here : present u.0 a.0 links ≡ b)
    (elsewhere : (v c : ℕ)
      → (u.0 == v && a.0 == c) ≡ false
      → present v c links ≡ present v c k.links) where
  other_entry :
      (t : ℕ) (e : Text) (v : UserKey) (c : AuctionKey)
      → user_of t k ≡ some v
      → auction_of e k ≡ some c
      → is_entry telegram_id external_id t e ≡ false
      → (u.0 == v.0 && a.0 == c.0) ≡ false
  other_entry t e v c hv hc apart = elim (Bool-cases (u.0 == v.0 && a.0 == c.0)) [
    | inl same ↦
        let (same_u, same_a) =
          (&&_iff (u.0 == v.0) (a.0 == c.0) (==_iff u.0 v.0) (==_iff a.0 c.0)).0 same in
        absurd (
          true≢false (
            sym (entry_between k telegram_id t external_id e u v a c w hu ha hv hc same_u same_a)
            ∙ apart))
    | inr different ↦ different
  ]

  -- The entry of that user and that auction becomes `b`, and all others stay.
  pub change_entry :
      (t : ℕ) (e : Text)
      → linked (user_of t k) (auction_of e k) links
        ≡ (if is_entry telegram_id external_id t e then b else listed t e k)
  change_entry t e = elim (Bool-cases (is_entry telegram_id external_id t e)) [
    | inl same ↦
        let (same_t, same_e) = entry_inv telegram_id t external_id e same in
        rw
          (
            same,
            subst (λ n. user_of n k ≡ some u) (sym same_t) hu,
            subst (λ n. auction_of n k ≡ some a) (sym same_e) ha,
          )
          here
    | inr apart ↦ elim (Option-cases (user_of t k)) [
      | inl f ↦ rw (apart, f) refl
      | inr (v, f) ↦ elim (Option-cases (auction_of e k)) [
        | inl g ↦ rw (apart, f, g) refl
        | inr (c, g) ↦ rw (apart, f, g) (elsewhere v.0 c.0 (other_entry t e v c f g apart))
      ]
    ]
  ]
