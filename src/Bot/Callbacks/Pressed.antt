-- ===== src/Bot/Callbacks/Pressed.antt =====
-- The texts of the buttons are read back as what they were made of.
use aucnotif.Prelude.{ℕ, ◌-◌, ◌≡◌, refl, ap, true, false, Option, some, [], ◌∷◌, ◌++◌, ◌==◌}
use aucnotif.Prelude.Int.{ℤ, pos}
use aucnotif.Prelude.Lists.{All}
use aucnotif.Prelude.Text.{Text, codes}
use aucnotif.Prelude.Decimal.{decimal, decimal_ℤ, is_digit}
use aucnotif.Schemas.Yahoo.Numbers.{parse_int-decimal}
use aucnotif.Database.{Database}
use aucnotif.Bot.Cards.{item_data, page_data}
use aucnotif.Bot.Replies.{Fsm, Handled}
use aucnotif.Bot.Callbacks.{at_colon, split_data, with_item}

abbrev pub NoColon : Text → Type 0
NoColon s = All (λ c. (c == b':') ≡ false) s

at_colon-append : (s t : Text) → NoColon s → at_colon (s ++ b':' ∷ t) ≡ (s, some t)
at_colon-append [] t h = refl
at_colon-append (c ∷ s) t h = rw h.0 (ap (λ p. (c ∷ p.0, p.1)) (at_colon-append s t h.1))

split_data-parts :
    (a b c : Text)
    → NoColon a
    → NoColon b
    → split_data (a ++ (codes ":" ++ (b ++ (codes ":" ++ c)))) ≡ a ∷ b ∷ c ∷ []
unfolding split_data
split_data-parts a b c ha hb =
    rw (at_colon-append a (b ++ b':' ∷ c) ha) (rw (at_colon-append b c hb) refl)

module _ (digit_of : ℕ → Option ℕ)
    (ascii : (c : ℕ) → is_digit c ≡ true → digit_of c ≡ some (c - 48))
    (handle : Text → ℤ → Fsm → Database → Handled) (state : Fsm) (db : Database) where
  pub with_item-item_data :
      (prefix external_id : Text) (page : ℕ)
      → NoColon prefix
      → NoColon external_id
      → with_item digit_of (item_data prefix external_id (pos page)) handle state db
        ≡ handle external_id (pos page) state db
  unfolding with_item item_data decimal_ℤ
  with_item-item_data prefix external_id page hp he =
      rw (split_data-parts prefix external_id (decimal page) hp he)
        (rw (parse_int-decimal digit_of ascii page) refl)

  pub with_item-page_data :
      (page : ℕ)
      → with_item digit_of (page_data (pos page)) handle state db
        ≡ handle (codes "page") (pos page) state db
  unfolding page_data item_data decimal_ℤ
  with_item-page_data page =
      with_item-item_data (codes "list") (codes "page") page (refl, (refl, (refl, (refl, tt))))
        (refl, (refl, (refl, (refl, tt))))
