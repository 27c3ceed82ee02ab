-- ===== src/Prelude/Tables.antt =====
-- Tables under updates, and columns without duplicates.
use aucnotif.Prelude.Tests.{if◌then◌else◌, Bool-cases}
use mathlib.Core.Path.{◌≡◌, refl, ap, ◌∙◌, sym}
use mathlib.Core.Logic.{◌≢◌, inl, inr}
use mathlib.Core.Bool.{Bool, true, false}
use mathlib.Core.Option.{Option, none, some}
use mathlib.Core.List.{List, [], ◌∷◌}
use aucnotif.Prelude.Lists.{select_one, update_where, All}

abbrev pub map_option {ℓ κ} : {A : Type ℓ} {B : Type κ} → (A → B) → Option A → Option B
map_option f none = none
map_option f (some a) = some (f a)

module _ {ℓ} {A : Type ℓ} (p : A → Bool) (f : A → A) where
  -- The row that an update is about is found again, updated.
  pub select_one-update_self :
      (xs : List A)
      → ((x : A) → p (f x) ≡ p x)
      → select_one p (update_where p f xs) ≡ map_option f (select_one p xs)
  select_one-update_self [] same = refl
  select_one-update_self (x ∷ xs) same = elim (Bool-cases (p x)) [
    | inl e ↦ rw e (rw (same x ∙ e))
    | inr e ↦ rw e (rw e (select_one-update_self xs same))
  ]

  -- A query that the update does not matter to finds the row that it found before.
  pub select_one-update_other :
      (q : A → Bool) (xs : List A)
      → ((x : A) → p x ≡ true → (q x ≡ false) × (q (f x) ≡ false))
      → select_one q (update_where p f xs) ≡ select_one q xs
  select_one-update_other q [] away = refl
  select_one-update_other q (x ∷ xs) away = elim (Bool-cases (p x)) [
    | inl e ↦ rw e (rw ((away x e).0, (away x e).1) (select_one-update_other q xs away))
    | inr e ↦ rw e (ap (λ r. if q x then some x else r) (select_one-update_other q xs away))
  ]

  -- A query that no update changes the answer of finds the same row, with the update if it was for it.
  pub select_one-update_where :
      (q : A → Bool) (xs : List A)
      → ((x : A) → q (f x) ≡ q x)
      → select_one q (update_where p f xs)
        ≡ map_option (λ x. if p x then f x else x) (select_one q xs)
  select_one-update_where q [] same = refl
  select_one-update_where q (x ∷ xs) same = elim (Bool-cases (q x)) [
    | inl e ↦ rw e (rw (updated x (p x) ∙ e) refl)
    | inr e ↦ rw e (rw (updated x (p x) ∙ e) (select_one-update_where q xs same))
  ]
    where
      updated : (y : A) (b : Bool) → q (if b then f y else y) ≡ q y
      updated y true = same y
      updated y false = refl

  pub All-update {κ} :
      (P : A → Type κ) (xs : List A)
      → ((x : A) → P x → p x ≡ true → P (f x))
      → All P xs
      → All P (update_where p f xs)
  All-update P [] keep h = tt
  All-update P (x ∷ xs) keep h = elim (Bool-cases (p x)) [
    | inl e ↦ rw e (keep x h.0 e, All-update P xs keep h.1)
    | inr e ↦ rw e (h.0, All-update P xs keep h.1)
  ]

module _ {ℓ κ} {A : Type ℓ} {K : Type κ} (key : A → K) where
  -- No two rows agree in the column.
  abbrev pub Unique : List A → Type (ℓ ⊔ κ)
  Unique [] = Unit
  Unique (x ∷ xs) = All (λ y. key y ≢ key x) xs × Unique xs

  All-ne-update :
      (k : K) (p : A → Bool) (f : A → A) (xs : List A)
      → ((x : A) → key (f x) ≡ key x)
      → All (λ y. key y ≢ k) xs
      → All (λ y. key y ≢ k) (update_where p f xs)
  All-ne-update k p f xs same h =
      All-update p f (λ y. key y ≢ k) xs (λ x ne _ e. ne (sym (same x) ∙ e)) h

  pub Unique-update :
      (p : A → Bool) (f : A → A) (xs : List A)
      → ((x : A) → key (f x) ≡ key x)
      → Unique xs
      → Unique (update_where p f xs)
  Unique-update p f [] same h = tt
  Unique-update p f (x ∷ xs) same h = elim (Bool-cases (p x)) [
    | inl e ↦
        rw e (rw (same x) (All-ne-update (key x) p f xs same h.0), Unique-update p f xs same h.1)
    | inr e ↦ rw e (All-ne-update (key x) p f xs same h.0, Unique-update p f xs same h.1)
  ]
