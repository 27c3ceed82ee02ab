-- ===== src/Prelude/Rows.antt =====
-- Rows that a query finds, rows that are told apart by a column, and tables of which only some columns are kept.
use mathlib.Core.Path.{◌≡◌, refl, sym, ap, ◌∙◌, subst}
use mathlib.Core.Logic.{◌≢◌, inl, inr}
use mathlib.Core.Bool.{Bool, true, false}
use mathlib.Core.Option.{Option, none, some}
use mathlib.Core.List.{List, [], ◌∷◌, map}
use aucnotif.Prelude.Tests.{if◌then◌else◌, is_some, Bool-cases, some_inv, none≢some}
use aucnotif.Prelude.Lists.{
  select_one, update_where, delete_where, exists_where, All, All-delete_where, All-imply,
}
use aucnotif.Prelude.Tables.{map_option, Unique}

pub true≢false : ¬ (true ≡ false)
true≢false h = cc

module _ {ℓ} {A : Type ℓ} (p : A → Bool) where
  -- A row that is found satisfies the condition, and what all rows satisfy.
  pub select_one-holds : (xs : List A) (x : A) → select_one p xs ≡ some x → p x ≡ true
  select_one-holds [] x h = absurd (none≢some h)
  select_one-holds (y ∷ ys) x h = elim (Bool-cases (p y)) [
    | inl e ↦ subst (λ z. p z ≡ true) (some_inv (rw e at h)) e
    | inr e ↦ select_one-holds ys x (rw e at h)
  ]

  pub All-select_one {κ} :
      (P : A → Type κ) (xs : List A) (x : A) → All P xs → select_one p xs ≡ some x → P x
  All-select_one P [] x all h = absurd (none≢some h)
  All-select_one P (y ∷ ys) x all h = elim (Bool-cases (p y)) [
    | inl e ↦ subst P (some_inv (rw e at h)) all.0
    | inr e ↦ All-select_one P ys x all.1 (rw e at h)
  ]

  pub select_one-none : (xs : List A) → All (λ x. p x ≡ false) xs → select_one p xs ≡ none
  select_one-none [] h = refl
  select_one-none (x ∷ xs) h = rw h.0 (select_one-none xs h.1)

  pub All-of_none : (xs : List A) → select_one p xs ≡ none → All (λ x. p x ≡ false) xs
  All-of_none [] h = tt
  All-of_none (x ∷ xs) h = elim (Bool-cases (p x)) [
    | inl e ↦ absurd (none≢some (sym (rw e at h)))
    | inr e ↦ (e, All-of_none xs (rw e at h))
  ]

  pub All-of_kept : (xs : List A) → All (λ x. p x ≡ false) (delete_where p xs)
  All-of_kept [] = tt
  All-of_kept (x ∷ xs) = elim (Bool-cases (p x)) [
    | inl e ↦ rw e (All-of_kept xs)
    | inr e ↦ rw e (e, All-of_kept xs)
  ]

  -- Rows that are deleted make no difference to a query that does not take them.
  pub select_one-delete_where :
      (q : A → Bool) (xs : List A)
      → All (λ x. q x ≡ true → p x ≡ false) xs
      → select_one p (delete_where q xs) ≡ select_one p xs
  select_one-delete_where q [] h = refl
  select_one-delete_where q (x ∷ xs) h = elim (Bool-cases (q x)) [
    | inl e ↦ rw e (rw (h.0 e) (select_one-delete_where q xs h.1))
    | inr e ↦ rw e (ap (λ o. if p x then some x else o) (select_one-delete_where q xs h.1))
  ]

module _ {ℓ κ} {A : Type ℓ} {K : Type κ} (key : A → K) where
  -- Another row with the key of the row that was found is that row.
  pub Unique-select_one :
      (p : A → Bool) (xs : List A) (l : A)
      → Unique key xs
      → select_one p xs ≡ some l
      → All (λ x. key x ≡ key l → x ≡ l) xs
  Unique-select_one p [] l u h = tt
  Unique-select_one p (x ∷ xs) l u h = elim (Bool-cases (p x)) [
    | inl e ↦
        let same = some_inv (rw e at h) in
        (
          λ _. same,
          All-imply (λ y. key y ≢ key x) (λ y. key y ≡ key l → y ≡ l) xs
              (λ y ne k. absurd (ne (k ∙ ap key (sym same)))) u.0,
        )
    | inr e ↦
        let later = rw e at h in
        (
          λ k. absurd (All-select_one p (λ y. key y ≢ key x) xs l u.0 later (sym k)),
          Unique-select_one p xs l u.1 later,
        )
  ]

  -- Two queries that find rows with one key find one row.
  pub select_one-same :
      (p q : A → Bool) (xs : List A) (x y : A)
      → Unique key xs
      → select_one p xs ≡ some x
      → select_one q xs ≡ some y
      → key x ≡ key y
      → x ≡ y
  select_one-same p q xs x y u hx hy k =
      All-select_one p (λ z. key z ≡ key y → z ≡ y) xs x (Unique-select_one q xs y u hy) hx k

  pub Unique-delete_where :
      (q : A → Bool) (xs : List A) → Unique key xs → Unique key (delete_where q xs)
  Unique-delete_where q [] u = tt
  Unique-delete_where q (x ∷ xs) u = elim (Bool-cases (q x)) [
    | inl e ↦ rw e (Unique-delete_where q xs u.1)
    | inr e ↦ rw e (All-delete_where (λ y. key y ≢ key x) q xs u.0, Unique-delete_where q xs u.1)
  ]

module _ {ℓ κ} {A : Type ℓ} {B : Type κ} (f : A → B) where
  pub select_one-map :
      (p : B → Bool) (xs : List A)
      → select_one p (map f xs) ≡ map_option f (select_one (λ x. p (f x)) xs)
  select_one-map p [] = refl
  select_one-map p (x ∷ xs) = elim (Bool-cases (p (f x))) [
    | inl e ↦ rw e refl
    | inr e ↦ rw e (select_one-map p xs)
  ]

  pub map-delete_where :
      (p : B → Bool) (xs : List A)
      → map f (delete_where (λ x. p (f x)) xs) ≡ delete_where p (map f xs)
  map-delete_where p [] = refl
  map-delete_where p (x ∷ xs) = elim (Bool-cases (p (f x))) [
    | inl e ↦ rw e (map-delete_where p xs)
    | inr e ↦ rw e (ap (λ ys. f x ∷ ys) (map-delete_where p xs))
  ]

  -- An update of other columns is not seen.
  pub map-update_where :
      (p : A → Bool) (g : A → A) (xs : List A)
      → ((x : A) → f (g x) ≡ f x)
      → map f (update_where p g xs) ≡ map f xs
  map-update_where p g [] same = refl
  map-update_where p g (x ∷ xs) same = elim (Bool-cases (p x)) [
    | inl e ↦ rw e (
        ap (λ b. b ∷ map f (update_where p g xs)) (same x)
        ∙ ap (λ ys. f x ∷ ys) (map-update_where p g xs same))
    | inr e ↦ rw e (ap (λ ys. f x ∷ ys) (map-update_where p g xs same))
  ]

  pub is_some-map_option : (o : Option A) → is_some (map_option f o) ≡ is_some o
  is_some-map_option none = refl
  is_some-map_option (some a) = refl

  -- What is kept of the other rows when rows are deleted.
  pub All-map_kept {μ} :
      (P : B → Type μ) (p : A → Bool) (xs : List A)
      → All P (map f xs)
      → All P (map f (delete_where p xs))
  All-map_kept P p [] h = tt
  All-map_kept P p (x ∷ xs) h = elim (Bool-cases (p x)) [
    | inl e ↦ rw e (All-map_kept P p xs h.1)
    | inr e ↦ rw e (h.0, All-map_kept P p xs h.1)
  ]

  pub Unique-map_kept {μ} :
      {K : Type μ} (key : B → K) (p : A → Bool) (xs : List A)
      → Unique key (map f xs)
      → Unique key (map f (delete_where p xs))
  Unique-map_kept key p [] h = tt
  Unique-map_kept key p (x ∷ xs) h = elim (Bool-cases (p x)) [
    | inl e ↦ rw e (Unique-map_kept key p xs h.1)
    | inr e ↦ rw e (All-map_kept (λ y. key y ≢ key (f x)) p xs h.0, Unique-map_kept key p xs h.1)
  ]

  -- A query finds a row among those that are kept only if it finds one among all.
  pub select_one-kept :
      (q : B → Bool) (p : A → Bool) (xs : List A)
      → is_some (select_one q (map f (delete_where p xs))) ≡ true
      → is_some (select_one q (map f xs)) ≡ true
  select_one-kept q p [] h = absurd (true≢false (sym h))
  select_one-kept q p (x ∷ xs) h = elim (Bool-cases (q (f x))) [
    | inl e ↦ rw e refl
    | inr e ↦ elim (Bool-cases (p x)) [
      | inl d ↦ rw e (select_one-kept q p xs (rw d at h))
      | inr d ↦ rw e (select_one-kept q p xs (rw e at (rw d at h)))
    ]
  ]

module _ {ℓ} {A : Type ℓ} (p q : A → Bool) where
  -- A row that is found and not deleted is found again.
  pub select_one-not_deleted :
      (xs : List A) (x : A)
      → select_one p xs ≡ some x
      → q x ≡ false
      → select_one p (delete_where q xs) ≡ some x
  select_one-not_deleted [] x h k = absurd (none≢some h)
  select_one-not_deleted (y ∷ ys) x h k = elim (Bool-cases (p y)) [
    | inl e ↦ let same = some_inv (rw e at h) in rw (ap q same ∙ k) (rw e (ap some same))
    | inr e ↦ elim (Bool-cases (q y)) [
      | inl d ↦ rw d (select_one-not_deleted ys x (rw e at h) k)
      | inr d ↦ rw d (rw e (select_one-not_deleted ys x (rw e at h) k))
    ]
  ]

  -- A row that is found shows that there is one.
  pub exists_where-found :
      (xs : List A) (x : A) → select_one p xs ≡ some x → q x ≡ true → exists_where q xs ≡ true
  exists_where-found [] x h k = absurd (none≢some h)
  exists_where-found (y ∷ ys) x h k = elim (Bool-cases (q y)) [
    | inl d ↦ rw d refl
    | inr d ↦ elim (Bool-cases (p y)) [
      | inl e ↦ absurd (true≢false (sym k ∙ ap q (sym (some_inv (rw e at h))) ∙ d))
      | inr e ↦ rw d (exists_where-found ys x (rw e at h) k)
    ]
  ]

pub exists_where-none {ℓ} :
    {A : Type ℓ} (p : A → Bool) (xs : List A)
    → All (λ x. p x ≡ false) xs
    → exists_where p xs ≡ false
exists_where-none p [] h = refl
exists_where-none p (x ∷ xs) h = rw h.0 (exists_where-none p xs h.1)
