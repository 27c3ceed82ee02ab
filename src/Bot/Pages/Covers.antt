-- ===== src/Bot/Pages/Covers.antt =====
-- The pages of a list hold every item once, in order.
use aucnotif.Prelude.{
  ℕ, zero, suc, ◌+◌, ◌-◌, ◌*◌, ◌≤◌, ◌≡◌, refl, sym, ap, ◌∙◌, List, [], ◌∷◌, ◌++◌, arith,
}
use aucnotif.Prelude.Lists.{length, take, drop}
use aucnotif.Bot.Pages.{total_pages, page_items, page_size}

zero_add : (n : ℕ) → n ≡ 0 + n
zero_add n = omega arith

pred : (n : ℕ) → suc n - 1 ≡ n
pred n = omega arith

suc_add : (m n : ℕ) → suc (m + n) ≡ suc m + n
suc_add m n = omega arith

enough : (n : ℕ) → n ≤ total_pages n * page_size
unfolding total_pages
enough n = omega arith

module _ {ℓ} {A : Type ℓ} where
  -- What the pages from `page` on show, one page after the other.
  abbrev pub shown : ℕ → ℕ → List A → List A
  shown zero page items = []
  shown (suc count) page items = page_items page items ++ shown count (suc page) items

  take-length : (n : ℕ) (xs : List A) → length xs ≤ n → take n xs ≡ xs
  take-length zero [] h = refl
  take-length zero (x ∷ xs) h = absurd (omega arith)
  take-length (suc n) [] h = refl
  take-length (suc n) (x ∷ xs) h = ap (λ ys. x ∷ ys) (take-length n xs (omega arith))

  take-nil : (n : ℕ) → Path (List A) (take n []) []
  take-nil zero = refl
  take-nil (suc n) = refl

  drop-nil : (n : ℕ) → Path (List A) (drop n []) []
  drop-nil zero = refl
  drop-nil (suc n) = refl

  take-add : (m n : ℕ) (xs : List A) → take m xs ++ take n (drop m xs) ≡ take (m + n) xs
  take-add zero n xs = ap (λ k. take k xs) (zero_add n)
  take-add (suc m) n [] = take-nil n ∙ sym (take-nil (suc m + n))
  take-add (suc m) n (x ∷ xs) =
      ap (λ ys. x ∷ ys) (take-add m n xs) ∙ ap (λ k. take k (x ∷ xs)) (suc_add m n)

  drop-add : (m n : ℕ) (xs : List A) → drop n (drop m xs) ≡ drop (m + n) xs
  drop-add zero n xs = ap (λ k. drop k xs) (zero_add n)
  drop-add (suc m) n [] = drop-nil n ∙ sym (drop-nil (suc m + n))
  drop-add (suc m) n (x ∷ xs) = drop-add m n xs ∙ ap (λ k. drop k (x ∷ xs)) (suc_add m n)

  take-size : (n : ℕ) (xs : List A) → length (take n xs) ≤ n
  take-size zero xs = omega arith
  take-size (suc n) [] = omega arith
  take-size (suc n) (x ∷ xs) = omega (arith, take-size n xs)

  shown_lem :
      (count page : ℕ) (items : List A)
      → shown count (suc page) items ≡ take (count * page_size) (drop (page * page_size) items)
  unfolding page_items
  shown_lem zero page items = refl
  shown_lem (suc count) page items =
      let skipped = drop (page * page_size) items in
      ap (λ p. take page_size (drop (p * page_size) items) ++ shown count (suc (suc page)) items)
        (pred page)
      ∙ ap (λ ys. take page_size skipped ++ ys)
          (shown_lem count (suc page) items
            ∙ ap (take (count * page_size)) (
                ap (λ n. drop n items) (more page)
                ∙ sym (drop-add (page * page_size) page_size items)))
      ∙ take-add page_size (count * page_size) skipped
      ∙ ap (λ n. take n skipped) (add count)
    where
      more : (n : ℕ) → suc n * page_size ≡ n * page_size + page_size
      more n = omega arith

      add : (n : ℕ) → page_size + n * page_size ≡ suc n * page_size
      add n = omega arith

  -- The pages from the first to the last hold, one page after the other, all items in their order, and no page
  -- holds more than nine.
  pub pages_cover :
      (page : ℕ) (items : List A)
      → (shown (total_pages (length items)) 1 items ≡ items) × (length (page_items page items) ≤ 9)
  pages_cover page items = (
    shown_lem (total_pages (length items)) 0 items
        ∙ take-length (total_pages (length items) * page_size) items (enough (length items)),
    unfold page_items in take-size page_size (drop ((page - 1) * page_size) items),
  )
