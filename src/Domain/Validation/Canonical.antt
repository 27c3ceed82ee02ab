-- ===== src/Domain/Validation/Canonical.antt =====
-- What the two functions on links promise each other.
use aucnotif.Prelude.{
  ℕ, ◌≤◌, ◌≡◌, refl, sym, subst, true, false, Option, none, some, [], ◌∷◌, ◌++◌, arith, inl, inr,
  Bool-cases, ltb, some_inv, none≢some,
}
use aucnotif.Prelude.Lists.{All, length}
use aucnotif.Prelude.Text.{Text, codes, is_space, NoSpace, strip, strip_lem}
use aucnotif.Domain.Validation.{
  is_alnum, span_alnum, finish, match_url, canonical_prefix, validate_auction_url,
  extract_auction_id, expect, optional, is_tail, ◌>>=◌,
}

-- One letter or digit, or more.
abbrev pub IsId : Text → Type 0
IsId [] = ⊥
IsId (c ∷ s) = All (λ d. is_alnum d ≡ true) (c ∷ s)

alnum-not_space : (c : ℕ) → is_alnum c ≡ true → is_space c ≡ false
alnum-not_space c h = ground arith

alnum-NoSpace : (s : Text) → All (λ d. is_alnum d ≡ true) s → NoSpace s
alnum-NoSpace [] h = tt
alnum-NoSpace (c ∷ s) h = (alnum-not_space c h.0, alnum-NoSpace s h.1)

span-All : (s : Text) → All (λ d. is_alnum d ≡ true) s → span_alnum s ≡ (s, [])
span-All [] h = refl
span-All (c ∷ s) h = rw h.0 (rw (span-All s h.1))

span-alnum : (s : Text) → All (λ d. is_alnum d ≡ true) (span_alnum s).0
span-alnum [] = tt
span-alnum (c ∷ s) = elim (Bool-cases (is_alnum c)) [
  | inl h ↦ rw h (h, span-alnum s)
  | inr h ↦ rw h tt
]

finish-IsId :
    (group rest id : Text)
    → All (λ d. is_alnum d ≡ true) group
    → finish (group, rest) ≡ some id
    → IsId id
finish-IsId [] rest id all h = cc
finish-IsId (c ∷ s) rest id all h = elim (Bool-cases (is_tail (optional (codes "/") rest))) [
  | inl e ↦ subst IsId (some_inv (rw e at h)) all
  | inr e ↦ absurd (none≢some (rw e at h))
]

not_long : (n : ℕ) → n ≤ 2048 → ltb 2048 n ≡ false
not_long n h = ground arith

bind_inv :
    {A B : Type 0} (m : Option A) (f : A → Option B) {b : B}
    → (m >>= f) ≡ some b
    → (a : A) × ((m ≡ some a) × (f a ≡ some b))
bind_inv none f h = cc
bind_inv (some a) f h = (a, (refl, h))

match_url-IsId : (url id : Text) → match_url url ≡ some id → IsId id
unfolding match_url
match_url-IsId url id h =
    let (scheme, (_, h₁)) = bind_inv (expect (codes "http") url) _ h in
    let (host, (_, h₂)) = bind_inv (expect (codes "://") (optional (codes "s") scheme)) _ h₁ in
    let (path, (_, h₃)) =
      bind_inv
        (expect (codes "auctions.yahoo.co.jp/jp/auction/")
          (optional (codes "page.") (optional (codes "www.") host)))
        _ h₂ in
    finish-IsId (span_alnum path).0 (span_alnum path).1 id (span-alnum path) h₃

match-canonical : (id : Text) → IsId id → match_url (canonical_prefix ++ id) ≡ some id
unfolding match_url
match-canonical [] h = elim h [ ]
match-canonical (c ∷ s) h = rw (span-All (c ∷ s) h)

NoSpace-canonical : (id : Text) → IsId id → NoSpace (canonical_prefix ++ id)
NoSpace-canonical [] h = elim h [ ]
NoSpace-canonical (c ∷ s) h = ground (arith, alnum-NoSpace (c ∷ s) h)

extract-canonical : (id : Text) → IsId id → extract_auction_id (canonical_prefix ++ id) ≡ some id
unfolding extract_auction_id
extract-canonical id valid =
    rw (strip_lem (canonical_prefix ++ id) (NoSpace-canonical id valid)) (match-canonical id valid)

-- The branch that `validate_auction_url` takes on an accepted link.
validate_inv :
    (url canonical : Text)
    → validate_auction_url url ≡ some canonical
    → (id : Text) × ((extract_auction_id url ≡ some id)
        × (some (canonical_prefix ++ id) ≡ some canonical))
unfolding validate_auction_url extract_auction_id
validate_inv url canonical h = elim (Bool-cases (ltb 2048 (length (strip url)))) [
  | inl long ↦ absurd (none≢some (rw long at h))
  | inr short ↦ bind_inv (match_url (strip url)) _ (rw short at h)
]

-- A link that is accepted has an id, the id is the one that `extract_auction_id` finds in the link itself
-- and again in its canonical form, it is not empty and has letters and digits alone, and the canonical
-- form is the fixed prefix before it.
pub validated-IsId :
    (url canonical : Text)
    → validate_auction_url url ≡ some canonical
    → (id : Text) × (extract_auction_id url ≡ some id)
      × (canonical ≡ canonical_prefix ++ id)
      × (extract_auction_id canonical ≡ some id)
      × IsId id
validated-IsId url canonical h =
    let (id, (found, same)) = validate_inv url canonical h in
    let valid : IsId id = unfold extract_auction_id in match_url-IsId (strip url) id found in
    let form : canonical_prefix ++ id ≡ canonical = some_inv same in
    (
      id,
      found,
      sym form,
      subst (λ c. extract_auction_id c ≡ some id) form (extract-canonical id valid),
      valid,
    )

canonical_accepted :
    (id : Text)
    → IsId id
    → length (canonical_prefix ++ id) ≤ 2048
    → validate_auction_url (canonical_prefix ++ id) ≡ some (canonical_prefix ++ id)
unfolding validate_auction_url
canonical_accepted id valid short =
    rw (strip_lem (canonical_prefix ++ id) (NoSpace-canonical id valid))
      (rw (not_long (length (canonical_prefix ++ id)) short) (rw (match-canonical id valid)))

-- The canonical form of an accepted link is accepted and is its own canonical form, if it is short
-- enough itself.
pub validate_idempotent :
    (url canonical : Text)
    → validate_auction_url url ≡ some canonical
    → length canonical ≤ 2048
    → validate_auction_url canonical ≡ some canonical
validate_idempotent url canonical h short =
    let (id, found, same, again, valid) = validated-IsId url canonical h in
    subst (λ c. validate_auction_url c ≡ some c) (sym same)
      (canonical_accepted id valid (rw same at short))
