-- ===== src/Scheduler/Due.antt =====
-- After a tick nothing is due, and each auction that was due is polled or not monitored any more.
use aucnotif.Prelude.{
  ℕ, zero, suc, ◌≤◌, ◌≡◌, refl, ap, ◌∙◌, Bool, true, false, ◌||◌, List, [], ◌∷◌, arith, ◌==◌,
  if◌then◌else◌, inl, inr, Bool-cases, ◌⊎◌,
}
use aucnotif.Prelude.Int.{◌+ℤ◌, ◌<ℤ◌, int_laws}
use aucnotif.Prelude.Lists.{
  All, All-imply, length, take, select, exists_where, insert_by, order_by, update_where,
}
use aucnotif.Times.{Instant, seconds}
use aucnotif.Config.{Settings}
use aucnotif.Models.{Auction}
use aucnotif.Database.{Database}
use aucnotif.Repositories.Auctions.{
  is_due, list_due, stop_monitoring, set_next_poll_at, modify, stopped, with_next_poll, sooner,
}
use aucnotif.Repositories.UserAuctions.{count_watchers}
use aucnotif.Scheduler.{Job, due_limit, schedule_one, schedule}

-- An auction with this id is in the list.
abbrev pub has_id : ℕ → List Auction → Bool
has_id id rows = exists_where (λ a. a.id == id) rows

or_intro : (a b : Bool) → b ≡ true → (a || b) ≡ true
or_intro a b h = ground arith

module _ (le : Auction → Auction → Bool) (id : ℕ) where
  has_id-insert :
      (x : Auction) (xs : List Auction) → has_id id (insert_by le x xs) ≡ has_id id (x ∷ xs)
  has_id-insert x [] = refl
  has_id-insert x (y ∷ ys) = elim (Bool-cases (le x y)) [
    | inl e ↦ rw e refl
    | inr e ↦ rw e (
        ap (λ b. (y.id == id) || b) (has_id-insert x ys)
        ∙ swap (y.id == id) (x.id == id) (has_id id ys))
  ]
    where
      swap : (a b c : Bool) → (a || (b || c)) ≡ (b || (a || c))
      swap a b c = ground arith

  has_id-order : (xs : List Auction) → has_id id (order_by le xs) ≡ has_id id xs
  has_id-order [] = refl
  has_id-order (x ∷ xs) =
      has_id-insert x (order_by le xs) ∙ ap (λ b. (x.id == id) || b) (has_id-order xs)

module _ (le : Auction → Auction → Bool) where
  length-insert : (x : Auction) (xs : List Auction) → length (insert_by le x xs) ≡ suc (length xs)
  length-insert x [] = refl
  length-insert x (y ∷ ys) = elim (Bool-cases (le x y)) [
    | inl e ↦ rw e refl
    | inr e ↦ rw e (ap suc (length-insert x ys))
  ]

  length-order : (xs : List Auction) → length (order_by le xs) ≡ length xs
  length-order [] = refl
  length-order (x ∷ xs) = length-insert x (order_by le xs) ∙ ap suc (length-order xs)

take-all : (n : ℕ) (xs : List Auction) → length xs ≤ n → take n xs ≡ xs
take-all zero [] h = refl
take-all zero (x ∷ xs) h = absurd (omega (arith, h))
take-all (suc n) [] h = refl
take-all (suc n) (x ∷ xs) h = ap (λ ys. x ∷ ys) (take-all n xs (omega (arith, h)))

-- Every row is due no more or has its id in the list.
abbrev pub Covered : Instant → List Auction → Auction → Type 0
Covered now rest r = (is_due now r ≡ false) ⊎ (has_id r.id rest ≡ true)

own_id : (n : ℕ) → (n == n) ≡ true
own_id n = ground arith

Covered-more :
    (now : Instant) (r : Auction) (due rows : List Auction)
    → All (Covered now due) rows
    → All (Covered now (r ∷ due)) rows
Covered-more now r due [] h = tt
Covered-more now r due (x ∷ rows) h = (
  elim h.0 [ inl e ↦ inl e | inr e ↦ inr (or_intro (r.id == x.id) _ e) ],
  Covered-more now r due rows h.1,
)

Covered-cons :
    (now : Instant) (r : Auction) (due rows : List Auction) (b : Bool)
    → is_due now r ≡ b
    → All (Covered now due) rows
    → All (Covered now (if b then r ∷ due else due)) (r ∷ rows)
Covered-cons now r due rows true e h = (inr (rw (own_id r.id) refl), Covered-more now r due rows h)
Covered-cons now r due rows false e h = (inl e, h)

Covered-select :
    (now : Instant) (rows : List Auction) → All (Covered now (select (is_due now) rows)) rows
Covered-select now [] = tt
Covered-select now (r ∷ rows) =
    Covered-cons now r (select (is_due now) rows) rows (is_due now r) refl (Covered-select now rows)

-- At most as many are due as one tick takes.
abbrev pub Fits : Instant → Database → Type 0
Fits now db = length (select (is_due now) db.auctions) ≤ due_limit

pub Covered-list_due :
    (now : Instant) (db : Database)
    → Fits now db
    → All (Covered now (list_due now due_limit db)) db.auctions
unfolding list_due
Covered-list_due now db fits =
    let due = select (is_due now) db.auctions in
    rw (take-all due_limit (order_by sooner due) (rw (length-order sooner due) fits)) (
      All-imply (Covered now due) (Covered now (order_by sooner due)) db.auctions
        (λ r c. elim c [ inl e ↦ inl e | inr e ↦ inr (has_id-order sooner r.id due ∙ e) ])
        (Covered-select now db.auctions))

not_due-stopped : (now : Instant) (a : Auction) → is_due now (stopped a) ≡ false
unfolding is_due
not_due-stopped now a = refl

not_due-next : (now t : Instant) (a : Auction) → now <ℤ t → is_due now (with_next_poll t a) ≡ false
unfolding is_due
not_due-next now t a h = ground arith

-- An update by id that leaves nothing due there.
Covered-modify :
    (now : Instant) (f : Auction → Auction) (a : Auction) (rest rows : List Auction)
    → ((x : Auction) → is_due now (f x) ≡ false)
    → All (Covered now (a ∷ rest)) rows
    → All (Covered now rest) (update_where (λ r. r.id == a.id) f rows)
Covered-modify now f a rest [] off h = tt
Covered-modify now f a rest (r ∷ rows) off h = elim (Bool-cases (r.id == a.id)) [
  | inl e ↦ rw e (inl (off r), Covered-modify now f a rest rows off h.1)
  | inr e ↦ rw e (drop_head h.0 e, Covered-modify now f a rest rows off h.1)
]
  where
    other_way : (m n : ℕ) → (m == n) ≡ false → (n == m) ≡ false
    other_way m n e = ground arith

    right_of : (b c : Bool) → b ≡ false → (b || c) ≡ true → c ≡ true
    right_of b c e k = ground arith

    drop_head : Covered now (a ∷ rest) r → (r.id == a.id) ≡ false → Covered now rest r
    drop_head (inl k) e = inl k
    drop_head (inr k) e = inr (right_of (a.id == r.id) (has_id r.id rest) (other_way r.id a.id e) k)

module _ (settings : Settings) (now : Instant) where
  Covered-schedule_one :
      (a : Auction) (rest : List Auction) (jobs : List Job) (db : Database)
      → 1 ≤ settings.poll_lock_ttl_seconds
      → All (Covered now (a ∷ rest)) db.auctions
      → All (Covered now rest) (schedule_one settings now a (jobs, db)).1.auctions
  unfolding schedule_one stop_monitoring set_next_poll_at modify
  Covered-schedule_one a rest jobs db ttl h = elim (Bool-cases (count_watchers a.id db == 0)) [
    | inl none_left ↦
        rw none_left (Covered-modify now stopped a rest db.auctions (not_due-stopped now) h)
    | inr some_left ↦ rw some_left (
        Covered-modify now (with_next_poll (now +ℤ seconds settings.poll_lock_ttl_seconds)) a rest
          db.auctions (λ x. not_due-next now _ x (ahead settings.poll_lock_ttl_seconds ttl)) h)
  ]
    where
      ahead : (n : ℕ) → 1 ≤ n → now <ℤ now +ℤ seconds n
      ahead n h = omega int_laws

  pub Covered-schedule :
      (due : List Auction) (jobs : List Job) (db : Database)
      → 1 ≤ settings.poll_lock_ttl_seconds
      → All (Covered now due) db.auctions
      → All (Covered now []) (schedule settings now due (jobs, db)).1.auctions
  unfolding schedule
  Covered-schedule [] jobs db ttl h = h
  Covered-schedule (a ∷ rest) jobs db ttl h =
      Covered-schedule rest (schedule_one settings now a (jobs, db)).0
        (schedule_one settings now a (jobs, db)).1 ttl (Covered-schedule_one a rest jobs db ttl h)
