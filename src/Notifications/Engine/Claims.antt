-- ===== src/Notifications/Engine/Claims.antt =====
-- The idempotency keys: the fan-out claims each one once, whatever was claimed before.
use aucnotif.Prelude.{
  ℕ, suc, ◌<◌, ◌≡◌, ◌≢◌, refl, ◌∙◌, sym, Bool, true, false, ◌||◌, Option, some, List, [], ◌∷◌,
  arith, ◌==◌, is_some, subst,
}
use aucnotif.Prelude.Lists.{All, All-imply, All-append, exists_where}
use aucnotif.Prelude.Tables.{
  Unique, Unique-update, All-update, select_one-update_self, select_one-update_other,
}
use aucnotif.Prelude.Int.{eq_ℤ_iff}
use aucnotif.Prelude.Text.{Text}
use aucnotif.Times.{Instant}
use aucnotif.Domain.Notifications.{
  NotificationKind, NotificationDecision, DedupKey, end_time_key, snapshot_key,
}
use aucnotif.Domain.Notifications.Kinds.{same_kind}
use aucnotif.Models.{User, UserAuction, SentNotification, pending}
use aucnotif.Database.{Database}
use aucnotif.Repositories.Notifications.{same_key, holds_key, conflicts, claimed, modify, get_by_id}
use aucnotif.Notifications.Engine.{Created, create_jobs, with_text}
use aucnotif.Notifications.Engine.Steps.{
  Step, skipped, made, skip_id, insert_row, watchers_induction,
}

-- The columns of the unique constraint.
abbrev pub Key : Type 0
Key = ℕ × (NotificationKind × DedupKey)

abbrev pub key_of : SentNotification → Key
key_of n = (n.user_auction_id, (n.kind, n.dedup_key))

-- The table of notifications: no two rows have the same key, and the sequence is ahead of all ids.
pub record IsKeyed (db : Database) : Type 0 where
  pub keys : Unique key_of db.notifications
  pub fresh : All (λ n. n.id < db.next_notification) db.notifications

same_kind_refl : (k : NotificationKind) → same_kind k k ≡ true
same_kind_refl k = ground arith

same_key_refl : (k : DedupKey) → same_key k k ≡ true
same_key_refl (end_time_key t) = (eq_ℤ_iff t t).1 refl
same_key_refl (snapshot_key n) = ground arith

holds_own : (n : SentNotification) → holds_key n.user_auction_id n.kind n.dedup_key n ≡ true
holds_own n = ground (arith, same_kind_refl n.kind, same_key_refl n.dedup_key)

true≢false : {b : Bool} → b ≡ true → b ≡ false → ⊥
true≢false h k = cc

other_key :
    (l : ℕ) (k : NotificationKind) (key : DedupKey) (n : SentNotification)
    → holds_key l k key n ≡ false
    → key_of n ≢ (l, (k, key))
other_key l k key n h e =
    true≢false (holds_own n) (subst (λ (t : Key). holds_key t.0 t.1.0 t.1.1 n ≡ false) (sym e) h)

or_left : (a b : Bool) → (a || b) ≡ false → a ≡ false
or_left a b h = ground arith

or_right : (a b : Bool) → (a || b) ≡ false → b ≡ false
or_right a b h = ground arith

not_exists :
    {A : Type 0} (p : A → Bool) (P : A → Type 0) (xs : List A)
    → ((x : A) → p x ≡ false → P x)
    → exists_where p xs ≡ false
    → All P xs
not_exists p P [] f h = tt
not_exists p P (x ∷ xs) f h = (f x (or_left _ _ h), not_exists p P xs f (or_right _ _ h))

-- After a claim without a conflict the key is new.
unclaimed :
    (l : ℕ) (k : NotificationKind) (key : DedupKey) (db : Database)
    → conflicts l k key db ≡ false
    → All (λ n. key_of n ≢ (l, (k, key))) db.notifications
unfolding conflicts
unclaimed l k key db h =
    not_exists (holds_key l k key) (λ n. key_of n ≢ (l, (k, key))) db.notifications
      (other_key l k key) (or_left _ _ h)

below :
    (m : ℕ) (rows : List SentNotification) → All (λ n. n.id < m) rows → All (λ n. n.id < suc m) rows
below m [] h = tt
below m (r ∷ rows) h = (omega (arith, h.0), below m rows h.1)

IsKeyed-Step :
    (url : Text) (snapshot_id : Option ℕ) (now : Instant) (link : UserAuction)
    (d : NotificationDecision) (done done' : Created)
    → Step url snapshot_id now link d done done'
    → IsKeyed done.1
    → IsKeyed done'.1
unfolding modify
IsKeyed-Step url sid now link d (ids, db) done' (skipped key c e) v =
    rw e (record { keys = v.keys; fresh = below db.next_notification db.notifications v.fresh })
IsKeyed-Step url sid now link d (ids, db) done' (made key text k c e) v =
    let next = db.next_notification in
    let rows = claimed next link.id d.kind key now ∷ db.notifications in
    rw e (record {
      keys =
          Unique-update key_of (λ n. n.id == next) (with_text text) rows (λ _. refl)
            (unclaimed link.id d.kind key db c, v.keys);
      fresh =
          All-update (λ n. n.id == next) (with_text text) (λ n. n.id < suc next) rows (λ _ h _. h)
            (omega arith, below next db.notifications v.fresh);
    })

-- A row that the fan-out made: it waits to be sent, and has a text.
abbrev pub IsMade : Database → ℕ → Type 0
IsMade db id =
    (id < db.next_notification)
    × ((n : SentNotification) × ((get_by_id id db ≡ some n)
          × ((n.status ≡ pending) × (is_some n.text ≡ true))))

same_id : (id : ℕ) → (id == id) ≡ true
same_id id = ground arith

away : (id next m : ℕ) → id < next → (m == next) ≡ true → (m == id) ≡ false
away id next m l h = ground arith

not_same : (id next : ℕ) → id < next → (next == id) ≡ false
not_same id next l = ground arith

kept-IsMade :
    (db : Database) (row : SentNotification) (text : Text) (id : ℕ)
    → row.id ≡ db.next_notification
    → IsMade db id
    → IsMade (modify db.next_notification (with_text text) (insert_row row db)) id
unfolding modify get_by_id
kept-IsMade db row text id e (l, (n, (found, good))) =
    let next = db.next_notification in
    (
      omega (arith, l),
      (
        n,
        (
          select_one-update_other (λ n. n.id == next) (with_text text) (λ n. n.id == id)
                (row ∷ db.notifications) (λ x h. (away id next x.id l h, away id next x.id l h))
              ∙ rw (e, not_same id next l) found,
          good,
        ),
      ),
    )

new-IsMade :
    (db : Database) (link : ℕ) (k : NotificationKind) (key : DedupKey) (now : Instant) (text : Text)
    → IsMade
        (modify db.next_notification
          (with_text text)
          (insert_row (claimed db.next_notification link k key now) db))
        db.next_notification
unfolding modify get_by_id
new-IsMade db link k key now text =
    let next = db.next_notification in
    let row = claimed next link k key now in
    (
      omega arith,
      (
        with_text text row,
        (
          select_one-update_self (λ n. n.id == next) (with_text text) (row ∷ db.notifications)
                (λ _. refl)
              ∙ rw (same_id next) refl,
          (refl, refl),
        ),
      ),
    )

skip-IsMade : (db : Database) (i : ℕ) → IsMade db i → IsMade (skip_id db) i
unfolding get_by_id
skip-IsMade db i (l, r) = (omega (arith, l), r)

IsMade-Step :
    (url : Text) (snapshot_id : Option ℕ) (now : Instant) (link : UserAuction)
    (d : NotificationDecision) (done done' : Created)
    → Step url snapshot_id now link d done done'
    → All (IsMade done.1) done.0
    → All (IsMade done'.1) done'.0
IsMade-Step url sid now link d (ids, db) done' (skipped key c e) h =
    rw e (All-imply (IsMade db) (IsMade (skip_id db)) ids (skip-IsMade db) h)
IsMade-Step url sid now link d (ids, db) done' (made key text k c e) h =
    let next = db.next_notification in
    let row = claimed next link.id d.kind key now in
    let db' = modify next (with_text text) (insert_row row db) in
    rw e (
      All-append (IsMade db') ids (next ∷ [])
        (All-imply (IsMade db) (IsMade db') ids (λ i. kept-IsMade db row text i refl) h)
        (new-IsMade db link.id d.kind key now text, tt))

-- The fan-out of any decisions to any watchers keeps every idempotency key to one row and the sequence
-- ahead of the ids; and every id that it returns, to be put into the queue, is that of a row that waits
-- to be sent and has its text.
pub create_jobs-IsKeyed :
    (ds : List NotificationDecision) (ws : List (User × UserAuction)) (snapshot_id : Option ℕ)
    (url : Text) (now : Instant) (db : Database) (done : Created)
    → IsKeyed db
    → create_jobs ds ws snapshot_id url now db ≡ some done
    → IsKeyed done.1 × All (IsMade done.1) done.0
unfolding create_jobs
create_jobs-IsKeyed ds ws snapshot_id url now db done v h = (
  watchers_induction url snapshot_id now (λ c. IsKeyed c.1) (IsKeyed-Step url snapshot_id now) ds ws
      ([], db) done h v,
  watchers_induction url snapshot_id now (λ c. All (IsMade c.1) c.0)
      (IsMade-Step url snapshot_id now) ds ws ([], db) done h tt,
)
