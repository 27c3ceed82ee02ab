-- ===== src/Workers/SendNotification/Once.antt =====
-- How often a notification is sent: once by jobs that follow each other, twice by two that overlap.
use aucnotif.Prelude.{
  ℕ, ◌≡◌, ◌≢◌, refl, ap, ◌∙◌, subst, Option, none, some, inl, inr, Bool-cases, Option-cases,
  some_inv, none≢some, ◌==◌,
}
use aucnotif.Prelude.Tables.{map_option, select_one-update_self}
use aucnotif.Prelude.Text.{Text}
use aucnotif.Times.{Instant}
use aucnotif.Config.{Settings}
use aucnotif.Models.{SentNotification, sent}
use aucnotif.Database.{Database}
use aucnotif.Repositories.Notifications
use aucnotif.Notifications.Sender.{Reply, Outcome, delivered, raised, no_text, Sending, send}
use aucnotif.Infrastructure.Locks.{RedisLock}
use aucnotif.Workers.SendNotification.{
  SendResult, was_sent, already_sent, not_found, exception, locked, World, Loaded, over, loaded,
  load, take_lock, deliver, finish, send_locked, after_load, send_notification, telegram_of,
  is_sent, addressed,
}

-- The row is there, and is marked as sent.
abbrev pub IsSent : ℕ → Database → Type 0
IsSent id db =
    (n : SentNotification) × ((Notifications.get_by_id id db ≡ some n) × (n.status ≡ sent))

load-IsSent : (id : ℕ) (db : Database) → IsSent id db → load id db ≡ over already_sent
unfolding load
load-IsSent id db (n, (found, s)) = rw (found, load) (simp s)

exception≢was_sent : (o : Outcome) → exception o ≢ was_sent
exception≢was_sent o h = cc

locked≢was_sent : locked ≢ was_sent
locked≢was_sent h = cc

abbrev marked : Instant → SentNotification → SentNotification
marked at m = record m { status = sent; sent_at = some at }

mark-IsSent :
    (id : ℕ) (at : Instant) (db : Database) (n : SentNotification)
    → Notifications.get_by_id id db ≡ some n
    → IsSent id (Notifications.mark_sent id at db)
unfolding Notifications.get_by_id Notifications.mark_sent Notifications.modify
mark-IsSent id at db n found = (
  marked at n,
  (
    select_one-update_self (λ m. m.id == id) (marked at) db.notifications (λ _. refl)
        ∙ ap (map_option (marked at)) found,
    refl,
  ),
)

-- What `load` returns: never that the message was sent just now, and a row that is there.
abbrev Sound : ℕ → Database → Loaded → Type 0
Sound id db (over r) = r ≢ was_sent
Sound id db (loaded n chat) = Notifications.get_by_id id db ≡ some n

not_found≢was_sent : not_found ≢ was_sent
not_found≢was_sent h = cc

already_sent≢was_sent : already_sent ≢ was_sent
already_sent≢was_sent h = cc

addressed-Sound :
    (id : ℕ) (db : Database) (n : SentNotification) (chat : Option ℕ)
    → Notifications.get_by_id id db ≡ some n
    → Sound id db (addressed n chat)
addressed-Sound id db n none h = not_found≢was_sent
addressed-Sound id db n (some chat) h = h

load-Sound : (id : ℕ) (db : Database) → Sound id db (load id db)
unfolding load
load-Sound id db = elim (Option-cases (Notifications.get_by_id id db)) [
  | inl unknown ↦ rw (unknown, load) not_found≢was_sent
  | inr (n, found) ↦
      rw (found, load)
        (elim (Bool-cases (is_sent n.status)) [
          | inl s ↦ rw s already_sent≢was_sent
          | inr s ↦ rw s (addressed-Sound id db n (telegram_of n db) found)
        ])
]

deliver-db :
    (n : SentNotification) (chat : ℕ) (o : Outcome) (w : World) → (deliver n chat o w).db ≡ w.db
unfolding deliver
deliver-db n chat delivered w = refl
deliver-db n chat (raised e) w = refl
deliver-db n chat no_text w = refl

finish-IsSent :
    (id : ℕ) (o : Outcome) (ended : Instant) (lock : RedisLock) (w w' : World)
    (n : SentNotification)
    → Notifications.get_by_id id w.db ≡ some n
    → finish id o ended lock w ≡ (was_sent, w')
    → IsSent id w'.db
unfolding finish
finish-IsSent id delivered ended lock w w' n found h =
    subst (λ (r : SendResult × World). IsSent id r.1.db) h (mark-IsSent id ended w.db n found)
finish-IsSent id (raised e) ended lock w w' n found h =
    absurd (exception≢was_sent (raised e) (ap (λ (r : SendResult × World). r.0) h))
finish-IsSent id no_text ended lock w w' n found h =
    absurd (exception≢was_sent no_text (ap (λ (r : SendResult × World). r.0) h))

send_locked-IsSent :
    (settings : Settings) (bot : ℕ → Reply) (ended : Instant) (id : ℕ) (n : SentNotification)
    (chat : ℕ) (lock : RedisLock) (w w' : World)
    → Notifications.get_by_id id w.db ≡ some n
    → send_locked settings bot ended id n chat lock w ≡ some (was_sent, w')
    → IsSent id w'.db
unfolding send_locked
send_locked-IsSent settings bot ended id n chat lock w w' found h =
    by_outcome (send settings bot n) h
  where
    by_outcome :
        (o : Option Sending)
        → elim o [
          | none ↦ none
          | some sending ↦
              some (finish id sending.outcome ended lock (deliver n chat sending.outcome w))
        ]
          ≡ some (was_sent, w')
        → IsSent id w'.db
    by_outcome none k = absurd (none≢some k)
    by_outcome (some sending) k =
        finish-IsSent id sending.outcome ended lock (deliver n chat sending.outcome w) w' n
          (ap (Notifications.get_by_id id) (deliver-db n chat sending.outcome w) ∙ found)
          (some_inv k)

after_load-IsSent :
    (settings : Settings) (bot : ℕ → Reply) (token : Text) (now ended : Instant) (id : ℕ)
    (l : Loaded) (w w' : World)
    → Sound id w.db l
    → after_load settings bot token now ended id l w ≡ some (was_sent, w')
    → IsSent id w'.db
unfolding after_load take_lock
after_load-IsSent settings bot token now ended id (over r) w w' s h =
    absurd (s (ap (λ (q : SendResult × World). q.0) (some_inv h)))
after_load-IsSent settings bot token now ended id (loaded n chat) w w' s h =
    elim (Bool-cases ((take_lock token now w).0)) [
      | inl ok ↦
          send_locked-IsSent settings bot ended id n chat (take_lock token now w).1
            (take_lock token now w).2 w' s (rw ok at h)
      | inr busy ↦
          absurd (locked≢was_sent (ap (λ (q : SendResult × World). q.0) (some_inv (rw busy at h))))
    ]

-- When a job has sent a notification, every later job for it, with whatever token, settings and clock,
-- finds it sent, and changes nothing.
pub sent_once :
    (settings settings' : Settings) (bot bot' : ℕ → Reply) (token token' : Text)
    (now ended now' ended' : Instant) (id : ℕ) (w w' : World)
    → send_notification settings bot token now ended id w ≡ some (was_sent, w')
    → send_notification settings' bot' token' now' ended' id w' ≡ some (already_sent, w')
unfolding send_notification after_load
sent_once settings settings' bot bot' token token' now ended now' ended' id w w' h =
    rw
      (load-IsSent id w'.db (
        after_load-IsSent settings bot token now ended id (load id w.db) w w' (load-Sound id w.db)
          h))
      refl
