-- ===== src/Repositories/Notifications.antt =====
-- app/repositories/notifications.py: the rows that make each notification happen once.
use aucnotif.Prelude.{
  ℕ, suc, Bool, false, not, ◌&&◌, ◌||◌, Option, none, some, List, ◌∷◌, map, ◌==◌, if◌then◌else◌,
}
use aucnotif.Prelude.Int.{eq_ℤ, ltb_ℤ, leb_ℤ}
use aucnotif.Prelude.Lists.{length, take, select, select_one, update_where, exists_where, order_by}
use aucnotif.Times.{Instant}
use aucnotif.Domain.Notifications.{NotificationKind, DedupKey, end_time_key, snapshot_key}
use aucnotif.Domain.Notifications.Kinds.{same_kind}
use aucnotif.Models.{SentNotification, pending, sent, failed}
use aucnotif.Database.{Database}
use aucnotif.Repositories.UserAuctions.{is_pending}

abbrev pub same_key : DedupKey → DedupKey → Bool
same_key (end_time_key s) (end_time_key t) = eq_ℤ s t
same_key (snapshot_key m) (snapshot_key n) = m == n
same_key _ _ = false

-- The unique constraint `uq_sent_notification`.
abbrev pub holds_key : ℕ → NotificationKind → DedupKey → SentNotification → Bool
holds_key user_auction_id kind dedup_key n =
    n.user_auction_id == user_auction_id
    && (same_kind n.kind kind && same_key n.dedup_key dedup_key)

-- The `INSERT` violates that constraint, or the foreign key to the link.
unfoldable pub conflicts : ℕ → NotificationKind → DedupKey → Database → Bool
conflicts user_auction_id kind dedup_key db =
    exists_where (holds_key user_auction_id kind dedup_key) db.notifications
    || not (exists_where (λ l. l.id == user_auction_id) db.user_auctions)

abbrev pub claimed : ℕ → ℕ → NotificationKind → DedupKey → Instant → SentNotification
claimed id user_auction_id kind dedup_key now = record {
  id = id;
  user_auction_id = user_auction_id;
  kind = kind;
  dedup_key = dedup_key;
  text = none;
  status = pending;
  created_at = now;
  sent_at = none;
}

-- The conflict rolls the savepoint back, and nothing but the sequence has moved.
unfoldable pub claim :
    ℕ → NotificationKind → DedupKey → Instant → Database → Option SentNotification × Database
claim user_auction_id kind dedup_key now db =
    let row = claimed db.next_notification user_auction_id kind dedup_key now in
    if conflicts user_auction_id kind dedup_key db
    then (none, record db { next_notification = suc db.next_notification })
    else (
      some row,
      record db {
        notifications = row ∷ db.notifications;
        next_notification = suc db.next_notification;
      },
    )

unfoldable pub modify : ℕ → (SentNotification → SentNotification) → Database → Database
modify notification_id f db = record db {
  notifications = update_where (λ n. n.id == notification_id) f db.notifications;
}

unfoldable pub mark_sent : ℕ → Instant → Database → Database
mark_sent notification_id now db =
    modify notification_id (λ n. record n { status = sent; sent_at = some now }) db

unfoldable pub mark_failed : ℕ → Database → Database
mark_failed notification_id db = modify notification_id (λ n. record n { status = failed }) db

unfoldable pub get_by_id : ℕ → Database → Option SentNotification
get_by_id notification_id db = select_one (λ n. n.id == notification_id) db.notifications

unfoldable pub pending_count : Database → ℕ
pending_count db = length (select (λ n. is_pending n.status) db.notifications)

abbrev older : SentNotification → SentNotification → Bool
older a b = leb_ℤ a.created_at b.created_at

unfoldable pub list_pending_older_than : Instant → Database → List ℕ
list_pending_older_than cutoff db =
    map (λ (n : SentNotification). n.id)
      (take 500 (
        order_by older
          (select (λ n. is_pending n.status && ltb_ℤ n.created_at cutoff) db.notifications)))
