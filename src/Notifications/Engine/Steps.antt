-- ===== src/Notifications/Engine/Steps.antt =====
-- Induction over the fan-out: what one job does, and what every job keeps.
use aucnotif.Prelude.{
  ℕ, suc, ◌≡◌, refl, sym, subst, true, false, Option, none, some, List, [], ◌∷◌, ◌++◌, inl, inr,
  Bool-cases, some_inv,
}
use aucnotif.Prelude.Text.{Text}
use aucnotif.Times.{Instant}
use aucnotif.Domain.Notifications.{NotificationDecision, DedupKey, dedup_key_for}
use aucnotif.Models.{User, UserAuction, SentNotification}
use aucnotif.Database.{Database}
use aucnotif.Repositories.Notifications.{claim, claimed, conflicts, modify}
use aucnotif.Notifications.Renderer.{render}
use aucnotif.Notifications.Engine.{
  ◌>>=◌, Created, fill, create_job, for_decisions, for_watchers, create_jobs, with_text,
}

pub bind_inv :
    {A B : Type 0} (m : Option A) (f : A → Option B) {b : B}
    → (m >>= f) ≡ some b
    → (a : A) × ((m ≡ some a) × (f a ≡ some b))
bind_inv none f h = cc
bind_inv (some a) f h = (a, (refl, h))

abbrev pub skip_id : Database → Database
skip_id db = record db { next_notification = suc db.next_notification }

abbrev pub insert_row : SentNotification → Database → Database
insert_row row db = record db {
  notifications = row ∷ db.notifications;
  next_notification = suc db.next_notification;
}

module _ (url : Text) (snapshot_id : Option ℕ) (now : Instant) where
  -- What one job does: nothing on a conflict, and else a new row with its text.
  pub data Step (link : UserAuction) (d : NotificationDecision) (done done' : Created)
      : Type 0 where
    skipped :
        (key : DedupKey)
        → conflicts link.id d.kind key done.1 ≡ true
        → done' ≡ (done.0, skip_id done.1)
        → Step link d done done'
    made :
        (key : DedupKey) (text : Text)
        → dedup_key_for d snapshot_id ≡ some key
        → conflicts link.id d.kind key done.1 ≡ false
        → done' ≡ (
          done.0 ++ done.1.next_notification ∷ [],
          modify done.1.next_notification
              (with_text text)
              (insert_row (claimed done.1.next_notification link.id d.kind key now) done.1),
        )
        → Step link d done done'

  keyed-Step :
      (link : UserAuction) (d : NotificationDecision) (created : List ℕ) (db : Database)
      (done' : Created) (key : DedupKey)
      → dedup_key_for d snapshot_id ≡ some key
      → fill url snapshot_id now link d created (claim link.id d.kind key now db) ≡ some done'
      → Step link d (created, db) done'
  unfolding fill claim
  keyed-Step link d created db done' key k h = elim (Bool-cases (conflicts link.id d.kind key db)) [
    | inl clash ↦ skipped key clash (sym (some_inv (rw clash at h)))
    | inr free ↦
        let (text, (_, e)) = bind_inv (render d url link.label now) _ (rw free at h) in
        made key text k free (sym (some_inv e))
  ]

  create_job-Step :
      (link : UserAuction) (d : NotificationDecision) (done done' : Created)
      → create_job url snapshot_id now link d done ≡ some done'
      → Step link d done done'
  unfolding create_job
  create_job-Step link d (created, db) done' h =
      let (key, (k, e)) = bind_inv (dedup_key_for d snapshot_id) _ h in
      keyed-Step link d created db done' key k e

  module _ {κ} (P : Created → Type κ)
      (keep : (link : UserAuction) (d : NotificationDecision) (done done' : Created)
        → Step link d done done'
        → P done
        → P done') where
    decisions_induction :
        (link : UserAuction) (ds : List NotificationDecision) (done done' : Created)
        → for_decisions url snapshot_id now link ds done ≡ some done'
        → P done
        → P done'
    unfolding for_decisions
    decisions_induction link [] done done' h p = subst P (some_inv h) p
    decisions_induction link (d ∷ ds) done done' h p =
        let (next, (e, rest)) = bind_inv (create_job url snapshot_id now link d done) _ h in
        decisions_induction link ds next done' rest
          (keep link d done next (create_job-Step link d done next e) p)

    pub watchers_induction :
        (ds : List NotificationDecision) (ws : List (User × UserAuction)) (done done' : Created)
        → for_watchers url snapshot_id now ds ws done ≡ some done'
        → P done
        → P done'
    unfolding for_watchers
    watchers_induction ds [] done done' h p = subst P (some_inv h) p
    watchers_induction ds ((user, link) ∷ ws) done done' h p =
        let (next, (e, rest)) = bind_inv (for_decisions url snapshot_id now link ds done) _ h in
        watchers_induction ds ws next done' rest (decisions_induction link ds done next e p)

-- The tables that the fan-out leaves alone.
pub record SameTables (a b : Database) : Type 0 where
  pub users : a.users ≡ b.users
  pub auctions : a.auctions ≡ b.auctions
  pub user_auctions : a.user_auctions ≡ b.user_auctions
  pub snapshots : a.snapshots ≡ b.snapshots
  pub next_snapshot : a.next_snapshot ≡ b.next_snapshot

SameTables-Step :
    (url : Text) (snapshot_id : Option ℕ) (now : Instant) (start : Database) (link : UserAuction)
    (d : NotificationDecision) (done done' : Created)
    → Step url snapshot_id now link d done done'
    → SameTables start done.1
    → SameTables start done'.1
unfolding modify
SameTables-Step url sid now start link d done done' (skipped key c e) s = rw e (record {
  users = s.users;
  auctions = s.auctions;
  user_auctions = s.user_auctions;
  snapshots = s.snapshots;
  next_snapshot = s.next_snapshot;
})
SameTables-Step url sid now start link d done done' (made key text k c e) s = rw e (record {
  users = s.users;
  auctions = s.auctions;
  user_auctions = s.user_auctions;
  snapshots = s.snapshots;
  next_snapshot = s.next_snapshot;
})

pub create_jobs-SameTables :
    (ds : List NotificationDecision) (ws : List (User × UserAuction)) (snapshot_id : Option ℕ)
    (url : Text) (now : Instant) (db : Database) (done : Created)
    → create_jobs ds ws snapshot_id url now db ≡ some done
    → SameTables db done.1
unfolding create_jobs
create_jobs-SameTables ds ws snapshot_id url now db done h =
    watchers_induction url snapshot_id now (λ c. SameTables db c.1)
      (SameTables-Step url snapshot_id now db) ds ws ([], db) done h
      (record {
        users = refl;
        auctions = refl;
        user_auctions = refl;
        snapshots = refl;
        next_snapshot = refl;
      })
