-- ===== src/Notifications/Engine/Jobs.antt =====
-- The fan-out makes every job, and touches no table but that of the notifications.
use aucnotif.Prelude.{ℕ, ◌≡◌, refl, true, Option, none, some, List, [], ◌∷◌, is_some}
use aucnotif.Prelude.Lists.{All}
use aucnotif.Prelude.Text.{Text}
use aucnotif.Times.{Instant}
use aucnotif.Domain.Notifications.{NotificationDecision, dedup_key_for}
use aucnotif.Domain.Notifications.Keys.{HasKey}
use aucnotif.Models.{User, UserAuction, SentNotification}
use aucnotif.Database.{Database}
use aucnotif.Notifications.Renderer.{render}
use aucnotif.Notifications.Engine.{
  ◌>>=◌, Created, fill, create_job, for_decisions, for_watchers, create_jobs,
}

abbrev pub IsDefined {ℓ} : {A : Type ℓ} → Option A → Type 0
IsDefined o = is_some o ≡ true

pub defined {ℓ} : {A : Type ℓ} (o : Option A) → IsDefined o → (a : A) × (o ≡ some a)
defined none h = cc h
defined (some a) h = (a, refl)

pub bind-IsDefined :
    {A B : Type 0} (o : Option A) (f : A → Option B)
    → IsDefined o
    → ((a : A) → o ≡ some a → IsDefined (f a))
    → IsDefined (o >>= f)
bind-IsDefined none f h k = h
bind-IsDefined (some a) f h k = k a refl

module _ (url : Text) (snapshot_id : Option ℕ) (now : Instant) where
  -- A decision that has a key and a text for every label.
  abbrev pub IsReady : NotificationDecision → Type 0
  IsReady d = HasKey snapshot_id d × ((label : Option Text) → IsDefined (render d url label now))

  fill-IsDefined :
      (link : UserAuction) (d : NotificationDecision) (created : List ℕ)
      (row : Option SentNotification × Database)
      → IsDefined (render d url link.label now)
      → IsDefined (fill url snapshot_id now link d created row)
  unfolding fill
  fill-IsDefined link d created (none, db) h = refl
  fill-IsDefined link d created (some row, db) h =
      bind-IsDefined (render d url link.label now) _ h (λ _ _. refl)

  create_job-IsDefined :
      (link : UserAuction) (d : NotificationDecision) (done : Created)
      → IsReady d
      → IsDefined (create_job url snapshot_id now link d done)
  unfolding create_job
  create_job-IsDefined link d (created, db) h =
      bind-IsDefined (dedup_key_for d snapshot_id) _ h.0
        (λ key _. fill-IsDefined link d created _ (h.1 link.label))

  for_decisions-IsDefined :
      (link : UserAuction) (ds : List NotificationDecision) (done : Created)
      → All IsReady ds
      → IsDefined (for_decisions url snapshot_id now link ds done)
  unfolding for_decisions
  for_decisions-IsDefined link [] done h = refl
  for_decisions-IsDefined link (d ∷ ds) done h =
      bind-IsDefined (create_job url snapshot_id now link d done) _
        (create_job-IsDefined link d done h.0)
        (λ done' _. for_decisions-IsDefined link ds done' h.1)

  for_watchers-IsDefined :
      (ds : List NotificationDecision) (ws : List (User × UserAuction)) (done : Created)
      → All IsReady ds
      → IsDefined (for_watchers url snapshot_id now ds ws done)
  unfolding for_watchers
  for_watchers-IsDefined ds [] done h = refl
  for_watchers-IsDefined ds ((user, link) ∷ ws) done h =
      bind-IsDefined (for_decisions url snapshot_id now link ds done) _
        (for_decisions-IsDefined link ds done h) (λ done' _. for_watchers-IsDefined ds ws done' h)

-- If every decision has a key and a text, the fan-out raises nothing.
pub create_jobs-IsDefined :
    (ds : List NotificationDecision) (ws : List (User × UserAuction)) (snapshot_id : Option ℕ)
    (url : Text) (now : Instant) (db : Database)
    → All (IsReady url snapshot_id now) ds
    → IsDefined (create_jobs ds ws snapshot_id url now db)
unfolding create_jobs
create_jobs-IsDefined ds ws snapshot_id url now db h =
    for_watchers-IsDefined url snapshot_id now ds ws ([], db) h
