-- ===== src/Notifications/Engine.antt =====
-- app/notifications/engine.py: the fan-out of the decisions of a poll to the watchers. `none` stands for
-- an exception, which leaves the transaction without a commit.
pub mod Claims
pub mod Jobs
pub mod Steps
use aucnotif.Prelude.{ℕ, Option, none, some, List, [], ◌∷◌, ◌++◌}
use aucnotif.Prelude.Text.{Text}
use aucnotif.Times.{Instant}
use aucnotif.Domain.Notifications.{NotificationDecision, DedupKey, dedup_key_for}
use aucnotif.Models.{User, UserAuction, SentNotification}
use aucnotif.Database.{Database}
use aucnotif.Repositories.Notifications.{claim, modify}
use aucnotif.Notifications.Renderer.{render}

infixl 5 ◌>>=◌
abbrev pub ◌>>=◌ : {A B : Type 0} → Option A → (A → Option B) → Option B
none >>= f = none
some a >>= f = f a

-- The ids made so far, and the database.
abbrev pub Created : Type 0
Created = List ℕ × Database

abbrev pub with_text : Text → SentNotification → SentNotification
with_text text row = record row { text = some text }

module _ (url : Text) (snapshot_id : Option ℕ) (now : Instant) where
  -- After the claim: nothing for `None`, and the text for a row.
  unfoldable pub fill :
      UserAuction
      → NotificationDecision
      → List ℕ
      → Option SentNotification × Database
      → Option Created
  fill link decision created (none, db) = some (created, db)
  fill link decision created (some row, db) = do
    text ← render decision url link.label now
    some (created ++ row.id ∷ [], modify row.id (with_text text) db)

  -- The body of the inner loop.
  unfoldable pub create_job : UserAuction → NotificationDecision → Created → Option Created
  create_job link decision (created, db) = do
    key ← dedup_key_for decision snapshot_id
    fill link decision created (claim link.id decision.kind key now db)

  unfoldable pub for_decisions : UserAuction → List NotificationDecision → Created → Option Created
  for_decisions link [] done = some done
  for_decisions link (decision ∷ rest) done = do
    done' ← create_job link decision done
    for_decisions link rest done'

  unfoldable pub for_watchers :
      List NotificationDecision → List (User × UserAuction) → Created → Option Created
  for_watchers decisions [] done = some done
  for_watchers decisions ((user, link) ∷ rest) done = do
    done' ← for_decisions link decisions done
    for_watchers decisions rest done'

unfoldable pub create_jobs :
    List NotificationDecision
    → List (User × UserAuction)
    → Option ℕ
    → Text
    → Instant
    → Database
    → Option Created
create_jobs decisions watchers snapshot_id url now db =
    for_watchers url snapshot_id now decisions watchers ([], db)
