-- ===== src/Tests/Claims.antt =====
-- The fan-out of one decision to the watcher of the test data.
use aucnotif.Prelude.{◌≡◌, refl, true, none, some, [], ◌∷◌}
use aucnotif.Prelude.Int.{pos}
use aucnotif.Prelude.Lists.{All}
use aucnotif.Domain.AuctionState.{AuctionState}
use aucnotif.Domain.Notifications.{
  NotificationDecision, closed, snapshot_key, decide_as, dedup_key_for,
}
use aucnotif.Models.{SentNotification, pending}
use aucnotif.Repositories.Notifications.{claim, conflicts, modify}
use aucnotif.Notifications.Renderer.{render, render_closed, title_of}
use aucnotif.Notifications.Engine.{
  Created, create_jobs, for_watchers, for_decisions, create_job, fill,
}
use aucnotif.Notifications.Engine.Claims.{IsKeyed, IsMade, create_jobs-IsKeyed}
use aucnotif.Tests.Data.{database, seen_at, end, url, user, link}

abbrev ended : AuctionState
ended = record (seen_at 300 end (some end)) { is_closed = true }

abbrev decision : NotificationDecision
decision = decide_as (seen_at 200 (pos 60) (some end)) ended closed

abbrev row : SentNotification
row = record {
  id = 1;
  user_auction_id = 1;
  kind = closed;
  dedup_key = snapshot_key 2;
  text = some (render_closed (title_of ended none) ended url);
  status = pending;
  created_at = pos 70;
  sent_at = none;
}

abbrev done : Created
done = (1 ∷ [], record database { notifications = row ∷ []; next_notification = 2 })

created : create_jobs (decision ∷ []) ((user, link) ∷ []) (some 2) url (pos 70) database ≡ some done
unfolding create_jobs for_watchers for_decisions create_job fill claim conflicts modify
    dedup_key_for render
created = refl

database-IsKeyed : IsKeyed database
database-IsKeyed = record { keys = tt; fresh = tt }

create_jobs-IsKeyed_example : IsKeyed done.1 × All (IsMade done.1) done.0
create_jobs-IsKeyed_example =
    create_jobs-IsKeyed (decision ∷ []) ((user, link) ∷ []) (some 2) url (pos 70) database done
      database-IsKeyed created
