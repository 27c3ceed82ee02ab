-- ===== src/Tests/Sending.antt =====
-- Jobs that send the same notification.
use aucnotif.Prelude.{ℕ, ◌≡◌, refl, none, some, [], ◌∷◌}
use aucnotif.Prelude.Int.{pos, int_laws}
use aucnotif.Prelude.Text.{codes}
use aucnotif.Domain.Notifications.{change, snapshot_key}
use aucnotif.Models.{SentNotification, pending}
use aucnotif.Repositories.Notifications
use aucnotif.Notifications.Sender.{Reply, accepted}
use aucnotif.Infrastructure.Locks.{live}
use aucnotif.Workers.SendNotification.{
  was_sent, already_sent, World, load, loaded, telegram_of, after_load, send_notification,
}
use aucnotif.Workers.SendNotification.Once.{sent_once}
use aucnotif.Workers.SendNotification.Race.{sent_twice, after_sent, one_job}
use aucnotif.Tests.Data.{settings, database}

abbrev notification : SentNotification
notification = record {
  id = 1;
  user_auction_id = 1;
  kind = change;
  dedup_key = snapshot_key 7;
  text = some (codes "hello");
  status = pending;
  created_at = pos 0;
  sent_at = none;
}

abbrev world : World
world = record {
  db = record database { notifications = notification ∷ []; next_notification = 2 };
  cell = none;
  outbox = [];
}

abbrev bot : ℕ → Reply
bot n = accepted

read : load 1 world.db ≡ loaded notification 42
unfolding load telegram_of Notifications.get_by_id
read = refl

sent_twice_example :
    (first : World) × ((second : World) × ((after_load settings bot
            (1 ∷ [])
            (pos 0)
            (pos 5)
            1
            (load 1 world.db)
            world
          ≡ some (was_sent, first))
        × ((after_load settings bot (2 ∷ []) (pos 6) (pos 9) 1 (load 1 world.db) first
              ≡ some (was_sent, second))
            × (second.outbox ≡ (1, 42) ∷ (1, 42) ∷ []))))
sent_twice_example =
    sent_twice settings 1 notification 42 bot bot (codes "hello") (1 ∷ []) (2 ∷ []) (pos 0) (pos 5)
      (pos 6) (pos 9) world read refl refl refl (unfold live in refl) (omega int_laws)
      (omega int_laws)

abbrev sent_world : World
sent_world = after_sent settings 1 notification 42 (pos 5) world

job_sends :
    send_notification settings bot (1 ∷ []) (pos 0) (pos 5) 1 world ≡ some (was_sent, sent_world)
unfolding send_notification
job_sends = rw read (
    one_job settings 1 notification 42 bot (codes "hello") (1 ∷ []) (pos 0) (pos 5) world refl refl
      (unfold live in refl) (omega int_laws))

sent_once_example :
    send_notification settings bot (2 ∷ []) (pos 6) (pos 9) 1 sent_world
    ≡ some (already_sent, sent_world)
sent_once_example =
    sent_once settings settings bot bot (1 ∷ []) (2 ∷ []) (pos 0) (pos 5) (pos 6) (pos 9) 1 world
      sent_world job_sends
