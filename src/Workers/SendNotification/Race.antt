-- ===== src/Workers/SendNotification/Race.antt =====
-- Two workers that both read the row before either of them takes the lock.
use aucnotif.Prelude.{ℕ, ◌≡◌, refl, none, some, [], ◌∷◌}
use aucnotif.Prelude.Int.{◌+ℤ◌, ◌<ℤ◌}
use aucnotif.Prelude.Text.{Text}
use aucnotif.Times.{Instant, seconds}
use aucnotif.Config.{Settings}
use aucnotif.Models.{SentNotification}
use aucnotif.Repositories.Notifications
use aucnotif.Notifications.Sender.{Reply, accepted, delivered, send, send_loop, settle}
use aucnotif.Infrastructure.Locks.{live}
use aucnotif.Infrastructure.Locks.Exclusion.{
  acquire_free, acquired-cell, acquired-held, release_own, entry_of,
}
use aucnotif.Workers.SendNotification.{
  was_sent, World, load, loaded, take_lock, deliver, finish, send_locked, after_load, send_lock,
}

-- A message that Telegram accepts at once.
send-accepted :
    (settings : Settings) (bot : ℕ → Reply) (n : SentNotification) (text : Text)
    → n.text ≡ some text
    → bot 1 ≡ accepted
    → send settings bot n ≡ some (record { outcome = delivered; attempts = 1; slept = [] })
unfolding send send_loop settle
send-accepted settings bot n text has ok = rw (has, send) (rw (ok, settle) refl)

module _ (settings : Settings) (id : ℕ) (n : SentNotification) (chat : ℕ) where
  -- The world after such a job.
  abbrev pub after_sent : Instant → World → World
  after_sent ended w = record {
    db = Notifications.mark_sent id ended w.db;
    cell = none;
    outbox = (n.id, chat) ∷ w.outbox;
  }

  pub one_job :
      (bot : ℕ → Reply) (text token : Text) (now ended : Instant) (w : World)
      → n.text ≡ some text
      → bot 1 ≡ accepted
      → live now w.cell ≡ none
      → ended <ℤ now +ℤ seconds 60
      → after_load settings bot token now ended id (loaded n chat) w
        ≡ some (was_sent, after_sent ended w)
  unfolding after_load take_lock
  one_job bot text token now ended w has ok free soon =
      let got = acquire_free now (send_lock token) w.cell free in
      rw got (
        rw
          (
            acquired-held now (send_lock token) w.cell got,
            acquired-cell now (send_lock token) w.cell got,
          )
          (unfold send_locked in
            rw (send-accepted settings bot n text has ok, send_locked)
              (unfold finish in
                unfold deliver in
                rw (release_own ended (send_lock token) (entry_of (send_lock token) now) soon refl)
                  refl)))

  -- If two workers have both read the row before either has taken the lock, the lock is free,
  -- Telegram accepts at once, and each one is done within the minute that its lock lives, then both
  -- of them send the message.
  pub sent_twice :
      (bot bot' : ℕ → Reply) (text token token' : Text) (now ended now' ended' : Instant)
      (w : World)
      → load id w.db ≡ loaded n chat
      → n.text ≡ some text
      → bot 1 ≡ accepted
      → bot' 1 ≡ accepted
      → live now w.cell ≡ none
      → ended <ℤ now +ℤ seconds 60
      → ended' <ℤ now' +ℤ seconds 60
      → (first : World) × ((second : World) × ((after_load settings bot token now ended id
                (load id w.db)
                w
              ≡ some (was_sent, first))
            × ((after_load settings bot' token' now' ended' id (load id w.db) first
                  ≡ some (was_sent, second))
                × (second.outbox ≡ (n.id, chat) ∷ (n.id, chat) ∷ w.outbox))))
  sent_twice bot bot' text token token' now ended now' ended' w read has ok ok' free soon soon' =
      let first = after_sent ended w in
      (
        first,
        (
          after_sent ended' first,
          (
            rw read (one_job bot text token now ended w has ok free soon),
            (
              rw read
                  (one_job bot' text token' now' ended' first has ok' (unfold live in refl) soon'),
              refl,
            ),
          ),
        ),
      )
