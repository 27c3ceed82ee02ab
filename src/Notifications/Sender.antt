-- ===== src/Notifications/Sender.antt =====
-- app/notifications/sender.py: sending one message with retries. Telegram is a function from the number
-- of an attempt to its reply. The semaphore, which only delays a call, is not modelled.
pub mod Retries
use aucnotif.Prelude.{
  ℕ, zero, suc, ◌+◌, ◌-◌, ◌*◌, ◌^◌, min, max, Option, none, some, List, [], ◌∷◌, ◌++◌, ltb,
  if◌then◌else◌,
}
use aucnotif.Prelude.Int.{pos}
use aucnotif.Times.{Duration, seconds}
use aucnotif.Config.{Settings}
use aucnotif.Models.{SentNotification}

-- What `send_message` does: it returns, or raises one of three exceptions.
pub data Reply : Type 0 where
  accepted : Reply
  retry_after : ℕ → Reply
  forbidden : Reply
  api_error : Reply

-- How `send` ends: it returns, or one of these is raised.
pub data Outcome : Type 0 where
  delivered : Outcome
  raised : Reply → Outcome
  no_text : Outcome

pub record Sending : Type 0 where
  pub outcome : Outcome
  pub attempts : ℕ
  pub slept : List Duration

-- `min(base * 2 ** (attempt - 1), 120)`, with the setting in microseconds.
unfoldable pub api_delay : Settings → ℕ → Duration
api_delay settings attempt =
    pos (min (settings.telegram_send_retry_base_seconds * 2 ^ (attempt - 1)) 120000000)

unfoldable pub flood_delay : ℕ → Duration
flood_delay after = seconds (max after 1)

module _ (settings : Settings) (bot : ℕ → Reply) where
  -- One attempt's reply, and `again` for what the loop does after a pause.
  unfoldable pub settle :
      ℕ → List Duration → Reply → (List Duration → Option Sending) → Option Sending
  settle attempt slept accepted again =
      some (record { outcome = delivered; attempts = attempt; slept = slept })
  settle attempt slept forbidden again =
      some (record { outcome = raised forbidden; attempts = attempt; slept = slept })
  settle attempt slept (retry_after after) again =
      if ltb settings.telegram_send_max_retries attempt
      then some (record { outcome = raised (retry_after after); attempts = attempt; slept = slept })
      else again (slept ++ flood_delay after ∷ [])
  settle attempt slept api_error again =
      if ltb settings.telegram_send_max_retries attempt
      then some (record { outcome = raised api_error; attempts = attempt; slept = slept })
      else again (slept ++ api_delay settings attempt ∷ [])

  -- `while True`, on fuel, where `attempt` attempts have been made. `none` means that the fuel ran out.
  unfoldable pub send_loop : ℕ → ℕ → List Duration → Option Sending
  unfolding settle
  send_loop zero attempt slept = none
  send_loop (suc fuel) attempt slept =
      settle (suc attempt) slept (bot (suc attempt)) (λ slept'. send_loop fuel (suc attempt) slept')

  -- The loop makes at most one attempt more than there may be retries.
  unfoldable pub send : SentNotification → Option Sending
  unfolding send_loop
  send notification = elim notification.text [
    | none ↦ some (record { outcome = no_text; attempts = 0; slept = [] })
    | some text ↦ send_loop (suc settings.telegram_send_max_retries) 0 []
  ]
