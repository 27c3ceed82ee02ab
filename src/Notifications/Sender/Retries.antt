-- ===== src/Notifications/Sender/Retries.antt =====
-- The retry loop ends in time, and its end is decided by Telegram's first final reply.
use aucnotif.Prelude.{
  ℕ, zero, suc, ◌+◌, ◌≤◌, ◌<◌, ◌≡◌, refl, Option, some, List, [], ◌∷◌, ◌++◌, arith, false, ltb,
  if◌then◌else◌, inl, inr, subst, Bool-cases,
}
use aucnotif.Prelude.Lists.{length, length-append}
use aucnotif.Prelude.Text.{Text}
use aucnotif.Times.{Duration}
use aucnotif.Config.{Settings}
use aucnotif.Models.{SentNotification}
use aucnotif.Notifications.Sender.{
  Reply, accepted, retry_after, forbidden, api_error, Outcome, delivered, raised, Sending, settle,
  send_loop, send, flood_delay, api_delay,
}

-- Telegram may still accept the message later.
abbrev pub IsTemporary : Reply → Type 0
IsTemporary (retry_after after) = Unit
IsTemporary api_error = Unit
IsTemporary _ = ⊥

-- What a final state of the loop owes to the replies.
abbrev pub Explains : Reply → Outcome → Type 0
Explains accepted o = o ≡ delivered
Explains reply o = o ≡ raised reply

abbrev pub AllTemporary : (ℕ → Reply) → ℕ → Type 0
AllTemporary bot zero = Unit
AllTemporary bot (suc n) = IsTemporary (bot (suc n)) × AllTemporary bot n

not_ltb : (m n : ℕ) → ltb m n ≡ false → n ≤ m
not_ltb m n h = ground arith

module _ (settings : Settings) (bot : ℕ → Reply) where
  -- The loop has ended as it should: all attempts but the last met a temporary error, the last one's reply
  -- is what `send` returns or raises, and it slept once between two attempts.
  pub record Ended (r : Sending) : Type 0 where
    pub earlier : ℕ
    pub count : r.attempts ≡ suc earlier
    pub bounded : r.attempts ≤ settings.telegram_send_max_retries + 1
    pub before : AllTemporary bot earlier
    pub explained : Explains (bot (suc earlier)) r.outcome
    pub pauses : length r.slept ≡ earlier

  Ended-at :
      (attempt : ℕ) (slept : List Duration) (reply : Reply) (outcome : Outcome)
      → suc attempt ≤ settings.telegram_send_max_retries + 1
      → AllTemporary bot attempt
      → length slept ≡ attempt
      → reply ≡ bot (suc attempt)
      → Explains reply outcome
      → Ended (record { outcome = outcome; attempts = suc attempt; slept = slept })
  Ended-at attempt slept reply outcome a t l e x = record {
    earlier = attempt;
    count = refl;
    bounded = a;
    before = t;
    explained = subst (λ r. Explains r outcome) e x;
    pauses = l;
  }

  -- The branch on `attempt > max_retries`, for a temporary error.
  try_again :
      (attempt : ℕ) (slept : List Duration) (reply : Reply) (pause : Duration)
      (again : List Duration → Option Sending)
      → suc attempt ≤ settings.telegram_send_max_retries + 1
      → AllTemporary bot attempt
      → length slept ≡ attempt
      → reply ≡ bot (suc attempt)
      → Explains reply (raised reply)
      → ((slept' : List Duration)
          → length slept' ≡ suc attempt
          → suc attempt ≤ settings.telegram_send_max_retries
          → (r : Sending) × ((again slept' ≡ some r) × Ended r))
      → (r : Sending) × (((if ltb settings.telegram_send_max_retries (suc attempt)
              then some (record { outcome = raised reply; attempts = suc attempt; slept = slept })
              else again (slept ++ pause ∷ []))
            ≡ some r)
          × Ended r)
  try_again attempt slept reply pause again a t l e x k =
      elim (Bool-cases (ltb settings.telegram_send_max_retries (suc attempt))) [
        | inl out ↦ rw out (_, (refl, Ended-at attempt slept reply (raised reply) a t l e x))
        | inr left ↦ rw left (
            k (slept ++ pause ∷ []) (omega (arith, length-append slept (pause ∷ [])))
              (not_ltb _ _ left))
      ]

  settle-Ended :
      (attempt : ℕ) (slept : List Duration) (reply : Reply) (again : List Duration → Option Sending)
      → suc attempt ≤ settings.telegram_send_max_retries + 1
      → AllTemporary bot attempt
      → length slept ≡ attempt
      → reply ≡ bot (suc attempt)
      → (IsTemporary reply
          → (slept' : List Duration) → length slept' ≡ suc attempt
          → suc attempt ≤ settings.telegram_send_max_retries
          → (r : Sending) × ((again slept' ≡ some r) × Ended r))
      → (r : Sending) × ((settle settings bot (suc attempt) slept reply again ≡ some r) × Ended r)
  unfolding settle
  settle-Ended attempt slept accepted again a t l e k =
      (_, (refl, Ended-at attempt slept accepted delivered a t l e refl))
  settle-Ended attempt slept forbidden again a t l e k =
      (_, (refl, Ended-at attempt slept forbidden (raised forbidden) a t l e refl))
  settle-Ended attempt slept (retry_after after) again a t l e k =
      try_again attempt slept (retry_after after) (flood_delay after) again a t l e refl (k tt)
  settle-Ended attempt slept api_error again a t l e k =
      try_again attempt slept api_error (api_delay settings (suc attempt)) again a t l e refl (k tt)

  send_loop-Ended :
      (fuel attempt : ℕ) (slept : List Duration)
      → attempt + fuel ≡ settings.telegram_send_max_retries + 1
      → 0 < fuel
      → AllTemporary bot attempt
      → length slept ≡ attempt
      → (r : Sending) × ((send_loop settings bot fuel attempt slept ≡ some r) × Ended r)
  unfolding send_loop
  send_loop-Ended zero attempt slept f p t l = absurd (omega arith)
  send_loop-Ended (suc fuel) attempt slept f p t l =
      settle-Ended attempt slept (bot (suc attempt)) (send_loop settings bot fuel (suc attempt))
        (omega arith) t l refl
        λ temporary slept' l' room.
          send_loop-Ended fuel (suc attempt) slept' (omega arith) (omega arith) (temporary, t) l'

-- Whatever Telegram replies, sending a notification that has a text comes to an end, after one attempt
-- and at most as many more as there may be retries. Every attempt but the last met a temporary error;
-- the last one's reply decides: the message was accepted, or its exception is raised. Between two
-- attempts there was one pause.
pub send_ends :
    (settings : Settings) (bot : ℕ → Reply) (n : SentNotification) (text : Text)
    → n.text ≡ some text
    → (r : Sending) × ((send settings bot n ≡ some r) × Ended settings bot r)
unfolding send
send_ends settings bot n text e =
    let (r, (p, q)) =
      send_loop-Ended settings bot (suc settings.telegram_send_max_retries) 0 [] (omega arith)
        (omega arith) tt refl in
    (r, (rw e p, q))
