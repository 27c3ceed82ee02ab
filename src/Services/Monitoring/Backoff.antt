-- ===== src/Services/Monitoring/Backoff.antt =====
-- The pause after an error, by the number of errors in a row.
use native.Mathlib.Nat.{pow-suc}
use aucnotif.Prelude.{ℕ, suc, ◌-◌, ◌*◌, ◌^◌, ◌≡◌, ap, min, arith}
use aucnotif.Prelude.Int.{pos, pos_part}
use aucnotif.Config.{Settings}
use aucnotif.Services.Monitoring.{backoff}

sub-one : (n : ℕ) → suc n - 1 ≡ n
sub-one n = omega arith

cap_twice :
    (base power cap : ℕ) → min (base * (power * 2)) cap ≡ min (2 * min (base * power) cap) cap
cap_twice base power cap = omega (arith)

-- The first pause is the base, and each one is twice the one before, until the maximum cuts it off.
pub backoff_doubles :
    (settings : Settings) (n : ℕ)
    → (backoff settings 1
        ≡ pos (min settings.yahoo_backoff_base_seconds settings.yahoo_backoff_max_seconds))
      × (backoff settings (suc (suc n))
          ≡ pos (min (2 * pos_part (backoff settings (suc n))) settings.yahoo_backoff_max_seconds))
unfolding backoff
backoff_doubles settings n = (
  ap pos (omega arith),
  ap pos (
      rw (sub-one (suc n), sub-one n)
        (rw (pow-suc 2 n) (
          cap_twice settings.yahoo_backoff_base_seconds (2 ^ n)
            settings.yahoo_backoff_max_seconds))),
)
