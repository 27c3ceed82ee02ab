-- ===== src/Config.antt =====
-- app/config.py: the settings that the modelled code reads. Python's floats among them are counted in
-- microseconds, or as a period.
use aucnotif.Prelude.{ℕ, Bool}
use aucnotif.Prelude.Text.{Text}

pub record Settings : Type 0 where
  pub default_language : Text
  pub yahoo_max_consecutive_errors : ℕ
  pub yahoo_backoff_base_seconds : ℕ
  pub yahoo_backoff_max_seconds : ℕ
  pub store_raw_data : Bool
  pub poll_interval_gt_24h : ℕ
  pub poll_interval_6_24h : ℕ
  pub poll_interval_1_6h : ℕ
  pub poll_interval_30_60m : ℕ
  pub poll_interval_15_30m : ℕ
  pub poll_interval_lt_15m : ℕ
  pub scheduler_tick_seconds : ℕ
  pub poll_lock_ttl_seconds : ℕ
  pub unwatch_grace_period_seconds : ℕ
  pub notify_30m_before_seconds : ℕ
  pub notify_15m_before_seconds : ℕ
  pub notify_5m_before_seconds : ℕ
  pub telegram_send_max_retries : ℕ
  pub telegram_send_retry_base_seconds : ℕ
  pub snapshot_retention_days : ℕ
