-- ===== src/Domain/Polling.antt =====
-- app/domain/polling.py: the interval to the next poll.
pub mod Laws
use aucnotif.Prelude.{Option, none, some, if◌then◌else◌}
use aucnotif.Prelude.Int.{ltb_ℤ}
use aucnotif.Times.{Duration, seconds, minutes, hours}
use aucnotif.Config.{Settings}

pub record PollingIntervals : Type 0 where
  pub gt_24h : Duration
  pub from_6h_to_24h : Duration
  pub from_1h_to_6h : Duration
  pub from_30m_to_60m : Duration
  pub from_15m_to_30m : Duration
  pub lt_15m : Duration

unfoldable pub from_settings : Settings → PollingIntervals
from_settings settings = record {
  gt_24h = seconds settings.poll_interval_gt_24h;
  from_6h_to_24h = seconds settings.poll_interval_6_24h;
  from_1h_to_6h = seconds settings.poll_interval_1_6h;
  from_30m_to_60m = seconds settings.poll_interval_30_60m;
  from_15m_to_30m = seconds settings.poll_interval_15_30m;
  lt_15m = seconds settings.poll_interval_lt_15m;
}

abbrev pub default_intervals : PollingIntervals
default_intervals = record {
  gt_24h = hours 6;
  from_6h_to_24h = minutes 30;
  from_1h_to_6h = minutes 10;
  from_30m_to_60m = minutes 2;
  from_15m_to_30m = minutes 1;
  lt_15m = minutes 1;
}

unfoldable pub polling_interval_for : Option Duration → PollingIntervals → Duration
polling_interval_for none intervals = intervals.from_1h_to_6h
polling_interval_for (some until_end) intervals =
    if ltb_ℤ (hours 24) until_end
    then intervals.gt_24h
    else if ltb_ℤ (hours 6) until_end
    then intervals.from_6h_to_24h
    else if ltb_ℤ (hours 1) until_end
    then intervals.from_1h_to_6h
    else if ltb_ℤ (minutes 30) until_end
    then intervals.from_30m_to_60m
    else if ltb_ℤ (minutes 15) until_end
    then intervals.from_15m_to_30m
    else intervals.lt_15m
