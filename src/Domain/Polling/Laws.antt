-- ===== src/Domain/Polling/Laws.antt =====
-- The interval against the time that is left: it grows with it, and no interval runs past the end
-- while more than fifteen minutes are left.
use aucnotif.Prelude.{some, arith}
use aucnotif.Prelude.Int.{◌-ℤ◌, ◌≤ℤ◌, ◌<ℤ◌, -ℤ_parts}
use aucnotif.Times.{Duration, minutes}
use aucnotif.Domain.Polling.{PollingIntervals, default_intervals, polling_interval_for}

-- The six intervals fall, or stay, from one bucket to the next nearer one.
pub record IsOrdered (i : PollingIntervals) : Type 0 where
  pub day : i.from_6h_to_24h ≤ℤ i.gt_24h
  pub six_hours : i.from_1h_to_6h ≤ℤ i.from_6h_to_24h
  pub hour : i.from_30m_to_60m ≤ℤ i.from_1h_to_6h
  pub half_hour : i.from_15m_to_30m ≤ℤ i.from_30m_to_60m
  pub quarter : i.lt_15m ≤ℤ i.from_15m_to_30m

-- With ordered intervals, the nearer the end the shorter the interval: less time left never gives a
-- longer wait.
pub polling_interval_mono :
    (i : PollingIntervals) (near far : Duration)
    → IsOrdered i
    → near ≤ℤ far
    → polling_interval_for (some near) i ≤ℤ polling_interval_for (some far) i
unfolding polling_interval_for
polling_interval_mono i near far o h = ground arith

-- With the default intervals, as long as more than fifteen minutes are left, the next poll comes at
-- least fourteen minutes before the end.
pub polling-before_end :
    (left : Duration)
    → minutes 15 <ℤ left
    → minutes 14 ≤ℤ left -ℤ polling_interval_for (some left) default_intervals
unfolding polling_interval_for
polling-before_end left h =
    ground (arith, -ℤ_parts left (polling_interval_for (some left) default_intervals))
