-- ===== src/Core/TimeInterval.antt =====
-- crates/och-core/src/time.rs: non-empty half-open time intervals.
use open_control_historian.Base.{Bool, ◌&&◌, if◌then◌else◌, not, ok, err}
use open_control_historian.Core.Error.{Checked, empty_time_interval}
use open_control_historian.Core.Timestamp
use open_control_historian.Core.Timestamp.{Timestamp, Timestamp-discrete}

pub record TimeInterval : Type 0 where
  pub start : Timestamp
  pub end : Timestamp

pub TimeInterval-discrete : Discrete TimeInterval
TimeInterval-discrete = hlevel Timestamp-discrete

unfoldable pub new : Timestamp → Timestamp → Checked TimeInterval
new start end =
    if not (Timestamp.lt start end)
    then err empty_time_interval
    else ok (record { start = start; end = end })

unfoldable pub contains : TimeInterval → Timestamp → Bool
contains i timestamp = not (Timestamp.lt timestamp i.start) && Timestamp.lt timestamp i.end
