-- ===== src/Core/Timestamp/Milliseconds.antt =====
-- The millisecond conversions of crates/och-core/src/time.rs.
use open_control_historian.Base.{◌<◌, ◌≡◌, true, ok, arith}
use open_control_historian.Base.Int.{ℤ, pos, negsuc}
use open_control_historian.Core.Timestamp.{
  Timestamp, nanos_per_second, fits_i64, to_unix_milliseconds, from_unix_milliseconds,
}

-- A 64-bit millisecond count survives the conversion to a timestamp and back, negative ones too.
pub to-from_unix_milliseconds :
    (m : ℤ) → fits_i64 m ≡ true → to_unix_milliseconds (from_unix_milliseconds m) ≡ ok m
unfolding to_unix_milliseconds from_unix_milliseconds
to-from_unix_milliseconds (pos m) h = ground arith
to-from_unix_milliseconds (negsuc m) h = ground arith

-- A normalized timestamp that converts to milliseconds is the timestamp of the result.
pub from-to_unix_milliseconds :
    (t : Timestamp) (m : ℤ)
    → t.nanosecond < nanos_per_second
    → to_unix_milliseconds t ≡ ok m
    → from_unix_milliseconds m ≡ t
unfolding to_unix_milliseconds from_unix_milliseconds
from-to_unix_milliseconds t m h e = ground arith
