-- ===== src/Core/Timestamp.antt =====
-- crates/och-core/src/time.rs: normalized timestamps.
-- `i64` is an integer; its range is stated where the code depends on it.
pub mod Milliseconds
use open_control_historian.Base.{
  ℕ, ◌+◌, ◌-◌, ◌*◌, ◌/◌, ◌%◌, ◌^◌, Bool, ◌&&◌, ◌||◌, Option, if◌then◌else◌, ltb, leb, ◌==◌, not, ok,
  err, ℕ_discrete,
}
use open_control_historian.Base.Int.{ℤ, pos, negsuc, pos_part, neg_part, sub_ℕ, ltb_ℤ, ℤ-discrete}
use open_control_historian.Core.Error.{
  Checked, invalid_nanosecond, inexact_unix_milliseconds, unix_milliseconds_overflow,
}

pub record Timestamp : Type 0 where
  pub unix_seconds : ℤ
  pub nanosecond : ℕ

pub Timestamp-discrete : Discrete Timestamp
Timestamp-discrete = hlevel (ℕ_discrete, ℤ-discrete)

-- The derived order: by seconds, then by nanoseconds.
abbrev pub lt : Timestamp → Timestamp → Bool
lt a b =
    ltb_ℤ a.unix_seconds b.unix_seconds
    || not (ltb_ℤ b.unix_seconds a.unix_seconds) && ltb a.nanosecond b.nanosecond

abbrev pub nanos_per_second : ℕ
nanos_per_second = 1_000_000_000

unfoldable pub new : ℤ → ℕ → Checked Timestamp
new unix_seconds nanosecond =
    if leb nanos_per_second nanosecond
    then err invalid_nanosecond
    else ok (record { unix_seconds = unix_seconds; nanosecond = nanosecond })

-- `div_euclid(1_000)` and `rem_euclid(1_000)`: the quotient rounds down.
abbrev div_euclid : ℤ → ℤ
div_euclid (pos m) = pos (m / 1_000)
div_euclid (negsuc m) = negsuc (m / 1_000)

abbrev rem_euclid : ℤ → ℕ
rem_euclid (pos m) = m % 1_000
rem_euclid (negsuc m) = 999 - m % 1_000

unfoldable pub from_unix_milliseconds : ℤ → Timestamp
from_unix_milliseconds milliseconds = record {
  unix_seconds = div_euclid milliseconds;
  nanosecond = rem_euclid milliseconds * 1_000_000;
}

-- `i64::try_from`, over the bounds of the type.
abbrev pub fits_i64 : ℤ → Bool
fits_i64 (pos n) = ltb n (2 ^ 63)
fits_i64 (negsuc n) = ltb n (2 ^ 63)

-- The product and the sum are taken in `i128`, where they cannot overflow.
unfoldable pub to_unix_milliseconds : Timestamp → Checked ℤ
to_unix_milliseconds t =
    let milliseconds =
      sub_ℕ (pos_part t.unix_seconds * 1_000 + t.nanosecond / 1_000_000)
        (neg_part t.unix_seconds * 1_000) in
    if not (t.nanosecond % 1_000_000 == 0)
    then err inexact_unix_milliseconds
    else if fits_i64 milliseconds
    then ok milliseconds
    else err unix_milliseconds_overflow

pub record ObservationTimes : Type 0 where
  pub source : Option Timestamp
  pub receive : Timestamp
  pub effective : Timestamp

pub ObservationTimes-discrete : Discrete ObservationTimes
ObservationTimes-discrete = hlevel Timestamp-discrete
