-- ===== src/Core/Quality.antt =====
-- crates/och-core/src/quality.rs: the independent quality flags, one bit each of a byte.
use open_control_historian.Base.{Bool, ◌-◌, ◌==◌, if◌then◌else◌, not, ℕ}
use Prim.Native.Nat.{bit_and, bit_or}

abbrev pub flag_stale : ℕ
flag_stale = 1

abbrev pub flag_invalid : ℕ
flag_invalid = 2

abbrev pub flag_substituted : ℕ
flag_substituted = 4

abbrev pub flag_overridden : ℕ
flag_overridden = 8

abbrev pub flag_out_of_service : ℕ
flag_out_of_service = 16

abbrev pub flag_communication_failure : ℕ
flag_communication_failure = 32

-- `QualityFlags::none`.
abbrev pub no_flags : ℕ
no_flags = 0

-- `set`, the body of every `with_…`; `!flag` is the complement in a byte.
unfoldable pub with_flag : ℕ → Bool → ℕ → ℕ
with_flag flag enabled flags = if enabled then bit_or flags flag else bit_and flags (255 - flag)

-- `self.0 & flag != 0`, the body of every accessor.
unfoldable pub has_flag : ℕ → ℕ → Bool
has_flag flag flags = not (bit_and flags flag == 0)
