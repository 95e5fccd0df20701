-- ===== src/Core/Gap.antt =====
-- crates/och-core/src/collection.rs: producer-sequence gaps.
use open_control_historian.Base.{Bool, err, if◌then◌else◌, leb, ltb, ok, ℕ, ◌&&◌, ◌<◌, ◌==◌}
use open_control_historian.Core.Error.{Checked, empty_gap}

pub data GapReason : Type 0 where
  unknown producer_restart buffer_overflow communication_failure source_data_loss
        administrative_exclusion :
      GapReason

pub record Gap : Type 0 where
  pub epoch : ℕ
  pub start : ℕ
  pub end : ℕ
  pub reason : GapReason

unfoldable pub new : ℕ → ℕ → ℕ → GapReason → Checked Gap
new epoch start end reason =
    if leb end start
    then err empty_gap
    else ok (record { epoch = epoch; start = start; end = end; reason = reason })

unfoldable pub contains : Gap → ℕ → ℕ → Bool
contains g epoch sequence = (g.epoch == epoch) && (leb g.start sequence && ltb sequence g.end)

-- What `new` guarantees of every gap.
abbrev pub IsNonempty : Gap → Type 0
IsNonempty g = g.start < g.end
