-- ===== src/Store/Error.antt =====
-- crates/och-store/src/error.rs: the refusals of the Journal V1 codec.
use open_control_historian.Base.{Result}

pub data JournalError : Type 0 where
  invalid_header_magic unsupported_header_version invalid_header_length invalid_frame_magic
        unsupported_frame_version unsupported_frame_kind invalid_frame_flags invalid_append_sequence
        non_monotonic_append_sequence append_sequence_overflow payload_too_large truncated
        trailing_bytes checksum_mismatch unknown_tag invalid_count invalid_length invalid_utf8
        invalid_identity invalid_canonical_data :
      JournalError

abbrev pub Journal {ℓ} : Type ℓ → Type ℓ
Journal A = Result JournalError A
