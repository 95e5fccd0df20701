-- ===== src/Store/Frame.antt =====
-- crates/och-store/src/codec.rs and lib.rs: append sequences, the file header and admission frames.
pub mod Layout
pub mod Header
pub mod Intact
pub mod Fields
pub mod Exact
pub mod Prefix
pub mod RoundTrip
pub mod Prepared
use open_control_historian.Base.{
  Option, [], drop, err, if◌then◌else◌, length, ltb, none, not, ok, refuse_if, some, take, ℕ, ◌*◌,
  ◌++◌, ◌+◌, ◌-◌, ◌==◌, ◌>>=◌, ◌>>◌, ◌^◌, ◌||◌, ◌∷◌,
}
use open_control_historian.Base.Map.{Bytes, same_bytes}
use open_control_historian.Store.Error.{
  Journal, append_sequence_overflow, checksum_mismatch, invalid_append_sequence,
  invalid_frame_flags, invalid_frame_magic, invalid_header_length, invalid_header_magic,
  non_monotonic_append_sequence, payload_too_large, trailing_bytes, truncated,
  unsupported_frame_kind, unsupported_frame_version, unsupported_header_version,
}
use open_control_historian.Store.Words.{from_be_bytes, to_be_bytes}
use open_control_historian.Store.Checksum.{crc32c}
use open_control_historian.Core.Bounded.{Uuid}
use open_control_historian.Core.Identity.{byte_at, from_bytes}
use open_control_historian.Core.Source.{CanonicalAdmission}
use open_control_historian.Store.Codec.Encode.Payload.{encode_canonical_payload}
use open_control_historian.Store.Codec.Decode.Values.{invalid_identity_bytes}
use open_control_historian.Store.Codec.Decode.Payload.{DecodedAdmission, decode_payload}
use open_control_historian.Store.Validate.{validate_decoded}
use open_control_historian.Store.Codec.Encoder
use open_control_historian.Store.Codec.Cursor

abbrev pub header_magic : Bytes
header_magic = b'O' ∷ b'C' ∷ b'H' ∷ b'J' ∷ b'N' ∷ b'L' ∷ b'0' ∷ b'1' ∷ []

abbrev pub frame_magic : Bytes
frame_magic = b'O' ∷ b'C' ∷ b'H' ∷ b'F' ∷ []

abbrev pub journal_version : ℕ
journal_version = 1

abbrev pub header_len : ℕ
header_len = 28

abbrev pub frame_prefix_len : ℕ
frame_prefix_len = 20

abbrev pub frame_crc_len : ℕ
frame_crc_len = 4

abbrev pub max_admission_payload : ℕ
max_admission_payload = 8 * 1_024 * 1_024

-- `AppendSequenceV1` is its `u64`.
unfoldable pub append_sequence_new : ℕ → Journal ℕ
append_sequence_new value = if value == 0 then err invalid_append_sequence else ok value

unfoldable pub successor : ℕ → Journal ℕ
successor sequence =
    if ltb (sequence + 1) (2 ^ 64) then ok (sequence + 1) else err append_sequence_overflow

-- `DecodeLimitsV1` is its maximum payload length.
unfoldable pub decode_limits_new : ℕ → Journal ℕ
decode_limits_new max_payload_len =
    if ltb max_admission_payload max_payload_len then err payload_too_large else ok max_payload_len

-- `bytes[first..last]`.
abbrev pub slice : ℕ → ℕ → Bytes → Bytes
slice first last bytes = take (last - first) (drop first bytes)

unfoldable pub encode_header : Uuid → Bytes
encode_header store_id =
    header_magic ++ (to_be_bytes 2 journal_version ++ (to_be_bytes 2 header_len ++ store_id))

unfoldable pub decode_header : Bytes → Journal Uuid
decode_header bytes = do
  refuse_if (ltb (length bytes) header_len) truncated
  refuse_if (ltb header_len (length bytes)) trailing_bytes
  refuse_if (not (same_bytes (slice 0 8 bytes) header_magic)) invalid_header_magic
  refuse_if (not (from_be_bytes (slice 8 10 bytes) == journal_version)) unsupported_header_version
  refuse_if (not (from_be_bytes (slice 10 12 bytes) == header_len)) invalid_header_length
  invalid_identity_bytes (from_bytes (slice 12 28 bytes))

-- The first 20 bytes of a frame. The source writes them in place before the payload.
unfoldable pub frame_prefix : ℕ → ℕ → Bytes
frame_prefix append_sequence payload_len =
    frame_magic
    ++ (to_be_bytes 2 journal_version
        ++ (1 ∷ 0 ∷ to_be_bytes 8 append_sequence ++ to_be_bytes 4 payload_len))

unfoldable pub frame_bytes : ℕ → Bytes → Journal Bytes
frame_bytes append_sequence payload =
    let covered = frame_prefix append_sequence (length payload) ++ payload in
    refuse_if (ltb max_admission_payload (length payload)) payload_too_large
    >> ok (covered ++ to_be_bytes 4 (crc32c covered))

unfoldable pub encode_admission_frame : ℕ → CanonicalAdmission → Journal Bytes
encode_admission_frame append_sequence admission = do
  encoder ← encode_canonical_payload admission Encoder.new
  frame_bytes append_sequence (Encoder.finish encoder)

unfoldable pub admission_frame_len : CanonicalAdmission → Journal ℕ
admission_frame_len admission = do
  encoder ← encode_canonical_payload admission Encoder.counting
  refuse_if (ltb max_admission_payload (Encoder.len encoder)) payload_too_large
  ok (frame_prefix_len + Encoder.len encoder + frame_crc_len)

-- What both readers of a prefix check, up to the append sequence.
unfoldable pub check_prefix : Bytes → Journal ℕ
check_prefix bytes = do
  refuse_if (not (same_bytes (slice 0 4 bytes) frame_magic)) invalid_frame_magic
  refuse_if (not (from_be_bytes (slice 4 6 bytes) == journal_version)) unsupported_frame_version
  refuse_if (not (byte_at bytes 6 == 1)) unsupported_frame_kind
  refuse_if (not (byte_at bytes 7 == 0)) invalid_frame_flags
  append_sequence_new (from_be_bytes (slice 8 16 bytes))

-- The frame carries the exact successor of the previous one.
unfoldable pub check_successor : Option ℕ → ℕ → Journal (Unit {0})
check_successor none append_sequence = ok tt
check_successor (some previous) append_sequence = do
  next ← successor previous
  refuse_if (not (append_sequence == next)) non_monotonic_append_sequence

unfoldable pub check_payload_len : ℕ → ℕ → Journal (Unit {0})
check_payload_len limit payload_len =
    refuse_if (ltb max_admission_payload payload_len || ltb limit payload_len) payload_too_large

unfoldable pub frame_len_from_prefix : Bytes → ℕ → Journal ℕ
frame_len_from_prefix prefix limit = do
  refuse_if (not (length prefix == frame_prefix_len)) truncated
  sequence ← check_prefix prefix
  check_payload_len limit (from_be_bytes (slice 16 20 prefix))
  ok (frame_prefix_len + from_be_bytes (slice 16 20 prefix) + frame_crc_len)

-- The two lengths cannot overflow, since the payload length is bounded before.
unfoldable pub decode_admission_frame : Bytes → ℕ → Option ℕ → Journal DecodedAdmission
decode_admission_frame bytes limit previous =
    let payload_len = from_be_bytes (slice 16 20 bytes) in
    let checksum_offset = frame_prefix_len + payload_len in
    let expected_len = checksum_offset + frame_crc_len in
    do
      refuse_if (ltb (length bytes) (frame_prefix_len + frame_crc_len)) truncated
      append_sequence ← check_prefix bytes
      check_successor previous append_sequence
      check_payload_len limit payload_len
      refuse_if (ltb (length bytes) expected_len) truncated
      refuse_if (ltb expected_len (length bytes)) trailing_bytes
      refuse_if
          (not (
            crc32c (take checksum_offset bytes)
            == from_be_bytes (slice checksum_offset expected_len bytes)))
          checksum_mismatch
      (decoded, cursor) ←
          decode_payload append_sequence (Cursor.new (slice frame_prefix_len checksum_offset bytes))
      Cursor.finish cursor
      validate_decoded decoded
      ok decoded
