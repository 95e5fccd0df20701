-- ===== src/Store/Frame/Layout.antt =====
-- Where the parts of a frame lie, and that a frame with a decodable payload is accepted.
use open_control_historian.Base.{
  Option, [], append-nil, append_assoc, arith, drop, drop-append, false, length, length-append, ltb,
  none, ok, refl, some, subst, take, take-append, true, true→holds, ℕ, ◌++◌, ◌+◌, ◌-◌, ◌<◌, ◌==◌,
  ◌^◌, ◌||◌, ◌≡◌, ◌≤◌,
}
use open_control_historian.Base.Map.{Bytes, Bytes-discrete, same_bytes}
use open_control_historian.Store.Words.{
  from-to_be_bytes, from_be_bytes, length-to_be_bytes, to_be_bytes,
}
use open_control_historian.Store.Checksum.{crc32c, crc32c-bound}
use open_control_historian.Core.Identity.{byte_at}
use open_control_historian.Store.Codec.Decode.Payload.{DecodedAdmission, decode_payload}
use open_control_historian.Store.Validate.{validate_decoded}
use open_control_historian.Store.Frame.{
  append_sequence_new, check_payload_len, check_prefix, check_successor, decode_admission_frame,
  frame_crc_len, frame_magic, frame_prefix, frame_prefix_len, journal_version,
  max_admission_payload, slice, successor,
}
use open_control_historian.Store.Codec.RoundTrip.Combinators.{Reads, at}
use open_control_historian.Store.Codec.Cursor

same_bytes_refl : (xs : Bytes) → same_bytes xs xs ≡ true
same_bytes_refl xs = true→holds (Bytes-discrete xs xs) refl

pub length-frame_prefix : (s n : ℕ) → length (frame_prefix s n) ≡ frame_prefix_len
unfolding frame_prefix to_be_bytes
length-frame_prefix s n = refl

sequence_field : (s n : ℕ) (rest : Bytes) → slice 8 16 (frame_prefix s n ++ rest) ≡ to_be_bytes 8 s
unfolding frame_prefix to_be_bytes
sequence_field s n rest = refl

length_field : (s n : ℕ) (rest : Bytes) → slice 16 20 (frame_prefix s n ++ rest) ≡ to_be_bytes 4 n
unfolding frame_prefix to_be_bytes
length_field s n rest = refl

version_field :
    (s n : ℕ) (rest : Bytes) → slice 4 6 (frame_prefix s n ++ rest) ≡ to_be_bytes 2 journal_version
unfolding frame_prefix to_be_bytes
version_field s n rest = refl

pub payload_len-frame_prefix :
    (s n : ℕ) (rest : Bytes)
    → n < 2 ^ 32
    → from_be_bytes (slice 16 20 (frame_prefix s n ++ rest)) ≡ n
payload_len-frame_prefix s n rest h = rw (length_field s n rest) (from-to_be_bytes 4 n h)

pub check_prefix-frame_prefix :
    (s n : ℕ) (rest : Bytes) → 0 < s → s < 2 ^ 64 → check_prefix (frame_prefix s n ++ rest) ≡ ok s
unfolding check_prefix append_sequence_new
check_prefix-frame_prefix s n rest positive bound =
    let frame = frame_prefix s n ++ rest in
    let magic : same_bytes (slice 0 4 frame) frame_magic ≡ true =
      unfold frame_prefix in same_bytes_refl frame_magic in
    let version : from_be_bytes (slice 4 6 frame) ≡ journal_version =
      rw (version_field s n rest) (from-to_be_bytes 2 journal_version (omega arith)) in
    let kind : byte_at frame 6 ≡ 1 = unfold frame_prefix to_be_bytes in refl in
    let flags : byte_at frame 7 ≡ 0 = unfold frame_prefix to_be_bytes in refl in
    let sequence : from_be_bytes (slice 8 16 frame) ≡ s =
      rw (sequence_field s n rest) (from-to_be_bytes 8 s bound) in
    let nonzero : (s == 0) ≡ false = ground arith in
    rw (magic, version, kind, flags, sequence, nonzero)

-- The frame comes first, or right after the one of the sequence before.
unfoldable pub Follows : Option ℕ → ℕ → Type 0
Follows none s = Unit
Follows (some previous) s = s ≡ previous + 1

pub check_successor-Follows :
    (previous : Option ℕ) (s : ℕ)
    → s < 2 ^ 64
    → Follows previous s
    → check_successor previous s ≡ ok tt
unfolding Follows check_successor successor
check_successor-Follows none s bound h = refl
check_successor-Follows (some p) s bound h =
    let room : ltb (p + 1) (2 ^ 64) ≡ true = ground arith in
    let same : (s == p + 1) ≡ true = ground arith in rw (room, same)

module _ (s : ℕ) (payload : Bytes) where
  abbrev covered : Bytes
  covered = frame_prefix s (length payload) ++ payload

  abbrev pub frame : Bytes
  frame = covered ++ to_be_bytes 4 (crc32c covered)

  length-covered : length covered ≡ frame_prefix_len + length payload
  length-covered = omega (
    arith,
    length-append (frame_prefix s (length payload)) payload,
    length-frame_prefix s (length payload),
  )

  pub length-frame : length frame ≡ frame_prefix_len + length payload + frame_crc_len
  length-frame = omega (
    arith,
    length-append covered (to_be_bytes 4 (crc32c covered)),
    length-to_be_bytes 4 (crc32c covered),
    length-covered,
  )

  checksum_covers : take (frame_prefix_len + length payload) frame ≡ covered
  checksum_covers =
      subst (λ n. take n frame ≡ covered) length-covered
        (take-append covered (to_be_bytes 4 (crc32c covered)))

  stored_checksum : from_be_bytes (drop (frame_prefix_len + length payload) frame) ≡ crc32c covered
  stored_checksum =
      subst (λ n. from_be_bytes (drop n frame) ≡ crc32c covered) length-covered
        (rw (drop-append covered (to_be_bytes 4 (crc32c covered)))
          (from-to_be_bytes 4 (crc32c covered) (crc32c-bound covered)))

  checksum_field :
      slice
        (frame_prefix_len + length payload)
        (frame_prefix_len + length payload + frame_crc_len)
        frame
      ≡ to_be_bytes 4 (crc32c covered)
  checksum_field =
      let four : frame_prefix_len
            + length payload
            + frame_crc_len
            - (frame_prefix_len + length payload)
          ≡ length (to_be_bytes 4 (crc32c covered)) =
        omega (arith, length-to_be_bytes 4 (crc32c covered)) in
      let rest = take-append (to_be_bytes 4 (crc32c covered)) [] in
      let after : drop (frame_prefix_len + length payload) frame ≡ to_be_bytes 4 (crc32c covered) =
        subst (λ n. drop n frame ≡ to_be_bytes 4 (crc32c covered)) length-covered
          (drop-append covered (to_be_bytes 4 (crc32c covered))) in
      rw (four, after) (rw (append-nil (to_be_bytes 4 (crc32c covered))) at rest)

  payload_field : slice frame_prefix_len (frame_prefix_len + length payload) frame ≡ payload
  payload_field =
      let prefix = frame_prefix s (length payload) in
      let crc = to_be_bytes 4 (crc32c covered) in
      let size : frame_prefix_len + length payload - frame_prefix_len ≡ length payload =
        omega arith in
      let after : drop frame_prefix_len frame ≡ payload ++ crc =
        rw (append_assoc prefix payload crc) (
          subst (λ n. drop n (prefix ++ (payload ++ crc)) ≡ payload ++ crc)
            (length-frame_prefix s (length payload)) (drop-append prefix (payload ++ crc))) in
      rw (size, after, take-append payload crc)

  -- The payload of a frame, read from its start to its end.
  read_payload :
      (read : Cursor.Get DecodedAdmission) (decoded : DecodedAdmission)
      → Reads read payload decoded
      → length payload < 2 ^ 64
      → (cursor : Cursor.Cursor) × (read (Cursor.new payload) ≡ ok (decoded, cursor))
        × (Cursor.finish cursor ≡ ok tt)
  unfolding Cursor.finish
  read_payload read decoded reads fits =
      let whole = append-nil payload in
      let bounded : length ([] ++ (payload ++ [])) < 2 ^ 64 = rw whole fits in
      let done : (length payload == length (payload ++ [])) ≡ true = rw whole (ground arith) in
      (
        at payload [],
        subst (λ bytes. read (record { bytes = bytes; offset = 0 }) ≡ ok (decoded, at payload []))
            whole (reads [] [] bounded),
        rw done,
      )

  -- A frame whose payload is read to its end, as a valid admission, is accepted.
  pub decode-frame_read :
      (limit : ℕ) (previous : Option ℕ) (decoded : DecodedAdmission) (cursor : Cursor.Cursor)
      → 0 < s
      → s < 2 ^ 64
      → length payload ≤ max_admission_payload
      → length payload ≤ limit
      → Follows previous s
      → decode_payload s (Cursor.new payload) ≡ ok (decoded, cursor)
      → Cursor.finish cursor ≡ ok tt
      → validate_decoded decoded ≡ ok tt
      → decode_admission_frame frame limit previous ≡ ok decoded
  unfolding decode_admission_frame check_payload_len
  decode-frame_read limit previous decoded cursor positive bound small within follows read done
        valid =
      let crc = to_be_bytes 4 (crc32c covered) in
      let flat = append_assoc (frame_prefix s (length payload)) payload crc in
      let size : from_be_bytes (slice 16 20 frame) ≡ length payload =
        rw flat (payload_len-frame_prefix s (length payload) (payload ++ crc) (omega arith)) in
      let prefix : check_prefix frame ≡ ok s =
        rw flat (check_prefix-frame_prefix s (length payload) (payload ++ crc) positive bound) in
      let whole = length-frame in
      let long : ltb (length frame) (frame_prefix_len + frame_crc_len) ≡ false = ground arith in
      let allowed : (ltb max_admission_payload (length payload) || ltb limit (length payload))
          ≡ false =
        ground arith in
      let checksum : (crc32c covered == from_be_bytes crc) ≡ true =
        rw (from-to_be_bytes 4 (crc32c covered) (crc32c-bound covered)) (ground arith) in
      let expected = frame_prefix_len + length payload + frame_crc_len in
      let complete : ltb (length frame) expected ≡ false = ground arith in
      let exact : ltb expected (length frame) ≡ false = ground arith in
      rw (
        size,
        long,
        prefix,
        check_successor-Follows previous s bound follows,
        allowed,
        complete,
        exact,
        checksum_covers,
        checksum_field,
        checksum,
        payload_field,
        read,
        done,
        valid,
      )

  -- A frame whose payload decodes to a valid admission is accepted.
  pub decode-frame :
      (limit : ℕ) (previous : Option ℕ) (decoded : DecodedAdmission)
      → 0 < s
      → s < 2 ^ 64
      → length payload ≤ max_admission_payload
      → length payload ≤ limit
      → Follows previous s
      → Reads (decode_payload s) payload decoded
      → validate_decoded decoded ≡ ok tt
      → decode_admission_frame frame limit previous ≡ ok decoded
  decode-frame limit previous decoded positive bound small within follows reads valid =
      let (cursor, read, done) = read_payload (decode_payload s) decoded reads (omega arith) in
      decode-frame_read limit previous decoded cursor positive bound small within follows read done
        valid
