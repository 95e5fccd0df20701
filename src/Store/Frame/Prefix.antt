-- ===== src/Store/Frame/Prefix.antt =====
-- A reader that has only the prefix of a frame knows where the frame ends.
use open_control_historian.Base.{
  >>=-eq-ok, [], append-nil, append_assoc, arith, false, guard-ok, length, ltb, ok, subst, take,
  take-append, true, ℕ, ◌++◌, ◌+◌, ◌<◌, ◌==◌, ◌^◌, ◌||◌, ◌≡◌, ◌≤◌,
}
use open_control_historian.Base.Map.{Bytes}
use open_control_historian.Store.Words.{from_be_bytes, to_be_bytes}
use open_control_historian.Store.Checksum.{crc32c}
use open_control_historian.Core.Source.{CanonicalAdmission}
use open_control_historian.Store.Codec.Encode.Payload.{encode_canonical_payload}
use open_control_historian.Store.Frame.{
  check_payload_len, check_prefix, encode_admission_frame, frame_bytes, frame_crc_len,
  frame_len_from_prefix, frame_prefix, frame_prefix_len, max_admission_payload, slice,
}
use open_control_historian.Store.Codec.Encoder.{Encoder, bytes, finish}
use open_control_historian.Store.Frame.Layout.{
  check_prefix-frame_prefix, frame, length-frame, length-frame_prefix, payload_len-frame_prefix,
}
use open_control_historian.Store.Codec.Encoder

-- Of a frame that was encoded, whose payload is within the limit, the first 20 bytes give the
-- length of the whole frame.
pub frame_len_from_prefix-encode :
    (append_sequence limit : ℕ) (admission : CanonicalAdmission) (bytes : Bytes)
    → 0 < append_sequence
    → append_sequence < 2 ^ 64
    → encode_admission_frame append_sequence admission ≡ ok bytes
    → length bytes ≤ frame_prefix_len + limit + frame_crc_len
    → frame_len_from_prefix (take frame_prefix_len bytes) limit ≡ ok (length bytes)
unfolding encode_admission_frame frame_bytes frame_len_from_prefix check_payload_len
frame_len_from_prefix-encode s limit admission bytes positive bound h within =
    let (encoder, _, h₁) = >>=-eq-ok (encode_canonical_payload admission Encoder.new) _ h in
    let payload = Encoder.finish encoder in
    let (small, done) = guard-ok (ltb max_admission_payload (length payload)) _ _ _ h₁ in
    let same : frame s payload ≡ bytes = cc done in
    let size = length-frame s payload in
    let whole : length bytes ≡ frame_prefix_len + length payload + frame_crc_len =
      subst (λ x. length x ≡ frame_prefix_len + length payload + frame_crc_len) same size in
    let prefix = frame_prefix s (length payload) in
    let crc = to_be_bytes 4 (crc32c (prefix ++ payload)) in
    let first : take frame_prefix_len bytes ≡ prefix =
      subst (λ x. take frame_prefix_len x ≡ prefix) same
        (rw (append_assoc prefix payload crc) (
          subst (λ n. take n (prefix ++ (payload ++ crc)) ≡ prefix)
            (length-frame_prefix s (length payload)) (take-append prefix (payload ++ crc)))) in
    let bare = append-nil prefix in
    let sequence : check_prefix prefix ≡ ok s =
      subst (λ x. check_prefix x ≡ ok s) bare
        (check_prefix-frame_prefix s (length payload) [] positive bound) in
    let field : from_be_bytes (slice 16 20 prefix) ≡ length payload =
      subst (λ x. from_be_bytes (slice 16 20 x) ≡ length payload) bare
        (payload_len-frame_prefix s (length payload) [] (ground arith)) in
    let twenty : (length prefix == frame_prefix_len) ≡ true =
      let l = length-frame_prefix s (length payload) in ground arith in
    let allowed : (ltb max_admission_payload (length payload) || ltb limit (length payload))
        ≡ false =
      ground arith in
    rw (first, twenty, sequence, field, allowed, whole)
