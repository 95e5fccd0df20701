-- ===== src/Store/Frame/RoundTrip.antt =====
-- An admission that is framed is read back, and its frame is as long as was counted.
use open_control_historian.Base.{
  Bool-cases, Option, Result-cases, [], ap, arith, err, inl, inr, length, ltb, map_ok, ok, sym,
  true, ℕ, ◌+◌, ◌<◌, ◌^◌, ◌∙◌, ◌≡◌, ◌≤◌,
}
use open_control_historian.Base.Map.{Bytes}
use open_control_historian.Store.Error.{payload_too_large}
use open_control_historian.Core.Source.{CanonicalAdmission}
use open_control_historian.Store.Codec.Decode.Payload.{decoded_of}
use open_control_historian.Store.Validate.{validate_decoded}
use open_control_historian.Store.Frame.{
  admission_frame_len, decode_admission_frame, encode_admission_frame, frame_bytes, frame_crc_len,
  frame_prefix_len, max_admission_payload,
}
use open_control_historian.Store.Codec.RoundTrip.Payload.{IsAdmission, RoundTrips-payload}
use open_control_historian.Store.Codec.Agreement.Payload.{Agrees-payload}
use open_control_historian.Store.Codec.Encoder.{saturating_add}
use open_control_historian.Store.Frame.Layout.{Follows, decode-frame, frame, length-frame}

-- The length that is counted before anything is written is that of the frame, and the counting
-- pass refuses exactly what the writing pass refuses, with the same error.
pub admission_frame_len-encode :
    (append_sequence : ℕ) (admission : CanonicalAdmission)
    → admission_frame_len admission
      ≡ map_ok (λ bytes. length bytes) (encode_admission_frame append_sequence admission)
unfolding admission_frame_len encode_admission_frame frame_bytes
admission_frame_len-encode append_sequence admission =
    let agrees = Agrees-payload admission in
    elim (Result-cases agrees.outcome) [
      | inl (w, e) ↦
          let collected = agrees.collects [] in
          let counted = agrees.counts 0 (omega arith) in
          elim (Bool-cases (ltb max_admission_payload (length w))) [
            | inl large ↦
                let too_large : ltb max_admission_payload (saturating_add 0 (length w)) ≡ true =
                  ground arith in
                rw (collected, counted, e, large, too_large)
            | inr small ↦
                let whole = length-frame append_sequence w in
                let same : saturating_add 0 (length w) ≡ length w = ground arith in
                rw (collected, counted, e, same, small, whole)
          ]
      | inr (refusal, e) ↦ rw (agrees.collects [], agrees.counts 0 (omega arith), e)
    ]

-- The value is read back from what was written: an admission of allowed values, whose decoded form
-- satisfies the relations between its parts and whose counted frame length is within the limit, is
-- encoded, and its frame is decoded to the same admission under its sequence, when that is nonzero
-- and comes first or right after the previous one.
pub decode-encode_admission_frame :
    (append_sequence limit : ℕ) (previous : Option ℕ) (admission : CanonicalAdmission) (n : ℕ)
    → 0 < append_sequence
    → append_sequence < 2 ^ 64
    → Follows previous append_sequence
    → IsAdmission admission
    → validate_decoded (decoded_of append_sequence admission) ≡ ok tt
    → admission_frame_len admission ≡ ok n
    → n ≤ frame_prefix_len + limit + frame_crc_len
    → (bytes : Bytes) × (encode_admission_frame append_sequence admission ≡ ok bytes)
      × (decode_admission_frame bytes limit previous ≡ ok (decoded_of append_sequence admission))
unfolding encode_admission_frame frame_bytes
decode-encode_admission_frame s limit previous a n positive bound follows allowed valid counted
      within =
    let pair = RoundTrips-payload s a allowed in
    let w = pair.written in
    let same_length = admission_frame_len-encode s a in
    elim (Bool-cases (ltb max_admission_payload (length w))) [
      | inl large ↦
          let refused : encode_admission_frame s a ≡ err payload_too_large =
            rw (pair.writes [], large) in
          let uncounted : admission_frame_len a ≡ err payload_too_large =
            same_length ∙ ap (map_ok (λ bytes. length bytes)) refused in
          cc (uncounted, counted)
      | inr small ↦
          let encoded : encode_admission_frame s a ≡ ok (frame s w) = rw (pair.writes [], small) in
          let length_w = length-frame s w in
          let size : length (frame s w) ≡ n =
            let measured = sym (ap (map_ok (λ bytes. length bytes)) encoded) in
            cc (measured, same_length, counted) in
          (
            frame s w,
            encoded,
            decode-frame s w limit previous (decoded_of s a) positive bound (ground arith)
                (omega arith) follows pair.reads valid,
          )
    ]
