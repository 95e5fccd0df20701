-- ===== src/Store/Frame/Prepared.antt =====
-- crates/och-store/src/codec.rs: an admission encoded before the writer gives it a sequence.
use open_control_historian.Base.{
  Bool-cases, Result, Result-cases, [], arith, err, inl, inr, length, ltb, not, ok, refuse_if, true,
  ℕ, ◌+◌, ◌==◌, ◌>>=◌, ◌>>◌, ◌≡◌,
}
use open_control_historian.Base.Map.{Bytes}
use open_control_historian.Store.Error.{Journal, JournalError, invalid_canonical_data}
use open_control_historian.Core.Source.{CanonicalAdmission}
use open_control_historian.Store.Codec.Encode.Payload.{encode_canonical_payload}
use open_control_historian.Store.Frame.{
  admission_frame_len, encode_admission_frame, frame_bytes, frame_crc_len, frame_prefix_len,
  max_admission_payload,
}
use open_control_historian.Store.Codec.Agreement.Payload.{Agrees-payload}
use open_control_historian.Store.Codec.Encoder.{Encoder, bytes, finish, saturating_add}
use open_control_historian.Store.Frame.Layout.{length-frame}
use open_control_historian.Store.Codec.Encoder

pub record PreparedAdmission : Type 0 where
  pub admission : CanonicalAdmission
  pub payload : Bytes
  pub frame_len : ℕ

-- The refusal with the admission it gives back.
pub record PrepareAdmissionError : Type 0 where
  pub error : JournalError
  pub admission : CanonicalAdmission

pub record PreparedFrame : Type 0 where
  pub admission : CanonicalAdmission
  pub append_sequence : ℕ
  pub bytes : Bytes

abbrev pub Preparing {ℓ} : Type ℓ → Type ℓ
Preparing A = Result PrepareAdmissionError A

-- A refusal that carries the admission.
abbrev pub carrying {ℓ} : {A : Type ℓ} → CanonicalAdmission → Journal A → Preparing A
carrying admission (ok a) = ok a
carrying admission (err e) = err (record { error = e; admission = admission })

-- `PreparedAdmissionV1::new`.
unfoldable pub prepare : CanonicalAdmission → Preparing PreparedAdmission
prepare admission = do
  frame_len ← carrying admission (admission_frame_len admission)
  encoder ← carrying admission (encode_canonical_payload admission Encoder.new)
  let payload = Encoder.finish encoder
  carrying admission (
      refuse_if (not (frame_prefix_len + length payload + frame_crc_len == frame_len))
        invalid_canonical_data)
  ok (record { admission = admission; payload = payload; frame_len = frame_len })

unfoldable pub into_frame : PreparedAdmission → ℕ → Preparing PreparedFrame
into_frame prepared append_sequence = do
  bytes ← carrying prepared.admission (frame_bytes append_sequence prepared.payload)
  carrying prepared.admission
      (refuse_if (not (length bytes == prepared.frame_len)) invalid_canonical_data)
  ok (record { admission = prepared.admission; append_sequence = append_sequence; bytes = bytes })

-- What the two steps are for: to encode the admission as one frame.
abbrev pub framed : CanonicalAdmission → ℕ → Preparing PreparedFrame
framed admission append_sequence =
    carrying admission (encode_admission_frame append_sequence admission) >>= λ bytes.
    ok (record { admission = admission; append_sequence = append_sequence; bytes = bytes })

-- Preparing an admission and giving it its sequence later is encoding it as a frame: the two checks
-- of the length never refuse, every refusal is the encoder's and gives the admission back.
pub into_frame-prepare :
    (admission : CanonicalAdmission) (append_sequence : ℕ)
    → (prepare admission >>= λ prepared. into_frame prepared append_sequence)
      ≡ framed admission append_sequence
unfolding prepare into_frame encode_admission_frame admission_frame_len frame_bytes
into_frame-prepare admission append_sequence =
    let agrees = Agrees-payload admission in
    elim (Result-cases agrees.outcome) [
      | inl (w, e) ↦
          let collected = agrees.collects [] in
          let counted = agrees.counts 0 (omega arith) in
          elim (Bool-cases (ltb max_admission_payload (length w))) [
            | inl large ↦
                let too_large : ltb max_admission_payload (saturating_add 0 (length w)) ≡ true =
                  ground arith in
                rw (collected, counted, e, large, too_large)
            | inr small ↦
                let same : saturating_add 0 (length w) ≡ length w = ground arith in
                let whole = length-frame append_sequence w in
                let size = frame_prefix_len + length w + frame_crc_len in
                let equal : (size == size) ≡ true = ground arith in
                rw (collected, counted, e, same, small, equal, small, whole, equal)
          ]
      | inr (refusal, e) ↦ rw (agrees.collects [], agrees.counts 0 (omega arith), e)
    ]
