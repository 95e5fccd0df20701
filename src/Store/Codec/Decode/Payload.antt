-- ===== src/Store/Codec/Decode/Payload.antt =====
-- crates/och-store/src/decoded.rs and codec.rs: the payload of a frame, read as inspection evidence.
use open_control_historian.Store.Codec.Cursor.{Get, count, pure, repeat, ◌>>=◌}
use open_control_historian.Core.Bounded.{Uuid}
use open_control_historian.Core.Collection.{CollectionEnvelope, max_gaps, max_observations}
use open_control_historian.Core.Declaration.{SeriesDeclaration}
use open_control_historian.Core.Retry.{RetryQualification}
use open_control_historian.Core.Source.{
  AdmissionEvidence, CanonicalAdmission, CaptureLifecycle, SourceBatchMetadata, SourceIntervalKind,
  no_change_admission, no_change_interval, observed_admission, observed_interval,
}
use open_control_historian.Base.{ℕ}
use open_control_historian.Store.Codec.Decode.Values.{
  decode_retry, decode_source_interval_kind, decode_store_id,
}
use open_control_historian.Store.Codec.Decode.Declarations.{decode_declaration}
use open_control_historian.Store.Codec.Decode.Observations.{decode_envelope}
use open_control_historian.Store.Codec.Decode.Sources.{
  decode_batch, decode_lifecycle, decode_lineage, decode_source_gap,
}

-- `DecodedAdmissionV1`. Its declaration, lineages and evidence have the fields of the canonical ones.
pub record DecodedAdmission : Type 0 where
  pub append_sequence : ℕ
  pub store_id : Uuid
  pub declaration : SeriesDeclaration
  pub envelope : CollectionEnvelope
  pub retry : RetryQualification
  pub batch : SourceBatchMetadata
  pub lifecycle : CaptureLifecycle
  pub evidence : AdmissionEvidence

-- What a decoder of a canonical admission is to give.
abbrev pub decoded_of : ℕ → CanonicalAdmission → DecodedAdmission
decoded_of append_sequence admission = record {
  append_sequence = append_sequence;
  store_id = admission.store_id;
  declaration = admission.declaration;
  envelope = admission.envelope;
  retry = admission.retry;
  batch = admission.batch;
  lifecycle = admission.lifecycle;
  evidence = admission.evidence;
}

unfoldable pub decode_admission_evidence : SourceIntervalKind → Get AdmissionEvidence
decode_admission_evidence observed_interval = do
  observation_count ← count max_observations
  observations ← repeat observation_count decode_lineage
  gap_count ← count max_gaps
  gaps ← repeat gap_count decode_source_gap
  pure (observed_admission observations gaps)
decode_admission_evidence no_change_interval = pure no_change_admission

unfoldable pub decode_payload : ℕ → Get DecodedAdmission
decode_payload append_sequence = do
  store_id ← decode_store_id
  declaration ← decode_declaration
  envelope ← decode_envelope
  retry ← decode_retry
  batch ← decode_batch
  lifecycle ← decode_lifecycle
  evidence ← decode_source_interval_kind >>= decode_admission_evidence
  pure (record {
    append_sequence = append_sequence;
    store_id = store_id;
    declaration = declaration;
    envelope = envelope;
    retry = retry;
    batch = batch;
    lifecycle = lifecycle;
    evidence = evidence;
  })
