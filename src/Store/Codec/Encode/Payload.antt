-- ===== src/Store/Codec/Encode/Payload.antt =====
-- crates/och-store/src/codec.rs: how a canonical admission is written.
use open_control_historian.Store.Codec.Encoder.{Put, count, each, skip, ◌then◌}
use open_control_historian.Core.Source.{
  AdmissionEvidence, CanonicalAdmission, evidence_kind, no_change_admission, observed_admission,
}
use open_control_historian.Base.{length}
use open_control_historian.Store.Codec.Encode.Values.{
  encode_retry, encode_source_interval_kind, encode_store_id,
}
use open_control_historian.Store.Codec.Encode.Declarations.{encode_declaration}
use open_control_historian.Store.Codec.Encode.Observations.{encode_envelope}
use open_control_historian.Store.Codec.Encode.Sources.{
  encode_batch, encode_lifecycle, encode_lineage, encode_source_gap,
}

abbrev pub encode_admission_evidence : AdmissionEvidence → Put
encode_admission_evidence (observed_admission observations gaps) =
    count (length observations)
    then each encode_lineage observations
    then count (length gaps)
    then each encode_source_gap gaps
encode_admission_evidence no_change_admission = skip

unfoldable pub encode_canonical_payload : CanonicalAdmission → Put
encode_canonical_payload admission =
    encode_store_id admission.store_id
    then encode_declaration admission.declaration
    then encode_envelope admission.envelope
    then encode_retry admission.retry
    then encode_batch admission.batch
    then encode_lifecycle admission.lifecycle
    then encode_source_interval_kind (evidence_kind admission.evidence)
    then encode_admission_evidence admission.evidence
