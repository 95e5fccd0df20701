-- ===== src/Core/Source.antt =====
-- crates/och-core/src/source.rs: source and capture evidence, and the admission that holds it.
-- `SourceSchemaIdentity` and `SourceProjection` are texts that `declaration_reference_new` accepts.
use open_control_historian.Base.{
  Bool, List, Option, err, false, if◌then◌else◌, leb, none, not, ok, refuse_if, some, ℕ, ℕ_discrete,
  ◌==◌, ◌>>◌,
}
use open_control_historian.Base.Map.{same_bytes}
use open_control_historian.Core.Error.{
  Checked, capture_run_endpoint_mismatch, capture_run_time_order, empty_gap,
  invalid_source_schema_version, source_endpoint_system_mismatch, source_snapshot_run_mismatch,
}
use open_control_historian.Core.Bounded.{Text, Uuid}
use open_control_historian.Core.Timestamp.{Timestamp, lt}
use open_control_historian.Core.Value.{ArtifactReference, ContentIdentity}
use open_control_historian.Core.Collection.{CollectionEnvelope}
use open_control_historian.Core.Declaration.{
  ReferenceEvidence, SeriesDeclaration, SourceReference, SourceReference-discrete,
}
use open_control_historian.Core.Retry.{RetryQualification}
use open_control_historian.Core.Timestamp

-- `SourceSchemaVersion` is its `u128`.
unfoldable pub source_schema_version_new : ℕ → Checked ℕ
source_schema_version_new value = if value == 0 then err invalid_source_schema_version else ok value

pub data SourceIntervalKind : Type 0 where
  observed_interval no_change_interval : SourceIntervalKind

unfoldable pub SourceIntervalKind-discrete : Discrete SourceIntervalKind
SourceIntervalKind-discrete = hlevel

pub record SourceBatchMetadata : Type 0 where
  pub schema : Text
  pub version : ℕ
  pub interval : SourceIntervalKind

pub record SourceSystemEvidence : Type 0 where
  pub evidence_id : Uuid
  pub provider : Text
  pub projection : Text

pub record SourceEndpointEvidence : Type 0 where
  pub evidence_id : Uuid
  pub system_id : Uuid
  pub locator : Text

pub record CaptureRunEvidence : Type 0 where
  pub evidence_id : Uuid
  pub endpoint_id : Uuid
  pub started_at : Timestamp
  pub completed_at : Option Timestamp

abbrev completed_before : Option Timestamp → Timestamp → Bool
completed_before none started = false
completed_before (some completed) started = Timestamp.lt completed started

unfoldable pub capture_run_evidence_new :
    Uuid → Uuid → Timestamp → Option Timestamp → Checked CaptureRunEvidence
capture_run_evidence_new evidence_id endpoint_id started_at completed_at =
    if completed_before completed_at started_at
    then err capture_run_time_order
    else ok (record {
      evidence_id = evidence_id;
      endpoint_id = endpoint_id;
      started_at = started_at;
      completed_at = completed_at;
    })

pub record SourceSnapshotEvidence : Type 0 where
  pub evidence_id : Uuid
  pub run_id : Uuid
  pub artifact : ArtifactReference

pub record CaptureLifecycle : Type 0 where
  pub system : SourceSystemEvidence
  pub endpoint : SourceEndpointEvidence
  pub run : CaptureRunEvidence
  pub snapshot : SourceSnapshotEvidence

unfoldable pub capture_lifecycle_new :
    SourceSystemEvidence
    → SourceEndpointEvidence
    → CaptureRunEvidence
    → SourceSnapshotEvidence
    → Checked CaptureLifecycle
capture_lifecycle_new system endpoint run snapshot = do
  refuse_if (not (same_bytes endpoint.system_id system.evidence_id)) source_endpoint_system_mismatch
  refuse_if (not (same_bytes run.endpoint_id endpoint.evidence_id)) capture_run_endpoint_mismatch
  refuse_if (not (same_bytes snapshot.run_id run.evidence_id)) source_snapshot_run_mismatch
  ok (record { system = system; endpoint = endpoint; run = run; snapshot = snapshot })

pub record SourceIdempotency : Type 0 where
  pub key : Text
  pub content : ContentIdentity

-- What the source claims of the declaration it was read under.
pub record SourceInterpretation : Type 0 where
  pub source : SourceReference
  pub application : Option Text
  pub quantity : ReferenceEvidence
  pub unit : ReferenceEvidence

unfoldable pub SourceInterpretation-discrete : Discrete SourceInterpretation
SourceInterpretation-discrete = hlevel (ℕ_discrete, SourceReference-discrete)

pub data SourceTransport : Type 0 where
  new redelivered : SourceTransport

pub record SourceObservationEvidence : Type 0 where
  pub evidence_id : Uuid
  pub provenance_artifact : Option ArtifactReference
  pub transport : SourceTransport
  pub idempotency : Option SourceIdempotency

pub record RawRecordEvidence : Type 0 where
  pub evidence_id : Uuid
  pub snapshot_id : Uuid
  pub artifact : ArtifactReference
  pub idempotency : Option SourceIdempotency

pub record NormalizedRecordEvidence : Type 0 where
  pub evidence_id : Uuid
  pub raw_record_id : Uuid
  pub content : ContentIdentity
  pub observation_evidence_id : Uuid

pub record SourceObservationContext : Type 0 where
  pub ordinal : ℕ
  pub canonical_observation_id : Uuid
  pub interpretation : SourceInterpretation
  pub observation : SourceObservationEvidence
  pub raw : RawRecordEvidence
  pub normalized : NormalizedRecordEvidence

pub record SourceObservationLineage : Type 0 where
  pub ordinal : ℕ
  pub canonical_observation_id : Uuid
  pub observation : SourceObservationEvidence
  pub raw : RawRecordEvidence
  pub normalized : NormalizedRecordEvidence

pub data SourceGapReason : Type 0 where
  communication_failure source_unavailable producer_reset filtered unknown : SourceGapReason

pub record SourceGapEvidence : Type 0 where
  pub epoch : ℕ
  pub start : ℕ
  pub end : ℕ
  pub reason : SourceGapReason

unfoldable pub source_gap_new : ℕ → ℕ → ℕ → SourceGapReason → Checked SourceGapEvidence
source_gap_new epoch start end reason =
    if leb end start
    then err empty_gap
    else ok (record { epoch = epoch; start = start; end = end; reason = reason })

pub data AdmissionEvidence : Type 0 where
  observed_admission : List SourceObservationLineage → List SourceGapEvidence → AdmissionEvidence
  no_change_admission : AdmissionEvidence

pub record CanonicalAdmission : Type 0 where
  pub store_id : Uuid
  pub declaration : SeriesDeclaration
  pub envelope : CollectionEnvelope
  pub retry : RetryQualification
  pub batch : SourceBatchMetadata
  pub lifecycle : CaptureLifecycle
  pub evidence : AdmissionEvidence

abbrev pub evidence_kind : AdmissionEvidence → SourceIntervalKind
evidence_kind (observed_admission observations gaps) = observed_interval
evidence_kind no_change_admission = no_change_interval
