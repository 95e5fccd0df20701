-- ===== src/Store/Codec/Encode/Sources.antt =====
-- crates/och-store/src/codec.rs: how source and capture evidence is written.
use open_control_historian.Store.Codec.Encoder.{Put, optional, string, u128, u8, ◌then◌}
use open_control_historian.Core.Source.{
  CaptureLifecycle, CaptureRunEvidence, NormalizedRecordEvidence, RawRecordEvidence,
  SourceBatchMetadata, SourceEndpointEvidence, SourceGapEvidence, SourceGapReason,
  SourceIdempotency, SourceObservationEvidence, SourceObservationLineage, SourceSnapshotEvidence,
  SourceSystemEvidence, SourceTransport, filtered, producer_reset, redelivered, source_unavailable,
}
use open_control_historian.Base.{Option, ℕ}
use open_control_historian.Store.Codec.Encode.Values.{
  encode_artifact, encode_content, encode_evidence_id, encode_observation_id,
  encode_optional_artifact, encode_optional_timestamp, encode_source_interval_kind,
  encode_timestamp,
}
use open_control_historian.Core.Source

unfoldable pub encode_batch : SourceBatchMetadata → Put
encode_batch batch =
    string batch.schema then u128 batch.version then encode_source_interval_kind batch.interval

abbrev pub encode_system : SourceSystemEvidence → Put
encode_system system =
    encode_evidence_id system.evidence_id then string system.provider then string system.projection

abbrev pub encode_endpoint : SourceEndpointEvidence → Put
encode_endpoint endpoint =
    encode_evidence_id endpoint.evidence_id
    then encode_evidence_id endpoint.system_id
    then string endpoint.locator

abbrev pub encode_run : CaptureRunEvidence → Put
encode_run run =
    encode_evidence_id run.evidence_id
    then encode_evidence_id run.endpoint_id
    then encode_timestamp run.started_at
    then encode_optional_timestamp run.completed_at

abbrev pub encode_snapshot : SourceSnapshotEvidence → Put
encode_snapshot snapshot =
    encode_evidence_id snapshot.evidence_id
    then encode_evidence_id snapshot.run_id
    then encode_artifact snapshot.artifact

-- The source writes the four parts in one body.
unfoldable pub encode_lifecycle : CaptureLifecycle → Put
encode_lifecycle lifecycle =
    encode_system lifecycle.system
    then encode_endpoint lifecycle.endpoint
    then encode_run lifecycle.run
    then encode_snapshot lifecycle.snapshot

abbrev pub encode_idempotency : SourceIdempotency → Put
encode_idempotency evidence = string evidence.key then encode_content evidence.content

unfoldable pub encode_optional_idempotency : Option SourceIdempotency → Put
encode_optional_idempotency evidence = optional encode_idempotency evidence

abbrev pub transport_tag : SourceTransport → ℕ
transport_tag Source.new = 1
transport_tag redelivered = 2

unfoldable pub encode_source_observation : SourceObservationEvidence → Put
encode_source_observation evidence =
    encode_evidence_id evidence.evidence_id
    then encode_optional_artifact evidence.provenance_artifact
    then u8 (transport_tag evidence.transport)
    then encode_optional_idempotency evidence.idempotency

unfoldable pub encode_raw_record : RawRecordEvidence → Put
encode_raw_record evidence =
    encode_evidence_id evidence.evidence_id
    then encode_evidence_id evidence.snapshot_id
    then encode_artifact evidence.artifact
    then encode_optional_idempotency evidence.idempotency

unfoldable pub encode_normalized_record : NormalizedRecordEvidence → Put
encode_normalized_record evidence =
    encode_evidence_id evidence.evidence_id
    then encode_evidence_id evidence.raw_record_id
    then encode_content evidence.content
    then encode_evidence_id evidence.observation_evidence_id

-- `encode_decoded_lineage` too: `DecodedObservationLineageV1` has the fields of a lineage.
unfoldable pub encode_lineage : SourceObservationLineage → Put
encode_lineage lineage =
    u8 lineage.ordinal
    then encode_observation_id lineage.canonical_observation_id
    then encode_source_observation lineage.observation
    then encode_raw_record lineage.raw
    then encode_normalized_record lineage.normalized

abbrev pub source_gap_reason_tag : SourceGapReason → ℕ
source_gap_reason_tag Source.communication_failure = 1
source_gap_reason_tag source_unavailable = 2
source_gap_reason_tag producer_reset = 3
source_gap_reason_tag filtered = 4
source_gap_reason_tag Source.unknown = 5

unfoldable pub encode_source_gap : SourceGapEvidence → Put
encode_source_gap gap =
    u128 gap.epoch then u128 gap.start then u128 gap.end then u8 (source_gap_reason_tag gap.reason)
