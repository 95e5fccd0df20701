-- ===== src/Store/Codec/Decode/Sources.antt =====
-- crates/och-store/src/codec.rs: how source and capture evidence is read.
use open_control_historian.Store.Codec.Cursor.{
  Get, invalid_model, lift, match_tag, optional, pure, u128, u8, ◌>>=◌,
}
use open_control_historian.Core.Bounded.{max_retry_key_bytes, retry_key_new}
use open_control_historian.Core.Declaration.{declaration_reference_new}
use open_control_historian.Core.Source.{
  CaptureLifecycle, CaptureRunEvidence, NormalizedRecordEvidence, RawRecordEvidence,
  SourceBatchMetadata, SourceEndpointEvidence, SourceGapEvidence, SourceGapReason,
  SourceIdempotency, SourceObservationEvidence, SourceObservationLineage, SourceSnapshotEvidence,
  SourceSystemEvidence, SourceTransport, capture_lifecycle_new, capture_run_evidence_new, filtered,
  producer_reset, redelivered, source_gap_new, source_schema_version_new, source_unavailable,
}
use open_control_historian.Base.{Option, [], ◌∷◌}
use open_control_historian.Store.Codec.Decode.Values.{
  decode_artifact, decode_checked, decode_content, decode_declaration_reference, decode_evidence_id,
  decode_observation_id, decode_optional_artifact, decode_optional_timestamp,
  decode_source_interval_kind, decode_source_projection, decode_timestamp,
  max_declaration_reference_bytes,
}
use open_control_historian.Core.Source

unfoldable pub decode_batch : Get SourceBatchMetadata
decode_batch = do
  schema ← decode_checked max_declaration_reference_bytes declaration_reference_new
  version ← u128 >>= λ value. lift (invalid_model (source_schema_version_new value))
  kind ← decode_source_interval_kind
  pure (record { schema = schema; version = version; interval = kind })

abbrev pub decode_system : Get SourceSystemEvidence
decode_system = do
  evidence_id ← decode_evidence_id
  provider ← decode_declaration_reference
  projection ← decode_source_projection
  pure (record { evidence_id = evidence_id; provider = provider; projection = projection })

abbrev pub decode_endpoint : Get SourceEndpointEvidence
decode_endpoint = do
  evidence_id ← decode_evidence_id
  system_id ← decode_evidence_id
  locator ← decode_declaration_reference
  pure (record { evidence_id = evidence_id; system_id = system_id; locator = locator })

abbrev pub decode_run : Get CaptureRunEvidence
decode_run = do
  evidence_id ← decode_evidence_id
  endpoint_id ← decode_evidence_id
  started_at ← decode_timestamp
  completed_at ← decode_optional_timestamp
  lift (invalid_model (capture_run_evidence_new evidence_id endpoint_id started_at completed_at))

abbrev pub decode_snapshot : Get SourceSnapshotEvidence
decode_snapshot = do
  evidence_id ← decode_evidence_id
  run_id ← decode_evidence_id
  captured ← decode_artifact
  pure (record { evidence_id = evidence_id; run_id = run_id; artifact = captured })

-- The source reads the four parts in one body.
unfoldable pub decode_lifecycle : Get CaptureLifecycle
decode_lifecycle = do
  system ← decode_system
  endpoint ← decode_endpoint
  run ← decode_run
  snapshot ← decode_snapshot
  lift (invalid_model (capture_lifecycle_new system endpoint run snapshot))

abbrev pub decode_idempotency : Get SourceIdempotency
decode_idempotency = do
  key ← decode_checked max_retry_key_bytes retry_key_new
  content ← decode_content
  pure (record { key = key; content = content })

unfoldable pub decode_optional_idempotency : Get (Option SourceIdempotency)
decode_optional_idempotency = optional decode_idempotency

unfoldable pub decode_transport : Get SourceTransport
decode_transport = u8 >>= match_tag ((1, pure Source.new) ∷ (2, pure redelivered) ∷ [])

unfoldable pub decode_source_observation : Get SourceObservationEvidence
decode_source_observation = do
  evidence_id ← decode_evidence_id
  provenance_artifact ← decode_optional_artifact
  transport ← decode_transport
  idempotency ← decode_optional_idempotency
  pure (record {
    evidence_id = evidence_id;
    provenance_artifact = provenance_artifact;
    transport = transport;
    idempotency = idempotency;
  })

unfoldable pub decode_raw_record : Get RawRecordEvidence
decode_raw_record = do
  evidence_id ← decode_evidence_id
  snapshot_id ← decode_evidence_id
  captured ← decode_artifact
  idempotency ← decode_optional_idempotency
  pure (record {
    evidence_id = evidence_id;
    snapshot_id = snapshot_id;
    artifact = captured;
    idempotency = idempotency;
  })

unfoldable pub decode_normalized_record : Get NormalizedRecordEvidence
decode_normalized_record = do
  evidence_id ← decode_evidence_id
  raw_record_id ← decode_evidence_id
  content ← decode_content
  observation_evidence_id ← decode_evidence_id
  pure (record {
    evidence_id = evidence_id;
    raw_record_id = raw_record_id;
    content = content;
    observation_evidence_id = observation_evidence_id;
  })

-- `DecodedObservationLineageV1` has the fields of a lineage, and is one here.
unfoldable pub decode_lineage : Get SourceObservationLineage
decode_lineage = do
  ordinal ← u8
  canonical_observation_id ← decode_observation_id
  observation ← decode_source_observation
  raw ← decode_raw_record
  normalized ← decode_normalized_record
  pure (record {
    ordinal = ordinal;
    canonical_observation_id = canonical_observation_id;
    observation = observation;
    raw = raw;
    normalized = normalized;
  })

unfoldable pub decode_source_gap_reason : Get SourceGapReason
decode_source_gap_reason =
    u8
    >>= match_tag (
        (1, pure Source.communication_failure)
        ∷ (2, pure source_unavailable)
        ∷ (3, pure producer_reset)
        ∷ (4, pure filtered)
        ∷ (5, pure Source.unknown)
        ∷ [])

unfoldable pub decode_source_gap : Get SourceGapEvidence
decode_source_gap = do
  epoch ← u128
  start ← u128
  end ← u128
  reason ← decode_source_gap_reason
  lift (invalid_model (source_gap_new epoch start end reason))
