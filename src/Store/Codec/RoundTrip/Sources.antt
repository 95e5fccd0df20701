-- ===== src/Store/Codec/RoundTrip/Sources.antt =====
-- Source and capture evidence round-trips.
use open_control_historian.Store.Codec.RoundTrip.Combinators.{
  Gives-pure, RoundTrips, RoundTrips-made, RoundTrips-then,
}
use open_control_historian.Store.Codec.RoundTrip.Primitives.{
  IfSome, RoundTrips-optional, RoundTrips-u8,
}
use open_control_historian.Core.Bounded.{Uuid, max_retry_key_bytes, retry_key_new}
use open_control_historian.Core.Source.{
  CaptureLifecycle, CaptureRunEvidence, NormalizedRecordEvidence, RawRecordEvidence,
  SourceBatchMetadata, SourceEndpointEvidence, SourceGapEvidence, SourceGapReason,
  SourceIdempotency, SourceObservationEvidence, SourceObservationLineage, SourceSnapshotEvidence,
  SourceSystemEvidence, SourceTransport, capture_lifecycle_new, capture_run_evidence_new, filtered,
  producer_reset, redelivered, source_gap_new, source_schema_version_new, source_unavailable,
}
use open_control_historian.Store.Codec.Encode.Values.{encode_evidence_id, encode_observation_id}
use open_control_historian.Store.Codec.Decode.Values.{decode_evidence_id, decode_observation_id}
use open_control_historian.Store.Codec.RoundTrip.Values.{
  Gives-model, IsAccepted, IsArtifact, IsContent, IsIdentity, IsReference, IsTimestamp, IsU128,
  RoundTrips-accepted, RoundTrips-artifact, RoundTrips-content, RoundTrips-identity,
  RoundTrips-interval_kind, RoundTrips-optional_artifact, RoundTrips-optional_timestamp,
  RoundTrips-projection, RoundTrips-reference, RoundTrips-timestamp, RoundTrips-wide,
}
use open_control_historian.Store.Codec.Encode.Sources.{
  encode_batch, encode_endpoint, encode_idempotency, encode_lifecycle, encode_lineage,
  encode_normalized_record, encode_optional_idempotency, encode_raw_record, encode_run,
  encode_snapshot, encode_source_gap, encode_source_observation, encode_system,
  source_gap_reason_tag, transport_tag,
}
use open_control_historian.Store.Codec.Decode.Sources.{
  decode_batch, decode_endpoint, decode_idempotency, decode_lifecycle, decode_lineage,
  decode_normalized_record, decode_optional_idempotency, decode_raw_record, decode_run,
  decode_snapshot, decode_source_gap, decode_source_gap_reason, decode_source_observation,
  decode_system, decode_transport,
}
use open_control_historian.Store.Codec.Encoder.{Encoder, u8}
use open_control_historian.Store.Codec.Cursor.{match_tag}
use open_control_historian.Base.{Option, arith, ok, ◌≡◌}
use open_control_historian.Store.Codec.Encoder
use open_control_historian.Core.Source

unfoldable pub IsBatch : SourceBatchMetadata → Type 0
IsBatch b =
    IsReference b.schema × IsU128 b.version × (source_schema_version_new b.version ≡ ok b.version)

-- What the constructors of the four parts ensure, and that they are linked.
unfoldable pub IsLifecycle : CaptureLifecycle → Type 0
IsLifecycle l =
    (IsIdentity l.system.evidence_id
      × IsReference l.system.provider
      × IsReference l.system.projection)
    × (IsIdentity l.endpoint.evidence_id
        × IsIdentity l.endpoint.system_id
        × IsReference l.endpoint.locator)
    × (IsIdentity l.run.evidence_id
        × IsIdentity l.run.endpoint_id
        × IsTimestamp l.run.started_at
        × IfSome IsTimestamp l.run.completed_at
        × (capture_run_evidence_new l.run.evidence_id l.run.endpoint_id l.run.started_at
              l.run.completed_at
            ≡ ok l.run))
    × (IsIdentity l.snapshot.evidence_id
        × IsIdentity l.snapshot.run_id
        × IsArtifact l.snapshot.artifact)
    × (capture_lifecycle_new l.system l.endpoint l.run l.snapshot ≡ ok l)

unfoldable pub IsIdempotency : SourceIdempotency → Type 0
IsIdempotency i = IsAccepted max_retry_key_bytes retry_key_new i.key × IsContent i.content

unfoldable pub IsLineage : SourceObservationLineage → Type 0
IsLineage l =
    IsIdentity l.canonical_observation_id
    × (IsIdentity l.observation.evidence_id
        × IfSome IsArtifact l.observation.provenance_artifact
        × IfSome IsIdempotency l.observation.idempotency)
    × (IsIdentity l.raw.evidence_id
        × IsIdentity l.raw.snapshot_id
        × IsArtifact l.raw.artifact
        × IfSome IsIdempotency l.raw.idempotency)
    × (IsIdentity l.normalized.evidence_id
        × IsIdentity l.normalized.raw_record_id
        × IsContent l.normalized.content
        × IsIdentity l.normalized.observation_evidence_id)

unfoldable pub IsSourceGap : SourceGapEvidence → Type 0
IsSourceGap g =
    IsU128 g.epoch
    × IsU128 g.start
    × IsU128 g.end
    × (source_gap_new g.epoch g.start g.end g.reason ≡ ok g)

RoundTrips-evidence_id :
    (id : Uuid) → IsIdentity id → RoundTrips (encode_evidence_id id) decode_evidence_id id
unfolding encode_evidence_id decode_evidence_id
RoundTrips-evidence_id id h = RoundTrips-identity id h

pub RoundTrips-batch :
    (b : SourceBatchMetadata) → IsBatch b → RoundTrips (encode_batch b) decode_batch b
unfolding IsBatch IsReference encode_batch decode_batch
RoundTrips-batch b (schema, version, valid) =
    RoundTrips-then _ (RoundTrips-accepted _ _ b.schema (omega arith) schema) (
      RoundTrips-then _
        (RoundTrips-made _ (RoundTrips-wide b.version version) (Gives-model _ b.version valid))
        (RoundTrips-made _ (RoundTrips-interval_kind b.interval) (Gives-pure b)))

RoundTrips-system :
    (s : SourceSystemEvidence)
    → IsIdentity s.evidence_id × IsReference s.provider × IsReference s.projection
    → RoundTrips (encode_system s) decode_system s
RoundTrips-system s (id, provider, projection) =
    RoundTrips-then _ (RoundTrips-evidence_id s.evidence_id id) (
      RoundTrips-then _ (RoundTrips-reference s.provider provider)
        (RoundTrips-made _ (RoundTrips-projection s.projection projection) (Gives-pure s)))

RoundTrips-endpoint :
    (e : SourceEndpointEvidence)
    → IsIdentity e.evidence_id × IsIdentity e.system_id × IsReference e.locator
    → RoundTrips (encode_endpoint e) decode_endpoint e
RoundTrips-endpoint e (id, system, locator) =
    RoundTrips-then _ (RoundTrips-evidence_id e.evidence_id id) (
      RoundTrips-then _ (RoundTrips-evidence_id e.system_id system)
        (RoundTrips-made _ (RoundTrips-reference e.locator locator) (Gives-pure e)))

RoundTrips-run :
    (r : CaptureRunEvidence)
    → IsIdentity r.evidence_id
      × IsIdentity r.endpoint_id
      × IsTimestamp r.started_at
      × IfSome IsTimestamp r.completed_at
      × (capture_run_evidence_new r.evidence_id r.endpoint_id r.started_at r.completed_at ≡ ok r)
    → RoundTrips (encode_run r) decode_run r
RoundTrips-run r (id, endpoint, started, completed, valid) =
    RoundTrips-then _ (RoundTrips-evidence_id r.evidence_id id) (
      RoundTrips-then _ (RoundTrips-evidence_id r.endpoint_id endpoint) (
        RoundTrips-then _ (RoundTrips-timestamp r.started_at started) (
          RoundTrips-made _ (RoundTrips-optional_timestamp r.completed_at completed)
            (Gives-model _ r valid))))

RoundTrips-snapshot :
    (s : SourceSnapshotEvidence)
    → IsIdentity s.evidence_id × IsIdentity s.run_id × IsArtifact s.artifact
    → RoundTrips (encode_snapshot s) decode_snapshot s
RoundTrips-snapshot s (id, run, captured) =
    RoundTrips-then _ (RoundTrips-evidence_id s.evidence_id id) (
      RoundTrips-then _ (RoundTrips-evidence_id s.run_id run)
        (RoundTrips-made _ (RoundTrips-artifact s.artifact captured) (Gives-pure s)))

pub RoundTrips-lifecycle :
    (l : CaptureLifecycle) → IsLifecycle l → RoundTrips (encode_lifecycle l) decode_lifecycle l
unfolding IsLifecycle encode_lifecycle decode_lifecycle
RoundTrips-lifecycle l (system, endpoint, run, snapshot, linked) =
    RoundTrips-then _ (RoundTrips-system l.system system) (
      RoundTrips-then _ (RoundTrips-endpoint l.endpoint endpoint) (
        RoundTrips-then _ (RoundTrips-run l.run run)
          (RoundTrips-made _ (RoundTrips-snapshot l.snapshot snapshot) (Gives-model _ l linked))))

RoundTrips-idempotency :
    (i : SourceIdempotency)
    → IsIdempotency i
    → RoundTrips (encode_idempotency i) decode_idempotency i
unfolding IsIdempotency
RoundTrips-idempotency i (key, content) =
    RoundTrips-then _ (RoundTrips-accepted _ _ i.key (omega arith) key)
      (RoundTrips-made _ (RoundTrips-content i.content content) (Gives-pure i))

RoundTrips-optional_idempotency :
    (i : Option SourceIdempotency)
    → IfSome IsIdempotency i
    → RoundTrips (encode_optional_idempotency i) decode_optional_idempotency i
unfolding encode_optional_idempotency decode_optional_idempotency
RoundTrips-optional_idempotency i h =
    RoundTrips-optional _ _ IsIdempotency RoundTrips-idempotency i h

RoundTrips-transport :
    (t : SourceTransport) → RoundTrips (Encoder.u8 (transport_tag t)) decode_transport t
unfolding decode_transport match_tag
RoundTrips-transport Source.new = RoundTrips-made _ (RoundTrips-u8 1) (Gives-pure Source.new)
RoundTrips-transport redelivered = RoundTrips-made _ (RoundTrips-u8 2) (Gives-pure redelivered)

RoundTrips-source_observation :
    (o : SourceObservationEvidence)
    → IsIdentity o.evidence_id
      × IfSome IsArtifact o.provenance_artifact
      × IfSome IsIdempotency o.idempotency
    → RoundTrips (encode_source_observation o) decode_source_observation o
unfolding encode_source_observation decode_source_observation
RoundTrips-source_observation o (id, provenance, idempotency) =
    RoundTrips-then _ (RoundTrips-evidence_id o.evidence_id id) (
      RoundTrips-then _ (RoundTrips-optional_artifact o.provenance_artifact provenance) (
        RoundTrips-then _ (RoundTrips-transport o.transport) (
          RoundTrips-made _ (RoundTrips-optional_idempotency o.idempotency idempotency)
            (Gives-pure o))))

RoundTrips-raw_record :
    (r : RawRecordEvidence)
    → IsIdentity r.evidence_id
      × IsIdentity r.snapshot_id
      × IsArtifact r.artifact
      × IfSome IsIdempotency r.idempotency
    → RoundTrips (encode_raw_record r) decode_raw_record r
unfolding encode_raw_record decode_raw_record
RoundTrips-raw_record r (id, snapshot, captured, idempotency) =
    RoundTrips-then _ (RoundTrips-evidence_id r.evidence_id id) (
      RoundTrips-then _ (RoundTrips-evidence_id r.snapshot_id snapshot) (
        RoundTrips-then _ (RoundTrips-artifact r.artifact captured) (
          RoundTrips-made _ (RoundTrips-optional_idempotency r.idempotency idempotency)
            (Gives-pure r))))

RoundTrips-normalized_record :
    (n : NormalizedRecordEvidence)
    → IsIdentity n.evidence_id
      × IsIdentity n.raw_record_id
      × IsContent n.content
      × IsIdentity n.observation_evidence_id
    → RoundTrips (encode_normalized_record n) decode_normalized_record n
unfolding encode_normalized_record decode_normalized_record
RoundTrips-normalized_record n (id, raw, content, observation) =
    RoundTrips-then _ (RoundTrips-evidence_id n.evidence_id id) (
      RoundTrips-then _ (RoundTrips-evidence_id n.raw_record_id raw) (
        RoundTrips-then _ (RoundTrips-content n.content content) (
          RoundTrips-made _ (RoundTrips-evidence_id n.observation_evidence_id observation)
            (Gives-pure n))))

pub RoundTrips-lineage :
    (l : SourceObservationLineage) → IsLineage l → RoundTrips (encode_lineage l) decode_lineage l
unfolding IsLineage encode_lineage decode_lineage encode_observation_id decode_observation_id
RoundTrips-lineage l (canonical, observation, raw, normalized) =
    RoundTrips-then _ (RoundTrips-u8 l.ordinal) (
      RoundTrips-then _ (RoundTrips-identity l.canonical_observation_id canonical) (
        RoundTrips-then _ (RoundTrips-source_observation l.observation observation) (
          RoundTrips-then _ (RoundTrips-raw_record l.raw raw) (
            RoundTrips-made _ (RoundTrips-normalized_record l.normalized normalized)
              (Gives-pure l)))))

RoundTrips-source_gap_reason :
    (reason : SourceGapReason)
    → RoundTrips (Encoder.u8 (source_gap_reason_tag reason)) decode_source_gap_reason reason
unfolding decode_source_gap_reason match_tag
RoundTrips-source_gap_reason Source.communication_failure =
    RoundTrips-made _ (RoundTrips-u8 1) (Gives-pure Source.communication_failure)
RoundTrips-source_gap_reason source_unavailable =
    RoundTrips-made _ (RoundTrips-u8 2) (Gives-pure source_unavailable)
RoundTrips-source_gap_reason producer_reset =
    RoundTrips-made _ (RoundTrips-u8 3) (Gives-pure producer_reset)
RoundTrips-source_gap_reason filtered = RoundTrips-made _ (RoundTrips-u8 4) (Gives-pure filtered)
RoundTrips-source_gap_reason Source.unknown =
    RoundTrips-made _ (RoundTrips-u8 5) (Gives-pure Source.unknown)

pub RoundTrips-source_gap :
    (g : SourceGapEvidence) → IsSourceGap g → RoundTrips (encode_source_gap g) decode_source_gap g
unfolding IsSourceGap encode_source_gap decode_source_gap
RoundTrips-source_gap g (epoch, start, end, valid) =
    RoundTrips-then _ (RoundTrips-wide g.epoch epoch) (
      RoundTrips-then _ (RoundTrips-wide g.start start) (
        RoundTrips-then _ (RoundTrips-wide g.end end)
          (RoundTrips-made _ (RoundTrips-source_gap_reason g.reason) (Gives-model _ g valid))))
