-- ===== src/Store/Codec/Agreement/Payload.antt =====
-- The two encoders agree on a whole admission.
use open_control_historian.Core.Source.{
  AdmissionEvidence, CanonicalAdmission, CaptureLifecycle, CaptureRunEvidence,
  NormalizedRecordEvidence, RawRecordEvidence, SourceBatchMetadata, SourceEndpointEvidence,
  SourceGapEvidence, SourceIdempotency, SourceObservationEvidence, SourceObservationLineage,
  SourceSnapshotEvidence, SourceSystemEvidence, no_change_admission, observed_admission,
}
use open_control_historian.Store.Codec.Encode.Values.{
  encode_evidence_id, encode_observation_id, encode_source_interval_kind, encode_store_id,
}
use open_control_historian.Store.Codec.Encode.Sources.{
  encode_batch, encode_endpoint, encode_lifecycle, encode_lineage, encode_normalized_record,
  encode_optional_idempotency, encode_raw_record, encode_run, encode_snapshot, encode_source_gap,
  encode_source_observation, encode_system,
}
use open_control_historian.Store.Codec.Encode.Payload.{
  encode_admission_evidence, encode_canonical_payload,
}
use open_control_historian.Store.Codec.Agreement.{
  Agrees, Agrees-each, Agrees-optional, Agrees-skip, Agrees-string, Agrees-then, agreement,
}
use open_control_historian.Store.Codec.Agreement.Values.{
  Agrees-artifact, Agrees-content, Agrees-declaration, Agrees-envelope, Agrees-optional_artifact,
  Agrees-optional_timestamp, Agrees-retry, Agrees-timestamp,
}
use open_control_historian.Base.{Option}

Agrees-batch : (b : SourceBatchMetadata) → Agrees (encode_batch b)
unfolding encode_batch encode_source_interval_kind
Agrees-batch b = search (agreement)

Agrees-system : (s : SourceSystemEvidence) → Agrees (encode_system s)
unfolding encode_evidence_id
Agrees-system s = search (agreement)

Agrees-endpoint : (e : SourceEndpointEvidence) → Agrees (encode_endpoint e)
unfolding encode_evidence_id
Agrees-endpoint e = search (agreement)

Agrees-run : (r : CaptureRunEvidence) → Agrees (encode_run r)
unfolding encode_evidence_id
Agrees-run r = search (agreement, Agrees-timestamp, Agrees-optional_timestamp)

Agrees-snapshot : (s : SourceSnapshotEvidence) → Agrees (encode_snapshot s)
unfolding encode_evidence_id
Agrees-snapshot s = search (agreement, Agrees-artifact)

Agrees-lifecycle : (l : CaptureLifecycle) → Agrees (encode_lifecycle l)
unfolding encode_lifecycle
Agrees-lifecycle l = Agrees-then (Agrees-system l.system) (
    Agrees-then (Agrees-endpoint l.endpoint)
      (Agrees-then (Agrees-run l.run) (Agrees-snapshot l.snapshot)))

Agrees-optional_idempotency :
    (i : Option SourceIdempotency) → Agrees (encode_optional_idempotency i)
unfolding encode_optional_idempotency
Agrees-optional_idempotency i =
    Agrees-optional _ (λ j. Agrees-then (Agrees-string j.key) (Agrees-content j.content)) i

Agrees-source_observation : (o : SourceObservationEvidence) → Agrees (encode_source_observation o)
unfolding encode_source_observation encode_evidence_id
Agrees-source_observation o =
    search (agreement, Agrees-optional_artifact, Agrees-optional_idempotency)

Agrees-raw_record : (r : RawRecordEvidence) → Agrees (encode_raw_record r)
unfolding encode_raw_record encode_evidence_id
Agrees-raw_record r = search (agreement, Agrees-artifact, Agrees-optional_idempotency)

Agrees-normalized_record : (n : NormalizedRecordEvidence) → Agrees (encode_normalized_record n)
unfolding encode_normalized_record encode_evidence_id
Agrees-normalized_record n = search (agreement, Agrees-content)

Agrees-lineage : (l : SourceObservationLineage) → Agrees (encode_lineage l)
unfolding encode_lineage encode_observation_id
Agrees-lineage l =
    search (agreement, Agrees-source_observation, Agrees-raw_record, Agrees-normalized_record)

Agrees-source_gap : (g : SourceGapEvidence) → Agrees (encode_source_gap g)
unfolding encode_source_gap
Agrees-source_gap g = search (agreement)

Agrees-admission_evidence : (e : AdmissionEvidence) → Agrees (encode_admission_evidence e)
Agrees-admission_evidence (observed_admission observations gaps) =
    let lineages = Agrees-each _ Agrees-lineage observations in
    let all_gaps = Agrees-each _ Agrees-source_gap gaps in search (agreement)
Agrees-admission_evidence no_change_admission = Agrees-skip

pub Agrees-payload : (a : CanonicalAdmission) → Agrees (encode_canonical_payload a)
unfolding encode_canonical_payload encode_store_id encode_source_interval_kind
Agrees-payload a =
    search
      (
        agreement, Agrees-declaration, Agrees-envelope, Agrees-retry, Agrees-batch,
        Agrees-lifecycle, Agrees-admission_evidence,
      )
      depth 9
