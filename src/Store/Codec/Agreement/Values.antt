-- ===== src/Store/Codec/Agreement/Values.antt =====
-- The two encoders agree on times, content, declarations and observations.
use open_control_historian.Core.Timestamp.{Timestamp}
use open_control_historian.Core.TimeInterval.{TimeInterval}
use open_control_historian.Core.Position.{ProducerPosition}
use open_control_historian.Core.Value.{
  ArtifactReference, ContentIdentity, ExactValue, artifact, unavailable,
}
use open_control_historian.Core.Observation.{Observation}
use open_control_historian.Core.Gap.{Gap}
use open_control_historian.Core.Collection.{
  CollectionEnvelope, Evidence, no_change_evidence, observed_evidence,
}
use open_control_historian.Core.Declaration.{
  ReferenceEvidence, SeriesDeclaration, SeriesDeclarationPayload, SourceReference, absent, resolved,
  unresolved,
}
use open_control_historian.Core.Retry.{RetryQualification}
use open_control_historian.Store.Codec.Encode.Values.{
  encode_artifact, encode_artifact_id, encode_collection_mode, encode_content,
  encode_observation_id, encode_optional_artifact, encode_optional_interval,
  encode_optional_position, encode_optional_timestamp, encode_producer_id, encode_retry,
  encode_series_id, encode_store_id, encode_time_interval, encode_timestamp, encode_value_family,
}
use open_control_historian.Store.Codec.Encode.Declarations.{
  encode_binding, encode_declaration, encode_declaration_evidence, encode_declaration_payload,
  encode_optional_declaration_reference, encode_optional_revision, encode_reference_evidence,
  encode_source_reference,
}
use open_control_historian.Store.Codec.Encode.Observations.{
  encode_envelope, encode_evidence, encode_exact_value, encode_gap, encode_native_status,
  encode_observation, encode_observation_times, encode_quality, encode_series_metadata,
}
use open_control_historian.Store.Codec.Agreement.{
  Agrees, Agrees-each, Agrees-optional, Agrees-string, Agrees-then, Agrees-u128, Agrees-u8,
  agreement,
}
use open_control_historian.Base.{Option}

pub Agrees-timestamp : (t : Timestamp) → Agrees (encode_timestamp t)
unfolding encode_timestamp
Agrees-timestamp t = search (agreement)

pub Agrees-time_interval : (i : TimeInterval) → Agrees (encode_time_interval i)
unfolding encode_time_interval
Agrees-time_interval i = search (agreement, Agrees-timestamp)

pub Agrees-optional_timestamp : (t : Option Timestamp) → Agrees (encode_optional_timestamp t)
unfolding encode_optional_timestamp
Agrees-optional_timestamp t = Agrees-optional _ Agrees-timestamp t

Agrees-optional_interval : (i : Option TimeInterval) → Agrees (encode_optional_interval i)
unfolding encode_optional_interval
Agrees-optional_interval i = Agrees-optional _ Agrees-time_interval i

Agrees-optional_position : (p : Option ProducerPosition) → Agrees (encode_optional_position p)
unfolding encode_optional_position
Agrees-optional_position p =
    Agrees-optional _ (λ q. Agrees-then (Agrees-u128 q.epoch) (Agrees-u128 q.sequence)) p

pub Agrees-content : (c : ContentIdentity) → Agrees (encode_content c)
unfolding encode_content
Agrees-content c = search (agreement)

pub Agrees-artifact : (a : ArtifactReference) → Agrees (encode_artifact a)
unfolding encode_artifact encode_artifact_id
Agrees-artifact a = search (agreement, Agrees-content)

pub Agrees-optional_artifact : (a : Option ArtifactReference) → Agrees (encode_optional_artifact a)
unfolding encode_optional_artifact
Agrees-optional_artifact a = Agrees-optional _ Agrees-artifact a

pub Agrees-retry : (r : RetryQualification) → Agrees (encode_retry r)
unfolding encode_retry encode_series_id encode_producer_id
Agrees-retry r = search (agreement, Agrees-content)

Agrees-source_reference : (s : SourceReference) → Agrees (encode_source_reference s)
unfolding encode_source_reference
Agrees-source_reference s =
    Agrees-then (Agrees-string s.provider)
      (Agrees-then (Agrees-optional _ Agrees-string s.projection) (Agrees-string s.locator))

Agrees-reference_evidence : (e : ReferenceEvidence) → Agrees (encode_reference_evidence e)
unfolding encode_reference_evidence
Agrees-reference_evidence absent = Agrees-u8 0
Agrees-reference_evidence (resolved reference) = search (agreement)
Agrees-reference_evidence (unresolved reference) = search (agreement)

Agrees-declaration_payload : (p : SeriesDeclarationPayload) → Agrees (encode_declaration_payload p)
unfolding encode_declaration_payload encode_producer_id encode_collection_mode encode_value_family
    encode_optional_declaration_reference
Agrees-declaration_payload p =
    let application = Agrees-optional _ Agrees-string p.application in
    search (agreement, Agrees-reference_evidence) depth 9

pub Agrees-declaration : (d : SeriesDeclaration) → Agrees (encode_declaration d)
unfolding encode_declaration encode_store_id encode_series_id encode_optional_revision
    encode_binding encode_declaration_evidence
Agrees-declaration d =
    let previous = Agrees-optional _ Agrees-u128 d.previous_revision in
    search
      (
        agreement, Agrees-source_reference, Agrees-declaration_payload, Agrees-timestamp,
        Agrees-optional_artifact,
      )
      depth 9

Agrees-exact_value : (v : ExactValue) → Agrees (encode_exact_value v)
unfolding encode_exact_value
Agrees-exact_value (unavailable reason) =
    Agrees-then (Agrees-u8 8) (Agrees-optional _ Agrees-string reason)
Agrees-exact_value (artifact value) = Agrees-then (Agrees-u8 7) (Agrees-artifact value)
Agrees-exact_value _ = search (agreement)

Agrees-observation : (o : Observation) → Agrees (encode_observation o)
unfolding encode_observation encode_observation_id encode_observation_times encode_quality
    encode_native_status
Agrees-observation o =
    let tokens = Agrees-each _ Agrees-string o.native_status in
    search
      (
        agreement, Agrees-exact_value, Agrees-optional_timestamp, Agrees-timestamp,
        Agrees-optional_position, Agrees-optional_interval,
      )
      depth 9

Agrees-gap : (g : Gap) → Agrees (encode_gap g)
unfolding encode_gap
Agrees-gap g = search (agreement)

Agrees-evidence : (e : Evidence) → Agrees (encode_evidence e)
Agrees-evidence (observed_evidence observations gaps) =
    let all = Agrees-each _ Agrees-observation observations in
    let all_gaps = Agrees-each _ Agrees-gap gaps in search (agreement)
Agrees-evidence (no_change_evidence quiet) = Agrees-then (Agrees-u8 2) (Agrees-time_interval quiet)

pub Agrees-envelope : (e : CollectionEnvelope) → Agrees (encode_envelope e)
unfolding encode_envelope encode_series_metadata encode_series_id encode_producer_id
    encode_collection_mode
Agrees-envelope e = search (agreement, Agrees-evidence)
