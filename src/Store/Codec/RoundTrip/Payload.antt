-- ===== src/Store/Codec/RoundTrip/Payload.antt =====
-- The payload of an admission round-trips.
use open_control_historian.Store.Codec.RoundTrip.Combinators.{
  Gives-pure, RoundTrips, RoundTrips-made, RoundTrips-then,
}
use open_control_historian.Store.Codec.RoundTrip.Primitives.{
  RoundTrips-count, RoundTrips-each, RoundTrips-skip,
}
use open_control_historian.Core.Collection.{max_gaps, max_observations}
use open_control_historian.Core.Source.{
  AdmissionEvidence, CanonicalAdmission, evidence_kind, no_change_admission, no_change_interval,
  observed_admission, observed_interval,
}
use open_control_historian.Store.Codec.Encode.Values.{encode_source_interval_kind, encode_store_id}
use open_control_historian.Store.Codec.Decode.Values.{decode_source_interval_kind, decode_store_id}
use open_control_historian.Store.Codec.RoundTrip.Values.{
  IsIdentity, IsRetry, RoundTrips-identity, RoundTrips-interval_kind, RoundTrips-retry,
}
use open_control_historian.Store.Codec.Encode.Payload.{
  encode_admission_evidence, encode_canonical_payload,
}
use open_control_historian.Store.Codec.Decode.Payload.{
  decode_admission_evidence, decode_payload, decoded_of,
}
use open_control_historian.Store.Codec.RoundTrip.Declarations.{
  IsDeclaration, RoundTrips-declaration,
}
use open_control_historian.Store.Codec.RoundTrip.Observations.{IsEnvelope, RoundTrips-envelope}
use open_control_historian.Store.Codec.RoundTrip.Sources.{
  IsBatch, IsLifecycle, IsLineage, IsSourceGap, RoundTrips-batch, RoundTrips-lifecycle,
  RoundTrips-lineage, RoundTrips-source_gap,
}
use open_control_historian.Store.Codec.Encoder.{◌then◌}
use open_control_historian.Store.Codec.Cursor.{◌>>=◌}
use open_control_historian.Base.{All, arith, leb, length, true, ℕ, ◌≡◌}

unfoldable pub IsAdmissionEvidence : AdmissionEvidence → Type 0
IsAdmissionEvidence (observed_admission observations gaps) =
    (leb (length observations) max_observations ≡ true)
    × (leb (length gaps) max_gaps ≡ true)
    × All IsLineage observations
    × All IsSourceGap gaps
IsAdmissionEvidence no_change_admission = Unit

-- Every part is a value that its Rust type and constructors allow.
unfoldable pub IsAdmission : CanonicalAdmission → Type 0
IsAdmission a =
    IsIdentity a.store_id
    × IsDeclaration a.declaration
    × IsEnvelope a.envelope
    × IsRetry a.retry
    × IsBatch a.batch
    × IsLifecycle a.lifecycle
    × IsAdmissionEvidence a.evidence

RoundTrips-admission_evidence :
    (e : AdmissionEvidence)
    → IsAdmissionEvidence e
    → RoundTrips
        (encode_source_interval_kind (evidence_kind e) then encode_admission_evidence e)
        (decode_source_interval_kind >>= decode_admission_evidence)
        e
unfolding IsAdmissionEvidence decode_admission_evidence
RoundTrips-admission_evidence (observed_admission observations gaps)
      (few, few_gaps, valid, valid_gaps) =
    RoundTrips-then _ (RoundTrips-interval_kind observed_interval) (
      RoundTrips-then _ (RoundTrips-count max_observations (length observations) (omega arith) few)
        (RoundTrips-then _ (RoundTrips-each _ _ IsLineage RoundTrips-lineage observations valid) (
          RoundTrips-then _ (RoundTrips-count max_gaps (length gaps) (omega arith) few_gaps) (
            RoundTrips-made _
              (RoundTrips-each _ _ IsSourceGap RoundTrips-source_gap gaps valid_gaps)
              (Gives-pure (observed_admission observations gaps))))))
RoundTrips-admission_evidence no_change_admission h =
    RoundTrips-then _ (RoundTrips-interval_kind no_change_interval)
      (RoundTrips-skip _ _ (Gives-pure no_change_admission))

pub RoundTrips-payload :
    (append_sequence : ℕ) (a : CanonicalAdmission)
    → IsAdmission a
    → RoundTrips
        (encode_canonical_payload a)
        (decode_payload append_sequence)
        (decoded_of append_sequence a)
unfolding IsAdmission encode_canonical_payload decode_payload encode_store_id decode_store_id
RoundTrips-payload append_sequence a
      (store, declaration, envelope, retry, batch, lifecycle, evidence) =
    RoundTrips-then _ (RoundTrips-identity a.store_id store) (
      RoundTrips-then _ (RoundTrips-declaration a.declaration declaration) (
        RoundTrips-then _ (RoundTrips-envelope a.envelope envelope) (
          RoundTrips-then _ (RoundTrips-retry a.retry retry) (
            RoundTrips-then _ (RoundTrips-batch a.batch batch) (
              RoundTrips-then _ (RoundTrips-lifecycle a.lifecycle lifecycle) (
                RoundTrips-made _ (RoundTrips-admission_evidence a.evidence evidence)
                  (Gives-pure (decoded_of append_sequence a))))))))
