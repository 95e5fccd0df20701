-- ===== src/Store/Codec/RoundTrip/Declarations.antt =====
-- Series declarations round-trip.
use open_control_historian.Store.Codec.RoundTrip.Combinators.{
  Gives-pure, RoundTrips, RoundTrips-made, RoundTrips-then,
}
use open_control_historian.Store.Codec.RoundTrip.Primitives.{
  IfSome, RoundTrips-optional, RoundTrips-u8,
}
use open_control_historian.Core.Bounded.{Text}
use open_control_historian.Core.Declaration.{
  DeclarationEvidence, ReferenceEvidence, SeriesBinding, SeriesDeclaration,
  SeriesDeclarationPayload, SourceReference, absent, resolved, unresolved,
}
use open_control_historian.Store.Codec.Encode.Values.{
  encode_producer_id, encode_series_id, encode_store_id,
}
use open_control_historian.Store.Codec.Decode.Values.{
  decode_declaration_reference, decode_producer_id, decode_series_id, decode_store_id,
}
use open_control_historian.Store.Codec.RoundTrip.Values.{
  Gives-model, IsArtifact, IsIdentity, IsReference, IsTimestamp, IsU128, RoundTrips-family,
  RoundTrips-identity, RoundTrips-mode, RoundTrips-optional_artifact, RoundTrips-projection,
  RoundTrips-reference, RoundTrips-timestamp, RoundTrips-wide,
}
use open_control_historian.Store.Codec.Encode.Declarations.{
  encode_binding, encode_declaration, encode_declaration_evidence, encode_declaration_payload,
  encode_optional_declaration_reference, encode_optional_revision, encode_reference_evidence,
  encode_source_reference,
}
use open_control_historian.Store.Codec.Decode.Declarations.{
  declaration_revision_new, decode_binding, decode_declaration, decode_declaration_evidence,
  decode_declaration_payload, decode_reference_evidence, decode_revision, decode_source_reference,
}
use open_control_historian.Store.Codec.Encoder.{Encoder, optional, u128}
use open_control_historian.Store.Codec.Cursor.{Cursor, match_tag}
use open_control_historian.Base.{Option, ok, ℕ, ◌≡◌}
use open_control_historian.Store.Codec.Encoder
use open_control_historian.Store.Codec.Cursor

-- A revision is a nonzero number of 128 bits.
unfoldable pub IsRevision : ℕ → Type 0
IsRevision n = IsU128 n × (declaration_revision_new n ≡ ok n)

unfoldable pub IsSourceReference : SourceReference → Type 0
IsSourceReference s =
    IsReference s.provider × IfSome IsReference s.projection × IsReference s.locator

unfoldable pub IsReferenceEvidence : ReferenceEvidence → Type 0
IsReferenceEvidence absent = Unit
IsReferenceEvidence (resolved reference) = IsReference reference
IsReferenceEvidence (unresolved reference) = IsReference reference

unfoldable pub IsPayload : SeriesDeclarationPayload → Type 0
IsPayload p =
    IsIdentity p.producer_id
    × IsReferenceEvidence p.quantity
    × IsReferenceEvidence p.unit
    × IfSome IsReference p.application

unfoldable pub IsDeclarationEvidence : DeclarationEvidence → Type 0
IsDeclarationEvidence e = IsTimestamp e.effective_at × IfSome IsArtifact e.artifact

unfoldable pub IsDeclaration : SeriesDeclaration → Type 0
IsDeclaration d =
    IsIdentity d.store_id
    × IsIdentity d.series_id
    × IsRevision d.revision
    × IfSome IsRevision d.previous_revision
    × IsSourceReference d.binding.source
    × IsPayload d.payload
    × IsDeclarationEvidence d.evidence

RoundTrips-revision : (n : ℕ) → IsRevision n → RoundTrips (Encoder.u128 n) decode_revision n
unfolding IsRevision
RoundTrips-revision n (wide, valid) =
    RoundTrips-made _ (RoundTrips-wide n wide) (Gives-model _ n valid)

RoundTrips-source_reference :
    (s : SourceReference)
    → IsSourceReference s
    → RoundTrips (encode_source_reference s) decode_source_reference s
unfolding IsSourceReference encode_source_reference decode_source_reference
RoundTrips-source_reference s (provider, projection, locator) =
    RoundTrips-then _ (RoundTrips-reference s.provider provider) (
      RoundTrips-then _
        (RoundTrips-optional _ _ IsReference RoundTrips-projection s.projection projection)
        (RoundTrips-made _ (RoundTrips-reference s.locator locator) (Gives-pure s)))

RoundTrips-binding :
    (b : SeriesBinding)
    → IsSourceReference b.source
    → RoundTrips (encode_binding b) decode_binding b
unfolding encode_binding decode_binding
RoundTrips-binding b h = RoundTrips-made _ (RoundTrips-source_reference b.source h) (Gives-pure b)

RoundTrips-reference_evidence :
    (e : ReferenceEvidence)
    → IsReferenceEvidence e
    → RoundTrips (encode_reference_evidence e) decode_reference_evidence e
unfolding IsReferenceEvidence encode_reference_evidence decode_reference_evidence match_tag
RoundTrips-reference_evidence absent h = RoundTrips-made _ (RoundTrips-u8 0) (Gives-pure absent)
RoundTrips-reference_evidence (resolved reference) h =
    RoundTrips-then _ (RoundTrips-u8 1)
      (RoundTrips-made _ (RoundTrips-reference reference h) (Gives-pure (resolved reference)))
RoundTrips-reference_evidence (unresolved reference) h =
    RoundTrips-then _ (RoundTrips-u8 2)
      (RoundTrips-made _ (RoundTrips-reference reference h) (Gives-pure (unresolved reference)))

RoundTrips-optional_reference :
    (r : Option Text)
    → IfSome IsReference r
    → RoundTrips
        (encode_optional_declaration_reference r)
        (Cursor.optional decode_declaration_reference)
        r
unfolding encode_optional_declaration_reference
RoundTrips-optional_reference r h = RoundTrips-optional _ _ IsReference RoundTrips-reference r h

RoundTrips-declaration_payload :
    (p : SeriesDeclarationPayload)
    → IsPayload p
    → RoundTrips (encode_declaration_payload p) decode_declaration_payload p
unfolding IsPayload encode_declaration_payload decode_declaration_payload encode_producer_id
    decode_producer_id
RoundTrips-declaration_payload p (producer, quantity, unit, application) =
    RoundTrips-then _ (RoundTrips-identity p.producer_id producer) (
      RoundTrips-then _ (RoundTrips-mode p.collection_mode) (
        RoundTrips-then _ (RoundTrips-family p.value_family) (
          RoundTrips-then _ (RoundTrips-reference_evidence p.quantity quantity) (
            RoundTrips-then _ (RoundTrips-reference_evidence p.unit unit) (
              RoundTrips-made _ (RoundTrips-optional_reference p.application application)
                (Gives-pure p))))))

pub RoundTrips-declaration_evidence :
    (e : DeclarationEvidence)
    → IsDeclarationEvidence e
    → RoundTrips (encode_declaration_evidence e) decode_declaration_evidence e
unfolding IsDeclarationEvidence encode_declaration_evidence decode_declaration_evidence
RoundTrips-declaration_evidence e (effective, provenance) =
    RoundTrips-then _ (RoundTrips-timestamp e.effective_at effective)
      (RoundTrips-made _ (RoundTrips-optional_artifact e.artifact provenance) (Gives-pure e))

pub RoundTrips-declaration :
    (d : SeriesDeclaration)
    → IsDeclaration d
    → RoundTrips (encode_declaration d) decode_declaration d
unfolding IsDeclaration encode_declaration decode_declaration encode_store_id decode_store_id
    encode_series_id decode_series_id encode_optional_revision
RoundTrips-declaration d (store, series, revision, previous, source, payload, evidence) =
    RoundTrips-then _ (RoundTrips-identity d.store_id store) (
      RoundTrips-then _ (RoundTrips-identity d.series_id series) (
        RoundTrips-then _ (RoundTrips-revision d.revision revision) (
          RoundTrips-then _
            (RoundTrips-optional _ _ IsRevision RoundTrips-revision d.previous_revision previous)
            (RoundTrips-then _ (RoundTrips-binding d.binding source) (
              RoundTrips-then _ (RoundTrips-declaration_payload d.payload payload) (
                RoundTrips-made _ (RoundTrips-declaration_evidence d.evidence evidence)
                  (Gives-pure d)))))))
