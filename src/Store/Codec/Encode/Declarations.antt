-- ===== src/Store/Codec/Encode/Declarations.antt =====
-- crates/och-store/src/codec.rs: how a series declaration is written.
use open_control_historian.Store.Codec.Encoder.{Put, optional, string, u128, u8, ◌then◌}
use open_control_historian.Core.Bounded.{Text}
use open_control_historian.Core.Declaration.{
  DeclarationEvidence, ReferenceEvidence, SeriesBinding, SeriesDeclaration,
  SeriesDeclarationPayload, SourceReference, absent, resolved, unresolved,
}
use open_control_historian.Base.{Option, ℕ}
use open_control_historian.Store.Codec.Encode.Values.{
  encode_collection_mode, encode_optional_artifact, encode_producer_id, encode_series_id,
  encode_store_id, encode_timestamp, encode_value_family,
}

unfoldable pub encode_optional_revision : Option ℕ → Put
encode_optional_revision revision = optional u128 revision

unfoldable pub encode_source_reference : SourceReference → Put
encode_source_reference source =
    string source.provider then optional string source.projection then string source.locator

unfoldable pub encode_binding : SeriesBinding → Put
encode_binding binding = encode_source_reference binding.source

-- `encode_quantity` and `encode_unit`, whose two types are one here.
unfoldable pub encode_reference_evidence : ReferenceEvidence → Put
encode_reference_evidence absent = u8 0
encode_reference_evidence (resolved reference) = u8 1 then string reference
encode_reference_evidence (unresolved reference) = u8 2 then string reference

unfoldable pub encode_optional_declaration_reference : Option Text → Put
encode_optional_declaration_reference reference = optional string reference

unfoldable pub encode_declaration_payload : SeriesDeclarationPayload → Put
encode_declaration_payload payload =
    encode_producer_id payload.producer_id
    then encode_collection_mode payload.collection_mode
    then encode_value_family payload.value_family
    then encode_reference_evidence payload.quantity
    then encode_reference_evidence payload.unit
    then encode_optional_declaration_reference payload.application

unfoldable pub encode_declaration_evidence : DeclarationEvidence → Put
encode_declaration_evidence evidence =
    encode_timestamp evidence.effective_at then encode_optional_artifact evidence.artifact

-- `encode_decoded_declaration` too: `DecodedDeclarationV1` has the fields of a declaration.
unfoldable pub encode_declaration : SeriesDeclaration → Put
encode_declaration declaration =
    encode_store_id declaration.store_id
    then encode_series_id declaration.series_id
    then u128 declaration.revision
    then encode_optional_revision declaration.previous_revision
    then encode_binding declaration.binding
    then encode_declaration_payload declaration.payload
    then encode_declaration_evidence declaration.evidence
