-- ===== src/Store/Codec/Decode/Declarations.antt =====
-- crates/och-store/src/codec.rs: how a series declaration is read.
use open_control_historian.Core.Error.{Checked, invalid_declaration_revision}
use open_control_historian.Store.Codec.Cursor.{
  Get, invalid_model, lift, match_tag, optional, pure, u128, u8, ◌>>=◌,
}
use open_control_historian.Core.Declaration.{
  DeclarationEvidence, ReferenceEvidence, SeriesBinding, SeriesDeclaration,
  SeriesDeclarationPayload, SourceReference, absent, resolved, unresolved,
}
use open_control_historian.Base.{[], err, if◌then◌else◌, ok, ℕ, ◌==◌, ◌∷◌}
use open_control_historian.Store.Codec.Decode.Values.{
  decode_collection_mode, decode_declaration_reference, decode_optional_artifact,
  decode_producer_id, decode_series_id, decode_source_projection, decode_store_id, decode_timestamp,
  decode_value_family,
}

-- `DeclarationRevision::new` refuses revision 0.
unfoldable pub declaration_revision_new : ℕ → Checked ℕ
declaration_revision_new value = if value == 0 then err invalid_declaration_revision else ok value

abbrev pub decode_revision : Get ℕ
decode_revision = u128 >>= λ value. lift (invalid_model (declaration_revision_new value))

unfoldable pub decode_source_reference : Get SourceReference
decode_source_reference = do
  provider ← decode_declaration_reference
  projection ← optional decode_source_projection
  locator ← decode_declaration_reference
  pure (record { provider = provider; projection = projection; locator = locator })

unfoldable pub decode_binding : Get SeriesBinding
decode_binding = decode_source_reference >>= λ source. pure (record { source = source })

-- `decode_quantity` and `decode_unit`, whose two types are one here.
unfoldable pub decode_reference_evidence : Get ReferenceEvidence
decode_reference_evidence =
    u8
    >>= match_tag (
        (0, pure absent)
        ∷ (1, decode_declaration_reference >>= λ reference. pure (resolved reference))
        ∷ (2, decode_declaration_reference >>= λ reference. pure (unresolved reference))
        ∷ [])

unfoldable pub decode_declaration_payload : Get SeriesDeclarationPayload
decode_declaration_payload = do
  producer_id ← decode_producer_id
  collection_mode ← decode_collection_mode
  value_family ← decode_value_family
  quantity ← decode_reference_evidence
  unit ← decode_reference_evidence
  application ← optional decode_declaration_reference
  pure (record {
    producer_id = producer_id;
    collection_mode = collection_mode;
    value_family = value_family;
    quantity = quantity;
    unit = unit;
    application = application;
  })

unfoldable pub decode_declaration_evidence : Get DeclarationEvidence
decode_declaration_evidence = do
  effective_at ← decode_timestamp
  provenance ← decode_optional_artifact
  pure (record { effective_at = effective_at; artifact = provenance })

-- `DecodedDeclarationV1` has the fields of a declaration, and is one here.
unfoldable pub decode_declaration : Get SeriesDeclaration
decode_declaration = do
  store_id ← decode_store_id
  series_id ← decode_series_id
  revision ← decode_revision
  previous_revision ← optional decode_revision
  binding ← decode_binding
  payload ← decode_declaration_payload
  evidence ← decode_declaration_evidence
  pure (record {
    store_id = store_id;
    series_id = series_id;
    revision = revision;
    previous_revision = previous_revision;
    binding = binding;
    payload = payload;
    evidence = evidence;
  })
