-- ===== src/Core/Declaration.antt =====
-- crates/och-core/src/series.rs: bindings, revisionable payloads and declarations.
use open_control_historian.Base.{
  Bool, List, Option, [], err, false, holds, if◌then◌else◌, leb, length, ltb, none, not, ok, some,
  true, ℕ, ℕ_discrete, ◌&&◌, ◌==◌, ◌||◌, ◌∷◌,
}
use open_control_historian.Core.Error.{Checked, invalid_declaration_reference}
use open_control_historian.Core.Bounded.{Text, Uuid, scalar_count}
use open_control_historian.Core.Timestamp.{Timestamp, Timestamp-discrete}
use open_control_historian.Core.Value.{
  ArtifactReference, ArtifactReference-discrete, ExactValue, artifact, boolean, real, signed, state,
  text, unavailable, unsigned,
}
use open_control_historian.Core.Observation.{CollectionMode, SeriesMetadata}

abbrev pub max_declaration_reference_scalars : ℕ
max_declaration_reference_scalars = 1_024

-- `char::is_control` on UTF-8 bytes: U+0000 to U+001F, U+007F, and U+0080 to U+009F, which are the
-- pairs 0xC2 0x80 to 0xC2 0x9F.
unfoldable pub has_control : Text → Bool
has_control [] = false
has_control (b ∷ []) = ltb b 0x20 || (b == 0x7f)
has_control (b ∷ c ∷ rest) =
    (ltb b 0x20 || (b == 0x7f) || (b == 0xc2) && ltb c 0xa0) || has_control (c ∷ rest)

unfoldable pub declaration_reference_new : Text → Checked Text
declaration_reference_new value =
    if not (
      ltb 0 (length value)
      && not (has_control value)
      && leb (scalar_count value) max_declaration_reference_scalars)
    then err invalid_declaration_reference
    else ok value

pub record SourceReference : Type 0 where
  pub provider : Text
  pub projection : Option Text
  pub locator : Text

unfoldable pub SourceReference-discrete : Discrete SourceReference
SourceReference-discrete = hlevel ℕ_discrete

pub record SeriesBinding : Type 0 where
  pub source : SourceReference

pub SeriesBinding-discrete : Discrete SeriesBinding
SeriesBinding-discrete = hlevel SourceReference-discrete

pub data ValueFamily : Type 0 where
  real_family signed_family unsigned_family boolean_family state_family text_family
        artifact_family :
      ValueFamily

-- Unavailability is admissible for every family; any other value for its own.
unfoldable pub admits : ValueFamily → ExactValue → Bool
admits f (unavailable reason) = true
admits real_family (real bits) = true
admits signed_family (signed z) = true
admits unsigned_family (unsigned n) = true
admits boolean_family (boolean b) = true
admits state_family (state s) = true
admits text_family (text t) = true
admits artifact_family (artifact a) = true
admits _ _ = false

-- The type of both `QuantityEvidence` and `UnitEvidence`.
pub data ReferenceEvidence : Type 0 where
  absent : ReferenceEvidence
  resolved unresolved : Text → ReferenceEvidence

pub record SeriesDeclarationPayload : Type 0 where
  pub producer_id : Uuid
  pub collection_mode : CollectionMode
  pub value_family : ValueFamily
  pub quantity : ReferenceEvidence
  pub unit : ReferenceEvidence
  pub application : Option Text

unfoldable pub SeriesDeclarationPayload-discrete : Discrete SeriesDeclarationPayload
SeriesDeclarationPayload-discrete = hlevel ℕ_discrete

abbrev pub series_metadata : SeriesDeclarationPayload → Uuid → SeriesMetadata
series_metadata p series_id = record {
  series_id = series_id;
  producer_id = p.producer_id;
  collection_mode = p.collection_mode;
}

pub record DeclarationEvidence : Type 0 where
  pub effective_at : Timestamp
  pub artifact : Option ArtifactReference

pub DeclarationEvidence-discrete : Discrete DeclarationEvidence
DeclarationEvidence-discrete = hlevel (Timestamp-discrete, ArtifactReference-discrete)

-- `DeclarationRevision` is its `u128`.
abbrev pub first_revision : ℕ
first_revision = 1

pub record SeriesDeclaration : Type 0 where
  pub store_id : Uuid
  pub series_id : Uuid
  pub revision : ℕ
  pub previous_revision : Option ℕ
  pub binding : SeriesBinding
  pub payload : SeriesDeclarationPayload
  pub evidence : DeclarationEvidence

pub record SeriesRetirement : Type 0 where
  pub declaration_revision : ℕ
  pub evidence : DeclarationEvidence

pub record SeriesHistory : Type 0 where
  pub series_id : Uuid
  pub binding : SeriesBinding
  pub declarations : List SeriesDeclaration
  pub retirement : Option SeriesRetirement

-- The derived equalities that the registry compares by.
abbrev pub same_binding : SeriesBinding → SeriesBinding → Bool
same_binding a b = holds (SeriesBinding-discrete a b)

abbrev pub same_payload : SeriesDeclarationPayload → SeriesDeclarationPayload → Bool
same_payload a b = holds (SeriesDeclarationPayload-discrete a b)

abbrev pub same_evidence : DeclarationEvidence → DeclarationEvidence → Bool
same_evidence a b = holds (DeclarationEvidence-discrete a b)

-- `previous_revision == Some(expected)`.
abbrev pub follows : Option ℕ → ℕ → Bool
follows none expected = false
follows (some previous) expected = previous == expected
