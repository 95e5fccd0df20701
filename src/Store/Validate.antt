-- ===== src/Store/Validate.antt =====
-- crates/och-store/src/codec.rs and decoded.rs: the relations that a decoded admission must satisfy.
pub mod Accepted
pub mod Lineages
pub mod Admitted
use open_control_historian.Base.{
  Bool, List, Option, [], false, holds, if◌then◌else◌, length, map_ok, none, not, ok, ok_or,
  refuse_if, some, true, ℕ, ◌++◌, ◌-◌, ◌==◌, ◌>>=◌, ◌>>◌, ◌||◌, ◌∷◌,
}
use open_control_historian.Base.Map.{same_bytes}
use open_control_historian.Store.Error.{Journal, invalid_canonical_data}
use open_control_historian.Core.Bounded.{Uuid}
use open_control_historian.Core.Observation.{CollectionMode, CollectionMode-discrete, Observation}
use open_control_historian.Core.Collection.{observations_of, seen_before}
use open_control_historian.Core.Declaration.{SeriesDeclaration, SourceReference, first_revision}
use open_control_historian.Core.Series.Bind.{some_inadmissible}
use open_control_historian.Core.Source.{
  AdmissionEvidence, CaptureLifecycle, SourceObservationLineage, evidence_kind, no_change_admission,
  observed_admission,
}
use open_control_historian.Core.Admission.{
  evidence_gaps, gaps_differ, idempotency_differs, interval_kind, lifecycle_ids, misordered,
  misplaced, retry_differs, same_kind,
}
use open_control_historian.Store.Codec.Cursor.{invalid_model}
use open_control_historian.Store.Codec.Decode.Declarations.{declaration_revision_new}
use open_control_historian.Store.Codec.Decode.Payload.{DecodedAdmission}

-- Every refusal is the same.
abbrev reject_if : Bool → Journal (Unit {0})
reject_if bad = refuse_if bad invalid_canonical_data

abbrev pub same_mode : CollectionMode → CollectionMode → Bool
same_mode a b = holds (CollectionMode-discrete a b)

unfoldable pub scope_differs : DecodedAdmission → Bool
scope_differs a =
    let metadata = a.envelope.series in
    not (same_bytes a.store_id a.declaration.store_id)
    || (not (same_bytes a.declaration.series_id metadata.series_id)
        || (not (same_bytes a.declaration.payload.producer_id metadata.producer_id)
            || (not (same_mode a.declaration.payload.collection_mode metadata.collection_mode)
                || retry_differs a.retry metadata)))

abbrev same_revision : Option ℕ → Option ℕ → Bool
same_revision none none = true
same_revision (some a) (some b) = a == b
same_revision _ _ = false

-- The decoder accepts no revision 0, so the subtraction does not underflow.
unfoldable pub expected_previous : ℕ → Journal (Option ℕ)
expected_previous revision =
    if revision == first_revision
    then ok none
    else map_ok some (invalid_model (declaration_revision_new (revision - 1)))

unfoldable pub check_previous : SeriesDeclaration → Journal (Unit {0})
check_previous d = do
  expected ← expected_previous d.revision
  reject_if (not (same_revision d.previous_revision expected))

unfoldable pub kind_differs : DecodedAdmission → Bool
kind_differs a =
    not (same_kind a.batch.interval (interval_kind a.envelope.evidence))
    || not (same_kind (evidence_kind a.evidence) (interval_kind a.envelope.evidence))

unfoldable pub check_binding : CaptureLifecycle → SourceReference → Journal (Unit {0})
check_binding lifecycle source = do
  projection ← ok_or source.projection invalid_canonical_data
  reject_if (misplaced lifecycle source projection)

unfoldable pub lineage_differs : Uuid → Option ℕ → SourceObservationLineage → Observation → Bool
lineage_differs snapshot_id previous lineage canonical =
    not (same_bytes lineage.canonical_observation_id canonical.id)
    || (misordered previous lineage.ordinal
        || (not (same_bytes lineage.raw.snapshot_id snapshot_id)
            || (not (same_bytes lineage.normalized.raw_record_id lineage.raw.evidence_id)
                || (not (
                      same_bytes lineage.normalized.observation_evidence_id
                        lineage.observation.evidence_id)
                    || idempotency_differs lineage.raw.idempotency lineage.raw.artifact.content))))

-- The loop over the lineages and the canonical observations, zipped.
unfoldable pub check_lineages :
    Uuid → Option ℕ → List SourceObservationLineage → List Observation → Journal (Unit {0})
check_lineages snapshot_id previous (l ∷ lineages) (o ∷ canonical) =
    let later = check_lineages snapshot_id (some l.ordinal) lineages canonical in
    reject_if (lineage_differs snapshot_id previous l o) >> later
check_lineages snapshot_id previous _ _ = ok tt

unfoldable pub check_evidence : DecodedAdmission → AdmissionEvidence → Journal (Unit {0})
check_evidence a (observed_admission lineages gaps) = do
  let canonical = observations_of a.envelope
  let canonical_gaps = evidence_gaps a.envelope.evidence
  reject_if
      (not (length lineages == length canonical) || not (length gaps == length canonical_gaps))
  check_lineages a.lifecycle.snapshot.evidence_id none lineages canonical
  reject_if (gaps_differ canonical_gaps gaps)
check_evidence a no_change_admission = ok tt

abbrev lineage_ids : SourceObservationLineage → List Uuid
lineage_ids l = l.observation.evidence_id ∷ l.raw.evidence_id ∷ l.normalized.evidence_id ∷ []

unfoldable pub all_lineage_ids : List SourceObservationLineage → List Uuid
all_lineage_ids [] = []
all_lineage_ids (l ∷ rest) = lineage_ids l ++ all_lineage_ids rest

abbrev pub lineages : AdmissionEvidence → List SourceObservationLineage
lineages (observed_admission observations gaps) = observations
lineages no_change_admission = []

unfoldable pub all_evidence_ids : DecodedAdmission → List Uuid
all_evidence_ids a = lifecycle_ids a.lifecycle ++ all_lineage_ids (lineages a.evidence)

-- `evidence_ids[..index].contains(evidence_id)`, for every index: the list of those before it.
unfoldable pub check_distinct : List Uuid → List Uuid → Journal (Unit {0})
check_distinct before [] = ok tt
check_distinct before (id ∷ rest) =
    let later = check_distinct (id ∷ before) rest in reject_if (seen_before id before) >> later

unfoldable pub validate_decoded : DecodedAdmission → Journal (Unit {0})
validate_decoded a = do
  reject_if (scope_differs a)
  check_previous a.declaration
  reject_if (kind_differs a)
  check_binding a.lifecycle a.declaration.binding.source
  reject_if (some_inadmissible a.declaration.payload.value_family (observations_of a.envelope))
  check_evidence a a.evidence
  check_distinct [] (all_evidence_ids a)
