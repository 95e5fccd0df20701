-- ===== src/Core/Admission.antt =====
-- crates/och-core/src/source.rs: the admission of source evidence under a registry's declaration.
use open_control_historian.Base.{
  Bool, List, Option, [], false, holds, leb, length, ltb, none, not, ok, ok_or, refuse_if, some, ℕ,
  ◌==◌, ◌>>=◌, ◌>>◌, ◌||◌, ◌∷◌,
}
use open_control_historian.Base.Map.{same_bytes}
use open_control_historian.Core.Error.{
  Checked, admission_retry_scope_mismatch, duplicate_source_evidence_id,
  misordered_source_record_ordinals, source_gap_count_mismatch, source_gap_mismatch,
  source_interpretation_mismatch, source_interval_mismatch, source_lifecycle_binding_mismatch,
  source_normalized_observation_mismatch, source_normalized_raw_mismatch,
  source_observation_association_mismatch, source_observation_count_mismatch,
  source_projection_required, source_raw_idempotency_mismatch, source_raw_snapshot_mismatch,
  too_many_source_gap_contexts, too_many_source_observation_contexts,
}
use open_control_historian.Core.Bounded.{Text, Uuid}
use open_control_historian.Core.Value.{ContentIdentity}
use open_control_historian.Core.Observation.{Observation, SeriesMetadata}
use open_control_historian.Core.Gap.{Gap}
use open_control_historian.Core.Collection.{
  Evidence, max_gaps, max_observations, no_change_evidence, observations_of, observed_evidence,
  seen_before,
}
use open_control_historian.Core.Declaration.{SeriesDeclaration, SourceReference}
use open_control_historian.Core.Series.Bind.{DeclaredCollectionEnvelope}
use open_control_historian.Core.Retry.{RetryQualification, same_content}
use open_control_historian.Core.Source.{
  AdmissionEvidence, CanonicalAdmission, CaptureLifecycle, SourceBatchMetadata, SourceGapEvidence,
  SourceIdempotency, SourceInterpretation, SourceInterpretation-discrete, SourceIntervalKind,
  SourceIntervalKind-discrete, SourceObservationContext, SourceObservationLineage,
  no_change_admission, no_change_interval, observed_admission, observed_interval,
}

-- What the evidence of an envelope says of the interval.
abbrev pub interval_kind : Evidence → SourceIntervalKind
interval_kind (observed_evidence observations gaps) = observed_interval
interval_kind (no_change_evidence quiet) = no_change_interval

abbrev pub same_kind : SourceIntervalKind → SourceIntervalKind → Bool
same_kind a b = holds (SourceIntervalKind-discrete a b)

-- The lifecycle's system and endpoint are those of the declaration's source.
abbrev pub misplaced : CaptureLifecycle → SourceReference → Text → Bool
misplaced lifecycle source projection =
    not (same_bytes lifecycle.system.provider source.provider)
    || (not (same_bytes lifecycle.system.projection projection)
        || not (same_bytes lifecycle.endpoint.locator source.locator))

abbrev pub retry_differs : RetryQualification → SeriesMetadata → Bool
retry_differs retry metadata =
    not (same_bytes retry.series_id metadata.series_id)
    || not (same_bytes retry.producer_id metadata.producer_id)

unfoldable pub validate_common :
    DeclaredCollectionEnvelope
    → RetryQualification
    → SourceBatchMetadata
    → CaptureLifecycle
    → SourceIntervalKind
    → Checked (Unit {0})
validate_common declared retry batch lifecycle expected = do
  refuse_if (retry_differs retry declared.envelope.series) admission_retry_scope_mismatch
  refuse_if
      (not (same_kind batch.interval expected)
        || not (same_kind (interval_kind declared.envelope.evidence) expected))
      source_interval_mismatch
  let source = declared.declaration.binding.source
  projection ← ok_or source.projection source_projection_required
  refuse_if (misplaced lifecycle source projection) source_lifecycle_binding_mismatch

-- `HashSet::insert` for each identity, with the refusal of one that is there.
unfoldable pub insert_all : List Uuid → List Uuid → Checked (List Uuid)
insert_all [] known = ok known
insert_all (id ∷ rest) known =
    let later = insert_all rest (id ∷ known) in
    refuse_if (seen_before id known) duplicate_source_evidence_id >> later

abbrev pub lifecycle_ids : CaptureLifecycle → List Uuid
lifecycle_ids lifecycle =
    lifecycle.system.evidence_id ∷ lifecycle.endpoint.evidence_id ∷ lifecycle.run.evidence_id
    ∷ lifecycle.snapshot.evidence_id ∷ []

unfoldable pub lifecycle_evidence_ids : CaptureLifecycle → Checked (List Uuid)
lifecycle_evidence_ids lifecycle = insert_all (lifecycle_ids lifecycle) []

-- `previous_ordinal.is_some_and(|previous| previous >= ordinal)`.
abbrev pub misordered : Option ℕ → ℕ → Bool
misordered none ordinal = false
misordered (some previous) ordinal = leb ordinal previous

abbrev pub idempotency_differs : Option SourceIdempotency → ContentIdentity → Bool
idempotency_differs none content = false
idempotency_differs (some i) content = not (same_content i.content content)

-- The interpretation that the declaration prescribes.
abbrev declared_interpretation : SeriesDeclaration → SourceInterpretation
declared_interpretation d = record {
  source = d.binding.source;
  application = d.payload.application;
  quantity = d.payload.quantity;
  unit = d.payload.unit;
}

abbrev pub interpretation_differs : SeriesDeclaration → SourceInterpretation → Bool
interpretation_differs d i =
    not (holds (SourceInterpretation-discrete i (declared_interpretation d)))

abbrev pub context_ids : SourceObservationContext → List Uuid
context_ids context =
    context.observation.evidence_id ∷ context.raw.evidence_id ∷ context.normalized.evidence_id ∷ []

-- The loop over the contexts and the canonical observations, zipped. The set of identities, which
-- the source updates in place, is not used after the loop.
unfoldable pub validate_observations :
    SeriesDeclaration
    → CaptureLifecycle
    → Option ℕ
    → List Uuid
    → List Observation
    → List SourceObservationContext
    → Checked (Unit {0})
validate_observations d lifecycle previous known (o ∷ canonical) (c ∷ contexts) = do
  refuse_if (not (same_bytes c.canonical_observation_id o.id))
      source_observation_association_mismatch
  refuse_if (misordered previous c.ordinal) misordered_source_record_ordinals
  refuse_if (interpretation_differs d c.interpretation) source_interpretation_mismatch
  known_after ← insert_all (context_ids c) known
  refuse_if (not (same_bytes c.raw.snapshot_id lifecycle.snapshot.evidence_id))
      source_raw_snapshot_mismatch
  refuse_if (not (same_bytes c.normalized.raw_record_id c.raw.evidence_id))
      source_normalized_raw_mismatch
  refuse_if (not (same_bytes c.normalized.observation_evidence_id c.observation.evidence_id))
      source_normalized_observation_mismatch
  refuse_if (idempotency_differs c.raw.idempotency c.raw.artifact.content)
      source_raw_idempotency_mismatch
  validate_observations d lifecycle (some c.ordinal) known_after canonical contexts
validate_observations d lifecycle previous known _ _ = ok tt

abbrev gap_differs : Gap → SourceGapEvidence → Bool
gap_differs canonical source =
    not (canonical.epoch == source.epoch)
    || (not (canonical.start == source.start) || not (canonical.end == source.end))

-- `zip(…).any(…)`.
unfoldable pub gaps_differ : List Gap → List SourceGapEvidence → Bool
gaps_differ (g ∷ gaps) (s ∷ sources) = gap_differs g s || gaps_differ gaps sources
gaps_differ _ _ = false

unfoldable pub validate_gaps : List Gap → List SourceGapEvidence → Checked (Unit {0})
validate_gaps gaps sources = refuse_if (gaps_differ gaps sources) source_gap_mismatch

abbrev pub evidence_gaps : Evidence → List Gap
evidence_gaps (observed_evidence observations gaps) = gaps
evidence_gaps (no_change_evidence quiet) = []

abbrev lineage_of : SourceObservationContext → SourceObservationLineage
lineage_of c = record {
  ordinal = c.ordinal;
  canonical_observation_id = c.canonical_observation_id;
  observation = c.observation;
  raw = c.raw;
  normalized = c.normalized;
}

unfoldable pub lineages_of : List SourceObservationContext → List SourceObservationLineage
lineages_of [] = []
lineages_of (c ∷ rest) = lineage_of c ∷ lineages_of rest

-- The admission of a declared envelope with its evidence.
abbrev pub admission :
    DeclaredCollectionEnvelope
    → RetryQualification
    → SourceBatchMetadata
    → CaptureLifecycle
    → AdmissionEvidence
    → CanonicalAdmission
admission declared retry batch lifecycle evidence = record {
  store_id = declared.store_id;
  declaration = declared.declaration;
  envelope = declared.envelope;
  retry = retry;
  batch = batch;
  lifecycle = lifecycle;
  evidence = evidence;
}

-- `CanonicalAdmission::observed`.
unfoldable pub admit_observed :
    DeclaredCollectionEnvelope
    → RetryQualification
    → SourceBatchMetadata
    → CaptureLifecycle
    → List SourceObservationContext
    → List SourceGapEvidence
    → Checked CanonicalAdmission
admit_observed declared retry batch lifecycle contexts gaps = do
  let canonical = observations_of declared.envelope
  let canonical_gaps = evidence_gaps declared.envelope.evidence
  validate_common declared retry batch lifecycle observed_interval
  refuse_if (ltb max_observations (length contexts)) too_many_source_observation_contexts
  refuse_if (not (length contexts == length canonical)) source_observation_count_mismatch
  refuse_if (ltb max_gaps (length gaps)) too_many_source_gap_contexts
  refuse_if (not (length gaps == length canonical_gaps)) source_gap_count_mismatch
  known ← lifecycle_evidence_ids lifecycle
  validate_observations declared.declaration lifecycle none known canonical contexts
  validate_gaps canonical_gaps gaps
  ok (admission declared retry batch lifecycle (observed_admission (lineages_of contexts) gaps))

-- `CanonicalAdmission::no_change`.
unfoldable pub admit_no_change :
    DeclaredCollectionEnvelope
    → RetryQualification
    → SourceBatchMetadata
    → CaptureLifecycle
    → Checked CanonicalAdmission
admit_no_change declared retry batch lifecycle = do
  validate_common declared retry batch lifecycle no_change_interval
  known ← lifecycle_evidence_ids lifecycle
  ok (admission declared retry batch lifecycle no_change_admission)
