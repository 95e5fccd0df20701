-- ===== src/Store/Validate/Accepted.antt =====
-- What the model admits under a well-formed registry, the decoder's validation accepts.
use open_control_historian.Base.{
  >>=-eq-ok, List, [], false, guard-ok, length, ltb, none, not, not_eq-false, ok, refl, subst, ℕ,
  ◌==◌, ◌∙◌, ◌≡◌,
}
use open_control_historian.Core.Collection.{
  CollectionEnvelope, max_gaps, max_observations, observations_of, observed,
}
use open_control_historian.Core.Series.{SeriesRegistry}
use open_control_historian.Core.Series.Bind.{DeclaredCollectionEnvelope, bind}
use open_control_historian.Core.Series.Chain.{IsValid}
use open_control_historian.Core.Retry.{RetryQualification}
use open_control_historian.Core.Source.{
  CanonicalAdmission, CaptureLifecycle, SourceBatchMetadata, SourceGapEvidence,
  SourceObservationContext, no_change_admission, no_change_interval, observed_admission,
  observed_interval,
}
use open_control_historian.Core.Admission.{
  admission, admit_no_change, admit_observed, evidence_gaps, gaps_differ, insert_all,
  lifecycle_evidence_ids, lifecycle_ids, lineages_of, validate_common, validate_gaps,
  validate_observations,
}
use open_control_historian.Store.Codec.Decode.Payload.{decoded_of}
use open_control_historian.Store.Validate.{
  all_evidence_ids, all_lineage_ids, check_distinct, check_evidence, validate_decoded,
}
use open_control_historian.Store.Validate.Lineages.{
  check_distinct-insert_all, check_lineages-validate_observations, length-lineages_of,
}
use open_control_historian.Store.Validate.Admitted.{
  bind-Declared, validate_common-Common, validate_decoded-Common,
}

module _ (r : SeriesRegistry) (envelope : CollectionEnvelope)
    (declared : DeclaredCollectionEnvelope) (retry : RetryQualification)
    (batch : SourceBatchMetadata) (lifecycle : CaptureLifecycle) (s : ℕ)
    (a : CanonicalAdmission) where
  -- An observed admission, made of an envelope that a well-formed registry bound, is accepted by the
  -- validation of decoded admissions: recovery refuses no frame of it for its relations.
  pub validate_decoded-admit_observed :
      (contexts : List SourceObservationContext) (gaps : List SourceGapEvidence)
      → IsValid r
      → bind r envelope ≡ ok declared
      → admit_observed declared retry batch lifecycle contexts gaps ≡ ok a
      → validate_decoded (decoded_of s a) ≡ ok tt
  unfolding admit_observed lifecycle_evidence_ids validate_gaps check_evidence all_evidence_ids
  validate_decoded-admit_observed contexts gaps valid bound h =
      let canonical = observations_of declared.envelope in
      let canonical_gaps = evidence_gaps declared.envelope.evidence in
      let evidence = observed_admission (lineages_of contexts) gaps in
      let (_, common, h₁) =
        >>=-eq-ok (validate_common declared retry batch lifecycle observed_interval) _ h in
      let (_, h₂) = guard-ok (ltb max_observations (length contexts)) _ _ _ h₁ in
      let (count, h₃) = guard-ok (not (length contexts == length canonical)) _ _ _ h₂ in
      let (_, h₄) = guard-ok (ltb max_gaps (length gaps)) _ _ _ h₃ in
      let (gap_count, h₅) = guard-ok (not (length gaps == length canonical_gaps)) _ _ _ h₄ in
      let (known, fresh, h₆) = >>=-eq-ok (insert_all (lifecycle_ids lifecycle) []) _ h₅ in
      let (_, observed, h₇) =
        >>=-eq-ok
          (validate_observations declared.declaration lifecycle none known canonical contexts) _
          h₆ in
      let (same_gaps, done) = guard-ok (gaps_differ canonical_gaps gaps) _ _ _ h₇ in
      let (checked, no_twice) =
        check_lineages-validate_observations declared.declaration lifecycle none known canonical
          contexts (not_eq-false count) observed in
      let lineage_count : not (length (lineages_of contexts) == length canonical) ≡ false =
        rw (length-lineages_of contexts) count in
      let made = admission declared retry batch lifecycle evidence in
      let accepted : validate_decoded (decoded_of s made) ≡ ok tt =
        validate_decoded-Common declared retry batch lifecycle evidence s
          (bind-Declared r envelope declared valid bound)
          (validate_common-Common declared retry batch lifecycle observed_interval common)
          (rw (lineage_count, gap_count, checked, same_gaps))
          (check_distinct-insert_all (lifecycle_ids lifecycle) _ [] known fresh ∙ no_twice) in
      let same : made ≡ a = cc done in
      subst (λ x. validate_decoded (decoded_of s x) ≡ ok tt) same accepted

  -- An admission without change, made of an envelope that a well-formed registry bound, is accepted
  -- by the validation of decoded admissions.
  pub validate_decoded-admit_no_change :
      IsValid r
      → bind r envelope ≡ ok declared
      → admit_no_change declared retry batch lifecycle ≡ ok a
      → validate_decoded (decoded_of s a) ≡ ok tt
  unfolding admit_no_change lifecycle_evidence_ids check_evidence all_evidence_ids all_lineage_ids
      check_distinct
  validate_decoded-admit_no_change valid bound h =
      let (_, common, h₁) =
        >>=-eq-ok (validate_common declared retry batch lifecycle no_change_interval) _ h in
      let (known, fresh, done) = >>=-eq-ok (insert_all (lifecycle_ids lifecycle) []) _ h₁ in
      let made = admission declared retry batch lifecycle no_change_admission in
      let accepted : validate_decoded (decoded_of s made) ≡ ok tt =
        validate_decoded-Common declared retry batch lifecycle no_change_admission s
          (bind-Declared r envelope declared valid bound)
          (validate_common-Common declared retry batch lifecycle no_change_interval common) refl
          (check_distinct-insert_all (lifecycle_ids lifecycle) [] [] known fresh) in
      let same : made ≡ a = cc done in
      subst (λ x. validate_decoded (decoded_of s x) ≡ ok tt) same accepted
