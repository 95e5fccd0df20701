-- ===== src/Store/Validate/Lineages.antt =====
-- The loop over the source contexts, and the decoder's over the lineages made of them.
use open_control_historian.Base.{
  >>=-eq-ok, List, Option, [], ap, arith, guard-ok, length, not, ok, refl, refuse_if-ok, some, ℕ,
  ◌++◌, ◌∙◌, ◌∷◌, ◌≡◌,
}
use open_control_historian.Base.Map.{same_bytes}
use open_control_historian.Core.Bounded.{Uuid}
use open_control_historian.Core.Observation.{Observation}
use open_control_historian.Core.Collection.{seen_before}
use open_control_historian.Core.Declaration.{SeriesDeclaration}
use open_control_historian.Core.Source.{CaptureLifecycle, SourceObservationContext}
use open_control_historian.Core.Admission.{
  context_ids, idempotency_differs, insert_all, interpretation_differs, lineages_of, misordered,
  validate_observations,
}
use open_control_historian.Store.Validate.{
  all_lineage_ids, check_distinct, check_lineages, lineage_differs,
}

-- A set that took every identity took the ones before the rest.
pub check_distinct-insert_all :
    (ids rest known after : List Uuid)
    → insert_all ids known ≡ ok after
    → check_distinct known (ids ++ rest) ≡ check_distinct after rest
unfolding insert_all check_distinct
check_distinct-insert_all [] rest known after h =
    let same : known ≡ after = cc h in ap (λ ids. check_distinct ids rest) same
check_distinct-insert_all (id ∷ ids) rest known after h =
    let (_, fresh, later) = >>=-eq-ok _ _ h in
    rw (refuse_if-ok (seen_before id known) _ fresh)
      (check_distinct-insert_all ids rest (id ∷ known) after later)

pub length-lineages_of :
    (contexts : List SourceObservationContext) → length (lineages_of contexts) ≡ length contexts
unfolding lineages_of
length-lineages_of [] = refl
length-lineages_of (c ∷ contexts) = omega (arith, length-lineages_of contexts)

module _ (d : SeriesDeclaration) (lifecycle : CaptureLifecycle) where
  -- Contexts that passed become lineages that pass, with identities that are new and distinct.
  pub check_lineages-validate_observations :
      (before : Option ℕ) (known : List Uuid) (canonical : List Observation)
      (contexts : List SourceObservationContext)
      → length contexts ≡ length canonical
      → validate_observations d lifecycle before known canonical contexts ≡ ok tt
      → (check_lineages lifecycle.snapshot.evidence_id before (lineages_of contexts) canonical
          ≡ ok tt)
        × (check_distinct known (all_lineage_ids (lineages_of contexts)) ≡ ok tt)
  unfolding validate_observations check_lineages lineages_of all_lineage_ids check_distinct
      lineage_differs
  check_lineages-validate_observations before known canonical [] same h = (refl, refl)
  check_lineages-validate_observations before known [] (c ∷ contexts) same h =
      absurd (omega (arith, same))
  check_lineages-validate_observations before known (o ∷ canonical) (c ∷ contexts) same h =
      let (same_id, h₁) = guard-ok (not (same_bytes c.canonical_observation_id o.id)) _ _ _ h in
      let (in_order, h₂) = guard-ok (misordered before c.ordinal) _ _ _ h₁ in
      let (_, h₃) = guard-ok (interpretation_differs d c.interpretation) _ _ _ h₂ in
      let (after, fresh, h₄) = >>=-eq-ok (insert_all (context_ids c) known) _ h₃ in
      let (snapshot, h₅) =
        guard-ok (not (same_bytes c.raw.snapshot_id lifecycle.snapshot.evidence_id)) _ _ _ h₄ in
      let (raw, h₆) =
        guard-ok (not (same_bytes c.normalized.raw_record_id c.raw.evidence_id)) _ _ _ h₅ in
      let (observation, h₇) =
        guard-ok (not (same_bytes c.normalized.observation_evidence_id c.observation.evidence_id)) _
          _ _ h₆ in
      let (content, h₈) =
        guard-ok (idempotency_differs c.raw.idempotency c.raw.artifact.content) _ _ _ h₇ in
      let (later, no_twice) =
        check_lineages-validate_observations (some c.ordinal) after canonical contexts
          (omega (arith, same)) h₈ in
      (
        rw (same_id, in_order, snapshot, raw, observation, content) later,
        check_distinct-insert_all (context_ids c) _ known after fresh ∙ no_twice,
      )
