-- ===== src/Store/Validate/Admitted.antt =====
-- What a bound envelope and a validated admission guarantee to the decoder's validation.
use open_control_historian.Base.{
  >>=-eq-ok, Bool, [], ap, arith, false, holds→true, not, ok, refuse_if-ok, some, suc, sym, true,
  true→holds, zero, ℕ, ◌-◌, ◌==◌, ◌||◌, ◌∙◌, ◌≡◌,
}
use open_control_historian.Base.Map.{Bytes, Bytes-discrete, same_bytes}
use open_control_historian.Base.Map.Laws.{All-lookup}
use open_control_historian.Core.Bounded.{Text}
use open_control_historian.Core.Observation.{CollectionMode, CollectionMode-discrete}
use open_control_historian.Core.Collection.{CollectionEnvelope, observations_of}
use open_control_historian.Core.Declaration.{
  SeriesDeclaration, SourceReference, first_revision, series_metadata,
}
use open_control_historian.Core.Series.{SeriesRegistry}
use open_control_historian.Core.Series.Bind.{DeclaredCollectionEnvelope, bind, some_inadmissible}
use open_control_historian.Core.Series.Binding.{bind_iff, ok_or-ok, some_inadmissible_iff}
use open_control_historian.Core.Series.Chain.{IsValid, latest-Issued, previous}
use open_control_historian.Core.Retry.{RetryQualification}
use open_control_historian.Core.Source.{
  AdmissionEvidence, CaptureLifecycle, SourceBatchMetadata, SourceIntervalKind,
  SourceIntervalKind-discrete, evidence_kind,
}
use open_control_historian.Core.Admission.{
  admission, interval_kind, misplaced, retry_differs, same_kind, validate_common,
}
use open_control_historian.Store.Codec.Decode.Declarations.{declaration_revision_new}
use open_control_historian.Store.Codec.Decode.Payload.{decoded_of}
use open_control_historian.Store.Validate.{
  all_evidence_ids, check_binding, check_distinct, check_evidence, check_previous,
  expected_previous, kind_differs, same_mode, scope_differs, validate_decoded,
}

-- What the registry guarantees of an envelope that it bound.
pub record Declared (declared : DeclaredCollectionEnvelope) : Type 0 where
  same_store : declared.store_id ≡ declared.declaration.store_id
  same_series : declared.declaration.series_id ≡ declared.envelope.series.series_id
  same_payload :
      declared.envelope.series
      ≡ series_metadata declared.declaration.payload declared.envelope.series.series_id
  issued_after : ℕ
  numbered : declared.declaration.revision ≡ suc issued_after
  linked : declared.declaration.previous_revision ≡ previous issued_after
  admissible :
      some_inadmissible declared.declaration.payload.value_family
        (observations_of declared.envelope)
      ≡ false

pub bind-Declared :
    (r : SeriesRegistry) (envelope : CollectionEnvelope) (declared : DeclaredCollectionEnvelope)
    → IsValid r
    → bind r envelope ≡ ok declared
    → Declared declared
bind-Declared r envelope declared valid bound =
    let (authorized, store, same) = (bind_iff r envelope declared).0 bound in
    let id = envelope.series.series_id in
    let history = All-lookup _ id authorized.history r.series valid.histories authorized.found in
    let (n, _, issued) =
      latest-Issued r.store_id id authorized.history declared.declaration history
        authorized.latest in
    record {
      same_store = store ∙ sym issued.in_store;
      same_series = issued.of_series ∙ ap (λ e. e.series.series_id) (sym same);
      same_payload = rw same authorized.described;
      issued_after = n;
      numbered = issued.numbered;
      linked = issued.linked;
      admissible = rw same ((some_inadmissible_iff _ _).1 authorized.admissible);
    }

-- The link of the declaration issued after `n` others is the one expected.
check_previous-issued :
    (d : SeriesDeclaration) (n : ℕ)
    → d.revision ≡ suc n
    → d.previous_revision ≡ previous n
    → check_previous d ≡ ok tt
unfolding check_previous expected_previous declaration_revision_new
check_previous-issued d zero numbered linked = rw (numbered, linked)
check_previous-issued d (suc n) numbered linked =
    let later : (suc (suc n) == first_revision) ≡ false = ground arith in
    let before : suc (suc n) - 1 ≡ suc n = omega arith in
    let nonzero : (suc n == 0) ≡ false = ground arith in
    let same : (suc n == suc n) ≡ true = ground arith in
    rw (numbered, linked, later, before, nonzero, same)

same_bytes-true : (a b : Bytes) → a ≡ b → same_bytes a b ≡ true
same_bytes-true a b h = true→holds (Bytes-discrete a b) h

same_mode-true : (a b : CollectionMode) → a ≡ b → same_mode a b ≡ true
same_mode-true a b h = true→holds (CollectionMode-discrete a b) h

-- What `validate_common` ensures.
pub record Common (declared : DeclaredCollectionEnvelope) (retry : RetryQualification)
    (batch : SourceBatchMetadata) (lifecycle : CaptureLifecycle) (kind : SourceIntervalKind)
    : Type 0 where
  same_scope : retry_differs retry declared.envelope.series ≡ false
  batch_kind : batch.interval ≡ kind
  envelope_kind : interval_kind declared.envelope.evidence ≡ kind
  projection : Text
  projected : declared.declaration.binding.source.projection ≡ some projection
  placed : misplaced lifecycle declared.declaration.binding.source projection ≡ false

neither : (a b : Bool) → (not a || not b) ≡ false → (a ≡ true) × (b ≡ true)
neither a b h = ground arith

pub validate_common-Common :
    (declared : DeclaredCollectionEnvelope) (retry : RetryQualification)
    (batch : SourceBatchMetadata) (lifecycle : CaptureLifecycle) (kind : SourceIntervalKind)
    → validate_common declared retry batch lifecycle kind ≡ ok tt
    → Common declared retry batch lifecycle kind
unfolding validate_common
validate_common-Common declared retry batch lifecycle kind h =
    let (_, scope, h₁) = >>=-eq-ok _ _ h in
    let (_, kinds, h₂) = >>=-eq-ok _ _ h₁ in
    let (projection, projected, placed) = >>=-eq-ok _ _ h₂ in
    let same = interval_kind declared.envelope.evidence in
    let (of_batch, of_envelope) =
      neither (same_kind batch.interval kind) (same_kind same kind) (refuse_if-ok _ _ kinds) in
    record {
      same_scope = refuse_if-ok _ _ scope;
      batch_kind = holds→true (SourceIntervalKind-discrete batch.interval kind) of_batch;
      envelope_kind = holds→true (SourceIntervalKind-discrete same kind) of_envelope;
      projection = projection;
      projected = ok_or-ok _ _ projection projected;
      placed = refuse_if-ok _ _ placed;
    }

scope_differs-Declared :
    (declared : DeclaredCollectionEnvelope) (retry : RetryQualification)
    (batch : SourceBatchMetadata) (lifecycle : CaptureLifecycle) (evidence : AdmissionEvidence)
    (s : ℕ)
    → Declared declared
    → retry_differs retry declared.envelope.series ≡ false
    → scope_differs (decoded_of s (admission declared retry batch lifecycle evidence)) ≡ false
unfolding scope_differs
scope_differs-Declared declared retry batch lifecycle evidence s d scope =
    let payload = declared.declaration.payload in
    let metadata = declared.envelope.series in
    let producer = ap (λ m. m.producer_id) d.same_payload in
    let mode = ap (λ m. m.collection_mode) d.same_payload in
    rw (
      same_bytes-true declared.store_id declared.declaration.store_id d.same_store,
      same_bytes-true declared.declaration.series_id metadata.series_id d.same_series,
      same_bytes-true payload.producer_id metadata.producer_id (sym producer),
      same_mode-true payload.collection_mode metadata.collection_mode (sym mode),
      scope,
    )

check_binding-placed :
    (lifecycle : CaptureLifecycle) (source : SourceReference) (projection : Text)
    → source.projection ≡ some projection
    → misplaced lifecycle source projection ≡ false
    → check_binding lifecycle source ≡ ok tt
unfolding check_binding
check_binding-placed lifecycle source projection projected placed = rw (projected, placed)

-- The parts of the validation that both kinds of evidence share.
pub validate_decoded-Common :
    (declared : DeclaredCollectionEnvelope) (retry : RetryQualification)
    (batch : SourceBatchMetadata) (lifecycle : CaptureLifecycle) (evidence : AdmissionEvidence)
    (s : ℕ)
    → Declared declared
    → Common declared retry batch lifecycle (evidence_kind evidence)
    → let a = decoded_of s (admission declared retry batch lifecycle evidence) in
      check_evidence a evidence ≡ ok tt
      → check_distinct [] (all_evidence_ids a) ≡ ok tt
      → validate_decoded a ≡ ok tt
unfolding validate_decoded kind_differs
validate_decoded-Common declared retry batch lifecycle evidence s d c checked no_twice =
    let kind = evidence_kind evidence in
    let of_envelope = interval_kind declared.envelope.evidence in
    let batch_same : same_kind batch.interval of_envelope ≡ true =
      true→holds (SourceIntervalKind-discrete batch.interval of_envelope)
        (c.batch_kind ∙ sym c.envelope_kind) in
    let kind_same : same_kind kind of_envelope ≡ true =
      true→holds (SourceIntervalKind-discrete kind of_envelope) (sym c.envelope_kind) in
    rw (
      scope_differs-Declared declared retry batch lifecycle evidence s d c.same_scope,
      check_previous-issued declared.declaration d.issued_after d.numbered d.linked,
      batch_same,
      kind_same,
      (check_binding-placed lifecycle declared.declaration.binding.source c.projection c.projected
          c.placed),
      d.admissible,
      checked,
      no_twice,
    )
