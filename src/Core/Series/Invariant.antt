-- ===== src/Core/Series/Invariant.antt =====
-- Every operation keeps the registry well-formed.
use open_control_historian.Base.{
  [], ap, arith, last?, length, length-append, none, refl, some, subst, suc, ℕ, ◌++◌, ◌+◌, ◌<◌, ◌∷◌,
  ◌≡◌,
}
use open_control_historian.Base.Map.{lookup}
use open_control_historian.Base.Map.Laws.{
  All-insert, All-lookup, All-update, insert-Ordered, length-insert, length-update, total-insert,
  total-update, update-Ordered,
}
use open_control_historian.Core.Bounded.{Uuid}
use open_control_historian.Core.Declaration.{
  DeclarationEvidence, SeriesBinding, SeriesDeclaration, SeriesDeclarationPayload, SeriesHistory,
}
use open_control_historian.Core.Series.{SeriesRegistry, initial_declaration, register, registered}
use open_control_historian.Core.Series.Chain.{
  Chain-append, HistoryIsValid, IsValid, Issued, latest-Issued, revision_count,
}
use open_control_historian.Core.Series.Cases.{register_cases, retire_cases, revise_cases, tombstone}
use open_control_historian.Core.Series.Revision.{next_declaration, retire, retired, revise, revised}

abbrev first_history :
    SeriesRegistry
    → Uuid
    → SeriesBinding
    → SeriesDeclarationPayload
    → DeclarationEvidence
    → SeriesHistory
first_history r id binding p e = record {
  series_id = id;
  binding = binding;
  declarations = initial_declaration r id binding p e ∷ [];
  retirement = none;
}

registered-IsValid :
    (r : SeriesRegistry) (id : Uuid) (binding : SeriesBinding) (p : SeriesDeclarationPayload)
    (e : DeclarationEvidence)
    → IsValid r
    → lookup id r.series ≡ none
    → length r.series < r.limits.max_series
    → r.declaration_revision_count < r.limits.max_declaration_revisions
    → IsValid (registered r id binding p e)
registered-IsValid r id binding p e v fresh room more = record {
  sorted = insert-Ordered id _ r.series v.sorted;
  few_series = omega (arith, length-insert id (first_history r id binding p e) r.series fresh);
  counted = omega (
    arith,
    total-insert revision_count id (first_history r id binding p e) r.series fresh,
    v.counted,
  );
  few_revisions = omega arith;
  histories =
      All-insert (HistoryIsValid r.store_id) id _ r.series
        (record {
          keyed = refl;
          chained = (
            record {
              in_store = refl;
              of_series = refl;
              bound = refl;
              numbered = refl;
              linked = refl;
            },
            tt,
          );
          declared = omega arith;
          anchored = tt;
        })
        v.histories;
}

pub register-IsValid :
    (r : SeriesRegistry) (id : Uuid) (binding : SeriesBinding) (p : SeriesDeclarationPayload)
    (e : DeclarationEvidence)
    → IsValid r
    → IsValid (register r id binding p e).0
register-IsValid r id binding p e v =
    register_cases r id p e (λ o. IsValid o.0) binding (λ _. v) (λ _ _. v)
      (registered-IsValid r id binding p e v)

next-Issued :
    (r : SeriesRegistry) (id : Uuid) (h : SeriesHistory) (current : SeriesDeclaration)
    (expected : ℕ) (p : SeriesDeclarationPayload) (e : DeclarationEvidence)
    → HistoryIsValid r.store_id (id, h)
    → last? h.declarations ≡ some current
    → current.revision ≡ expected
    → Issued r.store_id id h.binding
        (0 + length h.declarations)
        (next_declaration r id h current expected p e)
next-Issued r id h current expected p e hv l exact =
    let (m, k, i) = latest-Issued r.store_id id h current hv l in
    let d = next_declaration r id h current expected p e in
    let issued : Issued r.store_id id h.binding (suc m) d = record {
      in_store = refl;
      of_series = refl;
      bound = refl;
      numbered = omega (arith, i.numbered);
      linked = ap some (omega (arith, exact, i.numbered));
    } in
    subst (λ n. Issued r.store_id id h.binding n d) (omega (arith, k)) issued

module _ (r : SeriesRegistry) (id : Uuid) (h : SeriesHistory) (v : IsValid r)
    (found : lookup id r.series ≡ some h) where
  found-IsValid : HistoryIsValid r.store_id (id, h)
  found-IsValid = All-lookup (HistoryIsValid r.store_id) id h r.series v.histories found

  revised-IsValid :
      (current : SeriesDeclaration) (expected : ℕ) (p : SeriesDeclarationPayload)
      (e : DeclarationEvidence)
      → h.retirement ≡ none
      → last? h.declarations ≡ some current
      → current.revision ≡ expected
      → r.declaration_revision_count < r.limits.max_declaration_revisions
      → IsValid (revised r id h (next_declaration r id h current expected p e))
  revised-IsValid current expected p e live l exact more =
      let d = next_declaration r id h current expected p e in
      let h' : SeriesHistory = record h { declarations = h.declarations ++ d ∷ [] } in
      let longer = length-append h.declarations (d ∷ []) in
      record {
        sorted = update-Ordered id h' r.series v.sorted;
        few_series = omega (arith, length-update id h' r.series, v.few_series);
        counted =
            omega (arith, total-update revision_count id h' h r.series found, longer, v.counted);
        few_revisions = omega arith;
        histories =
            All-update (HistoryIsValid r.store_id) id h' r.series
              (record {
                keyed = found-IsValid.keyed;
                chained =
                    Chain-append r.store_id id h.binding 0 h.declarations d found-IsValid.chained
                      (next-Issued r id h current expected p e found-IsValid l exact);
                declared = omega (arith, longer);
                anchored = rw live tt;
              })
              v.histories;
      }

  retired-IsValid :
      (current : SeriesDeclaration) (expected : ℕ) (e : DeclarationEvidence)
      → last? h.declarations ≡ some current
      → current.revision ≡ expected
      → IsValid (retired r id h (tombstone r id expected e))
  retired-IsValid current expected e l exact =
      let h' : SeriesHistory = record h { retirement = some (tombstone r id expected e) } in
      let (m, k, i) = latest-Issued r.store_id id h current found-IsValid l in
      record {
        sorted = update-Ordered id h' r.series v.sorted;
        few_series = omega (arith, length-update id h' r.series, v.few_series);
        counted = omega (arith, total-update revision_count id h' h r.series found, v.counted);
        few_revisions = v.few_revisions;
        histories =
            All-update (HistoryIsValid r.store_id) id h' r.series
              (record {
                keyed = found-IsValid.keyed;
                chained = found-IsValid.chained;
                declared = found-IsValid.declared;
                anchored = omega (arith, i.numbered, k, exact);
              })
              v.histories;
      }

pub revise-IsValid :
    (r : SeriesRegistry) (id : Uuid) (expected : ℕ) (p : SeriesDeclarationPayload)
    (e : DeclarationEvidence)
    → IsValid r
    → IsValid (revise r id expected p e).0
revise-IsValid r id expected p e v =
    revise_cases r id p e (λ o. IsValid o.0) expected (λ _. v) (λ _ _ _ _ _ _ _ _. v)
      (λ h current found. revised-IsValid r id h v found current expected p e)

pub retire-IsValid :
    (r : SeriesRegistry) (id : Uuid) (expected : ℕ) (e : DeclarationEvidence)
    → IsValid r
    → IsValid (retire r id expected e).0
retire-IsValid r id expected e v =
    retire_cases r id expected e (λ o. IsValid o.0) (λ _. v) (λ _ _ _ _. v)
      (λ h current found _ l exact. retired-IsValid r id h v found current expected e l exact)
