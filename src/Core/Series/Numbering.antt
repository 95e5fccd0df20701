-- ===== src/Core/Series/Numbering.antt =====
-- What a resolved declaration says of itself, and how large its revision can be.
use open_control_historian.Base.{
  ==_iff, Bool-cases, List, Option-cases, [], arith, inl, inr, length, some, some-injective, subst,
  suc, ℕ, ◌+◌, ◌<◌, ◌==◌, ◌∷◌, ◌≡◌, ◌≤◌,
}
use open_control_historian.Base.Map.{lookup}
use open_control_historian.Base.Map.Laws.{All-lookup, total-lookup}
use open_control_historian.Core.Bounded.{Uuid}
use open_control_historian.Core.Declaration.{SeriesBinding, SeriesDeclaration, SeriesHistory}
use open_control_historian.Core.Series.{
  SeriesRegistry, SeriesRegistryLimits, find_revision, resolve,
}
use open_control_historian.Core.Series.Chain.{
  Chain, HistoryIsValid, IsValid, Issued, revision_count,
}
use open_control_historian.Core.Series.History.{Request, run, run-new-IsValid}
use open_control_historian.Core.Series

module _ (store id : Uuid) (binding : SeriesBinding) where
  find_revision-Issued :
      (n m : ℕ) (ds : List SeriesDeclaration) (d : SeriesDeclaration)
      → Chain store id binding m ds
      → find_revision n ds ≡ some d
      → (k : ℕ) × (k < length ds) × (n ≡ suc (m + k)) × Issued store id binding (m + k) d
  unfolding find_revision
  find_revision-Issued n m [] d c h = cc
  find_revision-Issued n m (a ∷ ds) d c h = elim (Bool-cases (a.revision == n)) [
    | inl e ↦
        let same : a ≡ d = some-injective a d (rw (e, find_revision) at h) in
        let issued : Issued store id binding (m + 0) d =
          subst (Issued store id binding (m + 0)) same
            (subst (λ k. Issued store id binding k a) (omega arith) c.0) in
        let number : a.revision ≡ n = (==_iff a.revision n).0 e in
        (0, omega arith, omega (arith, c.0.numbered, number), issued)
    | inr e ↦
        let (k, before, number, issued) =
          find_revision-Issued n (suc m) ds d c.1 (rw (e, find_revision) at h) in
        (
          suc k,
          omega arith,
          omega arith,
          subst (λ i. Issued store id binding i d) (omega arith) issued,
        )
  ]

-- What `resolve` answers for a series and a revision number.
pub record Resolved (r : SeriesRegistry) (id : Uuid) (n : ℕ) (d : SeriesDeclaration) : Type 0 where
  pub of_store : d.store_id ≡ r.store_id
  pub of_series : d.series_id ≡ id
  pub numbered : d.revision ≡ n
  pub positive : 0 < n
  pub bounded : n ≤ r.limits.max_declaration_revisions

resolve_found :
    (r : SeriesRegistry) (id : Uuid) (n : ℕ) (d : SeriesDeclaration) (h : SeriesHistory)
    → IsValid r
    → lookup id r.series ≡ some h
    → find_revision n h.declarations ≡ some d
    → Resolved r id n d
resolve_found r id n d h v found at_n =
    let history = All-lookup (HistoryIsValid r.store_id) id h r.series v.histories found in
    let (k, before, number, issued) =
      find_revision-Issued r.store_id id h.binding n 0 h.declarations d history.chained at_n in
    record {
      of_store = issued.in_store;
      of_series = issued.of_series;
      numbered = omega (arith, issued.numbered, number);
      positive = omega (arith, number);
      bounded = omega (
        arith,
        number,
        before,
        total-lookup revision_count id h r.series found,
        v.counted,
        v.few_revisions,
      );
    }

resolve-Resolved :
    (r : SeriesRegistry) (id : Uuid) (n : ℕ) (d : SeriesDeclaration)
    → IsValid r
    → resolve r id n ≡ some d
    → Resolved r id n d
unfolding resolve find_revision
resolve-Resolved r id n d v h = elim (Option-cases (lookup id r.series)) [
  | inl e ↦ cc (rw (e, resolve) at h)
  | inr (g, e) ↦ resolve_found r id n d g v e (rw (e, resolve) at h)
]

-- Whatever was asked of a new registry, a declaration that resolves under a series and a revision
-- number is of that store, that series and that number, and the number is at least one and at most
-- the registry's bound on all declarations together.
pub resolve-run-Resolved :
    (store : Uuid) (limits : SeriesRegistryLimits) (qs : List Request) (id : Uuid) (n : ℕ)
    (d : SeriesDeclaration)
    → resolve (run (Series.new store limits) qs) id n ≡ some d
    → Resolved (run (Series.new store limits) qs) id n d
resolve-run-Resolved store limits qs id n d h =
    resolve-Resolved (run (Series.new store limits) qs) id n d (run-new-IsValid store limits qs) h
