-- ===== src/Core/Series/Chain.antt =====
-- What a well-formed registry is, and how a series' declarations are numbered and linked.
use open_control_historian.Base.{
  All, List, Option, Ordered, [], ap, arith, last?, length, none, refl, some, some-injective, subst,
  suc, zero, ℕ, ◌++◌, ◌+◌, ◌<◌, ◌∷◌, ◌≡◌, ◌≤◌,
}
use open_control_historian.Base.Map.{Bytes, KeyBefore}
use open_control_historian.Base.Map.Laws.{total}
use open_control_historian.Core.Bounded.{Uuid}
use open_control_historian.Core.Declaration.{
  SeriesBinding, SeriesDeclaration, SeriesHistory, SeriesRetirement,
}
use open_control_historian.Core.Series.{SeriesRegistry, SeriesRegistryLimits, new}

-- `previous_revision` of the declaration issued after `n` others.
abbrev pub previous : ℕ → Option ℕ
previous zero = none
previous (suc n) = some (suc n)

-- What the registry of `store` writes into the declaration it issues after `n` others.
pub record Issued (store id : Uuid) (binding : SeriesBinding) (n : ℕ) (d : SeriesDeclaration)
    : Type 0 where
  pub in_store : d.store_id ≡ store
  pub of_series : d.series_id ≡ id
  pub bound : d.binding ≡ binding
  pub numbered : d.revision ≡ suc n
  pub linked : d.previous_revision ≡ previous n

-- The declarations carry the revisions from `n + 1` on, each linked to the one before.
abbrev pub Chain : Uuid → Uuid → SeriesBinding → ℕ → List SeriesDeclaration → Type 0
Chain store id binding n [] = Unit
Chain store id binding n (d ∷ ds) = Issued store id binding n d × Chain store id binding (suc n) ds

abbrev pub RetiredAt : ℕ → Option SeriesRetirement → Type 0
RetiredAt n none = Unit
RetiredAt n (some t) = t.declaration_revision ≡ n

pub record HistoryIsValid (store : Uuid) (entry : Bytes × SeriesHistory) : Type 0 where
  pub keyed : entry.1.series_id ≡ entry.0
  pub chained : Chain store entry.0 entry.1.binding 0 entry.1.declarations
  pub declared : 0 < length entry.1.declarations
  pub anchored : RetiredAt (length entry.1.declarations) entry.1.retirement

abbrev pub revision_count : SeriesHistory → ℕ
revision_count h = length h.declarations

pub record IsValid (r : SeriesRegistry) : Type 0 where
  pub sorted : Ordered KeyBefore r.series
  pub few_series : length r.series ≤ r.limits.max_series
  pub counted : r.declaration_revision_count ≡ total revision_count r.series
  pub few_revisions : r.declaration_revision_count ≤ r.limits.max_declaration_revisions
  pub histories : All (HistoryIsValid r.store_id) r.series

pub new-IsValid : (store : Uuid) (limits : SeriesRegistryLimits) → IsValid (new store limits)
unfolding new total
new-IsValid store limits = record {
  sorted = tt;
  few_series = omega arith;
  counted = refl;
  few_revisions = omega arith;
  histories = tt;
}

module _ (store id : Uuid) (binding : SeriesBinding) where
  pub Chain-append :
      (n : ℕ) (ds : List SeriesDeclaration) (d : SeriesDeclaration)
      → Chain store id binding n ds
      → Issued store id binding (n + length ds) d
      → Chain store id binding n (ds ++ d ∷ [])
  Chain-append n [] d c i = (subst (λ k. Issued store id binding k d) (omega arith) i, tt)
  Chain-append n (e ∷ ds) d c i = (
    c.0,
    Chain-append (suc n) ds d c.1 (subst (λ k. Issued store id binding k d) (omega arith) i),
  )

  pub last?-Issued :
      (n : ℕ) (ds : List SeriesDeclaration) (d : SeriesDeclaration)
      → Chain store id binding n ds
      → last? ds ≡ some d
      → (m : ℕ) × (length ds ≡ suc m) × Issued store id binding (n + m) d
  last?-Issued n [] d c e = cc
  last?-Issued n (a ∷ []) d c e = (
    0,
    refl,
    subst (Issued store id binding (n + 0)) (some-injective a d e)
        (subst (λ k. Issued store id binding k a) (omega arith) c.0),
  )
  last?-Issued n (a ∷ b ∷ ds) d c e =
      let (m, k, i) = last?-Issued (suc n) (b ∷ ds) d c.1 e in
      (suc m, ap suc k, subst (λ k. Issued store id binding k d) (omega arith) i)

-- The latest declaration of a valid history carries as its revision the number of declarations.
pub latest-Issued :
    (store : Uuid) (id : Uuid) (h : SeriesHistory) (d : SeriesDeclaration)
    → HistoryIsValid store (id, h)
    → last? h.declarations ≡ some d
    → (m : ℕ) × (length h.declarations ≡ suc m) × Issued store id h.binding m d
latest-Issued store id h d v e =
    let (m, k, i) = last?-Issued store id h.binding 0 h.declarations d v.chained e in
    (m, k, subst (λ k. Issued store id h.binding k d) (omega arith) i)
