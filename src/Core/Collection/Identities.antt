-- ===== src/Core/Collection/Identities.antt =====
-- The first loop of `validate_observed` decides the interval rule and that identities are distinct.
use open_control_historian.Base.{
  All, Bool-cases, List, Option, Ordered, [], arith, false, holds→false, holds→true, inl, inr,
  is_some, ok, refl, ◌↔◌, ◌∷◌, ◌≡◌, ◌≢◌,
}
use open_control_historian.Base.Map.{Bytes-discrete, same_bytes}
use open_control_historian.Core.Bounded.{Uuid}
use open_control_historian.Core.TimeInterval.{TimeInterval}
use open_control_historian.Core.Observation.{CollectionMode, Observation}
use open_control_historian.Core.Collection.{
  check_identities, check_interval, is_interval, seen_before,
}

check_interval_iff :
    (mode : CollectionMode) (i : Option TimeInterval)
    → (check_interval mode i ≡ ok tt) ↔ (is_some i ≡ is_interval mode)
unfolding check_interval
check_interval_iff mode i = ground arith

abbrev Unseen : List Uuid → Observation → Type 0
Unseen seen o = seen_before o.id seen ≡ false

abbrev Differ : Observation → Observation → Type 0
Differ a b = a.id ≢ b.id

Unseen-cons :
    (x : Uuid) (seen : List Uuid) (o : Observation)
    → Unseen (x ∷ seen) o ↔ ((x ≢ o.id) × Unseen seen o)
unfolding seen_before
Unseen-cons x seen o = elim (Bool-cases (same_bytes x o.id)) [
  | inl e ↦ (λ h. cc, λ h. absurd (h.0 (holds→true (Bytes-discrete x o.id) e)))
  | inr e ↦ (λ h. (holds→false (Bytes-discrete x o.id) e, rw e at h), λ h. rw e h.1)
]

Unseen-split :
    (a : Observation) (seen : List Uuid) (obs : List Observation)
    → All (Unseen (a.id ∷ seen)) obs ↔ (All (Differ a) obs × All (Unseen seen) obs)
Unseen-split a seen [] = (λ _. (tt, tt), λ _. tt)
Unseen-split a seen (o ∷ obs) =
    let here = Unseen-cons a.id seen o in
    let later = Unseen-split a seen obs in
    (
      λ h. (((here.0 h.0).0, (later.0 h.1).0), ((here.0 h.0).1, (later.0 h.1).1)),
      λ h. (here.1 (h.0.0, h.1.0), later.1 (h.0.1, h.1.1)),
    )

-- With `seen` the identities of the observations already passed.
pub check_identities_iff :
    (mode : CollectionMode) (seen : List Uuid) (obs : List Observation)
    → (check_identities mode seen obs ≡ ok tt) ↔ (
        All (λ o. is_some o.interval ≡ is_interval mode) obs
        × Ordered Differ obs
        × All (Unseen seen) obs)
unfolding check_identities
check_identities_iff mode seen [] = (λ _. (tt, tt, tt), λ _. refl)
check_identities_iff mode seen (o ∷ obs) = (
  λ h. ground (
    arith,
    check_interval_iff mode o.interval,
    check_identities_iff mode (o.id ∷ seen) obs,
    Unseen-split o seen obs,
  ),
  λ h. ground (
    arith,
    check_interval_iff mode o.interval,
    check_identities_iff mode (o.id ∷ seen) obs,
    Unseen-split o seen obs,
  ),
)
