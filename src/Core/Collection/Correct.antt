-- ===== src/Core/Collection/Correct.antt =====
-- `validate_observed` accepts exactly the batches that `IsValid` describes.
use open_control_historian.Base.{
  >>=-eq-ok, All, All-mono, Bool-cases, List, Option, Ordered, [], ap, arith, false, inl, inr,
  is_some, length, ltb, none, ok, refl, refuse_if-ok, some, subst, sym, true, ◌&&◌, ◌+◌, ◌<◌, ◌==◌,
  ◌↔◌, ◌∷◌, ◌≡◌, ◌≤◌, ◌⊎◌,
}
use open_control_historian.Core.Observation.{CollectionMode, Observation}
use open_control_historian.Core.Gap.{Gap, IsNonempty}
use open_control_historian.Core.Collection.{
  check_positions, differs_from_first, first_presence, if_positioned, max_gaps, max_observations,
  seen_before, validate_observations_outside_gaps, validate_observed,
}
use open_control_historian.Core.Collection.Spec.{Before, IsValid, OutsideAll, Precedes}
use open_control_historian.Core.Collection.Identities.{check_identities_iff}
use open_control_historian.Core.Collection.Positions.{
  Ordered-present, PositionBefore-present_left, Presence, check_positions_iff, presence_differs_iff,
}
use open_control_historian.Core.Collection.Gaps.{check_gaps_iff, Outside-gaps_iff}

abbrev Absent : Observation → Type 0
Absent o = o.producer_position ≡ none

abbrev Outside : List Gap → Observation → Type 0
Outside gaps o = OutsideAll gaps o.producer_position

-- The three steps of `validate_observed` that look at positions all pass.
abbrev PositionsPass : List Observation → List Gap → Type 0
PositionsPass obs gaps =
    (differs_from_first (first_presence obs) obs ≡ false)
    × (if_positioned (first_presence obs) (check_positions obs) ≡ ok tt)
    × (if_positioned (first_presence obs) (validate_observations_outside_gaps obs gaps) ≡ ok tt)

is_some-false {ℓ} : {A : Type ℓ} (o : Option A) → is_some o ≡ false → o ≡ none
is_some-false none h = refl
is_some-false (some a) h = cc

Absent-Outside : (gaps : List Gap) (o : Observation) → Absent o → Outside gaps o
Absent-Outside gaps o e = subst (OutsideAll gaps) (sym e) tt

in_order :
    (a : Observation) (obs : List Observation)
    → Presence true a
    → (All Absent (a ∷ obs) ⊎ Ordered Before (a ∷ obs))
    → Ordered Before (a ∷ obs)
in_order a obs here (inl h) = cc (ap is_some h.0)
in_order a obs here (inr h) = h

All-Absent :
    (a : Observation) (obs : List Observation)
    → Presence false a
    → (All Absent (a ∷ obs) ⊎ Ordered Before (a ∷ obs))
    → All (Presence false) (a ∷ obs)
All-Absent a obs here (inl h) = All-mono Absent (Presence false) (λ b e. ap is_some e) (a ∷ obs) h
All-Absent a obs here (inr h) = (here, All-mono (Before a) (Presence false) never obs h.0)
  where
    never : (b : Observation) → Before a b → Presence false b
    never b k = cc (PositionBefore-present_left a.producer_position b.producer_position k)

module _ (gaps : List Gap) (n : All IsNonempty gaps) (o : Ordered Precedes gaps) where
  positioned_iff :
      (a : Observation) (obs : List Observation)
      → Presence true a
      → PositionsPass (a ∷ obs) gaps
        ↔ ((All Absent (a ∷ obs) ⊎ Ordered Before (a ∷ obs)) × All (Outside gaps) (a ∷ obs))
  positioned_iff a obs here = rw here (
    λ h.
        let present = (presence_differs_iff true (a ∷ obs)).0 h.0 in
        let ordered = (check_positions_iff (a ∷ obs)).0 h.1 in
        (inr ordered, (Outside-gaps_iff (a ∷ obs) gaps present ordered n o).0 h.2),
    λ h.
        let ordered = in_order a obs here h.0 in
        let present = Ordered-present a obs here ordered in
        (
          (presence_differs_iff true (a ∷ obs)).1 present,
          (check_positions_iff (a ∷ obs)).1 ordered,
          (Outside-gaps_iff (a ∷ obs) gaps present ordered n o).1 h.1,
        ),
  )

  unpositioned_iff :
      (a : Observation) (obs : List Observation)
      → Presence false a
      → PositionsPass (a ∷ obs) gaps
        ↔ ((All Absent (a ∷ obs) ⊎ Ordered Before (a ∷ obs)) × All (Outside gaps) (a ∷ obs))
  unpositioned_iff a obs here = rw here (
    λ h.
        let absent =
          All-mono (Presence false) Absent (λ b. is_some-false b.producer_position) (a ∷ obs)
            ((presence_differs_iff false (a ∷ obs)).0 h.0) in
        (inl absent, All-mono Absent (Outside gaps) (Absent-Outside gaps) (a ∷ obs) absent),
    λ h. ((presence_differs_iff false (a ∷ obs)).1 (All-Absent a obs here h.0), refl, refl),
  )

  check_positions-Outside_iff :
      (obs : List Observation)
      → PositionsPass obs gaps ↔ ((All Absent obs ⊎ Ordered Before obs) × All (Outside gaps) obs)
  check_positions-Outside_iff [] = (λ _. (inl tt, tt), λ _. (refl, refl, refl))
  check_positions-Outside_iff (a ∷ obs) = elim (Bool-cases (is_some a.producer_position)) [
    | inl here ↦ positioned_iff a obs here
    | inr gone ↦ unpositioned_iff a obs gone
  ]

size_checks_iff :
    (obs : List Observation) (gaps : List Gap)
    → ((ltb max_observations (length obs) ≡ false)
        × (ltb max_gaps (length gaps) ≡ false)
        × (((length obs == 0) && (length gaps == 0)) ≡ false))
      ↔ ((length obs ≤ max_observations)
          × (length gaps ≤ max_gaps)
          × (0 < length obs + length gaps))
size_checks_iff obs gaps = (λ h. ground arith, λ h. ground arith)

-- Whatever passes every check is a valid batch.
sound :
    (mode : CollectionMode) (obs : List Observation) (gaps : List Gap)
    → All IsNonempty gaps
    → validate_observed mode obs gaps ≡ ok tt
    → IsValid mode obs gaps
unfolding validate_observed
sound mode obs gaps n h =
    let (_, many, h₁) = >>=-eq-ok _ _ h in
    let (_, wide, h₂) = >>=-eq-ok _ _ h₁ in
    let (_, empty, h₃) = >>=-eq-ok _ _ h₂ in
    let (_, ids, h₄) = >>=-eq-ok _ _ h₃ in
    let (_, mixed, h₅) = >>=-eq-ok _ _ h₄ in
    let (_, positions, h₆) = >>=-eq-ok _ _ h₅ in
    let (_, apart, out) = >>=-eq-ok _ _ h₆ in
    let sizes =
      (size_checks_iff obs gaps).0
        (refuse_if-ok _ _ many, refuse_if-ok _ _ wide, refuse_if-ok _ _ empty) in
    let identities = (check_identities_iff mode [] obs).0 ids in
    let order = (check_gaps_iff gaps n).0 apart in
    let placed =
      (check_positions-Outside_iff gaps n order obs).0 (refuse_if-ok _ _ mixed, positions, out) in
    record {
      few_observations = sizes.0;
      few_gaps = sizes.1;
      some_evidence = sizes.2;
      intervals = identities.0;
      distinct = identities.1;
      positioned = placed.0;
      in_order = order;
      outside = placed.1;
    }

unseen_nil : (obs : List Observation) → All (λ o. seen_before o.id [] ≡ false) obs
unfolding seen_before
unseen_nil [] = tt
unseen_nil (o ∷ obs) = (refl, unseen_nil obs)

-- A valid batch passes every check.
complete :
    (mode : CollectionMode) (obs : List Observation) (gaps : List Gap)
    → All IsNonempty gaps
    → IsValid mode obs gaps
    → validate_observed mode obs gaps ≡ ok tt
unfolding validate_observed
complete mode obs gaps n v =
    let sizes = (size_checks_iff obs gaps).1 (v.few_observations, v.few_gaps, v.some_evidence) in
    let ids = (check_identities_iff mode [] obs).1 (v.intervals, v.distinct, unseen_nil obs) in
    let apart = (check_gaps_iff gaps n).1 v.in_order in
    let placed = (check_positions-Outside_iff gaps n v.in_order obs).1 (v.positioned, v.outside) in
    rw (sizes.0, sizes.1, sizes.2, ids, placed.0, placed.1, apart) placed.2

-- For gaps that `Gap::new` built: observed evidence is accepted exactly when it is valid.
pub validate_observed_iff :
    (mode : CollectionMode) (obs : List Observation) (gaps : List Gap)
    → All IsNonempty gaps
    → (validate_observed mode obs gaps ≡ ok tt) ↔ IsValid mode obs gaps
validate_observed_iff mode obs gaps n = (sound mode obs gaps n, complete mode obs gaps n)
