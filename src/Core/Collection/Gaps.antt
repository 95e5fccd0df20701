-- ===== src/Core/Collection/Gaps.antt =====
-- The checks of gaps: ordered without overlap, and no positioned observation inside one.
use open_control_historian.Base.{
  >>=-eq-ok, All, All-mono, Bool-cases, List, Option, Option-cases, Ordered, [], ap, arith, false,
  inl, inr, is_some, none, ok, refl, refuse_if-ok, some, subst, true, ◌↔◌, ◌∷◌, ◌≡◌,
}
use open_control_historian.Core.Position.{
  ProducerPosition, position_lt, position_lt_asym, position_lt_irrefl,
}
use open_control_historian.Core.Observation.{Observation}
use open_control_historian.Core.Gap.{Gap, IsNonempty, contains}
use open_control_historian.Core.Collection.{
  check_gap_pair, check_gaps, ends_before, first_contains, skip_gaps,
  validate_observations_outside_gaps,
}
use open_control_historian.Core.Collection.Spec.{Before, OutsideAll, PositionBefore, Precedes}
use open_control_historian.Core.Gap

check_gap_pair_iff : (g h : Gap) → IsNonempty g → (check_gap_pair g h ≡ ok tt) ↔ Precedes g h
unfolding check_gap_pair
check_gap_pair_iff g h n = (λ e. ground arith, λ p. ground arith)

Precedes-trans : (g h k : Gap) → IsNonempty h → Precedes g h → Precedes h k → Precedes g k
Precedes-trans g h k n p q = ground arith

-- Comparing neighbours is enough, since no gap is empty.
pub check_gaps_iff :
    (gaps : List Gap) → All IsNonempty gaps → (check_gaps gaps ≡ ok tt) ↔ Ordered Precedes gaps
unfolding check_gaps
check_gaps_iff [] n = (λ _. tt, λ _. refl)
check_gaps_iff (g ∷ []) n = (λ _. (tt, tt), λ _. refl)
check_gaps_iff (g ∷ h ∷ rest) n =
    let pair = check_gap_pair_iff g h n.0 in
    let later = check_gaps_iff (h ∷ rest) n.1 in
    (
      λ e.
          let (u, now, tail) = >>=-eq-ok (check_gap_pair g h) _ e in
          let gh = pair.0 now in
          let ordered = later.0 tail in
          (
            (
              gh,
              All-mono (Precedes h) (Precedes g) (λ k. Precedes-trans g h k n.1.0 gh) rest
                  ordered.0,
            ),
            ordered,
          ),
      λ o. rw (pair.1 o.0.0) (later.1 o.1),
    )

-- `p` is no later than `q`.
abbrev NotAfter : ProducerPosition → ProducerPosition → Type 0
NotAfter p q = position_lt q p ≡ false

abbrev OutsideAt : ProducerPosition → Gap → Type 0
OutsideAt p g = Gap.contains g p.epoch p.sequence ≡ false

ended_outside :
    (p q : ProducerPosition) (g : Gap) → NotAfter p q → ends_before g p ≡ true → OutsideAt q g
unfolding ends_before Gap.contains
ended_outside p q g n e = ground arith

-- Skipping the gaps that are over at `p` changes nothing for `p` and for every later position.
outside-skip_gaps :
    (p q : ProducerPosition) (gaps : List Gap)
    → NotAfter p q
    → All (OutsideAt q) (skip_gaps p gaps) ↔ All (OutsideAt q) gaps
unfolding skip_gaps
outside-skip_gaps p q [] n = (λ _. tt, λ _. tt)
outside-skip_gaps p q (g ∷ gaps) n = elim (Bool-cases (ends_before g p)) [
  | inl e ↦ rw e (
    λ h. (ended_outside p q g n e, (outside-skip_gaps p q gaps n).0 h),
    λ h. (outside-skip_gaps p q gaps n).1 h.1,
  )
  | inr e ↦ rw e (λ h. h, λ h. h)
]

first_decides :
    (p : ProducerPosition) (g h : Gap)
    → IsNonempty g
    → ends_before g p ≡ false
    → OutsideAt p g
    → Precedes g h
    → OutsideAt p h
unfolding ends_before Gap.contains
first_decides p g h n e o q = ground arith

-- After the skip only the first gap can contain the position.
first_contains_iff :
    (p : ProducerPosition) (gaps : List Gap)
    → All IsNonempty gaps
    → Ordered Precedes gaps
    → (first_contains p (skip_gaps p gaps) ≡ false) ↔ All (OutsideAt p) gaps
unfolding skip_gaps first_contains
first_contains_iff p [] n o = (λ _. tt, λ _. refl)
first_contains_iff p (g ∷ gaps) n o = elim (Bool-cases (ends_before g p)) [
  | inl e ↦
      let later = first_contains_iff p gaps n.1 o.1 in
      rw e (λ h. (ended_outside p p g (position_lt_irrefl p) e, later.0 h), λ h. later.1 h.1)
  | inr e ↦ rw e (
    λ h. (h, All-mono (Precedes g) (OutsideAt p) (λ k. first_decides p g k n.0 e h) gaps o.0),
    λ h. h.0,
  )
]

skip_gaps-All {ℓ} :
    (P : Gap → Type ℓ) (p : ProducerPosition) (gaps : List Gap)
    → All P gaps
    → All P (skip_gaps p gaps)
unfolding skip_gaps
skip_gaps-All P p [] h = h
skip_gaps-All P p (g ∷ gaps) h = elim (Bool-cases (ends_before g p)) [
  | inl e ↦ rw e (skip_gaps-All P p gaps h.1)
  | inr e ↦ rw e h
]

skip_gaps-Ordered :
    (p : ProducerPosition) (gaps : List Gap)
    → Ordered Precedes gaps
    → Ordered Precedes (skip_gaps p gaps)
unfolding skip_gaps
skip_gaps-Ordered p [] h = h
skip_gaps-Ordered p (g ∷ gaps) h = elim (Bool-cases (ends_before g p)) [
  | inl e ↦ rw e (skip_gaps-Ordered p gaps h.1)
  | inr e ↦ rw e h
]

abbrev Outside : List Gap → Observation → Type 0
Outside gaps o = OutsideAll gaps o.producer_position

OutsideAll-skip_gaps :
    (p : ProducerPosition) (gaps : List Gap) (q : Option ProducerPosition)
    → PositionBefore (some p) q
    → OutsideAll (skip_gaps p gaps) q ↔ OutsideAll gaps q
OutsideAll-skip_gaps p gaps none b = absurd b
OutsideAll-skip_gaps p gaps (some q) b = outside-skip_gaps p q gaps (position_lt_asym p q b)

later-Outside :
    (p : ProducerPosition) (gaps : List Gap) (obs : List Observation)
    → All (λ o. PositionBefore (some p) o.producer_position) obs
    → All (Outside (skip_gaps p gaps)) obs ↔ All (Outside gaps) obs
later-Outside p gaps [] b = (λ _. tt, λ _. tt)
later-Outside p gaps (o ∷ obs) b =
    let here = OutsideAll-skip_gaps p gaps o.producer_position b.0 in
    let later = later-Outside p gaps obs b.1 in
    (λ h. (here.0 h.0, later.0 h.1), λ h. (here.1 h.0, later.1 h.1))

-- The single pass over observations and gaps decides that no observation is inside any gap.
pub Outside-gaps_iff :
    (obs : List Observation) (gaps : List Gap)
    → All (λ o. is_some o.producer_position ≡ true) obs
    → Ordered Before obs
    → All IsNonempty gaps
    → Ordered Precedes gaps
    → (validate_observations_outside_gaps obs gaps ≡ ok tt) ↔ All (Outside gaps) obs
unfolding validate_observations_outside_gaps
Outside-gaps_iff [] gaps present b n o = (λ _. tt, λ _. refl)
Outside-gaps_iff (a ∷ obs) gaps present b n o = elim (Option-cases a.producer_position) [
  | inl e ↦ cc (present.0, ap is_some e)
  | inr (p, e) ↦
      let after = subst (λ x. All (λ r. PositionBefore x r.producer_position) obs) e b.0 in
      let here = first_contains_iff p gaps n o in
      let later =
        Outside-gaps_iff obs (skip_gaps p gaps) present.1 b.1 (skip_gaps-All IsNonempty p gaps n)
          (skip_gaps-Ordered p gaps o) in
      let moved = later-Outside p gaps obs after in
      rw e (
        λ h.
            let (u, first, rest) = >>=-eq-ok _ _ h in
            (here.0 (refuse_if-ok _ _ first), moved.0 (later.0 rest)),
        λ h. rw (here.1 h.0) (later.1 (moved.1 h.1)),
      )
]
