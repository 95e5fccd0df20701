-- ===== src/Core/Collection/Positions.antt =====
-- The checks of producer positions: all or none, and strictly increasing.
use open_control_historian.Base.{
  >>=-eq-ok, All, All-mono, Bool, List, Option, Ordered, [], arith, false, is_some, none, ok, refl,
  some, true, ◌↔◌, ◌∷◌, ◌≡◌,
}
use open_control_historian.Core.Position.{ProducerPosition, position_lt_trans}
use open_control_historian.Core.Observation.{Observation}
use open_control_historian.Core.Collection.{check_pair, check_positions, presence_differs}
use open_control_historian.Core.Collection.Spec.{Before, PositionBefore}

abbrev pub Presence : Bool → Observation → Type 0
Presence presence o = is_some o.producer_position ≡ presence

pub presence_differs_iff :
    (presence : Bool) (obs : List Observation)
    → (presence_differs presence obs ≡ false) ↔ All (Presence presence) obs
unfolding presence_differs
presence_differs_iff presence [] = (λ _. tt, λ _. refl)
presence_differs_iff true (o ∷ obs) = (
  λ h. ground (arith, presence_differs_iff true obs),
  λ h. ground (arith, presence_differs_iff true obs),
)
presence_differs_iff false (o ∷ obs) = (
  λ h. ground (arith, presence_differs_iff false obs),
  λ h. ground (arith, presence_differs_iff false obs),
)

check_pair_iff : (p q : Option ProducerPosition) → (check_pair p q ≡ ok tt) ↔ PositionBefore p q
unfolding check_pair
check_pair_iff none q = (λ h. cc, λ h. absurd h)
check_pair_iff (some p) none = (λ h. cc, λ h. absurd h)
check_pair_iff (some p) (some q) = (λ h. ground arith, λ h. ground arith)

PositionBefore-trans :
    (p q r : Option ProducerPosition) → PositionBefore p q → PositionBefore q r → PositionBefore p r
PositionBefore-trans (some p) (some q) (some r) h k = position_lt_trans p q r h k
PositionBefore-trans (some p) (some q) none h k = k
PositionBefore-trans (some p) none r h k = absurd h
PositionBefore-trans none q r h k = absurd h

-- Comparing neighbours is enough, since the order of positions is transitive.
pub check_positions_iff :
    (obs : List Observation) → (check_positions obs ≡ ok tt) ↔ Ordered Before obs
unfolding check_positions
check_positions_iff [] = (λ _. tt, λ _. refl)
check_positions_iff (a ∷ []) = (λ _. (tt, tt), λ _. refl)
check_positions_iff (a ∷ b ∷ rest) =
    let pair = check_pair_iff a.producer_position b.producer_position in
    let later = check_positions_iff (b ∷ rest) in
    (
      λ h.
          let (u, e, tail) = >>=-eq-ok (check_pair a.producer_position b.producer_position) _ h in
          let ab = pair.0 e in
          let ordered = later.0 tail in
          (
            (
              ab,
              All-mono (Before b) (Before a) (λ c. PositionBefore-trans _ _ _ ab) rest ordered.0,
            ),
            ordered,
          ),
      λ h. rw (pair.1 h.0.0) (later.1 h.1),
    )

PositionBefore-present : (p q : Option ProducerPosition) → PositionBefore p q → is_some q ≡ true
PositionBefore-present (some p) (some q) h = refl
PositionBefore-present (some p) none h = absurd h
PositionBefore-present none q h = absurd h

pub PositionBefore-present_left :
    (p q : Option ProducerPosition) → PositionBefore p q → is_some p ≡ true
PositionBefore-present_left (some p) q h = refl
PositionBefore-present_left none q h = absurd h

-- Once the first position is there, an order of the rest says that they are all there.
pub Ordered-present :
    (a : Observation) (obs : List Observation)
    → Presence true a
    → Ordered Before (a ∷ obs)
    → All (Presence true) (a ∷ obs)
Ordered-present a obs h o =
    (h, All-mono (Before a) (Presence true) (λ b. PositionBefore-present _ _) obs o.0)
