-- ===== src/Core/Collection/Spec.antt =====
-- What a valid batch of observed evidence is, with no loop and no order of checks.
use open_control_historian.Base.{
  All, List, Option, Ordered, false, is_some, length, none, some, true, ◌+◌, ◌<◌, ◌≡◌, ◌≢◌, ◌≤◌,
  ◌⊎◌,
}
use open_control_historian.Core.Position.{ProducerPosition, position_lt}
use open_control_historian.Core.Observation.{CollectionMode, Observation}
use open_control_historian.Core.Gap.{Gap, contains}
use open_control_historian.Core.Collection.{is_interval, max_gaps, max_observations}
use open_control_historian.Core.Gap

abbrev pub PositionBefore : Option ProducerPosition → Option ProducerPosition → Type 0
PositionBefore (some p) (some q) = position_lt p q ≡ true
PositionBefore _ _ = ⊥

-- Both have a position, and the first one's is the lower.
abbrev pub Before : Observation → Observation → Type 0
Before a b = PositionBefore a.producer_position b.producer_position

-- The first gap is over before the second begins.
abbrev pub Precedes : Gap → Gap → Type 0
Precedes g h = (g.epoch < h.epoch) ⊎ ((g.epoch ≡ h.epoch) × (g.end ≤ h.start))

-- No gap of the list contains the observation's position.
abbrev pub OutsideAll : List Gap → Option ProducerPosition → Type 0
OutsideAll gaps none = Unit
OutsideAll gaps (some p) = All (λ g. Gap.contains g p.epoch p.sequence ≡ false) gaps

-- One envelope's observations and gaps, as the contract has them.
pub record IsValid (mode : CollectionMode) (obs : List Observation) (gaps : List Gap) : Type 0 where
  pub few_observations : length obs ≤ max_observations
  pub few_gaps : length gaps ≤ max_gaps
  pub some_evidence : 0 < length obs + length gaps
  pub intervals : All (λ o. is_some o.interval ≡ is_interval mode) obs
  pub distinct : Ordered (λ a b. a.id ≢ b.id) obs
  pub positioned : (All (λ o. o.producer_position ≡ none) obs) ⊎ (Ordered Before obs)
  pub in_order : Ordered Precedes gaps
  pub outside : All (λ o. OutsideAll gaps o.producer_position) obs
