-- ===== src/Core/Collection.antt =====
-- crates/och-core/src/collection.rs: atomic validation of one collection envelope.
pub mod Spec
pub mod Identities
pub mod Positions
pub mod Gaps
pub mod Correct
use open_control_historian.Base.{
  Bool, List, Option, [], err, false, if◌then◌else◌, is_some, leb, length, ltb, none, not, ok,
  ok_or, refuse_if, some, true, ℕ, ◌&&◌, ◌==◌, ◌>>=◌, ◌>>◌, ◌||◌, ◌∷◌,
}
use open_control_historian.Base.Map.{same_bytes}
use open_control_historian.Core.Error.{
  Checked, duplicate_observation_id, empty_observed_evidence, invalid_no_change_mode,
  misordered_gaps, misordered_producer_positions, missing_observation_interval,
  mixed_producer_positions, observation_inside_gap, overlapping_gaps, too_many_gaps,
  too_many_observations, unexpected_observation_interval,
}
use open_control_historian.Core.Bounded.{Uuid}
use open_control_historian.Core.TimeInterval.{TimeInterval, contains}
use open_control_historian.Core.Position.{ProducerPosition, position_lt}
use open_control_historian.Core.Observation.{
  CollectionMode, Observation, SeriesMetadata, change_only, interval,
}
use open_control_historian.Core.Gap.{Gap}
use open_control_historian.Core.Gap

abbrev pub max_observations : ℕ
max_observations = 256

abbrev pub max_gaps : ℕ
max_gaps = 64

abbrev pub is_interval : CollectionMode → Bool
is_interval interval = true
is_interval _ = false

-- The `match` on the mode and the interval of one observation.
unfoldable pub check_interval : CollectionMode → Option TimeInterval → Checked (Unit {0})
check_interval interval none = err missing_observation_interval
check_interval interval (some i) = ok tt
check_interval _ none = ok tt
check_interval _ (some i) = err unexpected_observation_interval

-- Whether the set of identities seen so far has this one.
unfoldable pub seen_before : Uuid → List Uuid → Bool
seen_before id [] = false
seen_before id (x ∷ xs) = same_bytes x id || seen_before id xs

-- The first loop: intervals by mode, and no identity twice.
unfoldable pub check_identities : CollectionMode → List Uuid → List Observation → Checked (Unit {0})
check_identities mode seen [] = ok tt
check_identities mode seen (o ∷ rest) =
    let later = check_identities mode (o.id ∷ seen) rest in
    check_interval mode o.interval
    >> (refuse_if (seen_before o.id seen) duplicate_observation_id >> later)

-- Whether some observation has a position and the first has none, or the other way round.
unfoldable pub presence_differs : Bool → List Observation → Bool
presence_differs presence [] = false
presence_differs true (o ∷ rest) = not (is_some o.producer_position) || presence_differs true rest
presence_differs false (o ∷ rest) = is_some o.producer_position || presence_differs false rest

-- One window of two observations.
unfoldable pub check_pair : Option ProducerPosition → Option ProducerPosition → Checked (Unit {0})
check_pair (some previous) (some current) =
    refuse_if (not (position_lt previous current)) misordered_producer_positions
check_pair _ _ = err mixed_producer_positions

unfoldable pub check_positions : List Observation → Checked (Unit {0})
check_positions [] = ok tt
check_positions (a ∷ []) = ok tt
check_positions (a ∷ b ∷ rest) =
    let later = check_positions (b ∷ rest) in
    check_pair a.producer_position b.producer_position >> later

-- One window of two gaps.
unfoldable pub check_gap_pair : Gap → Gap → Checked (Unit {0})
check_gap_pair previous current =
    refuse_if
      (ltb current.epoch previous.epoch
        || (current.epoch == previous.epoch) && ltb current.start previous.start)
      misordered_gaps
    >> refuse_if ((current.epoch == previous.epoch) && ltb current.start previous.end)
        overlapping_gaps

unfoldable pub check_gaps : List Gap → Checked (Unit {0})
check_gaps [] = ok tt
check_gaps (g ∷ []) = ok tt
check_gaps (g ∷ h ∷ rest) = let later = check_gaps (h ∷ rest) in check_gap_pair g h >> later

-- The gap lies wholly before the position.
unfoldable pub ends_before : Gap → ProducerPosition → Bool
ends_before g p = ltb g.epoch p.epoch || (g.epoch == p.epoch) && leb g.end p.sequence

-- `while let Some(gap) = gaps.get(gap_index)`: the list is the gaps from `gap_index` on.
unfoldable pub skip_gaps : ProducerPosition → List Gap → List Gap
skip_gaps p [] = []
skip_gaps p (g ∷ rest) = let later = skip_gaps p rest in if ends_before g p then later else g ∷ rest

unfoldable pub first_contains : ProducerPosition → List Gap → Bool
first_contains p [] = false
first_contains p (g ∷ rest) = Gap.contains g p.epoch p.sequence

unfoldable pub validate_observations_outside_gaps : List Observation → List Gap → Checked (Unit {0})
validate_observations_outside_gaps [] gaps = ok tt
validate_observations_outside_gaps (o ∷ rest) gaps =
    ok_or o.producer_position mixed_producer_positions >>= λ position.
    let later = validate_observations_outside_gaps rest (skip_gaps position gaps) in
    refuse_if (first_contains position (skip_gaps position gaps)) observation_inside_gap >> later

-- `first_position_presence`.
abbrev pub first_presence : List Observation → Option Bool
first_presence [] = none
first_presence (o ∷ rest) = some (is_some o.producer_position)

abbrev pub differs_from_first : Option Bool → List Observation → Bool
differs_from_first none obs = false
differs_from_first (some presence) obs = presence_differs presence obs

-- `if first_position_presence == Some(true) { … }`.
abbrev pub if_positioned : Option Bool → Checked (Unit {0}) → Checked (Unit {0})
if_positioned (some true) check = check
if_positioned _ check = ok tt

unfoldable pub validate_observed : CollectionMode → List Observation → List Gap → Checked (Unit {0})
validate_observed mode observations gaps = do
  refuse_if (ltb max_observations (length observations)) too_many_observations
  refuse_if (ltb max_gaps (length gaps)) too_many_gaps
  refuse_if ((length observations == 0) && (length gaps == 0)) empty_observed_evidence
  check_identities mode [] observations
  refuse_if (differs_from_first (first_presence observations) observations) mixed_producer_positions
  if_positioned (first_presence observations) (check_positions observations)
  check_gaps gaps
  if_positioned (first_presence observations) (validate_observations_outside_gaps observations gaps)

pub data Evidence : Type 0 where
  observed_evidence : List Observation → List Gap → Evidence
  no_change_evidence : TimeInterval → Evidence

pub record CollectionEnvelope : Type 0 where
  pub series : SeriesMetadata
  pub evidence : Evidence

unfoldable pub observed : SeriesMetadata → List Observation → List Gap → Checked CollectionEnvelope
observed series observations gaps = do
  validate_observed series.collection_mode observations gaps
  ok (record { series = series; evidence = observed_evidence observations gaps })

abbrev is_change_only : CollectionMode → Bool
is_change_only change_only = true
is_change_only _ = false

unfoldable pub no_change : SeriesMetadata → TimeInterval → Checked CollectionEnvelope
no_change series quiet = do
  refuse_if (not (is_change_only series.collection_mode)) invalid_no_change_mode
  ok (record { series = series; evidence = no_change_evidence quiet })

abbrev pub evidence_observations : Evidence → List Observation
evidence_observations (observed_evidence observations gaps) = observations
evidence_observations (no_change_evidence quiet) = []

abbrev pub observations_of : CollectionEnvelope → List Observation
observations_of e = evidence_observations e.evidence
