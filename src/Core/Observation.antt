-- ===== src/Core/Observation.antt =====
-- crates/och-core/src/observation.rs: series metadata and exact observations.
use open_control_historian.Base.{List, Option, ℕ_discrete}
use open_control_historian.Core.Bounded.{Text, Uuid}
use open_control_historian.Core.Timestamp.{ObservationTimes, ObservationTimes-discrete}
use open_control_historian.Core.TimeInterval.{TimeInterval, TimeInterval-discrete}
use open_control_historian.Core.Position.{ProducerPosition, ProducerPosition-discrete}
use open_control_historian.Core.Value.{ExactValue, ExactValue-discrete, Quality, Quality-discrete}

pub data CollectionMode : Type 0 where
  sampled change_only cumulative interval event : CollectionMode

unfoldable pub CollectionMode-discrete : Discrete CollectionMode
CollectionMode-discrete = hlevel

pub record SeriesMetadata : Type 0 where
  pub series_id : Uuid
  pub producer_id : Uuid
  pub collection_mode : CollectionMode

unfoldable pub SeriesMetadata-discrete : Discrete SeriesMetadata
SeriesMetadata-discrete = hlevel ℕ_discrete

pub record Observation : Type 0 where
  pub id : Uuid
  pub value : ExactValue
  pub times : ObservationTimes
  pub quality : Quality
  pub native_status : List Text
  pub producer_position : Option ProducerPosition
  pub interval : Option TimeInterval

pub Observation-discrete : Discrete Observation
Observation-discrete = hlevel (
  ℕ_discrete, ExactValue-discrete, ObservationTimes-discrete, Quality-discrete,
  ProducerPosition-discrete, TimeInterval-discrete,
)
