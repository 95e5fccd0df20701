-- ===== src/Store/Codec/Encode/Values.antt =====
-- crates/och-store/src/codec.rs: how identities, times, content and enumerations are written.
use open_control_historian.Store.Codec.Encoder.{
  Put, bytes, i64, optional, string, u128, u32, u8, ◌then◌,
}
use open_control_historian.Core.Bounded.{Uuid}
use open_control_historian.Core.Timestamp.{Timestamp}
use open_control_historian.Core.TimeInterval.{TimeInterval}
use open_control_historian.Core.Position.{ProducerPosition}
use open_control_historian.Core.Value.{ArtifactReference, ContentIdentity}
use open_control_historian.Core.Observation.{
  CollectionMode, change_only, cumulative, event, interval, sampled,
}
use open_control_historian.Core.Declaration.{
  ValueFamily, artifact_family, boolean_family, real_family, signed_family, state_family,
  text_family, unsigned_family,
}
use open_control_historian.Core.Retry.{RetryQualification}
use open_control_historian.Core.Source.{SourceIntervalKind, no_change_interval, observed_interval}
use open_control_historian.Base.{Option, ℕ}

unfoldable pub encode_store_id : Uuid → Put
encode_store_id id = bytes id

unfoldable pub encode_series_id : Uuid → Put
encode_series_id id = bytes id

unfoldable pub encode_producer_id : Uuid → Put
encode_producer_id id = bytes id

unfoldable pub encode_observation_id : Uuid → Put
encode_observation_id id = bytes id

unfoldable pub encode_artifact_id : Uuid → Put
encode_artifact_id id = bytes id

unfoldable pub encode_evidence_id : Uuid → Put
encode_evidence_id id = bytes id

unfoldable pub encode_timestamp : Timestamp → Put
encode_timestamp timestamp = i64 timestamp.unix_seconds then u32 timestamp.nanosecond

unfoldable pub encode_time_interval : TimeInterval → Put
encode_time_interval i = encode_timestamp i.start then encode_timestamp i.end

unfoldable pub encode_optional_timestamp : Option Timestamp → Put
encode_optional_timestamp = optional encode_timestamp

unfoldable pub encode_optional_interval : Option TimeInterval → Put
encode_optional_interval = optional encode_time_interval

abbrev pub encode_position : ProducerPosition → Put
encode_position position = u128 position.epoch then u128 position.sequence

unfoldable pub encode_optional_position : Option ProducerPosition → Put
encode_optional_position = optional encode_position

unfoldable pub encode_content : ContentIdentity → Put
encode_content content = string content.format then u128 content.version then bytes content.sha256

unfoldable pub encode_artifact : ArtifactReference → Put
encode_artifact reference =
    encode_artifact_id reference.artifact_id then encode_content reference.content

unfoldable pub encode_optional_artifact : Option ArtifactReference → Put
encode_optional_artifact = optional encode_artifact

abbrev mode_tag : CollectionMode → ℕ
mode_tag sampled = 1
mode_tag change_only = 2
mode_tag cumulative = 3
mode_tag interval = 4
mode_tag event = 5

unfoldable pub encode_collection_mode : CollectionMode → Put
encode_collection_mode mode = u8 (mode_tag mode)

abbrev family_tag : ValueFamily → ℕ
family_tag real_family = 1
family_tag signed_family = 2
family_tag unsigned_family = 3
family_tag boolean_family = 4
family_tag state_family = 5
family_tag text_family = 6
family_tag artifact_family = 7

unfoldable pub encode_value_family : ValueFamily → Put
encode_value_family family = u8 (family_tag family)

abbrev interval_kind_tag : SourceIntervalKind → ℕ
interval_kind_tag observed_interval = 1
interval_kind_tag no_change_interval = 2

unfoldable pub encode_source_interval_kind : SourceIntervalKind → Put
encode_source_interval_kind kind = u8 (interval_kind_tag kind)

unfoldable pub encode_retry : RetryQualification → Put
encode_retry retry =
    encode_series_id retry.series_id
    then encode_producer_id retry.producer_id
    then string retry.key
    then encode_content retry.content
