-- ===== src/Store/Codec/Decode/Values.antt =====
-- crates/och-store/src/codec.rs: how identities, times, content and enumerations are read.
use open_control_historian.Core.Error.{Checked}
use open_control_historian.Store.Error.{Journal, invalid_identity}
use open_control_historian.Store.Codec.Cursor.{
  Get, i64, invalid_model, lift, match_tag, optional, pure, string, take_bytes, u128, u32, u8,
  ◌>>=◌,
}
use open_control_historian.Core.Bounded.{
  Text, Uuid, content_format_new, max_content_format_bytes, max_retry_key_bytes, retry_key_new,
}
use open_control_historian.Core.Identity.{from_bytes}
use open_control_historian.Core.Timestamp.{Timestamp}
use open_control_historian.Core.TimeInterval.{TimeInterval}
use open_control_historian.Core.Position.{ProducerPosition}
use open_control_historian.Core.Value.{ArtifactReference, ContentIdentity}
use open_control_historian.Core.Observation.{
  CollectionMode, change_only, cumulative, event, interval, sampled,
}
use open_control_historian.Core.Declaration.{
  ValueFamily, artifact_family, boolean_family, declaration_reference_new, real_family,
  signed_family, state_family, text_family, unsigned_family,
}
use open_control_historian.Core.Retry.{RetryQualification}
use open_control_historian.Core.Source.{SourceIntervalKind, no_change_interval, observed_interval}
use open_control_historian.Base.{Option, [], err, ok, ℕ, ◌*◌, ◌∷◌}
use open_control_historian.Core.Timestamp
use open_control_historian.Core.TimeInterval

-- `.map_err(|_| InvalidIdentity)`.
abbrev pub invalid_identity_bytes {ℓ} : {A : Type ℓ} → Checked A → Journal A
invalid_identity_bytes (ok a) = ok a
invalid_identity_bytes (err e) = err invalid_identity

unfoldable pub decode_identity_bytes : Get Uuid
decode_identity_bytes = take_bytes 16

-- The body that the six identities share.
unfoldable pub decode_identity : Get Uuid
decode_identity = decode_identity_bytes >>= λ id. lift (invalid_identity_bytes (from_bytes id))

unfoldable pub decode_store_id : Get Uuid
decode_store_id = decode_identity

unfoldable pub decode_series_id : Get Uuid
decode_series_id = decode_identity

unfoldable pub decode_producer_id : Get Uuid
decode_producer_id = decode_identity

unfoldable pub decode_observation_id : Get Uuid
decode_observation_id = decode_identity

unfoldable pub decode_artifact_id : Get Uuid
decode_artifact_id = decode_identity

unfoldable pub decode_evidence_id : Get Uuid
decode_evidence_id = decode_identity

abbrev pub max_declaration_reference_bytes : ℕ
max_declaration_reference_bytes = 4 * 1_024

abbrev pub max_exact_text_bytes : ℕ
max_exact_text_bytes = 4 * 4_096

-- A text that its own constructor checks.
abbrev pub decode_checked : ℕ → (Text → Checked Text) → Get Text
decode_checked maximum construct =
    string maximum >>= λ value. lift (invalid_model (construct value))

unfoldable pub decode_declaration_reference : Get Text
decode_declaration_reference =
    decode_checked max_declaration_reference_bytes declaration_reference_new

unfoldable pub decode_source_projection : Get Text
decode_source_projection = decode_checked max_declaration_reference_bytes declaration_reference_new

unfoldable pub decode_timestamp : Get Timestamp
decode_timestamp = do
  unix_seconds ← i64
  nanosecond ← u32
  lift (invalid_model (Timestamp.new unix_seconds nanosecond))

unfoldable pub decode_time_interval : Get TimeInterval
decode_time_interval = do
  start ← decode_timestamp
  end ← decode_timestamp
  lift (invalid_model (TimeInterval.new start end))

unfoldable pub decode_optional_timestamp : Get (Option Timestamp)
decode_optional_timestamp = optional decode_timestamp

unfoldable pub decode_optional_interval : Get (Option TimeInterval)
decode_optional_interval = optional decode_time_interval

abbrev pub decode_position : Get ProducerPosition
decode_position = do
  epoch ← u128
  sequence ← u128
  pure (record { epoch = epoch; sequence = sequence })

unfoldable pub decode_optional_position : Get (Option ProducerPosition)
decode_optional_position = optional decode_position

unfoldable pub decode_content : Get ContentIdentity
decode_content = do
  format ← decode_checked max_content_format_bytes content_format_new
  version ← u128
  sha256 ← take_bytes 32
  pure (record { format = format; version = version; sha256 = sha256 })

unfoldable pub decode_artifact : Get ArtifactReference
decode_artifact = do
  artifact_id ← decode_artifact_id
  content ← decode_content
  pure (record { artifact_id = artifact_id; content = content })

unfoldable pub decode_optional_artifact : Get (Option ArtifactReference)
decode_optional_artifact = optional decode_artifact

unfoldable pub decode_collection_mode : Get CollectionMode
decode_collection_mode =
    u8
    >>= match_tag (
        (1, pure sampled)
        ∷ (2, pure change_only)
        ∷ (3, pure cumulative)
        ∷ (4, pure interval)
        ∷ (5, pure event)
        ∷ [])

unfoldable pub decode_value_family : Get ValueFamily
decode_value_family =
    u8
    >>= match_tag (
        (1, pure real_family)
        ∷ (2, pure signed_family)
        ∷ (3, pure unsigned_family)
        ∷ (4, pure boolean_family)
        ∷ (5, pure state_family)
        ∷ (6, pure text_family)
        ∷ (7, pure artifact_family)
        ∷ [])

unfoldable pub decode_source_interval_kind : Get SourceIntervalKind
decode_source_interval_kind =
    u8 >>= match_tag ((1, pure observed_interval) ∷ (2, pure no_change_interval) ∷ [])

unfoldable pub decode_retry : Get RetryQualification
decode_retry = do
  series_id ← decode_series_id
  producer_id ← decode_producer_id
  key ← decode_checked max_retry_key_bytes retry_key_new
  content ← decode_content
  pure (record { series_id = series_id; producer_id = producer_id; key = key; content = content })
