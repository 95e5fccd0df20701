-- ===== src/Store/Codec/RoundTrip/Values.antt =====
-- Identities, times, content and enumerations round-trip, given what their constructors ensure.
use open_control_historian.Store.Codec.RoundTrip.Combinators.{
  Gives, Gives-lift, Gives-pure, RoundTrips, RoundTrips-made, RoundTrips-then,
}
use open_control_historian.Store.Codec.RoundTrip.Primitives.{
  IfSome, IsText, RoundTrips-bytes, RoundTrips-i64, RoundTrips-optional, RoundTrips-string,
  RoundTrips-u128, RoundTrips-u32, RoundTrips-u8,
}
use open_control_historian.Core.Error.{Checked}
use open_control_historian.Core.Bounded.{
  Text, Uuid, content_format_new, max_content_format_bytes, max_retry_key_bytes, retry_key_new,
}
use open_control_historian.Core.Identity.{from_bytes}
use open_control_historian.Core.Timestamp.{Timestamp, fits_i64, nanos_per_second}
use open_control_historian.Core.TimeInterval.{TimeInterval}
use open_control_historian.Core.Position.{ProducerPosition}
use open_control_historian.Core.Value.{ArtifactReference, ContentIdentity}
use open_control_historian.Core.Observation.{
  CollectionMode, change_only, cumulative, event, interval, sampled,
}
use open_control_historian.Core.Declaration.{
  ValueFamily, artifact_family, boolean_family, declaration_reference_new, real_family,
  signed_family, state_family, text_family, unsigned_family,
}
use open_control_historian.Core.Retry.{RetryQualification}
use open_control_historian.Core.Source.{SourceIntervalKind, no_change_interval, observed_interval}
use open_control_historian.Store.Codec.Encode.Values.{
  encode_artifact, encode_artifact_id, encode_collection_mode, encode_content,
  encode_optional_artifact, encode_optional_interval, encode_optional_position,
  encode_optional_timestamp, encode_position, encode_producer_id, encode_retry, encode_series_id,
  encode_source_interval_kind, encode_time_interval, encode_timestamp, encode_value_family,
}
use open_control_historian.Store.Codec.Decode.Values.{
  decode_artifact, decode_artifact_id, decode_checked, decode_collection_mode, decode_content,
  decode_declaration_reference, decode_identity, decode_identity_bytes, decode_optional_artifact,
  decode_optional_interval, decode_optional_position, decode_optional_timestamp, decode_position,
  decode_producer_id, decode_retry, decode_series_id, decode_source_interval_kind,
  decode_source_projection, decode_time_interval, decode_timestamp, decode_value_family,
  max_declaration_reference_bytes,
}
use open_control_historian.Store.Codec.Encoder.{Encoder, string, u128}
use open_control_historian.Store.Codec.Cursor.{Cursor, invalid_model, lift, match_tag}
use open_control_historian.Base.{Option, arith, length, ltb, ltb→lt, ok, true, ℕ, ◌<◌, ◌^◌, ◌≡◌}
use open_control_historian.Store.Codec.Encoder
use open_control_historian.Store.Codec.Cursor
use open_control_historian.Core.Timestamp
use open_control_historian.Core.TimeInterval

-- Sixteen bytes that the identity's constructor accepts.
unfoldable pub IsIdentity : Uuid → Type 0
IsIdentity id = (length id ≡ 16) × (from_bytes id ≡ ok id)

-- A number of 128 bits.
unfoldable pub IsU128 : ℕ → Type 0
IsU128 n = ltb n (2 ^ 128) ≡ true

-- A text that the bounded read and the constructor accept.
unfoldable pub IsAccepted : ℕ → (Text → Checked Text) → Text → Type 0
IsAccepted maximum construct value = IsText maximum value × (construct value ≡ ok value)

unfoldable pub IsReference : Text → Type 0
IsReference value = IsAccepted max_declaration_reference_bytes declaration_reference_new value

unfoldable pub IsTimestamp : Timestamp → Type 0
IsTimestamp t = (fits_i64 t.unix_seconds ≡ true) × (ltb t.nanosecond nanos_per_second ≡ true)

unfoldable pub IsTimeInterval : TimeInterval → Type 0
IsTimeInterval i = IsTimestamp i.start × IsTimestamp i.end × (TimeInterval.new i.start i.end ≡ ok i)

unfoldable pub IsPosition : ProducerPosition → Type 0
IsPosition p = IsU128 p.epoch × IsU128 p.sequence

unfoldable pub IsContent : ContentIdentity → Type 0
IsContent c =
    IsAccepted max_content_format_bytes content_format_new c.format
    × IsU128 c.version
    × (length c.sha256 ≡ 32)

unfoldable pub IsArtifact : ArtifactReference → Type 0
IsArtifact a = IsIdentity a.artifact_id × IsContent a.content

unfoldable pub IsRetry : RetryQualification → Type 0
IsRetry r =
    IsIdentity r.series_id
    × IsIdentity r.producer_id
    × IsAccepted max_retry_key_bytes retry_key_new r.key
    × IsContent r.content

pub Gives-model {ℓ} :
    {A : Type ℓ} (result : Checked A) (a : A)
    → result ≡ ok a
    → Gives (lift (invalid_model result)) a
Gives-model result a h = Gives-lift _ a (rw h)

pub RoundTrips-identity :
    (id : Uuid) → IsIdentity id → RoundTrips (Encoder.bytes id) decode_identity id
unfolding IsIdentity decode_identity decode_identity_bytes
RoundTrips-identity id (sixteen, accepted) =
    RoundTrips-made _ (RoundTrips-bytes 16 id sixteen) (Gives-lift _ id (rw accepted))

pub RoundTrips-wide : (n : ℕ) → IsU128 n → RoundTrips (Encoder.u128 n) Cursor.u128 n
unfolding IsU128
RoundTrips-wide n h = RoundTrips-u128 n (ltb→lt _ _ h)

pub RoundTrips-accepted :
    (maximum : ℕ) (construct : Text → Checked Text) (value : Text)
    → maximum < 2 ^ 32
    → IsAccepted maximum construct value
    → RoundTrips (Encoder.string value) (decode_checked maximum construct) value
unfolding IsAccepted
RoundTrips-accepted maximum construct value bound (fits, accepted) =
    RoundTrips-made _ (RoundTrips-string maximum value bound fits) (Gives-model _ value accepted)

pub RoundTrips-reference :
    (value : Text)
    → IsReference value
    → RoundTrips (Encoder.string value) decode_declaration_reference value
unfolding IsReference decode_declaration_reference
RoundTrips-reference value h = RoundTrips-accepted _ _ value (omega arith) h

pub RoundTrips-projection :
    (value : Text)
    → IsReference value
    → RoundTrips (Encoder.string value) decode_source_projection value
unfolding IsReference decode_source_projection
RoundTrips-projection value h = RoundTrips-accepted _ _ value (omega arith) h

pub RoundTrips-timestamp :
    (t : Timestamp) → IsTimestamp t → RoundTrips (encode_timestamp t) decode_timestamp t
unfolding IsTimestamp encode_timestamp decode_timestamp
RoundTrips-timestamp t (seconds, nanos) =
    let valid : Timestamp.new t.unix_seconds t.nanosecond ≡ ok t =
      unfold Timestamp.new in ground arith in
    RoundTrips-then _ (RoundTrips-i64 t.unix_seconds seconds)
      (RoundTrips-made _ (RoundTrips-u32 t.nanosecond (ground arith)) (Gives-model _ t valid))

pub RoundTrips-time_interval :
    (i : TimeInterval)
    → IsTimeInterval i
    → RoundTrips (encode_time_interval i) decode_time_interval i
unfolding IsTimeInterval encode_time_interval decode_time_interval
RoundTrips-time_interval i (start, end, valid) =
    RoundTrips-then _ (RoundTrips-timestamp i.start start)
      (RoundTrips-made _ (RoundTrips-timestamp i.end end) (Gives-model _ i valid))

pub RoundTrips-optional_timestamp :
    (t : Option Timestamp)
    → IfSome IsTimestamp t
    → RoundTrips (encode_optional_timestamp t) decode_optional_timestamp t
unfolding encode_optional_timestamp decode_optional_timestamp
RoundTrips-optional_timestamp t h = RoundTrips-optional _ _ IsTimestamp RoundTrips-timestamp t h

pub RoundTrips-optional_interval :
    (i : Option TimeInterval)
    → IfSome IsTimeInterval i
    → RoundTrips (encode_optional_interval i) decode_optional_interval i
unfolding encode_optional_interval decode_optional_interval
RoundTrips-optional_interval i h =
    RoundTrips-optional _ _ IsTimeInterval RoundTrips-time_interval i h

RoundTrips-position :
    (p : ProducerPosition) → IsPosition p → RoundTrips (encode_position p) decode_position p
unfolding IsPosition
RoundTrips-position p (epoch, sequence) =
    RoundTrips-then _ (RoundTrips-wide p.epoch epoch)
      (RoundTrips-made _ (RoundTrips-wide p.sequence sequence) (Gives-pure p))

pub RoundTrips-optional_position :
    (p : Option ProducerPosition)
    → IfSome IsPosition p
    → RoundTrips (encode_optional_position p) decode_optional_position p
unfolding encode_optional_position decode_optional_position
RoundTrips-optional_position p h = RoundTrips-optional _ _ IsPosition RoundTrips-position p h

pub RoundTrips-content :
    (c : ContentIdentity) → IsContent c → RoundTrips (encode_content c) decode_content c
unfolding IsContent encode_content decode_content
RoundTrips-content c (format, version, sha256) =
    RoundTrips-then _ (RoundTrips-accepted _ _ c.format (omega arith) format) (
      RoundTrips-then _ (RoundTrips-wide c.version version)
        (RoundTrips-made _ (RoundTrips-bytes 32 c.sha256 sha256) (Gives-pure c)))

pub RoundTrips-artifact :
    (a : ArtifactReference) → IsArtifact a → RoundTrips (encode_artifact a) decode_artifact a
unfolding IsArtifact encode_artifact decode_artifact encode_artifact_id decode_artifact_id
RoundTrips-artifact a (id, content) =
    RoundTrips-then _ (RoundTrips-identity a.artifact_id id)
      (RoundTrips-made _ (RoundTrips-content a.content content) (Gives-pure a))

pub RoundTrips-optional_artifact :
    (a : Option ArtifactReference)
    → IfSome IsArtifact a
    → RoundTrips (encode_optional_artifact a) decode_optional_artifact a
unfolding encode_optional_artifact decode_optional_artifact
RoundTrips-optional_artifact a h = RoundTrips-optional _ _ IsArtifact RoundTrips-artifact a h

pub RoundTrips-mode :
    (mode : CollectionMode) → RoundTrips (encode_collection_mode mode) decode_collection_mode mode
unfolding encode_collection_mode decode_collection_mode match_tag
RoundTrips-mode sampled = RoundTrips-made _ (RoundTrips-u8 1) (Gives-pure sampled)
RoundTrips-mode change_only = RoundTrips-made _ (RoundTrips-u8 2) (Gives-pure change_only)
RoundTrips-mode cumulative = RoundTrips-made _ (RoundTrips-u8 3) (Gives-pure cumulative)
RoundTrips-mode interval = RoundTrips-made _ (RoundTrips-u8 4) (Gives-pure interval)
RoundTrips-mode event = RoundTrips-made _ (RoundTrips-u8 5) (Gives-pure event)

pub RoundTrips-family :
    (family : ValueFamily) → RoundTrips (encode_value_family family) decode_value_family family
unfolding encode_value_family decode_value_family match_tag
RoundTrips-family real_family = RoundTrips-made _ (RoundTrips-u8 1) (Gives-pure real_family)
RoundTrips-family signed_family = RoundTrips-made _ (RoundTrips-u8 2) (Gives-pure signed_family)
RoundTrips-family unsigned_family = RoundTrips-made _ (RoundTrips-u8 3) (Gives-pure unsigned_family)
RoundTrips-family boolean_family = RoundTrips-made _ (RoundTrips-u8 4) (Gives-pure boolean_family)
RoundTrips-family state_family = RoundTrips-made _ (RoundTrips-u8 5) (Gives-pure state_family)
RoundTrips-family text_family = RoundTrips-made _ (RoundTrips-u8 6) (Gives-pure text_family)
RoundTrips-family artifact_family = RoundTrips-made _ (RoundTrips-u8 7) (Gives-pure artifact_family)

pub RoundTrips-interval_kind :
    (kind : SourceIntervalKind)
    → RoundTrips (encode_source_interval_kind kind) decode_source_interval_kind kind
unfolding encode_source_interval_kind decode_source_interval_kind match_tag
RoundTrips-interval_kind observed_interval =
    RoundTrips-made _ (RoundTrips-u8 1) (Gives-pure observed_interval)
RoundTrips-interval_kind no_change_interval =
    RoundTrips-made _ (RoundTrips-u8 2) (Gives-pure no_change_interval)

pub RoundTrips-retry :
    (r : RetryQualification) → IsRetry r → RoundTrips (encode_retry r) decode_retry r
unfolding IsRetry encode_retry decode_retry encode_series_id decode_series_id encode_producer_id
    decode_producer_id
RoundTrips-retry r (series, producer, key, content) =
    RoundTrips-then _ (RoundTrips-identity r.series_id series) (
      RoundTrips-then _ (RoundTrips-identity r.producer_id producer) (
        RoundTrips-then _ (RoundTrips-accepted _ _ r.key (omega arith) key)
          (RoundTrips-made _ (RoundTrips-content r.content content) (Gives-pure r))))
