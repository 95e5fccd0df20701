-- ===== src/Store/Codec/Encode/Observations.antt =====
-- crates/och-store/src/codec.rs: how a collection envelope is written.
use open_control_historian.Store.Codec.Encoder.{
  Put, count, each, i64, optional, string, u128, u64, u8, ◌then◌,
}
use open_control_historian.Core.Bounded.{Text}
use open_control_historian.Core.Timestamp.{ObservationTimes}
use open_control_historian.Core.Value.{
  ExactValue, Quality, QualityLevel, artifact, bad, boolean, good, not_evaluated, real, signed,
  state, text, unavailable, uncertain, unknown, unsigned,
}
use open_control_historian.Core.Quality.{
  flag_communication_failure, flag_invalid, flag_out_of_service, flag_overridden, flag_stale,
  flag_substituted, has_flag,
}
use open_control_historian.Core.Observation.{Observation, SeriesMetadata}
use open_control_historian.Core.Gap.{
  Gap, GapReason, administrative_exclusion, buffer_overflow, communication_failure,
  producer_restart, source_data_loss,
}
use open_control_historian.Core.Collection.{
  CollectionEnvelope, Evidence, no_change_evidence, observed_evidence,
}
use open_control_historian.Base.{Bool, List, false, length, true, ℕ, ◌*◌}
use open_control_historian.Store.Codec.Encode.Values.{
  encode_artifact, encode_collection_mode, encode_observation_id, encode_optional_interval,
  encode_optional_position, encode_optional_timestamp, encode_producer_id, encode_series_id,
  encode_time_interval, encode_timestamp,
}
use open_control_historian.Core.Gap
use Prim.Native.Nat.{bit_or}

unfoldable pub encode_series_metadata : SeriesMetadata → Put
encode_series_metadata metadata =
    encode_series_id metadata.series_id
    then encode_producer_id metadata.producer_id
    then encode_collection_mode metadata.collection_mode

-- `u8::from`.
abbrev pub bool_byte : Bool → ℕ
bool_byte false = 0
bool_byte true = 1

unfoldable pub encode_exact_value : ExactValue → Put
encode_exact_value (real bits) = u8 1 then u64 bits
encode_exact_value (signed value) = u8 2 then i64 value
encode_exact_value (unsigned value) = u8 3 then u64 value
encode_exact_value (boolean value) = u8 4 then u8 (bool_byte value)
encode_exact_value (state value) = u8 5 then string value.class then string value.member
encode_exact_value (text value) = u8 6 then string value
encode_exact_value (artifact value) = u8 7 then encode_artifact value
encode_exact_value (unavailable reason) = u8 8 then optional string reason

unfoldable pub encode_observation_times : ObservationTimes → Put
encode_observation_times times =
    encode_optional_timestamp times.source
    then encode_timestamp times.receive
    then encode_timestamp times.effective

abbrev pub level_tag : QualityLevel → ℕ
level_tag unknown = 1
level_tag good = 2
level_tag uncertain = 3
level_tag bad = 4
level_tag not_evaluated = 5

-- Every flag at its bit.
unfoldable pub flag_bits : ℕ → ℕ
unfolding has_flag
flag_bits flags =
    let at_bit : ℕ → ℕ = λ flag. bool_byte (has_flag flag flags) * flag in
    bit_or (at_bit flag_stale) (
      bit_or (at_bit flag_invalid) (
        bit_or (at_bit flag_substituted) (
          bit_or (at_bit flag_overridden)
            (bit_or (at_bit flag_out_of_service) (at_bit flag_communication_failure)))))

unfoldable pub encode_quality : Quality → Put
encode_quality quality = u8 (level_tag quality.level) then u8 (flag_bits quality.flags)

unfoldable pub encode_native_status : List Text → Put
encode_native_status tokens = count (length tokens) then each string tokens

unfoldable pub encode_observation : Observation → Put
encode_observation observation =
    encode_observation_id observation.id
    then encode_exact_value observation.value
    then encode_observation_times observation.times
    then encode_quality observation.quality
    then encode_native_status observation.native_status
    then encode_optional_position observation.producer_position
    then encode_optional_interval observation.interval

abbrev pub gap_reason_tag : GapReason → ℕ
gap_reason_tag Gap.unknown = 1
gap_reason_tag producer_restart = 2
gap_reason_tag buffer_overflow = 3
gap_reason_tag communication_failure = 4
gap_reason_tag source_data_loss = 5
gap_reason_tag administrative_exclusion = 6

unfoldable pub encode_gap : Gap → Put
encode_gap gap =
    u128 gap.epoch then u128 gap.start then u128 gap.end then u8 (gap_reason_tag gap.reason)

abbrev pub encode_evidence : Evidence → Put
encode_evidence (observed_evidence observations gaps) =
    u8 1
    then count (length observations)
    then each encode_observation observations
    then count (length gaps)
    then each encode_gap gaps
encode_evidence (no_change_evidence quiet) = u8 2 then encode_time_interval quiet

unfoldable pub encode_envelope : CollectionEnvelope → Put
encode_envelope envelope =
    encode_series_metadata envelope.series then encode_evidence envelope.evidence
