-- ===== src/Store/Codec/Decode/Observations.antt =====
-- crates/och-store/src/codec.rs: how a collection envelope is read.
use open_control_historian.Store.Error.{unknown_tag}
use open_control_historian.Store.Codec.Cursor.{
  Get, count, i64, invalid_model, lift, match_tag, optional, pure, repeat, u128, u64, u8, ◌>>=◌,
  ◌>>◌,
}
use open_control_historian.Core.Bounded.{
  Text, exact_text_new, max_portable_token_bytes, portable_token_new,
}
use open_control_historian.Core.Timestamp.{ObservationTimes}
use open_control_historian.Core.Value.{
  ExactValue, Quality, QualityLevel, artifact, bad, boolean, good, max_native_status_tokens,
  native_status_new, not_evaluated, real, signed, state, text, unavailable, uncertain, unknown,
  unsigned,
}
use open_control_historian.Core.Quality.{
  flag_communication_failure, flag_invalid, flag_out_of_service, flag_overridden, flag_stale,
  flag_substituted, has_flag, no_flags, with_flag,
}
use open_control_historian.Core.Observation.{Observation, SeriesMetadata}
use open_control_historian.Core.Gap.{
  Gap, GapReason, administrative_exclusion, buffer_overflow, communication_failure, new,
  producer_restart, source_data_loss,
}
use open_control_historian.Core.Collection.{
  CollectionEnvelope, max_gaps, max_observations, no_change, observed,
}
use open_control_historian.Base.{List, [], false, not, refuse_if, true, ℕ, ◌==◌, ◌∷◌}
use open_control_historian.Store.Codec.Decode.Values.{
  decode_artifact, decode_checked, decode_collection_mode, decode_observation_id,
  decode_optional_interval, decode_optional_position, decode_optional_timestamp, decode_producer_id,
  decode_series_id, decode_time_interval, decode_timestamp, max_exact_text_bytes,
}
use open_control_historian.Core.Gap
use Prim.Native.Nat.{bit_and}

unfoldable pub decode_series_metadata : Get SeriesMetadata
decode_series_metadata = do
  series_id ← decode_series_id
  producer_id ← decode_producer_id
  collection_mode ← decode_collection_mode
  pure (record {
    series_id = series_id;
    producer_id = producer_id;
    collection_mode = collection_mode;
  })

unfoldable pub decode_exact_value : Get ExactValue
decode_exact_value =
    u8
    >>= match_tag (
        (1, u64 >>= λ bits. pure (real bits))
        ∷ (2, i64 >>= λ value. pure (signed value))
        ∷ (3, u64 >>= λ value. pure (unsigned value))
        ∷ (4, u8 >>= match_tag ((0, pure (boolean false)) ∷ (1, pure (boolean true)) ∷ []))
        ∷ (
          5,
          do
            class ← decode_checked max_portable_token_bytes portable_token_new
            member ← decode_checked max_portable_token_bytes portable_token_new
            pure (state (record { class = class; member = member })),
        )
        ∷ (6, decode_checked max_exact_text_bytes exact_text_new >>= λ value. pure (text value))
        ∷ (7, decode_artifact >>= λ value. pure (artifact value))
        ∷ (
          8,
          optional (decode_checked max_portable_token_bytes portable_token_new) >>= λ reason.
              pure (unavailable reason),
        )
        ∷ [])

unfoldable pub decode_observation_times : Get ObservationTimes
decode_observation_times = do
  source ← decode_optional_timestamp
  receive ← decode_timestamp
  effective ← decode_timestamp
  pure (record { source = source; receive = receive; effective = effective })

-- The setters in the order of the source, each with the test of its bit.
unfoldable pub flags_of_bits : ℕ → ℕ
unfolding has_flag with_flag
flags_of_bits bits =
    let copy : ℕ → ℕ → ℕ = λ flag flags. with_flag flag (has_flag flag bits) flags in
    copy flag_communication_failure (
      copy flag_out_of_service (
        copy flag_overridden
          (copy flag_substituted (copy flag_invalid (copy flag_stale no_flags)))))

unfoldable pub decode_quality_level : Get QualityLevel
decode_quality_level =
    u8
    >>= match_tag (
        (1, pure unknown)
        ∷ (2, pure good)
        ∷ (3, pure uncertain)
        ∷ (4, pure bad)
        ∷ (5, pure not_evaluated)
        ∷ [])

unfoldable pub decode_quality : Get Quality
decode_quality = do
  level ← decode_quality_level
  bits ← u8
  lift (refuse_if (not (bit_and bits 0xc0 == 0)) unknown_tag)
  pure (record { level = level; flags = flags_of_bits bits })

unfoldable pub decode_native_status : Get (List Text)
decode_native_status = do
  size ← count max_native_status_tokens
  tokens ← repeat size (decode_checked max_portable_token_bytes portable_token_new)
  lift (invalid_model (native_status_new tokens))

unfoldable pub decode_observation : Get Observation
decode_observation = do
  id ← decode_observation_id
  value ← decode_exact_value
  times ← decode_observation_times
  quality ← decode_quality
  native_status ← decode_native_status
  producer_position ← decode_optional_position
  period ← decode_optional_interval
  pure (record {
    id = id;
    value = value;
    times = times;
    quality = quality;
    native_status = native_status;
    producer_position = producer_position;
    interval = period;
  })

unfoldable pub decode_gap_reason : Get GapReason
decode_gap_reason =
    u8
    >>= match_tag (
        (1, pure Gap.unknown)
        ∷ (2, pure producer_restart)
        ∷ (3, pure buffer_overflow)
        ∷ (4, pure communication_failure)
        ∷ (5, pure source_data_loss)
        ∷ (6, pure administrative_exclusion)
        ∷ [])

unfoldable pub decode_gap : Get Gap
decode_gap = do
  epoch ← u128
  start ← u128
  end ← u128
  reason ← decode_gap_reason
  lift (invalid_model (Gap.new epoch start end reason))

abbrev pub decode_observed : SeriesMetadata → Get CollectionEnvelope
decode_observed metadata = do
  observation_count ← count max_observations
  observations ← repeat observation_count decode_observation
  gap_count ← count max_gaps
  gaps ← repeat gap_count decode_gap
  lift (invalid_model (observed metadata observations gaps))

abbrev pub decode_no_change : SeriesMetadata → Get CollectionEnvelope
decode_no_change metadata = do
  quiet ← decode_time_interval
  lift (invalid_model (no_change metadata quiet))

unfoldable pub decode_envelope : Get CollectionEnvelope
decode_envelope = do
  metadata ← decode_series_metadata
  u8 >>= match_tag ((1, decode_observed metadata) ∷ (2, decode_no_change metadata) ∷ [])
