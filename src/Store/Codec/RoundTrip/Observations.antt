-- ===== src/Store/Codec/RoundTrip/Observations.antt =====
-- Collection envelopes round-trip.
use open_control_historian.Store.Codec.RoundTrip.Combinators.{
  Gives-pure, Gives-then, RoundTrips, RoundTrips-made, RoundTrips-then,
}
use open_control_historian.Store.Codec.RoundTrip.Primitives.{
  Gives-refuse_if, IfSome, RoundTrips-count, RoundTrips-each, RoundTrips-i64, RoundTrips-optional,
  RoundTrips-u64, RoundTrips-u8,
}
use open_control_historian.Core.Bounded.{
  Text, exact_text_new, max_portable_token_bytes, portable_token_new,
}
use open_control_historian.Core.Timestamp.{ObservationTimes, fits_i64}
use open_control_historian.Core.Value.{
  ExactValue, Quality, QualityLevel, artifact, bad, boolean, good, max_native_status_tokens,
  native_status_new, not_evaluated, real, signed, state, text, unavailable, uncertain, unknown,
  unsigned,
}
use open_control_historian.Core.Quality.{has_flag, with_flag}
use open_control_historian.Core.Observation.{Observation, SeriesMetadata}
use open_control_historian.Core.Gap.{
  Gap, GapReason, administrative_exclusion, buffer_overflow, communication_failure, new,
  producer_restart, source_data_loss,
}
use open_control_historian.Core.Collection.{
  CollectionEnvelope, Evidence, max_gaps, max_observations, no_change, no_change_evidence, observed,
  observed_evidence,
}
use open_control_historian.Store.Codec.Encode.Values.{
  encode_observation_id, encode_producer_id, encode_series_id,
}
use open_control_historian.Store.Codec.Decode.Values.{
  decode_checked, decode_observation_id, decode_producer_id, decode_series_id, max_exact_text_bytes,
}
use open_control_historian.Store.Codec.RoundTrip.Values.{
  Gives-model, IsAccepted, IsArtifact, IsIdentity, IsPosition, IsTimeInterval, IsTimestamp, IsU128,
  RoundTrips-accepted, RoundTrips-artifact, RoundTrips-identity, RoundTrips-mode,
  RoundTrips-optional_interval, RoundTrips-optional_position, RoundTrips-optional_timestamp,
  RoundTrips-time_interval, RoundTrips-timestamp, RoundTrips-wide,
}
use open_control_historian.Store.Codec.Encode.Observations.{
  encode_envelope, encode_evidence, encode_exact_value, encode_gap, encode_native_status,
  encode_observation, encode_observation_times, encode_quality, encode_series_metadata, flag_bits,
  gap_reason_tag, level_tag,
}
use open_control_historian.Store.Codec.Decode.Observations.{
  decode_envelope, decode_exact_value, decode_gap, decode_gap_reason, decode_native_status,
  decode_no_change, decode_observation, decode_observation_times, decode_observed, decode_quality,
  decode_quality_level, decode_series_metadata, flags_of_bits,
}
use open_control_historian.Store.Codec.Encoder.{Encoder, string, u8}
use open_control_historian.Store.Codec.Cursor.{Cursor, match_tag, ◌>>=◌}
use open_control_historian.Base.{
  &&-true, All, Bool, Bool-cases, List, [], arith, false, inl, inr, leb, length, ltb, ltb→lt, not,
  ok, refl, subst, suc, true, zero, ℕ, ◌&&◌, ◌<◌, ◌==◌, ◌^◌, ◌∷◌, ◌≡◌,
}
use open_control_historian.Store.Codec.Encoder
use open_control_historian.Store.Codec.Cursor
use open_control_historian.Core.Gap
use Prim.Native.Nat.{bit_and}

unfoldable pub IsMetadata : SeriesMetadata → Type 0
IsMetadata m = IsIdentity m.series_id × IsIdentity m.producer_id

unfoldable pub IsToken : Text → Type 0
IsToken value = IsAccepted max_portable_token_bytes portable_token_new value

unfoldable pub IsExactValue : ExactValue → Type 0
IsExactValue (real bits) = ltb bits (2 ^ 64) ≡ true
IsExactValue (signed value) = fits_i64 value ≡ true
IsExactValue (unsigned value) = ltb value (2 ^ 64) ≡ true
IsExactValue (boolean value) = Unit
IsExactValue (state value) = IsToken value.class × IsToken value.member
IsExactValue (text value) = IsAccepted max_exact_text_bytes exact_text_new value
IsExactValue (artifact value) = IsArtifact value
IsExactValue (unavailable reason) = IfSome IsToken reason

unfoldable pub IsTimes : ObservationTimes → Type 0
IsTimes t = IfSome IsTimestamp t.source × IsTimestamp t.receive × IsTimestamp t.effective

-- Only the six flags are set.
unfoldable pub IsQuality : Quality → Type 0
IsQuality q = ltb q.flags 64 ≡ true

unfoldable pub IsNativeStatus : List Text → Type 0
IsNativeStatus tokens = (leb (length tokens) max_native_status_tokens ≡ true) × All IsToken tokens

unfoldable pub IsObservation : Observation → Type 0
IsObservation o =
    IsIdentity o.id
    × IsExactValue o.value
    × IsTimes o.times
    × IsQuality o.quality
    × IsNativeStatus o.native_status
    × IfSome IsPosition o.producer_position
    × IfSome IsTimeInterval o.interval

unfoldable pub IsGap : Gap → Type 0
IsGap g =
    IsU128 g.epoch × IsU128 g.start × IsU128 g.end × (Gap.new g.epoch g.start g.end g.reason ≡ ok g)

-- The evidence is what the envelope's constructors accept.
unfoldable pub IsEnvelopeEvidence : CollectionEnvelope → Evidence → Type 0
IsEnvelopeEvidence e (observed_evidence observations gaps) =
    (leb (length observations) max_observations ≡ true)
    × (leb (length gaps) max_gaps ≡ true)
    × All IsObservation observations
    × All IsGap gaps
    × (observed e.series observations gaps ≡ ok e)
IsEnvelopeEvidence e (no_change_evidence quiet) =
    IsTimeInterval quiet × (no_change e.series quiet ≡ ok e)

unfoldable pub IsEnvelope : CollectionEnvelope → Type 0
IsEnvelope e = IsMetadata e.series × IsEnvelopeEvidence e e.evidence

RoundTrips-metadata :
    (m : SeriesMetadata)
    → IsMetadata m
    → RoundTrips (encode_series_metadata m) decode_series_metadata m
unfolding IsMetadata encode_series_metadata decode_series_metadata encode_series_id decode_series_id
    encode_producer_id decode_producer_id
RoundTrips-metadata m (series, producer) =
    RoundTrips-then _ (RoundTrips-identity m.series_id series) (
      RoundTrips-then _ (RoundTrips-identity m.producer_id producer)
        (RoundTrips-made _ (RoundTrips-mode m.collection_mode) (Gives-pure m)))

RoundTrips-token :
    (value : Text)
    → IsToken value
    → RoundTrips
        (Encoder.string value)
        (decode_checked max_portable_token_bytes portable_token_new)
        value
unfolding IsToken
RoundTrips-token value h = RoundTrips-accepted _ _ value (omega arith) h

RoundTrips-exact_value :
    (v : ExactValue) → IsExactValue v → RoundTrips (encode_exact_value v) decode_exact_value v
unfolding IsExactValue encode_exact_value decode_exact_value match_tag
RoundTrips-exact_value (real bits) h =
    RoundTrips-then _ (RoundTrips-u8 1)
      (RoundTrips-made _ (RoundTrips-u64 bits (ltb→lt _ _ h)) (Gives-pure (real bits)))
RoundTrips-exact_value (signed value) h =
    RoundTrips-then _ (RoundTrips-u8 2)
      (RoundTrips-made _ (RoundTrips-i64 value h) (Gives-pure (signed value)))
RoundTrips-exact_value (unsigned value) h =
    RoundTrips-then _ (RoundTrips-u8 3)
      (RoundTrips-made _ (RoundTrips-u64 value (ltb→lt _ _ h)) (Gives-pure (unsigned value)))
RoundTrips-exact_value (boolean true) h =
    RoundTrips-then _ (RoundTrips-u8 4)
      (RoundTrips-made _ (RoundTrips-u8 1) (Gives-pure (boolean true)))
RoundTrips-exact_value (boolean false) h =
    RoundTrips-then _ (RoundTrips-u8 4)
      (RoundTrips-made _ (RoundTrips-u8 0) (Gives-pure (boolean false)))
RoundTrips-exact_value (state value) (class, member) = RoundTrips-then _ (RoundTrips-u8 5) (
    RoundTrips-then _ (RoundTrips-token value.class class)
      (RoundTrips-made _ (RoundTrips-token value.member member) (Gives-pure (state value))))
RoundTrips-exact_value (text value) h =
    RoundTrips-then _ (RoundTrips-u8 6)
      (RoundTrips-made _ (RoundTrips-accepted _ _ value (omega arith) h) (Gives-pure (text value)))
RoundTrips-exact_value (artifact value) h =
    RoundTrips-then _ (RoundTrips-u8 7)
      (RoundTrips-made _ (RoundTrips-artifact value h) (Gives-pure (artifact value)))
RoundTrips-exact_value (unavailable reason) h = RoundTrips-then _ (RoundTrips-u8 8) (
    RoundTrips-made _ (RoundTrips-optional _ _ IsToken RoundTrips-token reason h)
      (Gives-pure (unavailable reason)))

RoundTrips-times :
    (t : ObservationTimes)
    → IsTimes t
    → RoundTrips (encode_observation_times t) decode_observation_times t
unfolding IsTimes encode_observation_times decode_observation_times
RoundTrips-times t (source, receive, effective) =
    RoundTrips-then _ (RoundTrips-optional_timestamp t.source source) (
      RoundTrips-then _ (RoundTrips-timestamp t.receive receive)
        (RoundTrips-made _ (RoundTrips-timestamp t.effective effective) (Gives-pure t)))

-- The flags survive, and no bit above the sixth is written.
keeps_flags : ℕ → Bool
keeps_flags flags =
    (flags_of_bits (flag_bits flags) == flags) && (bit_and (flag_bits flags) 0xc0 == 0)

all_below : (ℕ → Bool) → ℕ → Bool
all_below test zero = true
all_below test (suc n) = test n && all_below test n

true-all_below : (test : ℕ → Bool) (n k : ℕ) → all_below test n ≡ true → k < n → test k ≡ true
unfolding all_below
true-all_below test zero k h below = absurd (omega (arith, below))
true-all_below test (suc n) k h below =
    let (here, rest) = &&-true (test n) (all_below test n) h in
    elim (Bool-cases (k == n)) [
      | inl e ↦ let same : n ≡ k = ground arith in subst (λ x. test x ≡ true) same here
      | inr e ↦ true-all_below test n k rest (ground arith)
    ]

keeps_flags-below : all_below keeps_flags 64 ≡ true
unfolding all_below keeps_flags flags_of_bits flag_bits with_flag has_flag
keeps_flags-below = refl

RoundTrips-level :
    (level : QualityLevel) → RoundTrips (Encoder.u8 (level_tag level)) decode_quality_level level
unfolding decode_quality_level match_tag
RoundTrips-level unknown = RoundTrips-made _ (RoundTrips-u8 1) (Gives-pure unknown)
RoundTrips-level good = RoundTrips-made _ (RoundTrips-u8 2) (Gives-pure good)
RoundTrips-level uncertain = RoundTrips-made _ (RoundTrips-u8 3) (Gives-pure uncertain)
RoundTrips-level bad = RoundTrips-made _ (RoundTrips-u8 4) (Gives-pure bad)
RoundTrips-level not_evaluated = RoundTrips-made _ (RoundTrips-u8 5) (Gives-pure not_evaluated)

RoundTrips-quality : (q : Quality) → IsQuality q → RoundTrips (encode_quality q) decode_quality q
unfolding IsQuality encode_quality decode_quality keeps_flags
RoundTrips-quality q h =
    let kept = true-all_below keeps_flags 64 q.flags keeps_flags-below (ltb→lt _ _ h) in
    let (same, low) = &&-true (flags_of_bits (flag_bits q.flags) == q.flags) _ kept in
    let no_more : not (bit_and (flag_bits q.flags) 0xc0 == 0) ≡ false = rw low in
    let value : flags_of_bits (flag_bits q.flags) ≡ q.flags = ground arith in
    RoundTrips-then _ (RoundTrips-level q.level) (
      RoundTrips-made _ (RoundTrips-u8 (flag_bits q.flags))
        (Gives-then _ (Gives-refuse_if _ _ no_more) (rw value (Gives-pure q))))

RoundTrips-native_status :
    (tokens : List Text)
    → IsNativeStatus tokens
    → RoundTrips (encode_native_status tokens) decode_native_status tokens
unfolding IsNativeStatus encode_native_status decode_native_status
RoundTrips-native_status tokens (few, valid) =
    let accepted : native_status_new tokens ≡ ok tokens =
      unfold native_status_new in ground arith in
    RoundTrips-then _ (RoundTrips-count max_native_status_tokens (length tokens) (omega arith) few)
      (RoundTrips-made _ (RoundTrips-each _ _ IsToken RoundTrips-token tokens valid)
        (Gives-model _ tokens accepted))

RoundTrips-observation :
    (o : Observation) → IsObservation o → RoundTrips (encode_observation o) decode_observation o
unfolding IsObservation encode_observation decode_observation encode_observation_id
    decode_observation_id
RoundTrips-observation o (id, value, times, quality, status, position, period) =
    RoundTrips-then _ (RoundTrips-identity o.id id) (
      RoundTrips-then _ (RoundTrips-exact_value o.value value) (
        RoundTrips-then _ (RoundTrips-times o.times times) (
          RoundTrips-then _ (RoundTrips-quality o.quality quality) (
            RoundTrips-then _ (RoundTrips-native_status o.native_status status) (
              RoundTrips-then _ (RoundTrips-optional_position o.producer_position position) (
                RoundTrips-made _ (RoundTrips-optional_interval o.interval period)
                  (Gives-pure o)))))))

RoundTrips-gap_reason :
    (reason : GapReason) → RoundTrips (Encoder.u8 (gap_reason_tag reason)) decode_gap_reason reason
unfolding decode_gap_reason match_tag
RoundTrips-gap_reason Gap.unknown = RoundTrips-made _ (RoundTrips-u8 1) (Gives-pure Gap.unknown)
RoundTrips-gap_reason producer_restart =
    RoundTrips-made _ (RoundTrips-u8 2) (Gives-pure producer_restart)
RoundTrips-gap_reason buffer_overflow =
    RoundTrips-made _ (RoundTrips-u8 3) (Gives-pure buffer_overflow)
RoundTrips-gap_reason communication_failure =
    RoundTrips-made _ (RoundTrips-u8 4) (Gives-pure communication_failure)
RoundTrips-gap_reason source_data_loss =
    RoundTrips-made _ (RoundTrips-u8 5) (Gives-pure source_data_loss)
RoundTrips-gap_reason administrative_exclusion =
    RoundTrips-made _ (RoundTrips-u8 6) (Gives-pure administrative_exclusion)

RoundTrips-gap : (g : Gap) → IsGap g → RoundTrips (encode_gap g) decode_gap g
unfolding IsGap encode_gap decode_gap
RoundTrips-gap g (epoch, start, end, valid) = RoundTrips-then _ (RoundTrips-wide g.epoch epoch) (
    RoundTrips-then _ (RoundTrips-wide g.start start) (
      RoundTrips-then _ (RoundTrips-wide g.end end)
        (RoundTrips-made _ (RoundTrips-gap_reason g.reason) (Gives-model _ g valid))))

RoundTrips-evidence :
    (e : CollectionEnvelope) (evidence : Evidence)
    → IsEnvelopeEvidence e evidence
    → RoundTrips
        (encode_evidence evidence)
        (Cursor.u8
          >>= match_tag ((1, decode_observed e.series) ∷ (2, decode_no_change e.series) ∷ []))
        e
unfolding IsEnvelopeEvidence match_tag
RoundTrips-evidence e (observed_evidence observations gaps)
      (few, few_gaps, valid, valid_gaps, made) =
    RoundTrips-then _ (RoundTrips-u8 1) (
      RoundTrips-then _ (RoundTrips-count max_observations (length observations) (omega arith) few)
        (RoundTrips-then _
          (RoundTrips-each _ _ IsObservation RoundTrips-observation observations valid)
          (RoundTrips-then _ (RoundTrips-count max_gaps (length gaps) (omega arith) few_gaps) (
            RoundTrips-made _ (RoundTrips-each _ _ IsGap RoundTrips-gap gaps valid_gaps)
              (Gives-model _ e made)))))
RoundTrips-evidence e (no_change_evidence quiet) (valid, made) =
    RoundTrips-then _ (RoundTrips-u8 2)
      (RoundTrips-made _ (RoundTrips-time_interval quiet valid) (Gives-model _ e made))

pub RoundTrips-envelope :
    (e : CollectionEnvelope) → IsEnvelope e → RoundTrips (encode_envelope e) decode_envelope e
unfolding IsEnvelope encode_envelope decode_envelope
RoundTrips-envelope e (metadata, evidence) =
    RoundTrips-then _ (RoundTrips-metadata e.series metadata)
      (RoundTrips-evidence e e.evidence evidence)
