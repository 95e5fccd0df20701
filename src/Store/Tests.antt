-- ===== src/Store/Tests.antt =====
-- The theorems of the journal at concrete inputs.
use open_control_historian.Base.{
  &&-true, >>=-eq-ok, All, All-append, Bool, [], ap, arith, guard-ok, length, length-append,
  length-take, ltb, map_ok, none, ok, refl, replicate, some, subst, sym, take, true, ℕ, ℕ_discrete,
  ◌&&◌, ◌++◌, ◌+◌, ◌<◌, ◌>>=◌, ◌^◌, ◌↔◌, ◌∙◌, ◌∷◌, ◌≡◌,
}
use open_control_historian.Base.Int.{pos}
use open_control_historian.Base.Map.{Bytes, Bytes-discrete, insert, lookup}
use open_control_historian.Core.Bounded.{
  Text, Uuid, all_bytes, content_format_new, portable_token_new, retry_key_new, scalar_count,
  validate_printable_ascii,
}
use open_control_historian.Core.Identity.{from_bytes, validate_uuid_v7}
use open_control_historian.Core.Timestamp.{Timestamp}
use open_control_historian.Core.Value.{ContentIdentity, good, unsigned}
use open_control_historian.Core.Observation.{
  CollectionMode-discrete, Observation, SeriesMetadata-discrete, sampled,
}
use open_control_historian.Core.Collection.{
  CollectionEnvelope, check_gaps, check_identities, check_interval, check_positions, observed,
  observed_evidence, presence_differs, seen_before, validate_observed,
}
use open_control_historian.Core.Declaration.{
  DeclarationEvidence, SeriesBinding, SeriesDeclaration, SeriesDeclarationPayload,
  SourceReference-discrete, absent, admits, declaration_reference_new, has_control, resolved,
  unsigned_family,
}
use open_control_historian.Core.Series.{SeriesRegistry, register, register_first}
use open_control_historian.Core.Series.Bind.{DeclaredCollectionEnvelope, bind, some_inadmissible}
use open_control_historian.Core.Series.Chain.{IsValid, new-IsValid}
use open_control_historian.Core.Series.Invariant.{register-IsValid}
use open_control_historian.Core.Retry.{RetryQualification}
use open_control_historian.Core.Source.{
  CanonicalAdmission, CaptureLifecycle, SourceBatchMetadata, SourceInterpretation-discrete,
  SourceIntervalKind-discrete, SourceObservationContext, capture_lifecycle_new,
  capture_run_evidence_new, observed_admission, observed_interval, source_schema_version_new,
}
use open_control_historian.Core.Admission.{
  admission, admit_observed, gaps_differ, insert_all, lifecycle_evidence_ids, lineages_of,
  validate_common, validate_gaps, validate_observations,
}
use open_control_historian.Store.Words.{AreBytes, to_be_bytes, to_be_bytes-AreBytes}
use open_control_historian.Store.Utf8.{is_utf8, valid_from}
use open_control_historian.Store.Checksum.{crc32c, crc_bytes, crc_round, crc_rounds}
use open_control_historian.Store.Validate.{validate_decoded}
use open_control_historian.Store.Validate.Accepted.{validate_decoded-admit_observed}
use open_control_historian.Store.Frame.{
  admission_frame_len, decode_admission_frame, decode_header, encode_admission_frame, encode_header,
  frame_bytes, frame_len_from_prefix, frame_magic, frame_prefix, frame_prefix_len, header_len,
  journal_version, max_admission_payload,
}
use open_control_historian.Store.Frame.Layout.{Follows, frame}
use open_control_historian.Store.Frame.RoundTrip.{
  admission_frame_len-encode, decode-encode_admission_frame,
}
use open_control_historian.Store.Frame.Prepared.{
  PreparedFrame, framed, into_frame, into_frame-prepare, prepare,
}
use open_control_historian.Store.Codec.Decode.Declarations.{declaration_revision_new}
use open_control_historian.Store.Codec.Decode.Payload.{decoded_of}
use open_control_historian.Store.Codec.Encoder.{
  Encoder, bytes, count, each, finish, i64, optional, require_u32, skip, string, u128, u32, u64, u8,
  ◌then◌,
}
use open_control_historian.Store.Codec.RoundTrip.Primitives.{IfSome, IsText}
use open_control_historian.Store.Codec.RoundTrip.Values.{
  IsAccepted, IsArtifact, IsContent, IsIdentity, IsReference, IsRetry, IsTimestamp, IsU128,
}
use open_control_historian.Store.Codec.RoundTrip.Declarations.{
  IsDeclaration, IsDeclarationEvidence, IsPayload, IsReferenceEvidence, IsRevision,
  IsSourceReference,
}
use open_control_historian.Store.Codec.RoundTrip.Observations.{
  IsEnvelope, IsEnvelopeEvidence, IsExactValue, IsMetadata, IsNativeStatus, IsObservation,
  IsQuality, IsTimes, IsToken,
}
use open_control_historian.Store.Codec.RoundTrip.Sources.{IsBatch, IsLifecycle, IsLineage}
use open_control_historian.Store.Codec.RoundTrip.Payload.{IsAdmission, IsAdmissionEvidence}
use open_control_historian.Store.Codec.Encode.Values.{
  encode_artifact, encode_artifact_id, encode_collection_mode, encode_content, encode_evidence_id,
  encode_observation_id, encode_optional_artifact, encode_optional_interval,
  encode_optional_position, encode_optional_timestamp, encode_producer_id, encode_retry,
  encode_series_id, encode_source_interval_kind, encode_store_id, encode_time_interval,
  encode_timestamp, encode_value_family,
}
use open_control_historian.Store.Codec.Encode.Declarations.{
  encode_binding, encode_declaration, encode_declaration_evidence, encode_declaration_payload,
  encode_optional_declaration_reference, encode_optional_revision, encode_reference_evidence,
  encode_source_reference,
}
use open_control_historian.Store.Codec.Encode.Observations.{
  encode_envelope, encode_exact_value, encode_gap, encode_native_status, encode_observation,
  encode_observation_times, encode_quality, encode_series_metadata, flag_bits,
}
use open_control_historian.Store.Codec.Encode.Sources.{
  encode_batch, encode_lifecycle, encode_lineage, encode_normalized_record,
  encode_optional_idempotency, encode_raw_record, encode_source_gap, encode_source_observation,
}
use open_control_historian.Store.Codec.Encode.Payload.{encode_canonical_payload}
use open_control_historian.Core.Quality.{has_flag}
use open_control_historian.Store.Frame.Header.{decode_header_iff}
use open_control_historian.Store.Frame.Prefix.{frame_len_from_prefix-encode}
use open_control_historian.Runtime.Commit.{JournalIdentity}
use open_control_historian.Store.Journal.{
  ActiveJournalLimits, CheckpointState, scan_journal, storage_pressure,
}
use open_control_historian.Store.Journal.Turns.{Frame, IsFrame}
use open_control_historian.Store.Journal.Recovery.{
  Frames, end_of, journal_file, last_sequence, records_from, scan_journal-recovers, written,
}
use open_control_historian.Store.Checkpoint.{
  genesis_checkpoint_state, initialize_checkpoint, read_checkpoint,
}
use open_control_historian.Store.Checkpoint.Advance.{
  Advances, last_state, read_checkpoint-write_all, write_all,
}
use open_control_historian.Store.Active.{ActiveJournal, append, partly_written, writable}
use open_control_historian.Store.Active.Sound.{IsSound, append-IsSound}
use open_control_historian.Store.Frame.Exact.{IsFrameOf, decode_admission_frame_iff}
use open_control_historian.Core.Series
use open_control_historian.Core.Source
use open_control_historian.Store.Codec.Encoder

abbrev identity : ℕ → Uuid
identity n =
    0x01 ∷ 0x94 ∷ 0x1f ∷ 0x29 ∷ 0x7c ∷ 0x00 ∷ 0x70 ∷ 0x00 ∷ 0x80 ∷ 0x00 ∷ 0x00 ∷ 0x00 ∷ 0x00 ∷ 0x00
    ∷ 0x00 ∷ n ∷ []

abbrev noon : Timestamp
noon = record { unix_seconds = pos 43_200; nanosecond = 5 }

abbrev short_text : Text
short_text = b'a' ∷ b'h' ∷ b'u' ∷ []

abbrev digest : ContentIdentity
digest = record { format = short_text; version = 1; sha256 = replicate 32 7 }

abbrev payload : SeriesDeclarationPayload
payload = record {
  producer_id = identity 2;
  collection_mode = sampled;
  value_family = unsigned_family;
  quantity = absent;
  unit = resolved short_text;
  application = none;
}

abbrev source_binding : SeriesBinding
source_binding = record {
  source = record { provider = short_text; projection = some short_text; locator = short_text };
}

abbrev declared_at_noon : DeclarationEvidence
declared_at_noon = record { effective_at = noon; artifact = none }

abbrev registry : SeriesRegistry
registry =
    (register (Series.new (identity 1) (record { max_series = 4; max_declaration_revisions = 8 }))
      (identity 3) source_binding payload declared_at_noon).0

abbrev declaration : SeriesDeclaration
declaration = record {
  store_id = identity 1;
  series_id = identity 3;
  revision = 1;
  previous_revision = none;
  binding = source_binding;
  payload = payload;
  evidence = declared_at_noon;
}

abbrev reading : Observation
reading = record {
  id = identity 4;
  value = unsigned 42;
  times = record { source = none; receive = noon; effective = noon };
  quality = record { level = good; flags = 33 };
  native_status = short_text ∷ [];
  producer_position = none;
  interval = none;
}

abbrev envelope : CollectionEnvelope
envelope = record {
  series = record { series_id = identity 3; producer_id = identity 2; collection_mode = sampled };
  evidence = observed_evidence (reading ∷ []) [];
}

abbrev declared : DeclaredCollectionEnvelope
declared = record { store_id = identity 1; declaration = declaration; envelope = envelope }

abbrev request : RetryQualification
request = record {
  series_id = identity 3;
  producer_id = identity 2;
  key = short_text;
  content = digest;
}

abbrev batch : SourceBatchMetadata
batch = record { schema = short_text; version = 9; interval = observed_interval }

abbrev capture : CaptureLifecycle
capture = record {
  system = record { evidence_id = identity 10; provider = short_text; projection = short_text };
  endpoint = record { evidence_id = identity 11; system_id = identity 10; locator = short_text };
  run = record {
    evidence_id = identity 12;
    endpoint_id = identity 11;
    started_at = noon;
    completed_at = some noon;
  };
  snapshot = record {
    evidence_id = identity 13;
    run_id = identity 12;
    artifact = record { artifact_id = identity 5; content = digest };
  };
}

abbrev context : SourceObservationContext
context = record {
  ordinal = 0;
  canonical_observation_id = identity 4;
  interpretation = record {
    source = source_binding.source;
    application = none;
    quantity = absent;
    unit = resolved short_text;
  };
  observation = record {
    evidence_id = identity 14;
    provenance_artifact = none;
    transport = Source.new;
    idempotency = none;
  };
  raw = record {
    evidence_id = identity 15;
    snapshot_id = identity 13;
    artifact = record { artifact_id = identity 6; content = digest };
    idempotency = none;
  };
  normalized = record {
    evidence_id = identity 16;
    raw_record_id = identity 15;
    content = digest;
    observation_evidence_id = identity 14;
  };
}

abbrev admitted : CanonicalAdmission
admitted =
    admission declared request batch capture (observed_admission (lineages_of (context ∷ [])) [])

identity-IsIdentity : (n : ℕ) → IsIdentity (identity n)
unfolding IsIdentity from_bytes validate_uuid_v7
identity-IsIdentity n = (refl, refl)

short_text-IsReference : IsReference short_text
unfolding IsReference IsAccepted IsText is_utf8 valid_from declaration_reference_new has_control
    scalar_count
short_text-IsReference = ((refl, refl), refl)

digest-IsContent : IsContent digest
unfolding IsContent IsAccepted IsText IsU128 is_utf8 valid_from content_format_new all_bytes
digest-IsContent = (((refl, refl), refl), refl, refl)

noon-IsTimestamp : IsTimestamp noon
unfolding IsTimestamp
noon-IsTimestamp = (refl, refl)

payload-IsPayload : IsPayload payload
unfolding IsPayload IsReferenceEvidence IfSome
payload-IsPayload = (identity-IsIdentity 2, tt, short_text-IsReference, tt)

declaration-IsDeclaration : IsDeclaration declaration
unfolding IsDeclaration IsRevision IsU128 declaration_revision_new IsSourceReference IfSome
    IsDeclarationEvidence
declaration-IsDeclaration = (
  identity-IsIdentity 1,
  identity-IsIdentity 3,
  (refl, refl),
  tt,
  (short_text-IsReference, short_text-IsReference, short_text-IsReference),
  payload-IsPayload,
  (noon-IsTimestamp, tt),
)

reading-IsObservation : IsObservation reading
unfolding IsObservation IsExactValue IsTimes IsQuality IsNativeStatus IsToken IsAccepted IsText
    IfSome is_utf8 valid_from portable_token_new validate_printable_ascii all_bytes
reading-IsObservation = (
  identity-IsIdentity 4,
  refl,
  (tt, noon-IsTimestamp, noon-IsTimestamp),
  refl,
  (refl, (((refl, refl), refl), tt)),
  tt,
  tt,
)

envelope-IsEnvelope : IsEnvelope envelope
unfolding IsEnvelope IsMetadata IsEnvelopeEvidence observed validate_observed check_identities
    check_interval seen_before presence_differs check_positions check_gaps
envelope-IsEnvelope = (
  (identity-IsIdentity 3, identity-IsIdentity 2),
  (refl, refl, (reading-IsObservation, tt), tt, refl),
)

request-IsRetry : IsRetry request
unfolding IsRetry IsAccepted IsText is_utf8 valid_from retry_key_new validate_printable_ascii
    all_bytes
request-IsRetry =
    (identity-IsIdentity 3, identity-IsIdentity 2, ((refl, refl), refl), digest-IsContent)

batch-IsBatch : IsBatch batch
unfolding IsBatch IsU128 source_schema_version_new
batch-IsBatch = (short_text-IsReference, refl, refl)

capture-IsLifecycle : IsLifecycle capture
unfolding IsLifecycle IfSome IsArtifact capture_run_evidence_new capture_lifecycle_new
    Bytes-discrete ℕ_discrete
capture-IsLifecycle = (
  (identity-IsIdentity 10, short_text-IsReference, short_text-IsReference),
  (identity-IsIdentity 11, identity-IsIdentity 10, short_text-IsReference),
  (identity-IsIdentity 12, identity-IsIdentity 11, noon-IsTimestamp, noon-IsTimestamp, refl),
  (identity-IsIdentity 13, identity-IsIdentity 12, (identity-IsIdentity 5, digest-IsContent)),
  refl,
)

lineages_of-IsLineage : All IsLineage (lineages_of (context ∷ []))
unfolding lineages_of IsLineage IfSome IsArtifact
lineages_of-IsLineage = (
  (
    identity-IsIdentity 4,
    (identity-IsIdentity 14, tt, tt),
    (identity-IsIdentity 15, identity-IsIdentity 13, (identity-IsIdentity 6, digest-IsContent), tt),
    (identity-IsIdentity 16, identity-IsIdentity 15, digest-IsContent, identity-IsIdentity 14),
  ),
  tt,
)

admitted-IsAdmission : IsAdmission admitted
unfolding IsAdmission IsAdmissionEvidence lineages_of
admitted-IsAdmission = (
  identity-IsIdentity 1,
  declaration-IsDeclaration,
  envelope-IsEnvelope,
  request-IsRetry,
  batch-IsBatch,
  capture-IsLifecycle,
  (refl, refl, lineages_of-IsLineage, tt),
)

registry-IsValid : IsValid registry
registry-IsValid =
    register-IsValid _ (identity 3) source_binding payload declared_at_noon (new-IsValid _ _)

registry_binds : bind registry envelope ≡ ok declared
unfolding bind register register_first Series.new insert lookup some_inadmissible admits
    SeriesMetadata-discrete CollectionMode-discrete Bytes-discrete ℕ_discrete
registry_binds = refl

declared_is_admitted : admit_observed declared request batch capture (context ∷ []) [] ≡ ok admitted
unfolding admit_observed validate_common lifecycle_evidence_ids insert_all seen_before
    validate_observations validate_gaps gaps_differ SourceIntervalKind-discrete
    SourceInterpretation-discrete SourceReference-discrete Bytes-discrete ℕ_discrete
declared_is_admitted = refl

admitted_is_valid : (s : ℕ) → validate_decoded (decoded_of s admitted) ≡ ok tt
admitted_is_valid s =
    validate_decoded-admit_observed registry envelope declared request batch capture s admitted
      (context ∷ []) [] registry-IsValid registry_binds declared_is_admitted

validate_decoded-admit_observed_example : validate_decoded (decoded_of 7 admitted) ≡ ok tt
validate_decoded-admit_observed_example =
    validate_decoded-admit_observed registry envelope declared request batch capture 7 admitted
      (context ∷ []) [] registry-IsValid registry_binds declared_is_admitted

-- The check value of the CRC-32C: that of the digits 1 to 9.
check_value :
    crc32c (b'1' ∷ b'2' ∷ b'3' ∷ b'4' ∷ b'5' ∷ b'6' ∷ b'7' ∷ b'8' ∷ b'9' ∷ []) ≡ 0xe3069283
unfolding crc32c crc_bytes crc_rounds crc_round
check_value = refl

admitted_len : admission_frame_len admitted ≡ ok 858
unfolding admission_frame_len lineages_of to_be_bytes has_flag ◌then◌ Encoder.bytes Encoder.u8
    Encoder.u32 Encoder.u64 Encoder.u128 Encoder.i64 require_u32 Encoder.string Encoder.count skip
    Encoder.optional each encode_store_id encode_series_id encode_producer_id encode_observation_id
    encode_artifact_id encode_evidence_id encode_timestamp encode_time_interval
    encode_optional_timestamp encode_optional_interval encode_optional_position encode_content
    encode_artifact encode_optional_artifact encode_collection_mode encode_value_family
    encode_source_interval_kind encode_retry encode_optional_revision encode_source_reference
    encode_binding encode_reference_evidence encode_optional_declaration_reference
    encode_declaration_payload encode_declaration_evidence encode_declaration encode_series_metadata
    encode_exact_value encode_observation_times flag_bits encode_quality encode_native_status
    encode_observation encode_gap encode_envelope encode_batch encode_lifecycle
    encode_optional_idempotency encode_source_observation encode_raw_record encode_normalized_record
    encode_lineage encode_source_gap encode_canonical_payload
admitted_len = refl

-- The admission as the frame after the one of sequence p.
fits_after :
    (p : ℕ)
    → p < 1_000
    → (bytes : Bytes) × (encode_admission_frame (p + 1) admitted ≡ ok bytes)
      × (decode_admission_frame bytes 4_096 (some p) ≡ ok (decoded_of (p + 1) admitted))
fits_after p h =
    decode-encode_admission_frame (p + 1) 4_096 (some p) admitted 858 (omega arith) (ground arith)
      (unfold Follows in omega arith) admitted-IsAdmission (admitted_is_valid (p + 1)) admitted_len
      (omega arith)

length-fits_after : (p : ℕ) (h : p < 1_000) → length (fits_after p h).0 ≡ 858
length-fits_after p h =
    let measured = ap (map_ok (λ bytes. length bytes)) (fits_after p h).1 in
    cc (admission_frame_len-encode (p + 1) admitted, measured, admitted_len)

abbrev frame_fits :
    (bytes : Bytes) × (encode_admission_frame 7 admitted ≡ ok bytes)
    × (decode_admission_frame bytes 4_096 (some 6) ≡ ok (decoded_of 7 admitted))
frame_fits = fits_after 6 (omega arith)

length-frame_fits : length frame_fits.0 ≡ 858
length-frame_fits = length-fits_after 6 (omega arith)

abbrev frame_after : (p : ℕ) → p < 1_000 → Frame
frame_after p h = record { bytes = (fits_after p h).0; decoded = decoded_of (p + 1) admitted }

frame_after-IsFrame :
    (p : ℕ) (h : p < 1_000) → IsFrame 4_096 (identity 1) (some p) (frame_after p h)
unfolding Bytes-discrete ℕ_discrete
frame_after-IsFrame p h = record {
  measured =
      frame_len_from_prefix-encode (p + 1) 4_096 admitted (fits_after p h).0 (omega arith)
        (ground arith) (fits_after p h).1 (omega (arith, length-fits_after p h));
  decodes = (fits_after p h).2;
  in_store = refl;
}

decode-encode_admission_frame_example :
    (bytes : Bytes) × (encode_admission_frame 7 admitted ≡ ok bytes)
    × (decode_admission_frame bytes 4_096 none ≡ ok (decoded_of 7 admitted))
decode-encode_admission_frame_example =
    decode-encode_admission_frame 7 4_096 none admitted 858 (omega arith) (omega arith)
      (unfold Follows in tt) admitted-IsAdmission (admitted_is_valid 7) admitted_len (omega arith)

admission_frame_len-encode_example :
    admission_frame_len admitted
    ≡ map_ok (λ bytes. length bytes) (encode_admission_frame 7 admitted)
admission_frame_len-encode_example = admission_frame_len-encode 7 admitted

into_frame-prepare_example :
    (prepare admitted >>= λ prepared. into_frame prepared 7) ≡ framed admitted 7
into_frame-prepare_example = into_frame-prepare admitted 7

frame_len_from_prefix-encode_example :
    frame_len_from_prefix (take frame_prefix_len frame_fits.0) 4_096 ≡ ok (length frame_fits.0)
frame_len_from_prefix-encode_example =
    frame_len_from_prefix-encode 7 4_096 admitted frame_fits.0 (omega arith) (omega arith)
      frame_fits.1 (omega (arith, length-frame_fits))

abbrev all_below : Bytes → Bool
all_below [] = true
all_below (b ∷ bs) = ltb b 256 && all_below bs

all_below-AreBytes : (xs : Bytes) → all_below xs ≡ true → AreBytes xs
all_below-AreBytes [] h = tt
all_below-AreBytes (b ∷ bs) h =
    let (small, rest) = &&-true _ _ h in (ground arith, all_below-AreBytes bs rest)

payload_below :
    map_ok (λ e. all_below (Encoder.finish e)) (encode_canonical_payload admitted Encoder.new)
    ≡ ok true
unfolding admission_frame_len lineages_of to_be_bytes has_flag ◌then◌ Encoder.bytes Encoder.u8
    Encoder.u32 Encoder.u64 Encoder.u128 Encoder.i64 require_u32 Encoder.string Encoder.count skip
    Encoder.optional each encode_store_id encode_series_id encode_producer_id encode_observation_id
    encode_artifact_id encode_evidence_id encode_timestamp encode_time_interval
    encode_optional_timestamp encode_optional_interval encode_optional_position encode_content
    encode_artifact encode_optional_artifact encode_collection_mode encode_value_family
    encode_source_interval_kind encode_retry encode_optional_revision encode_source_reference
    encode_binding encode_reference_evidence encode_optional_declaration_reference
    encode_declaration_payload encode_declaration_evidence encode_declaration encode_series_metadata
    encode_exact_value encode_observation_times flag_bits encode_quality encode_native_status
    encode_observation encode_gap encode_envelope encode_batch encode_lifecycle
    encode_optional_idempotency encode_source_observation encode_raw_record encode_normalized_record
    encode_lineage encode_source_gap encode_canonical_payload Encoder.finish Encoder.new
payload_below = refl

frame_prefix-AreBytes : (s n : ℕ) → AreBytes (frame_prefix s n)
unfolding frame_prefix
frame_prefix-AreBytes s n =
    let numbers =
      All-append (λ b. b < 256) (to_be_bytes 8 s) (to_be_bytes 4 n) (to_be_bytes-AreBytes 8 s)
        (to_be_bytes-AreBytes 4 n) in
    All-append (λ b. b < 256) frame_magic
      (to_be_bytes 2 journal_version ++ (1 ∷ 0 ∷ to_be_bytes 8 s ++ to_be_bytes 4 n))
      (all_below-AreBytes frame_magic refl)
      (All-append (λ b. b < 256) (to_be_bytes 2 journal_version)
        (1 ∷ 0 ∷ to_be_bytes 8 s ++ to_be_bytes 4 n) (to_be_bytes-AreBytes 2 journal_version)
        ((omega arith), ((omega arith), numbers)))

fits_after-AreBytes : (p : ℕ) (h : p < 1_000) → AreBytes (fits_after p h).0
unfolding encode_admission_frame frame_bytes
fits_after-AreBytes p h =
    let (encoder, made, h₁) =
      >>=-eq-ok (encode_canonical_payload admitted Encoder.new) _ (fits_after p h).1 in
    let payload = Encoder.finish encoder in
    let (_, done) = guard-ok (ltb max_admission_payload (length payload)) _ _ _ h₁ in
    let below : ok (all_below payload) ≡ ok true =
      sym (ap (map_ok (λ e. all_below (Encoder.finish e))) made) ∙ payload_below in
    let same : frame (p + 1) payload ≡ (fits_after p h).0 = cc done in
    let prefix = frame_prefix (p + 1) (length payload) in
    let in_prefix = frame_prefix-AreBytes (p + 1) (length payload) in
    subst AreBytes same (
      All-append _ (prefix ++ payload) _
        (All-append _ prefix payload in_prefix (all_below-AreBytes payload (cc below)))
        (to_be_bytes-AreBytes 4 _))

decode_admission_frame_iff_example :
    (decode_admission_frame frame_fits.0 4_096 (some 6) ≡ ok (decoded_of 7 admitted))
    ↔ IsFrameOf frame_fits.0 4_096 (some 6) (decoded_of 7 admitted)
decode_admission_frame_iff_example =
    decode_admission_frame_iff frame_fits.0 4_096 (some 6) (decoded_of 7 admitted)
      (fits_after-AreBytes 6 (omega arith))

decode_header_iff_example :
    (decode_header (encode_header (identity 1)) ≡ ok (identity 1))
    ↔ (IsIdentity (identity 1) × (encode_header (identity 1) ≡ encode_header (identity 1)))
decode_header_iff_example = decode_header_iff (encode_header (identity 1)) (identity 1)

abbrev journal_identity : JournalIdentity
journal_identity = record { store_id = identity 1; generation = 1 }

abbrev small_journal : ActiveJournalLimits
small_journal = record { payload_limit = 4_096; active_bytes = 1_000_000; record_limit = 3 }

abbrev first_frame : Frame
first_frame = frame_after 6 (omega arith)

abbrev second_frame : Frame
second_frame = frame_after 7 (omega arith)

abbrev torn_frame : Frame
torn_frame = frame_after 8 (omega arith)

abbrev journal_header : Bytes
journal_header = encode_header (identity 1)

length-journal_header : length journal_header ≡ header_len
unfolding encode_header to_be_bytes
length-journal_header = refl

torn_file_fits :
    (a b c : Bytes)
    → length a ≡ 858
    → length b ≡ 858
    → length c ≡ 858
    → length (journal_header ++ ((a ++ (b ++ [])) ++ take 100 c)) + length c < 2 ^ 64
torn_file_fits a b c ha hb hc =
    let left = (a ++ (b ++ [])) ++ take 100 c in
    let one = length-append journal_header left in
    let two = length-append (a ++ (b ++ [])) (take 100 c) in
    let three = length-append a (b ++ []) in
    let four = length-append b [] in
    let tail = length-take 100 c (omega (arith, hc)) in
    let nil : length {A = ℕ} [] ≡ 0 = refl in
    let start = length-journal_header in
    omega (arith, one, two, three, four, tail, nil, start, ha, hb, hc)

torn_journal_fits :
    length (journal_file journal_header (first_frame ∷ second_frame ∷ []) torn_frame.bytes 100)
      + length torn_frame.bytes
    < 2 ^ 64
unfolding written
torn_journal_fits =
    torn_file_fits first_frame.bytes second_frame.bytes torn_frame.bytes
      (length-fits_after 6 (omega arith)) (length-fits_after 7 (omega arith))
      (length-fits_after 8 (omega arith))

two-Frames : Frames 4_096 (identity 1) (some 6) (first_frame ∷ second_frame ∷ [])
unfolding Frames
two-Frames = (frame_after-IsFrame 6 (omega arith), (frame_after-IsFrame 7 (omega arith), tt))

scan_journal-recovers_example :
    scan_journal
      (journal_file journal_header (first_frame ∷ second_frame ∷ []) torn_frame.bytes 100)
      journal_identity
      small_journal
      (record {
        slot_generation = 2;
        append_sequence = last_sequence 6 (first_frame ∷ []);
        end_offset = end_of header_len (first_frame ∷ []);
      })
      6
    ≡ ok (record {
      records = records_from header_len (first_frame ∷ second_frame ∷ []);
      valid_end = end_of header_len (first_frame ∷ second_frame ∷ []);
      truncate_to = some (end_of header_len (first_frame ∷ second_frame ∷ []));
    })
scan_journal-recovers_example =
    scan_journal-recovers journal_identity small_journal 6 2 (first_frame ∷ []) (second_frame ∷ [])
      journal_header torn_frame.bytes 100 (omega arith) length-journal_header two-Frames
      (frame_after-IsFrame 8 (omega arith)).measured
      (omega (arith, length-fits_after 8 (omega arith))) (omega arith) torn_journal_fits

abbrev checkpoint_at : ℕ → ℕ → ℕ → CheckpointState
checkpoint_at generation sequence end = record {
  slot_generation = generation;
  append_sequence = sequence;
  end_offset = end;
}

three_checkpoints-Advances :
    Advances 2_000
      (genesis_checkpoint_state 6)
      (checkpoint_at 2 7 886 ∷ checkpoint_at 3 8 1_744 ∷ [])
unfolding Advances
three_checkpoints-Advances = (
  refl,
  omega arith,
  omega arith,
  omega arith,
  omega arith,
  omega arith,
  (refl, omega arith, omega arith, omega arith, omega arith, omega arith, tt),
)

read_checkpoint-write_all_example :
    read_checkpoint
      (ok (
        write_all journal_identity
          (initialize_checkpoint [] journal_identity 6).0
          (checkpoint_at 2 7 886 ∷ checkpoint_at 3 8 1_744 ∷ [])))
      journal_identity
      6
      2_000
    ≡ ok (some (checkpoint_at 3 8 1_744))
unfolding last_state
read_checkpoint-write_all_example =
    read_checkpoint-write_all journal_identity 6 2_000 (identity-IsIdentity 1) (omega arith)
      (omega arith) (omega arith) (omega arith)
      (checkpoint_at 2 7 886 ∷ checkpoint_at 3 8 1_744 ∷ []) three_checkpoints-Advances

abbrev opened_journal : ActiveJournal
opened_journal = record {
  journal = journal_header;
  checkpoint = (initialize_checkpoint [] journal_identity 6).0;
  identity = journal_identity;
  limits = small_journal;
  checkpoint_state = genesis_checkpoint_state 6;
  active_bytes = header_len;
  records = [];
  sync_count = 0;
  write_state = writable;
}

opened_journal-IsSound : IsSound opened_journal
opened_journal-IsSound = record {
  stored = omega (arith, length-journal_header);
  exact = λ _. length-journal_header;
  durable = omega arith;
  within_bytes = omega arith;
  within_records = omega arith;
}

abbrev prepared_frame : PreparedFrame
prepared_frame = record { admission = admitted; append_sequence = 7; bytes = frame_fits.0 }

append-IsSound_example :
    IsSound
      (append opened_journal prepared_frame (ok tt) (partly_written 100 (storage_pressure 28))).0
append-IsSound_example =
    append-IsSound opened_journal prepared_frame (ok tt) (partly_written 100 (storage_pressure 28))
      opened_journal-IsSound
