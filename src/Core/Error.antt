-- ===== src/Core/Error.antt =====
-- crates/och-core/src/error.rs: the failures of canonical model construction.
use open_control_historian.Base.{Result}

pub data ModelError : Type 0 where
  invalid_identity invalid_exact_text invalid_portable_token invalid_content_format
        invalid_retry_key invalid_canonical_decimal invalid_nanosecond inexact_unix_milliseconds
        unix_milliseconds_overflow empty_time_interval empty_gap too_many_native_status_tokens
        too_many_observations too_many_gaps empty_observed_evidence duplicate_observation_id
        mixed_producer_positions misordered_producer_positions misordered_gaps overlapping_gaps
        observation_inside_gap missing_observation_interval unexpected_observation_interval
        invalid_no_change_mode invalid_declaration_reference invalid_declaration_revision
        registry_series_capacity_exceeded registry_revision_capacity_exceeded
        series_already_registered series_not_found series_retired stale_declaration_revision
        declaration_unchanged series_metadata_mismatch observation_value_family_mismatch
        invalid_source_schema_version capture_run_time_order source_endpoint_system_mismatch
        capture_run_endpoint_mismatch source_snapshot_run_mismatch source_projection_required
        source_interval_mismatch source_lifecycle_binding_mismatch admission_retry_scope_mismatch
        too_many_source_observation_contexts source_observation_count_mismatch
        source_observation_association_mismatch too_many_source_gap_contexts
        source_gap_count_mismatch misordered_source_record_ordinals duplicate_source_evidence_id
        source_raw_snapshot_mismatch source_normalized_raw_mismatch
        source_normalized_observation_mismatch source_raw_idempotency_mismatch
        source_interpretation_mismatch source_gap_mismatch :
      ModelError

abbrev pub Checked {ℓ} : Type ℓ → Type ℓ
Checked A = Result ModelError A
