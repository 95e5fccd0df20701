-- ===== src/Core/Tests.antt =====
-- The theorems of the canonical model at concrete inputs.
use open_control_historian.Base.{
  List, [], arith, none, ok, refl, some, true, ℕ, ℕ_discrete, ◌↔◌, ◌∷◌, ◌≡◌, ◌≢◌,
}
use open_control_historian.Base.Int.{negsuc, pos}
use open_control_historian.Base.Map.{Bytes-discrete, insert, lookup, update}
use open_control_historian.Core.Error.{series_not_found}
use open_control_historian.Core.Bounded.{Uuid}
use open_control_historian.Core.Timestamp.{
  Timestamp, fits_i64, from_unix_milliseconds, to_unix_milliseconds,
}
use open_control_historian.Core.Value.{ContentIdentity, good, unsigned}
use open_control_historian.Core.Observation.{Observation, sampled}
use open_control_historian.Core.Gap.{Gap, unknown}
use open_control_historian.Core.Declaration.{
  DeclarationEvidence, SeriesBinding, SeriesDeclaration, SeriesDeclarationPayload,
  SeriesDeclarationPayload-discrete, SeriesHistory, SeriesRetirement, ValueFamily, absent,
  real_family, series_metadata, unsigned_family,
}
use open_control_historian.Core.Collection.{
  CollectionEnvelope, observed_evidence, validate_observed,
}
use open_control_historian.Core.Collection.Spec.{IsValid}
use open_control_historian.Core.Collection.Correct.{validate_observed_iff}
use open_control_historian.Core.Series.{
  Outcome, SeriesRegistry, SeriesRegistryLimits, find_revision, initial_declaration, register,
  register_first, resolve,
}
use open_control_historian.Core.Series.Chain.{Chain}
use open_control_historian.Core.Series.History.{
  Request, registers, resolve-run, retires, revises, run, run-new-IsValid, run_retired, serve,
  serve_refused,
}
use open_control_historian.Core.Series.Replay.{register_twice, retire_twice, revise_twice}
use open_control_historian.Core.Series.Binding.{Authorizes, bind_iff}
use open_control_historian.Core.Timestamp.Milliseconds.{
  from-to_unix_milliseconds, to-from_unix_milliseconds,
}
use open_control_historian.Core.Retry.{RetryQualification, classify, conflict, distinct, equivalent}
use open_control_historian.Core.Retry.Laws.{SameRequest, classify_iff}
use open_control_historian.Core.Series.Revision.{
  retire, retire_active, retire_history, revise, revise_history, revise_latest,
}
use open_control_historian.Core.Series.Bind.{DeclaredCollectionEnvelope, bind}
use open_control_historian.Core.Series.Numbering.{Resolved, resolve-run-Resolved}
use open_control_historian.Core.Decimal.{display_digits, parse_canonical_u128}
use open_control_historian.Core.Decimal.RoundTrip.{parse_canonical_u128-display_digits}
use open_control_historian.Core.Gap
use open_control_historian.Core.Series

abbrev identity : ℕ → Uuid
identity n =
    0x01 ∷ 0x94 ∷ 0x1f ∷ 0x29 ∷ 0x7c ∷ 0x00 ∷ 0x70 ∷ 0x00 ∷ 0x80 ∷ 0x00 ∷ 0x00 ∷ 0x00 ∷ 0x00 ∷ 0x00
    ∷ 0x00 ∷ n ∷ []

abbrev midnight : Timestamp
midnight = record { unix_seconds = pos 0; nanosecond = 0 }

abbrev reading : ℕ → ℕ → Observation
reading n sequence = record {
  id = identity n;
  value = unsigned n;
  times = record { source = none; receive = midnight; effective = midnight };
  quality = record { level = good; flags = 0 };
  native_status = [];
  producer_position = some (record { epoch = 1; sequence = sequence });
  interval = none;
}

abbrev readings : List Observation
readings = reading 20 4 ∷ reading 21 9 ∷ []

abbrev lost : List Gap
lost = record { epoch = 1; start = 5; end = 8; reason = Gap.unknown } ∷ []

validate_observed_iff_example :
    (validate_observed sampled readings lost ≡ ok tt) ↔ IsValid sampled readings lost
validate_observed_iff_example = validate_observed_iff sampled readings lost (omega arith)

abbrev content : ℕ → ContentIdentity
content n = record { format = b'a' ∷ []; version = 1; sha256 = n ∷ [] }

abbrev binding : SeriesBinding
binding = record {
  source = record { provider = b'p' ∷ []; projection = none; locator = b'l' ∷ [] };
}

abbrev payload : ValueFamily → SeriesDeclarationPayload
payload family = record {
  producer_id = identity 16;
  collection_mode = sampled;
  value_family = family;
  quantity = absent;
  unit = absent;
  application = none;
}

abbrev evidence : DeclarationEvidence
evidence = record { effective_at = midnight; artifact = none }

abbrev limits : SeriesRegistryLimits
limits = record { max_series = 2; max_declaration_revisions = 3 }

abbrev empty_registry : SeriesRegistry
empty_registry = Series.new (identity 100) limits

abbrev first_request : Request
first_request = registers (identity 1) binding (payload unsigned_family) evidence

abbrev one_series : SeriesRegistry
one_series = (serve empty_registry first_request).0

abbrev requests : List Request
requests =
    first_request
    ∷ revises (identity 1) 1 (payload real_family) evidence
    ∷ retires (identity 1) 2 evidence
    ∷ []

run-new-IsValid_example : Series.Chain.IsValid (run empty_registry requests)
run-new-IsValid_example = run-new-IsValid (identity 100) limits requests

abbrev first_declaration : SeriesDeclaration
first_declaration =
    initial_declaration empty_registry (identity 1) binding (payload unsigned_family) evidence

abbrev unknown_revision : Request
unknown_revision = revises (identity 1) 1 (payload real_family) evidence

unknown_revision_refused : (serve empty_registry unknown_revision).1 ≡ some series_not_found
unfolding serve revise lookup Series.new
unknown_revision_refused = refl

serve_refused_example : (serve empty_registry unknown_revision).0 ≡ empty_registry
serve_refused_example =
    serve_refused empty_registry unknown_revision series_not_found unknown_revision_refused

first_resolves : resolve one_series (identity 1) 1 ≡ some first_declaration
unfolding serve register register_first lookup insert Series.new resolve find_revision
    Bytes-discrete ℕ_discrete
first_resolves = refl

resolve-run_example : resolve (run one_series requests) (identity 1) 1 ≡ some first_declaration
resolve-run_example =
    resolve-run one_series requests (identity 1) 1 first_declaration first_resolves

resolves_in_run :
    resolve (run (Series.new (identity 100) limits) (first_request ∷ [])) (identity 1) 1
    ≡ some first_declaration
unfolding run
resolves_in_run = first_resolves

resolve-run-Resolved_example :
    Resolved
      (run (Series.new (identity 100) limits) (first_request ∷ []))
      (identity 1)
      1
      first_declaration
resolve-run-Resolved_example =
    resolve-run-Resolved (identity 100) limits (first_request ∷ []) (identity 1) 1 first_declaration
      resolves_in_run

abbrev closing : Request
closing = retires (identity 1) 1 evidence

abbrev closed_registry : SeriesRegistry
closed_registry = run one_series (closing ∷ [])

abbrev tombstone_at_one : SeriesRetirement
tombstone_at_one = record { declaration_revision = 1; evidence = evidence }

abbrev closed_history : SeriesHistory
closed_history = record {
  series_id = identity 1;
  binding = binding;
  declarations = first_declaration ∷ [];
  retirement = some tombstone_at_one;
}

closed_found : lookup (identity 1) closed_registry.series ≡ some closed_history
unfolding run serve register register_first lookup insert update Series.new retire retire_history
    retire_active Bytes-discrete ℕ_discrete
closed_found = refl

run_retired_example :
    lookup (identity 1) (run closed_registry requests).series ≡ some closed_history
run_retired_example =
    run_retired closed_registry requests (identity 1) closed_history tombstone_at_one closed_found
      refl

first_registers :
    (register empty_registry (identity 1) binding (payload unsigned_family) evidence).1
    ≡ ok first_declaration
unfolding register register_first lookup Series.new
first_registers = refl

register_twice_example :
    register one_series (identity 1) binding (payload unsigned_family) evidence
    ≡ (one_series, ok first_declaration)
unfolding serve
register_twice_example =
    register_twice empty_registry (identity 1) (payload unsigned_family) evidence first_declaration
      binding first_registers

abbrev second_declaration : SeriesDeclaration
second_declaration = record {
  store_id = identity 100;
  series_id = identity 1;
  revision = 2;
  previous_revision = some 1;
  binding = binding;
  payload = payload real_family;
  evidence = evidence;
}

abbrev revision_outcome : Outcome SeriesDeclaration
revision_outcome = revise one_series (identity 1) 1 (payload real_family) evidence

second_issued : revision_outcome.1 ≡ ok second_declaration
unfolding revise revise_history revise_latest serve register register_first lookup insert Series.new
    Bytes-discrete ℕ_discrete SeriesDeclarationPayload-discrete
second_issued = refl

revise_twice_example :
    revise revision_outcome.0 (identity 1) 1 (payload real_family) evidence
    ≡ (revision_outcome.0, ok second_declaration)
revise_twice_example =
    revise_twice one_series (identity 1) (payload real_family) evidence second_declaration 1
      second_issued

abbrev retirement_outcome : Outcome SeriesRetirement
retirement_outcome = retire one_series (identity 1) 1 evidence

tombstone_issued : retirement_outcome.1 ≡ ok tombstone_at_one
unfolding retire retire_history retire_active serve register register_first lookup insert Series.new
    Bytes-discrete ℕ_discrete
tombstone_issued = refl

retire_twice_example :
    retire retirement_outcome.0 (identity 1) 1 evidence
    ≡ (retirement_outcome.0, ok tombstone_at_one)
retire_twice_example =
    retire_twice one_series (identity 1) 1 evidence tombstone_at_one tombstone_issued

abbrev admitted : CollectionEnvelope
admitted = record {
  series = series_metadata (payload unsigned_family) (identity 1);
  evidence = observed_evidence readings lost;
}

abbrev bound_envelope : DeclaredCollectionEnvelope
bound_envelope = record {
  store_id = identity 100;
  declaration = first_declaration;
  envelope = admitted;
}

bind_iff_example : (bind one_series admitted ≡ ok bound_envelope) ↔ (
    Authorizes one_series admitted first_declaration
    × (bound_envelope.store_id ≡ one_series.store_id)
    × (admitted ≡ admitted))
bind_iff_example = bind_iff one_series admitted bound_envelope

before_epoch : fits_i64 (negsuc 1_500) ≡ true
before_epoch = refl

to-from_unix_milliseconds_example :
    to_unix_milliseconds (from_unix_milliseconds (negsuc 1_500)) ≡ ok (negsuc 1_500)
to-from_unix_milliseconds_example = to-from_unix_milliseconds (negsuc 1_500) before_epoch

abbrev half_before : Timestamp
half_before = record { unix_seconds = negsuc 1; nanosecond = 499_000_000 }

half_before_converts : to_unix_milliseconds half_before ≡ ok (negsuc 1_500)
unfolding to_unix_milliseconds
half_before_converts = refl

from-to_unix_milliseconds_example : from_unix_milliseconds (negsuc 1_500) ≡ half_before
from-to_unix_milliseconds_example =
    from-to_unix_milliseconds half_before (negsuc 1_500) (omega arith) half_before_converts

abbrev qualification : ℕ → RetryQualification
qualification n = record {
  series_id = identity 1;
  producer_id = identity 16;
  key = b'k' ∷ [];
  content = content n;
}

classify_iff_example :
    ((classify (qualification 1) (qualification 2) ≡ equivalent)
      ↔ (qualification 1 ≡ qualification 2))
    × ((classify (qualification 1) (qualification 2) ≡ distinct)
        ↔ (¬ SameRequest (qualification 1) (qualification 2)))
    × ((classify (qualification 1) (qualification 2) ≡ conflict) ↔ (
        SameRequest (qualification 1) (qualification 2)
        × ((qualification 1).content ≢ (qualification 2).content)))
    × (classify (qualification 1) (qualification 2) ≡ classify (qualification 2) (qualification 1))
classify_iff_example = classify_iff (qualification 1) (qualification 2)

parse_canonical_u128-display_digits_example :
    parse_canonical_u128 (display_digits 39 1_945_000) ≡ ok 1_945_000
parse_canonical_u128-display_digits_example =
    parse_canonical_u128-display_digits 1_945_000 (omega arith)
