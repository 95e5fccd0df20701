-- ===== src/Core/Series.antt =====
-- crates/och-core/src/series.rs: the bounded registry of series declarations.
-- An operation on `&mut self` returns the registry after it with its result.
pub mod Revision
pub mod Bind
pub mod Cases
pub mod Chain
pub mod Invariant
pub mod Replay
pub mod History
pub mod Numbering
pub mod Binding
use open_control_historian.Base.{
  List, Option, [], err, get_elem?, if◌then◌else◌, is_some, leb, length, none, ok, ok_or, refuse_if,
  some, ℕ, ◌&&◌, ◌+◌, ◌==◌, ◌>>=◌, ◌>>◌, ◌∷◌,
}
use open_control_historian.Base.Map.{Bytes, insert, lookup}
use open_control_historian.Core.Error.{
  Checked, registry_revision_capacity_exceeded, registry_series_capacity_exceeded,
  series_already_registered, series_not_found, series_retired,
}
use open_control_historian.Core.Bounded.{Uuid}
use open_control_historian.Core.Declaration.{
  DeclarationEvidence, SeriesBinding, SeriesDeclaration, SeriesDeclarationPayload, SeriesHistory,
  first_revision, same_binding, same_evidence, same_payload,
}

pub record SeriesRegistryLimits : Type 0 where
  pub max_series : ℕ
  pub max_declaration_revisions : ℕ

pub record SeriesRegistry : Type 0 where
  pub store_id : Uuid
  pub limits : SeriesRegistryLimits
  pub declaration_revision_count : ℕ
  pub series : List (Bytes × SeriesHistory)

abbrev pub Outcome : Type 0 → Type 0
Outcome A = SeriesRegistry × Checked A

unfoldable pub new : Uuid → SeriesRegistryLimits → SeriesRegistry
new store_id limits = record {
  store_id = store_id;
  limits = limits;
  declaration_revision_count = 0;
  series = [];
}

unfoldable pub find_revision : ℕ → List SeriesDeclaration → Option SeriesDeclaration
find_revision revision [] = none
find_revision revision (d ∷ ds) =
    if d.revision == revision then some d else find_revision revision ds

-- `history.declarations` of a series that may be missing.
abbrev pub declarations_of : Option SeriesHistory → List SeriesDeclaration
declarations_of none = []
declarations_of (some h) = h.declarations

unfoldable pub resolve : SeriesRegistry → Uuid → ℕ → Option SeriesDeclaration
resolve r series_id revision = find_revision revision (declarations_of (lookup series_id r.series))

-- The branch of `register` for an identity that has a history.
unfoldable pub register_again :
    SeriesHistory
    → SeriesBinding
    → SeriesDeclarationPayload
    → DeclarationEvidence
    → Checked SeriesDeclaration
register_again h binding payload evidence = do
  refuse_if (is_some h.retirement) series_retired
  initial ← ok_or (get_elem? h.declarations 0) series_not_found
  (if (length h.declarations == 1)
        && (same_binding h.binding binding
            && (same_payload initial.payload payload && same_evidence initial.evidence evidence))
      then ok initial
      else err series_already_registered)

abbrev pub initial_declaration :
    SeriesRegistry
    → Uuid
    → SeriesBinding
    → SeriesDeclarationPayload
    → DeclarationEvidence
    → SeriesDeclaration
initial_declaration r series_id binding payload evidence = record {
  store_id = r.store_id;
  series_id = series_id;
  revision = first_revision;
  previous_revision = none;
  binding = binding;
  payload = payload;
  evidence = evidence;
}

-- The registry with a first declaration of the identity.
abbrev pub registered :
    SeriesRegistry
    → Uuid
    → SeriesBinding
    → SeriesDeclarationPayload
    → DeclarationEvidence
    → SeriesRegistry
registered r series_id binding payload evidence =
    let history : SeriesHistory = record {
      series_id = series_id;
      binding = binding;
      declarations = initial_declaration r series_id binding payload evidence ∷ [];
      retirement = none;
    } in
    record r {
      series = insert series_id history r.series;
      declaration_revision_count = r.declaration_revision_count + 1;
    }

-- The branch of `register` for a new identity.
unfoldable pub register_first :
    SeriesRegistry
    → Uuid
    → SeriesBinding
    → SeriesDeclarationPayload
    → DeclarationEvidence
    → Outcome SeriesDeclaration
register_first r series_id binding payload evidence =
    if leb r.limits.max_series (length r.series)
    then (r, err registry_series_capacity_exceeded)
    else (if leb r.limits.max_declaration_revisions r.declaration_revision_count
        then (r, err registry_revision_capacity_exceeded)
        else (
          registered r series_id binding payload evidence,
          ok (initial_declaration r series_id binding payload evidence),
        ))

unfoldable pub register :
    SeriesRegistry
    → Uuid
    → SeriesBinding
    → SeriesDeclarationPayload
    → DeclarationEvidence
    → Outcome SeriesDeclaration
register r series_id binding payload evidence = elim (lookup series_id r.series) [
  | some history ↦ (r, register_again history binding payload evidence)
  | none ↦ register_first r series_id binding payload evidence
]
