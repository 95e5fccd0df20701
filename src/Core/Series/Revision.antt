-- ===== src/Core/Series/Revision.antt =====
-- crates/och-core/src/series.rs: `SeriesRegistry::revise` and `SeriesRegistry::retire`.
use open_control_historian.Base.{
  [], err, if◌then◌else◌, is_some, last?, leb, none, not, ok, some, ℕ, ◌&&◌, ◌++◌, ◌+◌, ◌==◌, ◌∷◌,
}
use open_control_historian.Base.Map.{lookup, update}
use open_control_historian.Core.Error.{
  Checked, declaration_unchanged, registry_revision_capacity_exceeded, series_not_found,
  series_retired, stale_declaration_revision,
}
use open_control_historian.Core.Bounded.{Uuid}
use open_control_historian.Core.Declaration.{
  DeclarationEvidence, SeriesDeclaration, SeriesDeclarationPayload, SeriesHistory, SeriesRetirement,
  follows, same_evidence, same_payload,
}
use open_control_historian.Core.Series.{Outcome, SeriesRegistry}

abbrev pub next_declaration :
    SeriesRegistry
    → Uuid
    → SeriesHistory
    → SeriesDeclaration
    → ℕ
    → SeriesDeclarationPayload
    → DeclarationEvidence
    → SeriesDeclaration
next_declaration r series_id h current expected payload evidence = record {
  store_id = r.store_id;
  series_id = series_id;
  revision = current.revision + 1;
  previous_revision = some expected;
  binding = h.binding;
  payload = payload;
  evidence = evidence;
}

-- The registry with one declaration more. The second `get_mut` finds the history `h` again, so the
-- push writes it back with the declaration at its end.
abbrev pub revised : SeriesRegistry → Uuid → SeriesHistory → SeriesDeclaration → SeriesRegistry
revised r series_id h declaration = record r {
  series =
      update series_id (record h { declarations = h.declarations ++ declaration ∷ [] }) r.series;
  declaration_revision_count = r.declaration_revision_count + 1;
}

-- `revise` from the point where the latest declaration is known.
unfoldable pub revise_latest :
    SeriesRegistry
    → Uuid
    → SeriesHistory
    → SeriesDeclaration
    → ℕ
    → SeriesDeclarationPayload
    → DeclarationEvidence
    → Outcome SeriesDeclaration
revise_latest r series_id h current expected payload evidence =
    let declaration = next_declaration r series_id h current expected payload evidence in
    if follows current.previous_revision expected
      && (same_payload current.payload payload && same_evidence current.evidence evidence)
    then (r, ok current)
    else (if not (current.revision == expected)
        then (r, err stale_declaration_revision)
        else (if same_payload current.payload payload
            then (r, err declaration_unchanged)
            else (if leb r.limits.max_declaration_revisions r.declaration_revision_count
                then (r, err registry_revision_capacity_exceeded)
                else (revised r series_id h declaration, ok declaration))))

unfoldable pub revise_history :
    SeriesRegistry
    → Uuid
    → SeriesHistory
    → ℕ
    → SeriesDeclarationPayload
    → DeclarationEvidence
    → Outcome SeriesDeclaration
revise_history r series_id h expected payload evidence =
    if is_some h.retirement then (r, err series_retired) else (elim (last? h.declarations) [
      | none ↦ (r, err series_not_found)
      | some current ↦ revise_latest r series_id h current expected payload evidence
    ])

unfoldable pub revise :
    SeriesRegistry
    → Uuid
    → ℕ
    → SeriesDeclarationPayload
    → DeclarationEvidence
    → Outcome SeriesDeclaration
revise r series_id expected payload evidence = elim (lookup series_id r.series) [
  | none ↦ (r, err series_not_found)
  | some h ↦ revise_history r series_id h expected payload evidence
]

-- `retire` on a series that is retired already.
unfoldable pub retire_again : SeriesRetirement → ℕ → DeclarationEvidence → Checked SeriesRetirement
retire_again t expected evidence =
    if (t.declaration_revision == expected) && same_evidence t.evidence evidence
    then ok t
    else err series_retired

-- The registry with the history closed by a tombstone.
abbrev pub retired : SeriesRegistry → Uuid → SeriesHistory → SeriesRetirement → SeriesRegistry
retired r series_id h retirement = record r {
  series = update series_id (record h { retirement = some retirement }) r.series;
}

unfoldable pub retire_active :
    SeriesRegistry → Uuid → SeriesHistory → ℕ → DeclarationEvidence → Outcome SeriesRetirement
retire_active r series_id h expected evidence =
    let retirement : SeriesRetirement = record {
      declaration_revision = expected;
      evidence = evidence;
    } in
    elim (last? h.declarations) [
      | none ↦ (r, err series_not_found)
      | some current ↦
          if not (current.revision == expected)
          then (r, err stale_declaration_revision)
          else (retired r series_id h retirement, ok retirement)
    ]

unfoldable pub retire_history :
    SeriesRegistry → Uuid → SeriesHistory → ℕ → DeclarationEvidence → Outcome SeriesRetirement
retire_history r series_id h expected evidence = elim h.retirement [
  | some t ↦ (r, retire_again t expected evidence)
  | none ↦ retire_active r series_id h expected evidence
]

unfoldable pub retire : SeriesRegistry → Uuid → ℕ → DeclarationEvidence → Outcome SeriesRetirement
retire r series_id expected evidence = elim (lookup series_id r.series) [
  | none ↦ (r, err series_not_found)
  | some h ↦ retire_history r series_id h expected evidence
]
