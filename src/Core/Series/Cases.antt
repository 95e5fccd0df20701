-- ===== src/Core/Series/Cases.antt =====
-- The ways in which the operations of the registry end: refused, replayed, or done.
use open_control_historian.Base.{
  Bool-cases, Option, Option-cases, arith, err, inl, inr, last?, leb, leb-false, length, none, not,
  not_eq-false, ok, some, true, ℕ, ◌&&◌, ◌<◌, ◌==◌, ◌≡◌,
}
use open_control_historian.Base.Map.{lookup}
use open_control_historian.Core.Error.{ModelError}
use open_control_historian.Core.Bounded.{Uuid}
use open_control_historian.Core.Declaration.{
  DeclarationEvidence, SeriesBinding, SeriesDeclaration, SeriesDeclarationPayload, SeriesHistory,
  SeriesRetirement, follows, same_evidence, same_payload,
}
use open_control_historian.Core.Series.{
  Outcome, SeriesRegistry, initial_declaration, register, register_again, register_first,
  registered,
}
use open_control_historian.Core.Series.Revision.{
  next_declaration, retire, retire_active, retire_again, retire_history, retired, revise,
  revise_history, revise_latest, revised,
}

-- What the replay test of `revise` finds.
replays :
    (previous : Option ℕ) (expected : ℕ) (p q : SeriesDeclarationPayload)
    (e f : DeclarationEvidence)
    → (follows previous expected && (same_payload p q && same_evidence e f)) ≡ true
    → (previous ≡ some expected) × (p ≡ q) × (e ≡ f)
replays previous expected p q e f h = ground arith

module _ (r : SeriesRegistry) (id : Uuid) (payload : SeriesDeclarationPayload)
    (evidence : DeclarationEvidence) where
  register_first_cases {ℓ} :
      (P : Outcome SeriesDeclaration → Type ℓ) (b : SeriesBinding)
      → ((x : ModelError) → P (r, err x))
      → (length r.series < r.limits.max_series
          → r.declaration_revision_count < r.limits.max_declaration_revisions
          → P (
            registered r id b payload evidence,
            ok (initial_declaration r id b payload evidence),
          ))
      → P (register_first r id b payload evidence)
  unfolding register_first
  register_first_cases P b refused done =
      elim (Bool-cases (leb r.limits.max_series (length r.series))) [
        | inl full ↦ rw full (refused _)
        | inr room ↦
            elim (Bool-cases
              (leb r.limits.max_declaration_revisions r.declaration_revision_count)) [
                | inl full ↦ rw (room, full) (refused _)
                | inr more ↦ rw (room, more) (done (leb-false room) (leb-false more))
              ]
      ]

  pub register_cases {ℓ} :
      (P : Outcome SeriesDeclaration → Type ℓ) (b : SeriesBinding)
      → ((x : ModelError) → P (r, err x))
      → ((h : SeriesHistory)
          → lookup id r.series ≡ some h
          → P (r, register_again h b payload evidence))
      → (lookup id r.series ≡ none
          → length r.series < r.limits.max_series
          → r.declaration_revision_count < r.limits.max_declaration_revisions
          → P (
            registered r id b payload evidence,
            ok (initial_declaration r id b payload evidence),
          ))
      → P (register r id b payload evidence)
  unfolding register
  register_cases P b refused again done = elim (Option-cases (lookup id r.series)) [
    | inl e ↦ rw (e, register) (register_first_cases P b refused (done e))
    | inr (h, e) ↦ rw (e, register) (again h e)
  ]

  revise_latest_cases {ℓ} :
      (P : Outcome SeriesDeclaration → Type ℓ) (h : SeriesHistory) (current : SeriesDeclaration)
      (expected : ℕ)
      → ((x : ModelError) → P (r, err x))
      → (current.previous_revision ≡ some expected
          → current.payload ≡ payload
          → current.evidence ≡ evidence
          → P (r, ok current))
      → (current.revision ≡ expected
          → r.declaration_revision_count < r.limits.max_declaration_revisions
          → P (
            revised r id h (next_declaration r id h current expected payload evidence),
            ok (next_declaration r id h current expected payload evidence),
          ))
      → P (revise_latest r id h current expected payload evidence)
  unfolding revise_latest
  revise_latest_cases P h current expected refused again done =
      elim (Bool-cases (
        follows current.previous_revision expected
        && (same_payload current.payload payload && same_evidence current.evidence evidence))) [
          | inl same ↦
              let (p, q, e) = replays current.previous_revision expected _ _ _ _ same in
              rw same (again p q e)
          | inr other ↦ elim (Bool-cases (not (current.revision == expected))) [
            | inl stale ↦ rw (other, stale) (refused _)
            | inr exact ↦ elim (Bool-cases (same_payload current.payload payload)) [
              | inl same ↦ rw (other, exact, same) (refused _)
              | inr changed ↦
                  elim (Bool-cases
                    (leb r.limits.max_declaration_revisions r.declaration_revision_count)) [
                      | inl full ↦ rw (other, exact, changed, full) (refused _)
                      | inr room ↦
                          rw (other, exact, changed, room)
                            (done (not_eq-false exact) (leb-false room))
                    ]
            ]
          ]
        ]

  pub revise_cases {ℓ} :
      (P : Outcome SeriesDeclaration → Type ℓ) (expected : ℕ)
      → ((x : ModelError) → P (r, err x))
      → ((h : SeriesHistory) (current : SeriesDeclaration)
          → lookup id r.series ≡ some h
          → h.retirement ≡ none
          → last? h.declarations ≡ some current
          → current.previous_revision ≡ some expected
          → current.payload ≡ payload
          → current.evidence ≡ evidence
          → P (r, ok current))
      → ((h : SeriesHistory) (current : SeriesDeclaration)
          → lookup id r.series ≡ some h
          → h.retirement ≡ none
          → last? h.declarations ≡ some current
          → current.revision ≡ expected
          → r.declaration_revision_count < r.limits.max_declaration_revisions
          → P (
            revised r id h (next_declaration r id h current expected payload evidence),
            ok (next_declaration r id h current expected payload evidence),
          ))
      → P (revise r id expected payload evidence)
  unfolding revise revise_history
  revise_cases P expected refused again done = elim (Option-cases (lookup id r.series)) [
    | inl e ↦ rw (e, revise) (refused _)
    | inr (h, e) ↦ elim (Option-cases h.retirement) [
      | inr (t, gone) ↦ rw (e, revise, gone) (refused _)
      | inl live ↦ elim (Option-cases (last? h.declarations)) [
        | inl l ↦ rw (e, revise, live, l, revise_history) (refused _)
        | inr (current, l) ↦
            rw (e, revise, live, l, revise_history)
              (revise_latest_cases P h current expected refused (again h current e live l)
                (done h current e live l))
      ]
    ]
  ]

module _ (r : SeriesRegistry) (id : Uuid) (expected : ℕ) (evidence : DeclarationEvidence) where
  abbrev pub tombstone : SeriesRetirement
  tombstone = record { declaration_revision = expected; evidence = evidence }

  retire_active_cases {ℓ} :
      (P : Outcome SeriesRetirement → Type ℓ) (h : SeriesHistory)
      → ((x : ModelError) → P (r, err x))
      → ((current : SeriesDeclaration)
          → last? h.declarations ≡ some current
          → current.revision ≡ expected
          → P (retired r id h tombstone, ok tombstone))
      → P (retire_active r id h expected evidence)
  unfolding retire_active
  retire_active_cases P h refused done = elim (Option-cases (last? h.declarations)) [
    | inl e ↦ rw (e, retire_active) (refused _)
    | inr (current, e) ↦ elim (Bool-cases (not (current.revision == expected))) [
      | inl stale ↦ rw (e, retire_active, stale) (refused _)
      | inr exact ↦ rw (e, retire_active, exact) (done current e (not_eq-false exact))
    ]
  ]

  pub retire_cases {ℓ} :
      (P : Outcome SeriesRetirement → Type ℓ)
      → ((x : ModelError) → P (r, err x))
      → ((h : SeriesHistory) (t : SeriesRetirement)
          → lookup id r.series ≡ some h
          → h.retirement ≡ some t
          → P (r, retire_again t expected evidence))
      → ((h : SeriesHistory) (current : SeriesDeclaration)
          → lookup id r.series ≡ some h
          → h.retirement ≡ none
          → last? h.declarations ≡ some current
          → current.revision ≡ expected
          → P (retired r id h tombstone, ok tombstone))
      → P (retire r id expected evidence)
  unfolding retire retire_history
  retire_cases P refused again done = elim (Option-cases (lookup id r.series)) [
    | inl e ↦ rw (e, retire) (refused _)
    | inr (h, e) ↦ elim (Option-cases h.retirement) [
      | inr (t, gone) ↦ rw (e, retire, gone, retire_history) (again h t e gone)
      | inl live ↦
          rw (e, retire, live, retire_history)
            (retire_active_cases P h refused (λ c. done h c e live))
    ]
  ]
