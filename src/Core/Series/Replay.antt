-- ===== src/Core/Series/Replay.antt =====
-- A caller that repeats a request of the registry gets the same answer, and nothing changes.
use open_control_historian.Base.{
  ==_iff, List, Option, [], ap, is_some, last?, none, ok, refl, some, true, true→holds, ℕ, ◌&&◌,
  ◌++◌, ◌∙◌, ◌∷◌, ◌≡◌,
}
use open_control_historian.Base.Map.{Bytes, Bytes-discrete, insert, lookup, update}
use open_control_historian.Base.Map.Laws.{lookup-insert, lookup-update}
use open_control_historian.Core.Bounded.{Uuid}
use open_control_historian.Core.Declaration.{
  DeclarationEvidence, DeclarationEvidence-discrete, SeriesBinding, SeriesBinding-discrete,
  SeriesDeclaration, SeriesDeclarationPayload, SeriesDeclarationPayload-discrete, SeriesHistory,
  SeriesRetirement, follows, same_evidence, same_payload,
}
use open_control_historian.Core.Series.{
  Outcome, SeriesRegistry, initial_declaration, register, register_again,
}
use open_control_historian.Core.Series.Cases.{register_cases, retire_cases, revise_cases, tombstone}
use open_control_historian.Core.Series.Revision.{
  next_declaration, retire, retire_again, retire_history, retired, revise, revise_history,
  revise_latest, revised,
}

last?-append : (ds : List SeriesDeclaration) (d : SeriesDeclaration) → last? (ds ++ d ∷ []) ≡ some d
last?-append [] d = refl
last?-append (a ∷ []) d = refl
last?-append (a ∷ b ∷ ds) d = last?-append (b ∷ ds) d

lookup-update_self :
    (id : Uuid) (h g : SeriesHistory) (m : List (Bytes × SeriesHistory))
    → lookup id m ≡ some g
    → lookup id (update id h m) ≡ some h
lookup-update_self id h g m found =
    rw (lookup-update id id h g m found, true→holds (Bytes-discrete id id) refl)

lookup-insert_self :
    (id : Uuid) (h : SeriesHistory) (m : List (Bytes × SeriesHistory))
    → lookup id (insert id h m) ≡ some h
lookup-insert_self id h m = rw (lookup-insert id id h m, true→holds (Bytes-discrete id id) refl)

replay_holds :
    (previous : Option ℕ) (expected : ℕ) (p q : SeriesDeclarationPayload)
    (e f : DeclarationEvidence)
    → previous ≡ some expected
    → p ≡ q
    → e ≡ f
    → (follows previous expected && (same_payload p q && same_evidence e f)) ≡ true
replay_holds previous expected p q e f h pay ev = rw (
  h,
  true→holds (SeriesDeclarationPayload-discrete p q) pay,
  true→holds (DeclarationEvidence-discrete e f) ev,
  (==_iff expected expected).1 refl,
)

module _ (r : SeriesRegistry) (id : Uuid) (p : SeriesDeclarationPayload) (e : DeclarationEvidence)
    (d : SeriesDeclaration) where
  register_again_first :
      (binding : SeriesBinding)
      → register_again
          (record {
            series_id = id;
            binding = binding;
            declarations = initial_declaration r id binding p e ∷ [];
            retirement = none;
          })
          binding
          p
          e
        ≡ ok (initial_declaration r id binding p e)
  unfolding register_again
  register_again_first binding = rw (
    true→holds (SeriesBinding-discrete binding binding) refl,
    true→holds (SeriesDeclarationPayload-discrete p p) refl,
    true→holds (DeclarationEvidence-discrete e e) refl,
  )

  abbrev RegistersAgain : SeriesBinding → Outcome SeriesDeclaration → Type 0
  RegistersAgain binding o = o.1 ≡ ok d → register o.0 id binding p e ≡ (o.0, ok d)

  -- A registration that succeeded is repeated with no effect and the same declaration.
  pub register_twice :
      (binding : SeriesBinding)
      → (register r id binding p e).1 ≡ ok d
      → register (register r id binding p e).0 id binding p e
        ≡ ((register r id binding p e).0, ok d)
  register_twice binding =
      register_cases r id p e (RegistersAgain binding) binding (λ x h. cc)
        (λ h found k. unfold register in rw (found, register) (rw k))
        (λ fresh _ _ k.
          unfold register in
          rw (lookup-insert_self id _ r.series, register)
            (rw (register_again_first binding) (rw k)))

  revise_latest_again :
      (s : SeriesRegistry) (h : SeriesHistory) (current : SeriesDeclaration) (expected : ℕ)
      → current.previous_revision ≡ some expected
      → current.payload ≡ p
      → current.evidence ≡ e
      → revise_latest s id h current expected p e ≡ (s, ok current)
  unfolding revise_latest
  revise_latest_again s h current expected prev pay ev = rw (
      replay_holds current.previous_revision expected current.payload p current.evidence e prev pay
        ev)

  revise_found :
      (s : SeriesRegistry) (h : SeriesHistory) (current : SeriesDeclaration) (expected : ℕ)
      → lookup id s.series ≡ some h
      → h.retirement ≡ none
      → last? h.declarations ≡ some current
      → revise s id expected p e ≡ revise_latest s id h current expected p e
  unfolding revise revise_history
  revise_found s h current expected found live l =
      rw (found, revise) (rw (ap is_some live, revise_history) (rw (l, revise_history)))

  abbrev RevisesAgain : ℕ → Outcome SeriesDeclaration → Type 0
  RevisesAgain expected o = o.1 ≡ ok d → revise o.0 id expected p e ≡ (o.0, ok d)

  -- A revision that succeeded, repeated under the revision number that it replaced, has no effect
  -- and returns the same declaration.
  pub revise_twice :
      (expected : ℕ)
      → (revise r id expected p e).1 ≡ ok d
      → revise (revise r id expected p e).0 id expected p e ≡ ((revise r id expected p e).0, ok d)
  revise_twice expected =
      revise_cases r id p e (RevisesAgain expected) expected (λ x h. cc)
        (λ h current found live l prev pay ev k.
          revise_found r h current expected found live l
          ∙ revise_latest_again r h current expected prev pay ev
          ∙ ap (λ x. (r, x)) k)
        (λ h current found live l exact more k.
          let next = next_declaration r id h current expected p e in
          let h' : SeriesHistory = record h { declarations = h.declarations ++ next ∷ [] } in
          let s = revised r id h next in
          revise_found s h' next expected (lookup-update_self id h' h r.series found) live
            (last?-append h.declarations next)
          ∙ revise_latest_again s h' next expected refl refl refl
          ∙ ap (λ x. (s, x)) k)

module _ (r : SeriesRegistry) (id : Uuid) (expected : ℕ) (e : DeclarationEvidence)
    (t : SeriesRetirement) where
  abbrev RetiresAgain : Outcome SeriesRetirement → Type 0
  RetiresAgain o = o.1 ≡ ok t → retire o.0 id expected e ≡ (o.0, ok t)

  retire_found :
      (s : SeriesRegistry) (h : SeriesHistory) (u : SeriesRetirement)
      → lookup id s.series ≡ some h
      → h.retirement ≡ some u
      → retire s id expected e ≡ (s, retire_again u expected e)
  unfolding retire retire_history
  retire_found s h u found gone = rw (found, retire) (rw (gone, retire_history))

  retire_again_same :
      retire_again (tombstone r id expected e) expected e ≡ ok (tombstone r id expected e)
  unfolding retire_again
  retire_again_same =
      rw ((==_iff expected expected).1 refl, true→holds (DeclarationEvidence-discrete e e) refl)

  -- A retirement that succeeded is repeated with no effect and the same tombstone.
  pub retire_twice :
      (retire r id expected e).1 ≡ ok t
      → retire (retire r id expected e).0 id expected e ≡ ((retire r id expected e).0, ok t)
  retire_twice =
      retire_cases r id expected e RetiresAgain (λ x h. cc)
        (λ h u found gone k. retire_found r h u found gone ∙ ap (λ x. (r, x)) k)
        (λ h current found live l exact k.
          let h' : SeriesHistory = record h { retirement = some (tombstone r id expected e) } in
          let s = retired r id h (tombstone r id expected e) in
          retire_found s h' (tombstone r id expected e) (lookup-update_self id h' h r.series found)
            refl
          ∙ ap (λ x. (s, x)) (retire_again_same ∙ k))
