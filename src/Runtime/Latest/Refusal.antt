-- ===== src/Runtime/Latest/Refusal.antt =====
-- When nothing is published: a plan that is out of date, a sealed registry, an unavailable one.
use open_control_historian.Base.{
  ==_iff, All, Bool, Bool-cases, List, Option, [], ap, arith, err, false, inl, inr, none, ok, refl,
  some, subst, sym, true, true→holds, ℕ, ◌↔◌, ◌∙◌, ◌∷◌, ◌≡◌, ◌≢◌, ◌⊎◌,
}
use open_control_historian.Base.Map.{Bytes-discrete}
use open_control_historian.Core.Bounded.{Uuid}
use open_control_historian.Runtime.Latest.{
  LatestSnapshot, LatestState, Planned, PlannedAdvance, PublicationPlan, PublishedObservation,
  advance, advanced, can_complete, commit, complete, make_unavailable, no_change, plan,
  plan_candidate, publish, publish_all, published, seal, seen_in, shares_entries_with, stage,
  unchanged,
}
use open_control_historian.Runtime.Latest.Order.{next_snapshot, publish_all-stopped, state_with}
use open_control_historian.Runtime.Latest.Search.{plan_in-Advances}

-- The allocations that the publications make are none of a snapshot that is still held.
abbrev pub AvoidAll : ℕ → List (ℕ × Option PublishedObservation) → Type 0
AvoidAll held publications = All (λ publication. publication.0 ≢ held) publications

-- What a step leaves: the state as it was, nothing published, or entries in the new allocation.
abbrev Moved : ℕ → LatestState → LatestState → Type 0
Moved fresh s t =
    (t ≡ s)
    ⊎ ((t.current ≡ none) ⊎ ((c : LatestSnapshot) × (t.current ≡ some c) × (c.entries_id ≡ fresh)))

complete-Moved :
    (s : LatestState) (fresh : ℕ) (planned : PublicationPlan)
    → Moved fresh s (complete s (stage fresh planned))
unfolding complete stage commit make_unavailable
complete-Moved s fresh no_change = elim (Bool-cases (can_complete s unchanged)) [
  | inl e ↦ inl (rw e)
  | inr e ↦ inr (inl (rw e))
]
complete-Moved s fresh (advance a) = elim (Bool-cases (can_complete s (stage fresh (advance a)))) [
  | inl e ↦ inr (inr (next_snapshot a.base fresh a.index a.candidate, rw e, refl))
  | inr e ↦ inr (inl (rw e))
]

-- What `publish` does with the answer of the plan.
answered : LatestState → ℕ → Planned → LatestState
answered s fresh (err fault) = make_unavailable s
answered s fresh (ok planned) = complete s (stage fresh planned)

answered-Moved : (s : LatestState) (fresh : ℕ) (p : Planned) → Moved fresh s (answered s fresh p)
unfolding answered make_unavailable
answered-Moved s fresh (err fault) = inr (inl refl)
answered-Moved s fresh (ok planned) = complete-Moved s fresh planned

publish-Moved :
    (s : LatestState) (fresh : ℕ) (candidate : Option PublishedObservation)
    → Moved fresh s (publish s fresh candidate)
unfolding publish answered
publish-Moved s fresh candidate = answered-Moved s fresh (plan s candidate)

-- Since the plan: nothing has changed, or what is published is in another allocation, if anything.
abbrev Elsewhere : ℕ → LatestState → Type 0
Elsewhere held t =
    (t.current ≡ none) ⊎ ((c : LatestSnapshot) × (t.current ≡ some c) × (c.entries_id ≢ held))

publish-Elsewhere :
    (held : ℕ) (s t : LatestState) (fresh : ℕ) (candidate : Option PublishedObservation)
    → fresh ≢ held
    → (t ≡ s) ⊎ Elsewhere held t
    → (publish t fresh candidate ≡ s) ⊎ Elsewhere held (publish t fresh candidate)
publish-Elsewhere held s t fresh candidate apart before = elim (publish-Moved t fresh candidate) [
  | inl same ↦ subst (λ x. (x ≡ s) ⊎ Elsewhere held x) (sym same) before
  | inr (inl stopped) ↦ inr (inl stopped)
  | inr (inr (c, now, placed)) ↦ inr (inr (c, now, λ e. apart (sym placed ∙ e)))
]

publish_all-Elsewhere :
    (held : ℕ) (s t : LatestState) (publications : List (ℕ × Option PublishedObservation))
    → AvoidAll held publications
    → (t ≡ s) ⊎ Elsewhere held t
    → (publish_all t publications ≡ s) ⊎ Elsewhere held (publish_all t publications)
unfolding publish_all
publish_all-Elsewhere held s t [] avoids before = before
publish_all-Elsewhere held s t ((fresh, candidate) ∷ rest) (apart, avoids) before =
    publish_all-Elsewhere held s (publish t fresh candidate) rest avoids
      (publish-Elsewhere held s t fresh candidate apart before)

-- A preparation completes only on the entries of its base.
Elsewhere-refused :
    (t : LatestState) (base next : LatestSnapshot)
    → Elsewhere base.entries_id t
    → can_complete t (advanced base next) ≡ false
unfolding can_complete shares_entries_with
Elsewhere-refused t base next (inl stopped) = rw stopped
Elsewhere-refused t base next (inr (c, now, apart)) = rw now (ground arith)

-- A plan that was just made on the state completes on it.
planned_completes :
    (current : Option LatestSnapshot) (sealed : Bool) (fresh : ℕ)
    (candidate : Option PublishedObservation) (a : PlannedAdvance)
    → plan (state_with current sealed) candidate ≡ ok (advance a)
    → can_complete (state_with current sealed) (stage fresh (advance a)) ≡ true
unfolding plan plan_candidate can_complete stage shares_entries_with
planned_completes none sealed fresh candidate a h = cc
planned_completes (some base) true fresh candidate a h = cc
planned_completes (some base) false fresh none a h = cc
planned_completes (some base) false fresh (some candidate) a h =
    let on = (plan_in-Advances base candidate a h).on in
    rw (
      on,
      true→holds (Bytes-discrete base.store_id base.store_id) refl,
      (==_iff base.entries_id base.entries_id).1 refl,
    )

-- A preparation that was planned in one state, with any publications after that, whose allocations
-- are not the one of its base, which it still holds: it can complete exactly if those publications
-- have left the state as it was.
pub can_complete-publish_all :
    (s : LatestState) (candidate : Option PublishedObservation) (a : PlannedAdvance) (fresh : ℕ)
    (publications : List (ℕ × Option PublishedObservation))
    → plan s candidate ≡ ok (advance a)
    → AvoidAll a.base.entries_id publications
    → (can_complete (publish_all s publications) (stage fresh (advance a)) ≡ true)
      ↔ (publish_all s publications ≡ s)
can_complete-publish_all s candidate a fresh publications planned avoids = (
  λ completes. elim (publish_all-Elsewhere a.base.entries_id s s publications avoids (inl refl)) [
    | inl same ↦ same
    | inr elsewhere ↦
        let refused : can_complete (publish_all s publications) (stage fresh (advance a)) ≡ false =
          unfold stage in
          Elsewhere-refused (publish_all s publications) a.base
            (next_snapshot a.base fresh a.index a.candidate) elsewhere in
        cc (completes, refused)
  ],
  λ same.
      subst (λ t. can_complete t (stage fresh (advance a)) ≡ true) (sym same)
        (planned_completes s.current s.sealed fresh candidate a planned),
)

-- After `make_unavailable` readers see nothing, for good: no later candidate is published.
pub make_unavailable-publish_all :
    (s : LatestState) (candidates : List (ℕ × Option PublishedObservation)) (j : Uuid)
    → published (publish_all (make_unavailable s) candidates) j ≡ none
unfolding make_unavailable
make_unavailable-publish_all s candidates j =
    ap (λ c. seen_in c j)
      (publish_all-stopped (record s { current = none; sealed = true }) candidates refl)

publish_sealed :
    (current : Option LatestSnapshot) (fresh : ℕ) (candidate : Option PublishedObservation)
    → (publish (state_with current true) fresh candidate).current ≡ none
unfolding publish plan make_unavailable
publish_sealed none fresh candidate = refl
publish_sealed (some base) fresh candidate = refl

seal_done : (s : LatestState) → (seal s).1 ≡ true → (seal s).0 ≡ record s { sealed = true }
unfolding seal
seal_done s h = ground arith

seal_again : (s : LatestState) → s.sealed ≡ true → (seal s).1 ≡ false
unfolding seal
seal_again s h = ground arith

-- A successful `seal` leaves readers what they saw, cannot succeed twice, and any publication that
-- comes after it makes the registry unavailable.
pub seal-publish_all :
    (s : LatestState) (fresh : ℕ) (candidate : Option PublishedObservation)
    (rest : List (ℕ × Option PublishedObservation)) (j : Uuid)
    → (seal s).1 ≡ true
    → (published (seal s).0 j ≡ published s j)
      × ((seal (seal s).0).1 ≡ false)
      × ((publish_all (seal s).0 ((fresh, candidate) ∷ rest)).current ≡ none)
seal-publish_all s fresh candidate rest j h =
    let closed = record s { sealed = true } in
    rw (seal_done s h) (
      refl,
      seal_again closed refl,
      unfold publish_all in
          publish_all-stopped (publish closed fresh candidate) rest
            (publish_sealed s.current fresh candidate),
    )
