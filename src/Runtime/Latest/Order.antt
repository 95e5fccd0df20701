-- ===== src/Runtime/Latest/Order.antt =====
-- Publication moves each series forward only, and touches no other series.
use open_control_historian.Base.{
  ==_iff, Bool, List, Option, Result-cases, [], ap, false, false→holds, inl, inr, none, refl, some,
  subst, sym, true, true→holds, ℕ, ◌∙◌, ◌∷◌, ◌≡◌, ◌⊎◌,
}
use open_control_historian.Base.Map.{Bytes-discrete}
use open_control_historian.Core.Bounded.{Uuid}
use open_control_historian.Runtime.Latest.{
  LatestSnapshot, LatestState, PlannedAdvance, PublishedObservation, advance, can_complete, commit,
  complete, find_series, get, make_unavailable, no_change, place, plan, plan_candidate, plan_in,
  publish, publish_all, published, series_of, shares_entries_with, stage,
}
use open_control_historian.Runtime.Latest.Search.{
  Advances, NotOlder, NotOlder-refl, NotOlder-trans, plan_in-Advances,
}

-- The candidate of a plan is published at once or not at all, and readers of every series see what
-- they saw before, or something no older of the same series.
abbrev pub StillSeen : Option PublishedObservation → Option PublishedObservation → Type 0
StillSeen none after = Unit
StillSeen (some d) none = ⊥
StillSeen (some d) (some e) = NotOlder d e

StillSeen-refl : (o : Option PublishedObservation) → StillSeen o o
StillSeen-refl none = tt
StillSeen-refl (some d) = NotOlder-refl d

StillSeen-trans :
    (o p q : Option PublishedObservation) → StillSeen o p → StillSeen p q → StillSeen o q
StillSeen-trans none p q h k = tt
StillSeen-trans (some d) none q h k = absurd h
StillSeen-trans (some d) (some e) none h k = absurd k
StillSeen-trans (some d) (some e) (some f) h k = NotOlder-trans d e f h k

abbrev pub state_with : Option LatestSnapshot → Bool → LatestState
state_with current sealed = record { current = current; sealed = sealed }

-- The snapshot that a staged advance puts in place.
abbrev pub next_snapshot : LatestSnapshot → ℕ → Option ℕ → PublishedObservation → LatestSnapshot
next_snapshot base fresh index c = record {
  store_id = base.store_id;
  entries_id = fresh;
  entries = place index c base.entries;
}

reader_moves :
    (c : PublishedObservation) (o : Option PublishedObservation)
    → ((d : PublishedObservation) → o ≡ some d → NotOlder d c)
    → StillSeen o (some c)
reader_moves c none h = tt
reader_moves c (some d) h = h d refl

next_snapshot-StillSeen :
    (base : LatestSnapshot) (fresh : ℕ) (c : PublishedObservation) (a : PlannedAdvance) (j : Uuid)
    → Advances base c a
    → StillSeen (get base j) (get (next_snapshot base fresh a.index c) j)
unfolding get
next_snapshot-StillSeen base fresh c a j v = elim (Bytes-discrete (series_of c) j) [
  | yes e ↦
      rw (v.shows j, true→holds (Bytes-discrete (series_of c) j) e)
        (reader_moves c (find_series j base.entries)
          (λ d found. v.newer d (ap (λ i. find_series i base.entries) e ∙ found)))
  | no n ↦ rw (v.shows j, false→holds (Bytes-discrete (series_of c) j) n) (StillSeen-refl _)
]

pub complete_advance :
    (base : LatestSnapshot) (fresh : ℕ) (a : PlannedAdvance)
    → a.base ≡ base
    → complete (state_with (some base) false) (stage fresh (advance a))
      ≡ state_with (some (next_snapshot base fresh a.index a.candidate)) false
unfolding complete stage can_complete shares_entries_with commit
complete_advance base fresh a on = rw (
  on,
  true→holds (Bytes-discrete base.store_id base.store_id) refl,
  (==_iff base.entries_id base.entries_id).1 refl,
)

-- What readers of a series see after a step: nothing at all once the runtime has stopped, else what
-- they saw before or something no older.
abbrev pub SeenAfter : LatestState → LatestState → Uuid → Type 0
SeenAfter s t j = (t.current ≡ none) ⊎ StillSeen (published s j) (published t j)

publish_active :
    (base : LatestSnapshot) (fresh : ℕ) (c : PublishedObservation) (j : Uuid)
    → SeenAfter
        (state_with (some base) false)
        (publish (state_with (some base) false) fresh (some c))
        j
unfolding publish plan plan_candidate
publish_active base fresh c j = elim (Result-cases (plan_in base c)) [
  | inr (x, e) ↦ inl (rw (e, publish) (unfold make_unavailable in refl))
  | inl (no_change, e) ↦
      inr
        (rw (e, publish) (unfold complete stage can_complete commit in StillSeen-refl (get base j)))
  | inl (advance a, e) ↦
      let v = plan_in-Advances base c a e in
      inr (
        rw (e, publish, complete_advance base fresh a v.on, v.offers)
          (next_snapshot-StillSeen base fresh c a j v))
]

publish_any :
    (current : Option LatestSnapshot) (sealed : Bool) (fresh : ℕ)
    (candidate : Option PublishedObservation) (j : Uuid)
    → SeenAfter (state_with current sealed) (publish (state_with current sealed) fresh candidate) j
unfolding publish plan plan_candidate complete stage can_complete commit make_unavailable
publish_any none sealed fresh candidate j = inl refl
publish_any (some base) true fresh candidate j = inl refl
publish_any (some base) false fresh none j = inr (StillSeen-refl (get base j))
publish_any (some base) false fresh (some c) j = publish_active base fresh c j

-- A stopped registry stays stopped.
publish_stopped :
    (sealed : Bool) (fresh : ℕ) (candidate : Option PublishedObservation)
    → (publish (state_with none sealed) fresh candidate).current ≡ none
unfolding publish plan make_unavailable
publish_stopped sealed fresh candidate = refl

pub publish_all-stopped :
    (s : LatestState) (candidates : List (ℕ × Option PublishedObservation))
    → s.current ≡ none
    → (publish_all s candidates).current ≡ none
unfolding publish_all
publish_all-stopped s [] h = h
publish_all-stopped s ((fresh, candidate) ∷ rest) h =
    publish_all-stopped (publish s fresh candidate) rest (
      subst (λ c. (publish (state_with c s.sealed) fresh candidate).current ≡ none) (sym h)
        (publish_stopped s.sealed fresh candidate))

-- Through any sequence of publications into a registry a reader never sees a series go away, change
-- its metadata or move back to an earlier position, unless the registry has become unavailable as a
-- whole.
pub publish_all-SeenAfter :
    (s : LatestState) (candidates : List (ℕ × Option PublishedObservation)) (j : Uuid)
    → SeenAfter s (publish_all s candidates) j
unfolding publish_all
publish_all-SeenAfter s [] j = inr (StillSeen-refl (published s j))
publish_all-SeenAfter s ((fresh, candidate) ∷ rest) j =
    elim (publish_any s.current s.sealed fresh candidate j) [
      | inl stopped ↦ inl (publish_all-stopped (publish s fresh candidate) rest stopped)
      | inr step ↦ elim (publish_all-SeenAfter (publish s fresh candidate) rest j) [
        | inl stopped ↦ inl stopped
        | inr later ↦
            inr (
              StillSeen-trans (published s j) (published (publish s fresh candidate) j) _ step
                later)
      ]
    ]
