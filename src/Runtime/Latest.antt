-- ===== src/Runtime/Latest.antt =====
-- crates/och-runtime/src/latest.rs: the volatile registry of latest observations.
-- An `Arc` is its target with the identity of its allocation, which `Arc::ptr_eq` compares.
pub mod Search
pub mod Order
pub mod Capacity
pub mod Refusal
use open_control_historian.Base.{
  Bool, List, Option, Result, [], err, false, holds, if◌then◌else◌, is_some, leb, length, none, not,
  ok, set, some, suc, true, ℕ, ◌&&◌, ◌++◌, ◌==◌, ◌||◌, ◌∷◌,
}
use open_control_historian.Base.Map.{same_bytes}
use open_control_historian.Core.Bounded.{Uuid}
use open_control_historian.Core.Position.{ProducerPosition, position_lt}
use open_control_historian.Core.Observation.{
  Observation, Observation-discrete, SeriesMetadata, SeriesMetadata-discrete,
}

abbrev pub max_published_series : ℕ
max_published_series = 16

pub record PublishedObservation : Type 0 where
  pub series : SeriesMetadata
  pub observation : Observation
  pub position : ProducerPosition

-- `entries` is shared: `entries_id` is the allocation that the `Arc` points to.
pub record LatestSnapshot : Type 0 where
  pub store_id : Uuid
  pub entries_id : ℕ
  pub entries : List PublishedObservation

abbrev pub series_of : PublishedObservation → Uuid
series_of e = e.series.series_id

unfoldable pub find_series : Uuid → List PublishedObservation → Option PublishedObservation
find_series id [] = none
find_series id (e ∷ rest) = if same_bytes (series_of e) id then some e else find_series id rest

-- `LatestSnapshot::get`.
unfoldable pub get : LatestSnapshot → Uuid → Option PublishedObservation
get s id = find_series id s.entries

unfoldable pub shares_entries_with : LatestSnapshot → LatestSnapshot → Bool
shares_entries_with a b = same_bytes a.store_id b.store_id && (a.entries_id == b.entries_id)

pub record LatestState : Type 0 where
  pub current : Option LatestSnapshot
  pub sealed : Bool

-- `LatestState::new`; `fresh` is the allocation of the empty slice.
unfoldable pub new : Uuid → ℕ → LatestState
new store_id fresh = record {
  current = some (record { store_id = store_id; entries_id = fresh; entries = [] });
  sealed = false;
}

pub record PlannedAdvance : Type 0 where
  pub base : LatestSnapshot
  pub index : Option ℕ
  pub candidate : PublishedObservation

pub data PublicationPlan : Type 0 where
  no_change : PublicationPlan
  advance : PlannedAdvance → PublicationPlan

pub data PublicationFault : Type 0 where
  publication_fault : PublicationFault

abbrev pub Planned : Type 0
Planned = Result PublicationFault PublicationPlan

-- The first entry of the series, with its index counted from `i`.
unfoldable pub find_indexed :
    Uuid → ℕ → List PublishedObservation → Option (ℕ × PublishedObservation)
find_indexed id i [] = none
find_indexed id i (e ∷ rest) =
    if same_bytes (series_of e) id then some (i, e) else find_indexed id (suc i) rest

abbrev pub same_observation : Observation → Observation → Bool
same_observation a b = holds (Observation-discrete a b)

abbrev pub same_series : SeriesMetadata → SeriesMetadata → Bool
same_series a b = holds (SeriesMetadata-discrete a b)

-- The branch of `plan` for a series that has an entry already.
unfoldable pub plan_known :
    LatestSnapshot → ℕ → PublishedObservation → PublishedObservation → Planned
plan_known base index published candidate =
    if not (same_series published.series candidate.series)
    then err publication_fault
    else (if position_lt published.position candidate.position
        then ok (advance (record { base = base; index = some index; candidate = candidate }))
        else (if position_lt candidate.position published.position
            then ok no_change
            else (if same_observation candidate.observation published.observation
                then ok no_change
                else err publication_fault)))

unfoldable pub plan_in : LatestSnapshot → PublishedObservation → Planned
plan_in base candidate = elim (find_indexed (series_of candidate) 0 base.entries) [
  | some (index, published) ↦ plan_known base index published candidate
  | none ↦
      if leb max_published_series (length base.entries)
      then err publication_fault
      else ok (advance (record { base = base; index = none; candidate = candidate }))
]

unfoldable pub plan_candidate : LatestSnapshot → Option PublishedObservation → Planned
plan_candidate base none = ok no_change
plan_candidate base (some candidate) = plan_in base candidate

unfoldable pub plan : LatestState → Option PublishedObservation → Planned
plan s candidate = elim s.current [
  | none ↦ err publication_fault
  | some base ↦ if s.sealed then err publication_fault else plan_candidate base candidate
]

pub data PreparedPublication : Type 0 where
  unchanged : PreparedPublication
  advanced : LatestSnapshot → LatestSnapshot → PreparedPublication

unfoldable pub place :
    Option ℕ → PublishedObservation → List PublishedObservation → List PublishedObservation
place (some index) candidate entries = set entries index candidate
place none candidate entries = entries ++ candidate ∷ []

-- `stage` copies the entries into the allocation `fresh`.
unfoldable pub stage : ℕ → PublicationPlan → PreparedPublication
stage fresh no_change = unchanged
stage fresh (advance a) = advanced a.base (record {
  store_id = a.base.store_id;
  entries_id = fresh;
  entries = place a.index a.candidate a.base.entries;
})

unfoldable pub can_complete : LatestState → PreparedPublication → Bool
can_complete s unchanged = not s.sealed && is_some s.current
can_complete s (advanced base next) = elim s.current [
  | none ↦ false
  | some current ↦ not s.sealed && shares_entries_with current base
]

unfoldable pub commit : LatestState → PreparedPublication → LatestState
commit s unchanged = s
commit s (advanced base next) = record s { current = some next }

unfoldable pub seal : LatestState → LatestState × Bool
seal s =
    if not (is_some s.current) || s.sealed then (s, false) else (record s { sealed = true }, true)

unfoldable pub make_unavailable : LatestState → LatestState
make_unavailable s = record s { current = none; sealed = true }

-- One publication as the writer makes it: `prepare_publication`, which plans and stages, then the
-- check and the swap of `complete_handled_inner`. Where a step refuses, the writer stops the runtime
-- (`stop_all`), and the registry is unavailable from then on.
unfoldable pub complete : LatestState → PreparedPublication → LatestState
complete s preparation =
    if can_complete s preparation then commit s preparation else make_unavailable s

unfoldable pub publish : LatestState → ℕ → Option PublishedObservation → LatestState
publish s fresh candidate = elim (plan s candidate) [
  | err fault ↦ make_unavailable s
  | ok planned ↦ complete s (stage fresh planned)
]

-- The candidates come with the allocations that their copies are given.
unfoldable pub publish_all : LatestState → List (ℕ × Option PublishedObservation) → LatestState
publish_all s [] = s
publish_all s ((fresh, candidate) ∷ rest) = publish_all (publish s fresh candidate) rest

-- What a reader sees of a series: nothing too once the registry is unavailable.
abbrev pub seen_in : Option LatestSnapshot → Uuid → Option PublishedObservation
seen_in none id = none
seen_in (some snapshot) id = get snapshot id

abbrev pub published : LatestState → Uuid → Option PublishedObservation
published s id = seen_in s.current id
