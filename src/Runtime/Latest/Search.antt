-- ===== src/Runtime/Latest/Search.antt =====
-- What a planned advance puts where, and that it is newer than what it replaces.
use open_control_historian.Base.{
  List, Option-cases, [], arith, false, if◌then◌else◌, inl, inr, none, ok, refl, set, some,
  some-injective, subst, suc, sym, true, ℕ, ◌++◌, ◌-◌, ◌∙◌, ◌∷◌, ◌≡◌, ◌≤◌,
}
use open_control_historian.Base.Map.{Bytes-discrete, same_bytes}
use open_control_historian.Core.Bounded.{Uuid}
use open_control_historian.Core.Position.{position_lt, position_lt_asym, position_lt_irrefl}
use open_control_historian.Runtime.Latest.{
  LatestSnapshot, PlannedAdvance, PublishedObservation, advance, find_indexed, find_series, place,
  plan_in, plan_known, series_of,
}

pub find_indexed-ge :
    (id : Uuid) (i : ℕ) (es : List PublishedObservation) (k : ℕ) (e : PublishedObservation)
    → find_indexed id i es ≡ some (k, e)
    → i ≤ k
unfolding find_indexed
find_indexed-ge id i [] k e h = cc
find_indexed-ge id i (x ∷ es) k e h = ground (arith, find_indexed-ge id (suc i) es k e)

-- The indexed search finds what the reader's search finds.
find_indexed-found :
    (id : Uuid) (i : ℕ) (es : List PublishedObservation) (k : ℕ) (e : PublishedObservation)
    → find_indexed id i es ≡ some (k, e)
    → find_series id es ≡ some e
unfolding find_indexed find_series
find_indexed-found id i [] k e h = cc
find_indexed-found id i (x ∷ es) k e h = ground (arith, find_indexed-found id (suc i) es k e)

pub find_indexed-none :
    (id : Uuid) (i : ℕ) (es : List PublishedObservation)
    → find_indexed id i es ≡ none
    → find_series id es ≡ none
unfolding find_indexed find_series
find_indexed-none id i [] h = refl
find_indexed-none id i (x ∷ es) h = ground (arith, find_indexed-none id (suc i) es)

module _ (c : PublishedObservation) (j : Uuid) where
  find-set :
      (i : ℕ) (es : List PublishedObservation) (k : ℕ) (e : PublishedObservation)
      → find_indexed (series_of c) i es ≡ some (k, e)
      → find_series j (set es (k - i) c)
        ≡ (if same_bytes (series_of c) j then some c else find_series j es)
  unfolding find_indexed find_series
  find-set i [] k e h = cc
  find-set i (x ∷ es) k e h = elim (Bytes-discrete (series_of x) (series_of c)) [
    | yes p ↦ let here : k - i ≡ 0 = ground arith in rw here (ground arith)
    | no n ↦
        let h' : find_indexed (series_of c) (suc i) es ≡ some (k, e) = ground arith in
        let later : k - i ≡ suc (k - suc i) =
          omega (arith, find_indexed-ge (series_of c) (suc i) es k e h') in
        rw later (ground (arith, find-set (suc i) es k e h'))
  ]

  find-append :
      (es : List PublishedObservation)
      → find_series (series_of c) es ≡ none
      → find_series j (es ++ c ∷ [])
        ≡ (if same_bytes (series_of c) j then some c else find_series j es)
  unfolding find_series
  find-append [] h = refl
  find-append (x ∷ es) h = ground (arith, find-append es)

-- `e` is what a reader may find after it has found `d`: the same metadata and no earlier position.
abbrev pub NotOlder : PublishedObservation → PublishedObservation → Type 0
NotOlder d e = (e.series ≡ d.series) × (position_lt e.position d.position ≡ false)

pub NotOlder-refl : (d : PublishedObservation) → NotOlder d d
NotOlder-refl d = (refl, position_lt_irrefl d.position)

pub NotOlder-trans : (d e f : PublishedObservation) → NotOlder d e → NotOlder e f → NotOlder d f
NotOlder-trans d e f h k = ground arith

-- A planned advance, once staged, shows the candidate under its series and all else as before; and
-- the entry that it replaces was of the same series metadata and at an earlier position.
pub record Advances (base : LatestSnapshot) (c : PublishedObservation) (a : PlannedAdvance)
    : Type 0 where
  pub on : a.base ≡ base
  pub offers : a.candidate ≡ c
  pub shows :
      (j : Uuid)
      → find_series j (place a.index c base.entries)
        ≡ (if same_bytes (series_of c) j then some c else find_series j base.entries)
  pub newer :
      (d : PublishedObservation) → find_series (series_of c) base.entries ≡ some d → NotOlder d c

module _ (base : LatestSnapshot) (c : PublishedObservation) (a : PlannedAdvance) where
  pub plan_in-first :
      find_indexed (series_of c) 0 base.entries ≡ none
      → plan_in base c ≡ ok (advance a)
      → (a.base ≡ base) × (a.index ≡ none) × (a.candidate ≡ c)
  unfolding plan_in
  plan_in-first e h = ground arith

  pub plan_in-next :
      (k : ℕ) (d : PublishedObservation)
      → find_indexed (series_of c) 0 base.entries ≡ some (k, d)
      → plan_in base c ≡ ok (advance a)
      → (a.base ≡ base)
        × (a.index ≡ some k)
        × (a.candidate ≡ c)
        × (c.series ≡ d.series)
        × (position_lt d.position c.position ≡ true)
  unfolding plan_in plan_known
  plan_in-next k d e h = ground arith

  shows_first :
      (j : Uuid)
      → find_indexed (series_of c) 0 base.entries ≡ none
      → find_series j (place none c base.entries)
        ≡ (if same_bytes (series_of c) j then some c else find_series j base.entries)
  unfolding place
  shows_first j e = find-append c j base.entries (find_indexed-none (series_of c) 0 base.entries e)

  shows_next :
      (k : ℕ) (d : PublishedObservation) (j : Uuid)
      → find_indexed (series_of c) 0 base.entries ≡ some (k, d)
      → find_series j (place (some k) c base.entries)
        ≡ (if same_bytes (series_of c) j then some c else find_series j base.entries)
  unfolding place
  shows_next k d j e =
      subst
        (λ n.
          find_series j (set base.entries n c)
          ≡ (if same_bytes (series_of c) j then some c else find_series j base.entries))
        (omega arith) (find-set c j 0 base.entries k d e)

  pub plan_in-Advances : plan_in base c ≡ ok (advance a) → Advances base c a
  plan_in-Advances h = elim (Option-cases (find_indexed (series_of c) 0 base.entries)) [
    | inl e ↦
        let (on, index, offers) = plan_in-first e h in
        record {
          on = on;
          offers = offers;
          shows = λ j. rw index (shows_first j e);
          newer = λ d found. cc (sym (find_indexed-none (series_of c) 0 base.entries e) ∙ found);
        }
    | inr ((k, d₀), e) ↦
        let (on, index, offers, same, later) = plan_in-next k d₀ e h in
        let there = find_indexed-found (series_of c) 0 base.entries k d₀ e in
        record {
          on = on;
          offers = offers;
          shows = λ j. rw index (shows_next k d₀ j e);
          newer = λ d found.
              subst (λ x. NotOlder x c) (some-injective d₀ d (sym there ∙ found))
                (same, position_lt_asym d₀.position c.position later);
        }
  ]
