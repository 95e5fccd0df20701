-- ===== src/Runtime/Latest/Capacity.antt =====
-- The published snapshot holds at most one entry for a series, and at most sixteen.
use open_control_historian.Base.{
  All, All-append, Bool, List, Option, Option-cases, Ordered, Result-cases, [], arith, false,
  false→holds, inl, inr, length, length-append, length-set, none, ok, set, some, subst, suc, true,
  true→holds, ℕ, ◌++◌, ◌-◌, ◌<◌, ◌∷◌, ◌≡◌, ◌≢◌, ◌≤◌,
}
use open_control_historian.Base.Map.{Bytes-discrete}
use open_control_historian.Core.Bounded.{Uuid}
use open_control_historian.Runtime.Latest.{
  LatestSnapshot, LatestState, PlannedAdvance, PublishedObservation, advance, can_complete, commit,
  complete, find_indexed, find_series, make_unavailable, max_published_series, new, no_change,
  place, plan, plan_candidate, plan_in, publish, publish_all, series_of, stage,
}
use open_control_historian.Runtime.Latest.Order.{complete_advance, state_with}
use open_control_historian.Runtime.Latest.Search.{
  find_indexed-ge, find_indexed-none, plan_in-Advances, plan_in-first, plan_in-next,
}

abbrev OtherSeries : PublishedObservation → PublishedObservation → Type 0
OtherSeries d e = series_of d ≢ series_of e

pub record IsBounded (entries : List PublishedObservation) : Type 0 where
  pub few : length entries ≤ max_published_series
  pub apart : Ordered OtherSeries entries

-- Nothing is said of an unavailable registry.
abbrev pub CurrentIsBounded : Option LatestSnapshot → Type 0
CurrentIsBounded none = Unit
CurrentIsBounded (some snapshot) = IsBounded snapshot.entries

All-Other-append :
    (x c : PublishedObservation) (es : List PublishedObservation)
    → All (OtherSeries x) es
    → OtherSeries x c
    → All (OtherSeries x) (es ++ c ∷ [])
All-Other-append x c es h k = All-append (OtherSeries x) es (c ∷ []) h (k, tt)

append-Ordered :
    (c : PublishedObservation) (es : List PublishedObservation)
    → find_series (series_of c) es ≡ none
    → Ordered OtherSeries es
    → Ordered OtherSeries (es ++ c ∷ [])
unfolding find_series
append-Ordered c [] h o = (tt, tt)
append-Ordered c (x ∷ es) h o = elim (Bytes-discrete (series_of x) (series_of c)) [
  | yes p ↦ cc (rw (true→holds (Bytes-discrete (series_of x) (series_of c)) p) at h)
  | no n ↦
      let h' = rw (false→holds (Bytes-discrete (series_of x) (series_of c)) n) at h in
      (All-Other-append x c es o.0 n, append-Ordered c es h' o.1)
]

All-Other-set :
    (x d c : PublishedObservation) (i : ℕ) (es : List PublishedObservation) (k : ℕ)
    → find_indexed (series_of c) i es ≡ some (k, d)
    → All (OtherSeries x) es
    → All (OtherSeries x) (set es (k - i) c)
unfolding find_indexed
All-Other-set x d c i [] k h o = cc
All-Other-set x d c i (e ∷ es) k h o = elim (Bytes-discrete (series_of e) (series_of c)) [
  | yes p ↦ let here : k - i ≡ 0 = ground arith in rw here (subst (λ s. series_of x ≢ s) p o.0, o.1)
  | no n ↦
      let h' : find_indexed (series_of c) (suc i) es ≡ some (k, d) = ground arith in
      let later : k - i ≡ suc (k - suc i) =
        omega (arith, find_indexed-ge (series_of c) (suc i) es k d h') in
      rw later (o.0, All-Other-set x d c (suc i) es k h' o.1)
]

set-Ordered :
    (d c : PublishedObservation) (i : ℕ) (es : List PublishedObservation) (k : ℕ)
    → find_indexed (series_of c) i es ≡ some (k, d)
    → Ordered OtherSeries es
    → Ordered OtherSeries (set es (k - i) c)
unfolding find_indexed
set-Ordered d c i [] k h o = cc
set-Ordered d c i (e ∷ es) k h o = elim (Bytes-discrete (series_of e) (series_of c)) [
  | yes p ↦
      let here : k - i ≡ 0 = ground arith in
      rw here (subst (λ s. All (λ y. s ≢ series_of y) es) p o.0, o.1)
  | no n ↦
      let h' : find_indexed (series_of c) (suc i) es ≡ some (k, d) = ground arith in
      let later : k - i ≡ suc (k - suc i) =
        omega (arith, find_indexed-ge (series_of c) (suc i) es k d h') in
      rw later (All-Other-set e d c (suc i) es k h' o.0, set-Ordered d c (suc i) es k h' o.1)
]

-- A new series is planned only while there is room.
plan_in-room :
    (base : LatestSnapshot) (c : PublishedObservation) (a : PlannedAdvance)
    → find_indexed (series_of c) 0 base.entries ≡ none
    → plan_in base c ≡ ok (advance a)
    → length base.entries < max_published_series
unfolding plan_in
plan_in-room base c a e h = ground arith

place-IsBounded :
    (base : LatestSnapshot) (c : PublishedObservation) (a : PlannedAdvance)
    → plan_in base c ≡ ok (advance a)
    → IsBounded base.entries
    → IsBounded (place a.index c base.entries)
unfolding place
place-IsBounded base c a h v = elim (Option-cases (find_indexed (series_of c) 0 base.entries)) [
  | inl e ↦
      let (on, index, offers) = plan_in-first base c a e h in
      rw (index, place)
        (record {
          few = omega (arith, plan_in-room base c a e h, length-append base.entries (c ∷ []));
          apart =
              append-Ordered c base.entries (find_indexed-none (series_of c) 0 base.entries e)
                v.apart;
        })
  | inr ((k, d), e) ↦
      let (on, index, offers, same, later) = plan_in-next base c a k d e h in
      rw (index, place)
        (record {
          few = omega (arith, length-set base.entries k c, v.few);
          apart =
              subst (λ n. Ordered OtherSeries (set base.entries n c)) (omega arith)
                (set-Ordered d c 0 base.entries k e v.apart);
        })
]

publish_active-IsBounded :
    (base : LatestSnapshot) (fresh : ℕ) (c : PublishedObservation)
    → IsBounded base.entries
    → CurrentIsBounded (publish (state_with (some base) false) fresh (some c)).current
unfolding publish plan plan_candidate
publish_active-IsBounded base fresh c v = elim (Result-cases (plan_in base c)) [
  | inr (x, e) ↦ rw (e, publish) (unfold make_unavailable in tt)
  | inl (no_change, e) ↦ rw (e, publish) (unfold complete stage can_complete commit in v)
  | inl (advance a, e) ↦
      let w = plan_in-Advances base c a e in
      rw (e, publish, complete_advance base fresh a w.on, w.offers) (place-IsBounded base c a e v)
]

publish-IsBounded :
    (current : Option LatestSnapshot) (sealed : Bool) (fresh : ℕ)
    (candidate : Option PublishedObservation)
    → CurrentIsBounded current
    → CurrentIsBounded (publish (state_with current sealed) fresh candidate).current
unfolding publish plan plan_candidate complete stage can_complete commit make_unavailable
publish-IsBounded none sealed fresh candidate v = tt
publish-IsBounded (some base) true fresh candidate v = tt
publish-IsBounded (some base) false fresh none v = v
publish-IsBounded (some base) false fresh (some c) v = publish_active-IsBounded base fresh c v

publish_all-IsBounded :
    (s : LatestState) (candidates : List (ℕ × Option PublishedObservation))
    → CurrentIsBounded s.current
    → CurrentIsBounded (publish_all s candidates).current
unfolding publish_all
publish_all-IsBounded s [] v = v
publish_all-IsBounded s ((fresh, candidate) ∷ rest) v =
    publish_all-IsBounded (publish s fresh candidate) rest
      (publish-IsBounded s.current s.sealed fresh candidate v)

-- Whatever is published into a new registry, its snapshot has at most sixteen entries and never two
-- for one series.
pub publish_all-new-IsBounded :
    (store_id : Uuid) (first : ℕ) (candidates : List (ℕ × Option PublishedObservation))
    → CurrentIsBounded (publish_all (new store_id first) candidates).current
publish_all-new-IsBounded store_id first candidates =
    publish_all-IsBounded (new store_id first) candidates
      (unfold new in record { few = omega arith; apart = tt })
