-- ===== src/Core/Series/Binding.antt =====
-- When `bind` lets an envelope through.
use open_control_historian.Base.{
  >>=-eq-ok, All, List, Option, [], ap, arith, false, holds→true, is_some, last?, none,
  not-false→true, ok, ok_or, refl, refuse_if-ok, some, subst, sym, true, true→holds, ◌↔◌, ◌∷◌, ◌≡◌,
}
use open_control_historian.Base.Map.{lookup}
use open_control_historian.Core.Error.{ModelError}
use open_control_historian.Core.Observation.{Observation, SeriesMetadata-discrete}
use open_control_historian.Core.Declaration.{
  SeriesDeclaration, SeriesHistory, ValueFamily, admits, series_metadata,
}
use open_control_historian.Core.Collection.{CollectionEnvelope, observations_of}
use open_control_historian.Core.Series.{SeriesRegistry}
use open_control_historian.Core.Series.Bind.{DeclaredCollectionEnvelope, bind, some_inadmissible}

-- The latest declaration of an active series covers the envelope: the same series, producer and
-- mode, and values of the declared family only.
pub record Authorizes (r : SeriesRegistry) (envelope : CollectionEnvelope) (d : SeriesDeclaration)
    : Type 0 where
  pub history : SeriesHistory
  pub found : lookup envelope.series.series_id r.series ≡ some history
  pub live : history.retirement ≡ none
  pub latest : last? history.declarations ≡ some d
  pub described : envelope.series ≡ series_metadata d.payload envelope.series.series_id
  pub admissible :
      All (λ o. admits d.payload.value_family o.value ≡ true) (observations_of envelope)

pub some_inadmissible_iff :
    (f : ValueFamily) (obs : List Observation)
    → (some_inadmissible f obs ≡ false) ↔ All (λ o. admits f o.value ≡ true) obs
unfolding some_inadmissible
some_inadmissible_iff f [] = (λ _. tt, λ _. refl)
some_inadmissible_iff f (o ∷ obs) = (
  λ h. ground (arith, some_inadmissible_iff f obs),
  λ h. ground (arith, some_inadmissible_iff f obs),
)

is_some-false {ℓ} : {A : Type ℓ} (o : Option A) → is_some o ≡ false → o ≡ none
is_some-false none h = refl
is_some-false (some a) h = cc

pub ok_or-ok {ℓ} :
    {A : Type ℓ} (o : Option A) (e : ModelError) (a : A) → ok_or o e ≡ ok a → o ≡ some a
ok_or-ok none e a h = cc
ok_or-ok (some b) e a h = cc

module _ (r : SeriesRegistry) (envelope : CollectionEnvelope) (b : DeclaredCollectionEnvelope) where
  bind_sound :
      bind r envelope ≡ ok b
      → Authorizes r envelope b.declaration × (b.store_id ≡ r.store_id) × (b.envelope ≡ envelope)
  unfolding bind
  bind_sound h =
      let (history, found, h₁) = >>=-eq-ok _ _ h in
      let (_, live, h₂) = >>=-eq-ok _ _ h₁ in
      let (d, latest, h₃) = >>=-eq-ok _ _ h₂ in
      let (_, described, h₄) = >>=-eq-ok _ _ h₃ in
      let (_, admitted, done) = >>=-eq-ok _ _ h₄ in
      let metadata = series_metadata d.payload envelope.series.series_id in
      let authorized : Authorizes r envelope d = record {
        history = history;
        found = ok_or-ok _ _ history found;
        live = is_some-false _ (refuse_if-ok _ _ live);
        latest = ok_or-ok _ _ d latest;
        described =
            holds→true (SeriesMetadata-discrete envelope.series metadata)
              (not-false→true _ (refuse_if-ok _ _ described));
        admissible =
            (some_inadmissible_iff d.payload.value_family (observations_of envelope)).0
              (refuse_if-ok _ _ admitted);
      } in
      let same : d ≡ b.declaration = cc done in
      (subst (Authorizes r envelope) same authorized, cc done, cc done)

  bind_complete :
      Authorizes r envelope b.declaration × (b.store_id ≡ r.store_id) × (b.envelope ≡ envelope)
      → bind r envelope ≡ ok b
  unfolding bind
  bind_complete (a, s, e) =
      let d = b.declaration in
      let metadata = series_metadata d.payload envelope.series.series_id in
      rw
        (
          a.found,
          ap is_some a.live,
          a.latest,
          true→holds (SeriesMetadata-discrete envelope.series metadata) a.described,
          (some_inadmissible_iff d.payload.value_family (observations_of envelope)).1 a.admissible,
        )
        (λ i. ok (record { store_id = sym s i; declaration = d; envelope = sym e i }))

  -- `bind` succeeds exactly when the latest declaration of an active series covers the envelope,
  -- and then returns that declaration with the envelope unchanged.
  pub bind_iff :
      (bind r envelope ≡ ok b)
      ↔ (Authorizes r envelope b.declaration × (b.store_id ≡ r.store_id) × (b.envelope ≡ envelope))
  bind_iff = (bind_sound, bind_complete)
