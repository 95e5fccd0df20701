-- ===== src/Core/Series/Bind.antt =====
-- crates/och-core/src/series.rs: `SeriesRegistry::bind` and the envelope that it returns.
use open_control_historian.Base.{
  Bool, List, [], false, holds, is_some, last?, not, ok, ok_or, refuse_if, ◌>>=◌, ◌>>◌, ◌||◌, ◌∷◌,
}
use open_control_historian.Base.Map.{lookup}
use open_control_historian.Core.Error.{
  Checked, observation_value_family_mismatch, series_metadata_mismatch, series_not_found,
  series_retired,
}
use open_control_historian.Core.Bounded.{Uuid}
use open_control_historian.Core.Observation.{Observation, SeriesMetadata, SeriesMetadata-discrete}
use open_control_historian.Core.Declaration.{
  SeriesDeclaration, ValueFamily, admits, series_metadata,
}
use open_control_historian.Core.Collection.{CollectionEnvelope, observations_of}
use open_control_historian.Core.Series.{SeriesRegistry}

pub record DeclaredCollectionEnvelope : Type 0 where
  pub store_id : Uuid
  pub declaration : SeriesDeclaration
  pub envelope : CollectionEnvelope

unfoldable pub some_inadmissible : ValueFamily → List Observation → Bool
some_inadmissible f [] = false
some_inadmissible f (o ∷ rest) = not (admits f o.value) || some_inadmissible f rest

abbrev pub same_metadata : SeriesMetadata → SeriesMetadata → Bool
same_metadata a b = holds (SeriesMetadata-discrete a b)

unfoldable pub bind : SeriesRegistry → CollectionEnvelope → Checked DeclaredCollectionEnvelope
bind r envelope = do
  let series_id = envelope.series.series_id
  history ← ok_or (lookup series_id r.series) series_not_found
  refuse_if (is_some history.retirement) series_retired
  declaration ← ok_or (last? history.declarations) series_not_found
  refuse_if (not (same_metadata envelope.series (series_metadata declaration.payload series_id)))
      series_metadata_mismatch
  refuse_if (some_inadmissible declaration.payload.value_family (observations_of envelope))
      observation_value_family_mismatch
  ok (record { store_id = r.store_id; declaration = declaration; envelope = envelope })
