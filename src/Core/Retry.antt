-- ===== src/Core/Retry.antt =====
-- crates/och-core/src/retry.rs: retry qualification by scope, key and content.
pub mod Laws
use open_control_historian.Base.{Bool, holds, if◌then◌else◌, not, ℕ_discrete, ◌||◌}
use open_control_historian.Base.Map.{same_bytes}
use open_control_historian.Core.Bounded.{Text, Uuid}
use open_control_historian.Core.Value.{ContentIdentity, ContentIdentity-discrete}

pub data RetryClassification : Type 0 where
  equivalent conflict distinct : RetryClassification

pub record RetryQualification : Type 0 where
  pub series_id : Uuid
  pub producer_id : Uuid
  pub key : Text
  pub content : ContentIdentity

pub RetryQualification-discrete : Discrete RetryQualification
RetryQualification-discrete = hlevel (ℕ_discrete, ContentIdentity-discrete)

abbrev pub same_content : ContentIdentity → ContentIdentity → Bool
same_content a b = holds (ContentIdentity-discrete a b)

unfoldable pub classify : RetryQualification → RetryQualification → RetryClassification
classify a b =
    if not (same_bytes a.series_id b.series_id)
      || (not (same_bytes a.producer_id b.producer_id) || not (same_bytes a.key b.key))
    then distinct
    else (if same_content a.content b.content then equivalent else conflict)
