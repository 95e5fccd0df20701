-- ===== src/Core/Value.antt =====
-- crates/och-core/src/value.rs and quality.rs: exact values, content identity and quality.
use open_control_historian.Base.{
  Bool, List, Option, err, if◌then◌else◌, length, ltb, ok, ℕ, ℕ_discrete,
}
use open_control_historian.Base.Int.{ℤ, ℤ-discrete}
use open_control_historian.Core.Error.{Checked, too_many_native_status_tokens}
use open_control_historian.Core.Bounded.{Text, Uuid}

pub record ContentIdentity : Type 0 where
  pub format : Text
  pub version : ℕ
  pub sha256 : List ℕ

unfoldable pub ContentIdentity-discrete : Discrete ContentIdentity
ContentIdentity-discrete = hlevel ℕ_discrete

pub record ArtifactReference : Type 0 where
  pub artifact_id : Uuid
  pub content : ContentIdentity

pub ArtifactReference-discrete : Discrete ArtifactReference
ArtifactReference-discrete = hlevel (ℕ_discrete, ContentIdentity-discrete)

pub record StateValue : Type 0 where
  pub class : Text
  pub member : Text

pub StateValue-discrete : Discrete StateValue
StateValue-discrete = hlevel ℕ_discrete

-- A real is its 64 bits; `unavailable` holds the optional reason.
pub data ExactValue : Type 0 where
  real : ℕ → ExactValue
  signed : ℤ → ExactValue
  unsigned : ℕ → ExactValue
  boolean : Bool → ExactValue
  state : StateValue → ExactValue
  text : Text → ExactValue
  artifact : ArtifactReference → ExactValue
  unavailable : Option Text → ExactValue

pub ExactValue-discrete : Discrete ExactValue
ExactValue-discrete =
    hlevel (ℕ_discrete, ℤ-discrete, StateValue-discrete, ArtifactReference-discrete)

pub data QualityLevel : Type 0 where
  unknown good uncertain bad not_evaluated : QualityLevel

-- `QualityFlags` is one byte of independent bits.
pub record Quality : Type 0 where
  pub level : QualityLevel
  pub flags : ℕ

pub Quality-discrete : Discrete Quality
Quality-discrete = hlevel ℕ_discrete

abbrev pub max_native_status_tokens : ℕ
max_native_status_tokens = 16

unfoldable pub native_status_new : List Text → Checked (List Text)
native_status_new tokens =
    if ltb max_native_status_tokens (length tokens)
    then err too_many_native_status_tokens
    else ok tokens
