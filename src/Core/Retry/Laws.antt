-- ===== src/Core/Retry/Laws.antt =====
-- What the three answers of `classify` mean.
use open_control_historian.Base.{ap, arith, ◌↔◌, ◌≡◌, ◌≢◌}
use open_control_historian.Core.Retry.{RetryQualification, classify, conflict, distinct, equivalent}

-- Scope and key agree.
abbrev pub SameRequest : RetryQualification → RetryQualification → Type 0
SameRequest a b = (a.series_id ≡ b.series_id) × (a.producer_id ≡ b.producer_id) × (a.key ≡ b.key)

pub equivalent_iff : (a b : RetryQualification) → (classify a b ≡ equivalent) ↔ (a ≡ b)
unfolding classify
equivalent_iff a b = (
  λ h. ground arith,
  λ h. ground (
    arith,
    ap (λ (q : RetryQualification). q.series_id) h,
    ap (λ (q : RetryQualification). q.producer_id) h,
    ap (λ (q : RetryQualification). q.key) h,
    ap (λ (q : RetryQualification). q.content) h,
  ),
)

pub distinct_iff : (a b : RetryQualification) → (classify a b ≡ distinct) ↔ (¬ SameRequest a b)
unfolding classify
distinct_iff a b = (λ h. ground arith, λ h. ground arith)

pub conflict_iff :
    (a b : RetryQualification)
    → (classify a b ≡ conflict) ↔ (SameRequest a b × (a.content ≢ b.content))
unfolding classify
conflict_iff a b = (λ h. ground arith, λ h. ground arith)

-- The answer does not depend on which of the two came first.
pub classify_comm : (a b : RetryQualification) → classify a b ≡ classify b a
unfolding classify
classify_comm a b = ground arith

-- Qualifications of one request stand to any third one alike, as far as scope and key go.
pub classify-distinct_trans :
    (a b c : RetryQualification)
    → classify a b ≢ distinct
    → classify b c ≢ distinct
    → classify a c ≢ distinct
unfolding classify
classify-distinct_trans a b c h k = ground arith

-- The three answers: equal qualifications are equivalent; those that differ in series, producer or
-- key are distinct; the same request with other content is a conflict. Which one is asked about does
-- not matter.
pub classify_iff :
    (a b : RetryQualification)
    → ((classify a b ≡ equivalent) ↔ (a ≡ b))
      × ((classify a b ≡ distinct) ↔ (¬ SameRequest a b))
      × ((classify a b ≡ conflict) ↔ (SameRequest a b × (a.content ≢ b.content)))
      × (classify a b ≡ classify b a)
classify_iff a b = (equivalent_iff a b, distinct_iff a b, conflict_iff a b, classify_comm a b)
