-- ===== src/Runtime/Commit.antt =====
-- What the store tells the ingress of an append and of a commit: `AppendIdentity` and
-- `DurableCommit` of crates/och-runtime/src/ingress.rs, `ManifestCommit` and what it holds of
-- crates/och-store/src.
use open_control_historian.Base.{Option, ℕ, ℕ_discrete}
use open_control_historian.Core.Bounded.{Uuid}

pub record JournalIdentity : Type 0 where
  pub store_id : Uuid
  pub generation : ℕ

pub JournalIdentity-discrete : Discrete JournalIdentity
JournalIdentity-discrete = hlevel ℕ_discrete

pub record AppendIdentity : Type 0 where
  pub journal : JournalIdentity
  pub append_sequence : ℕ
  pub end_offset : ℕ

pub AppendIdentity-discrete : Discrete AppendIdentity
AppendIdentity-discrete = hlevel (ℕ_discrete, JournalIdentity-discrete)

pub record DurableCutoff : Type 0 where
  pub journal : JournalIdentity
  pub checkpoint_generation : ℕ
  pub append_sequence : ℕ
  pub end_offset : ℕ

pub record RetryStateReference : Type 0 where
  pub slot : ℕ
  pub generation : ℕ

pub record GenerationCatalogReference : Type 0 where
  pub slot : ℕ
  pub generation : ℕ
  pub length : ℕ
  pub checksum : ℕ

pub record ManifestCommit : Type 0 where
  pub manifest_generation : ℕ
  pub registry_generation : ℕ
  pub registry_slot : ℕ
  pub durable_cutoff : DurableCutoff
  pub retry_state : RetryStateReference
  pub sequence_floor : ℕ
  pub catalog : Option GenerationCatalogReference

pub record DurableCommit : Type 0 where
  pub append : AppendIdentity
  pub committed : ManifestCommit
