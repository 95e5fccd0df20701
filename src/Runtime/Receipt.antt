-- ===== src/Runtime/Receipt.antt =====
-- crates/och-runtime/src/ingress.rs: `ReceiptTerminal`, the outcome that a submitter waits for.
pub mod Final
pub mod Kept
use open_control_historian.Base.{
  Bool, List, Option, [], false, if◌then◌else◌, is_some, none, not, some, suc, true, zero, ℕ, ◌||◌,
  ◌∷◌,
}
use open_control_historian.Runtime.Commit.{AppendIdentity, DurableCommit}

pub data HandledOutcome : Type 0 where
  writer_handled : AppendIdentity → HandledOutcome
  handled_stopped : HandledOutcome

pub data DurableOutcome : Type 0 where
  durably : DurableCommit → DurableOutcome
  durable_stopped : DurableOutcome

pub record ReceiptState : Type 0 where
  pub handled : Option HandledOutcome
  pub durable : Option DurableOutcome

-- `ReceiptState::default`.
abbrev pub unresolved : ReceiptState
unresolved = record { handled = none; durable = none }

unfoldable pub resolve_handled : ReceiptState → AppendIdentity → ReceiptState × Bool
resolve_handled s append =
    if is_some s.handled
    then (s, false)
    else (record s { handled = some (writer_handled append) }, true)

unfoldable pub resolve_durable : ReceiptState → DurableCommit → ReceiptState × Bool
resolve_durable s commit =
    if is_some s.durable then (s, false) else (record s { durable = some (durably commit) }, true)

-- `Option::get_or_insert`.
abbrev pub get_or_insert {ℓ} : {A : Type ℓ} → Option A → A → Option A
get_or_insert none a = some a
get_or_insert (some b) a = some b

unfoldable pub resolve_stopped : ReceiptState → ReceiptState × Bool
resolve_stopped s = (
  record {
    handled = get_or_insert s.handled handled_stopped;
    durable = get_or_insert s.durable durable_stopped;
  },
  not (is_some s.handled) || not (is_some s.durable),
)

-- Resolving through a reference: the terminal at an index is changed in place.
unfoldable pub resolve_at :
    (ReceiptState → ReceiptState) → ℕ → List ReceiptState → List ReceiptState
resolve_at f i [] = []
resolve_at f zero (t ∷ ts) = f t ∷ ts
resolve_at f (suc i) (t ∷ ts) = t ∷ resolve_at f i ts

-- Whether the resolution of the terminal at an index reports a change.
unfoldable pub changes_at : (ReceiptState → Bool) → ℕ → List ReceiptState → Bool
changes_at f i [] = false
changes_at f zero (t ∷ ts) = f t
changes_at f (suc i) (t ∷ ts) = changes_at f i ts
