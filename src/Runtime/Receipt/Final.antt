-- ===== src/Runtime/Receipt/Final.antt =====
-- A receipt is resolved once: what a submitter was told is never taken back.
use open_control_historian.Base.{arith, false, some, ◌≡◌}
use open_control_historian.Runtime.Commit.{AppendIdentity, DurableCommit}
use open_control_historian.Runtime.Receipt.{
  DurableOutcome, HandledOutcome, ReceiptState, resolve_durable, resolve_handled, resolve_stopped,
}

pub data Resolution : Type 0 where
  handled_as : AppendIdentity → Resolution
  durable_as : DurableCommit → Resolution
  stopped : Resolution

abbrev pub resolve_with : ReceiptState → Resolution → ReceiptState
resolve_with s (handled_as append) = (resolve_handled s append).0
resolve_with s (durable_as commit) = (resolve_durable s commit).0
resolve_with s stopped = (resolve_stopped s).0

-- The second state tells all that the first one does.
pub record Keeps (s t : ReceiptState) : Type 0 where
  pub handled_kept : (o : HandledOutcome) → s.handled ≡ some o → t.handled ≡ some o
  pub durable_kept : (o : DurableOutcome) → s.durable ≡ some o → t.durable ≡ some o

pub Keeps-refl : (s : ReceiptState) → Keeps s s
Keeps-refl s = record { handled_kept = λ o e. e; durable_kept = λ o e. e }

pub Keeps-trans : (s t u : ReceiptState) → Keeps s t → Keeps t u → Keeps s u
Keeps-trans s t u h k = record {
  handled_kept = λ o e. k.handled_kept o (h.handled_kept o e);
  durable_kept = λ o e. k.durable_kept o (h.durable_kept o e);
}

pub resolve_with-Keeps : (s : ReceiptState) (r : Resolution) → Keeps s (resolve_with s r)
unfolding resolve_handled resolve_durable resolve_stopped
resolve_with-Keeps s (handled_as append) = record {
  handled_kept = λ o e. ground arith;
  durable_kept = λ o e. ground arith;
}
resolve_with-Keeps s (durable_as commit) = record {
  handled_kept = λ o e. ground arith;
  durable_kept = λ o e. ground arith;
}
resolve_with-Keeps s stopped = record {
  handled_kept = λ o e. ground arith;
  durable_kept = λ o e. ground arith;
}

-- Each resolution reports whether it changed the receipt: a second one for the same outcome does
-- not, and once stopped a receipt has both outcomes.
pub resolve_stopped-final :
    (s : ReceiptState) (append : AppendIdentity) (commit : DurableCommit)
    → let after = (resolve_stopped s).0 in
      (resolve_handled after append ≡ (after, false))
      × (resolve_durable after commit ≡ (after, false))
      × (resolve_stopped after ≡ (after, false))
unfolding resolve_handled resolve_durable resolve_stopped
resolve_stopped-final s append commit = (ground arith, ground arith, ground arith)
