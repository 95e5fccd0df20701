-- ===== src/Runtime/Ingress.antt =====
-- crates/och-runtime/src/ingress.rs: the state behind the ingress mutex and what each critical section
-- does to it. Receipts are shared by reference: a terminal is an index into `receipts`.
pub mod Writer
pub mod Totals
pub mod Steps
pub mod Batches
pub mod Runs
pub mod Protected
pub mod Receipts
pub mod Accounting
use open_control_historian.Base.{
  Bool, List, Option, Result, [], err, false, if◌then◌else◌, leb, length, ltb, none, not, ok,
  replicate, set, some, suc, true, zero, ℕ, ◌&&◌, ◌++◌, ◌+◌, ◌==◌, ◌^◌, ◌||◌, ◌∷◌,
}
use open_control_historian.Base.Map.{same_bytes}
use open_control_historian.Core.Bounded.{Uuid}
use open_control_historian.Core.Retry.{RetryQualification, classify, conflict, distinct, equivalent}
use open_control_historian.Runtime.Latest.{LatestState, commit, make_unavailable}
use open_control_historian.Runtime.Queue.{FixedQueue, clear, max_outstanding_commands}
use open_control_historian.Runtime.Commit.{AppendIdentity, DurableCommit}
use open_control_historian.Runtime.Receipt.{
  ReceiptState, resolve_at, resolve_durable, resolve_handled, resolve_stopped, unresolved,
}
use open_control_historian.Runtime.Reservation.{
  AdmissionPriority, BarrierDemand, ByteReservationLimits, class_ceiling,
}
use open_control_historian.Runtime.Queue
use open_control_historian.Runtime.Latest

pub data SlotPhase : Type 0 where
  preparing queued in_flight awaiting_durability : SlotPhase

-- `prepared` and `retained_admission` are present or absent; what they hold is the journal codec's.
pub record Slot : Type 0 where
  pub qualification : RetryQualification
  pub prepared : Bool
  pub retained_admission : Bool
  pub terminal : ℕ
  pub phase : SlotPhase
  pub reservation : ℕ
  pub priority : AdmissionPriority
  pub barrier : BarrierDemand
  pub append : Option AppendIdentity

-- `retry`, the committed retry projection, is passed to the operations as what it answers.
pub record IngressState : Type 0 where
  pub closed : Bool
  pub slots : List (Option Slot)
  pub queue : FixedQueue
  pub latest : LatestState
  pub byte_limits : ByteReservationLimits
  pub reserved_bytes : ℕ
  pub barrier_requested : Bool
  pub receipts : List ReceiptState

unfoldable pub new : Uuid → ByteReservationLimits → ℕ → IngressState
new store_id byte_limits fresh = record {
  closed = false;
  slots = replicate max_outstanding_commands none;
  queue = Queue.new;
  latest = Latest.new store_id fresh;
  byte_limits = byte_limits;
  reserved_bytes = 0;
  barrier_requested = false;
  receipts = [];
}

unfoldable pub active_count : List (Option Slot) → ℕ
active_count [] = 0
active_count (none ∷ rest) = active_count rest
active_count (some slot ∷ rest) = suc (active_count rest)

-- `checked_add` on `usize`, then the ceiling of the class.
unfoldable pub can_reserve : IngressState → AdmissionPriority → ℕ → Bool
can_reserve s priority bytes =
    ltb (s.reserved_bytes + bytes) (2 ^ 64)
    && leb (s.reserved_bytes + bytes) (class_ceiling s.byte_limits priority)

-- `slots.get(slot_index).and_then(Option::as_ref)`.
unfoldable pub slot_at : List (Option Slot) → ℕ → Option Slot
slot_at [] i = none
slot_at (o ∷ rest) zero = o
slot_at (o ∷ rest) (suc i) = slot_at rest i

-- Each terminal that a slot holds is resolved as stopped.
unfoldable pub stop_slots : List (Option Slot) → List ReceiptState → List ReceiptState
stop_slots [] receipts = receipts
stop_slots (none ∷ rest) receipts = stop_slots rest receipts
stop_slots (some slot ∷ rest) receipts =
    stop_slots rest (resolve_at (λ t. (resolve_stopped t).0) slot.terminal receipts)

unfoldable pub stop_all : IngressState → IngressState
stop_all s = record s {
  closed = true;
  latest = make_unavailable s.latest;
  queue = clear s.queue;
  reserved_bytes = 0;
  slots = replicate (length s.slots) none;
  receipts = stop_slots s.slots s.receipts;
}

unfoldable pub close_admission : IngressState → IngressState
close_admission s = record s { closed = true }

pub data TrySubmitErrorKind : Type 0 where
  closed_error store_mismatch encoding byte_capacity full retry_conflict retry_expired :
      TrySubmitErrorKind

-- An admitted command: it shares the receipt of an outstanding one, replays a durable outcome, or
-- holds a slot in which it is now prepared.
pub data Admitted : Type 0 where
  coalesced replayed : ℕ → Admitted
  preparing_in : ℕ → Admitted

pub data RetryStateMatch : Type 0 where
  replay : AppendIdentity → DurableCommit → RetryStateMatch
  expired retained_conflict fresh_retry : RetryStateMatch

pub record IngressCommand : Type 0 where
  pub store_id : Uuid
  pub retry : RetryQualification
  pub priority : AdmissionPriority
  pub barrier : BarrierDemand

-- The first outstanding command that is not distinct decides.
unfoldable pub outstanding_match :
    List (Option Slot) → RetryQualification → Option (Result TrySubmitErrorKind ℕ)
outstanding_match [] retry = none
outstanding_match (none ∷ rest) retry = outstanding_match rest retry
outstanding_match (some slot ∷ rest) retry =
    let later = outstanding_match rest retry in
    elim (classify slot.qualification retry) [
      | equivalent ↦ some (ok slot.terminal)
      | conflict ↦ some (err retry_conflict)
      | distinct ↦ later
    ]

-- `slots.iter().position(Option::is_none)`.
unfoldable pub free_slot : List (Option Slot) → Option ℕ
free_slot [] = none
free_slot (none ∷ rest) = some 0
free_slot (some slot ∷ rest) = elim (free_slot rest) [ none ↦ none | some i ↦ some (suc i) ]

abbrev pub Submission : Type 0
Submission = IngressState × Result TrySubmitErrorKind Admitted

-- The slot of a command whose frame has `frame_len` bytes, and its new receipt.
abbrev pub reserve_in : IngressState → IngressCommand → ℕ → ℕ → IngressState
reserve_in s c frame_len index =
    let slot : Slot = record {
      qualification = c.retry;
      prepared = false;
      retained_admission = false;
      terminal = length s.receipts;
      phase = preparing;
      reservation = frame_len;
      priority = c.priority;
      barrier = c.barrier;
      append = none;
    } in
    record s {
      reserved_bytes = s.reserved_bytes + frame_len;
      slots = set s.slots index (some slot);
      receipts = s.receipts ++ unresolved ∷ [];
    }

unfoldable pub reserve_fresh : IngressState → IngressCommand → ℕ → Submission
reserve_fresh s c frame_len =
    if active_count s.slots == max_outstanding_commands
    then (s, err full)
    else (if not (can_reserve s c.priority frame_len)
        then (s, err byte_capacity)
        else (elim (free_slot s.slots) [
          | none ↦ (s, err closed_error)
          | some index ↦ (reserve_in s c frame_len index, ok (preparing_in index))
        ]))

-- The receipt of a replay is new and resolved at once, both ways.
unfoldable pub reserve_retained : IngressState → IngressCommand → ℕ → RetryStateMatch → Submission
reserve_retained s c frame_len (replay append commit) =
    let handled = resolve_handled unresolved append in
    let durable = resolve_durable handled.0 commit in
    if not handled.1 || not durable.1
    then (s, err closed_error)
    else (record s { receipts = s.receipts ++ durable.0 ∷ [] }, ok (replayed (length s.receipts)))
reserve_retained s c frame_len expired = (s, err retry_expired)
reserve_retained s c frame_len retained_conflict = (s, err retry_conflict)
reserve_retained s c frame_len fresh_retry = reserve_fresh s c frame_len

abbrev pub as_coalesced : Result TrySubmitErrorKind ℕ → Result TrySubmitErrorKind Admitted
as_coalesced (ok terminal) = ok (coalesced terminal)
as_coalesced (err e) = err e

unfoldable pub reserve_measured : IngressState → IngressCommand → ℕ → RetryStateMatch → Submission
reserve_measured s c frame_len seen = elim (outstanding_match s.slots c.retry) [
  | some found ↦ (s, as_coalesced found)
  | none ↦ reserve_retained s c frame_len seen
]

-- `try_submit` up to the reservation; `measured` is what `admission_frame_len_v1` returned.
unfoldable pub reserve :
    IngressState → Uuid → IngressCommand → Option ℕ → RetryStateMatch → Submission
reserve s store_id c measured seen =
    if s.closed
    then (s, err closed_error)
    else (if not (same_bytes c.store_id store_id) then (s, err store_mismatch) else (elim measured [
      | none ↦ (s, err encoding)
      | some frame_len ↦ reserve_measured s c frame_len seen
    ]))
