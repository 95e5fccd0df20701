-- ===== src/Runtime/Ingress/Writer.antt =====
-- crates/och-runtime/src/ingress.rs: what follows a reservation. The submitter queues its command or
-- rolls it back; the writer takes it, completes it as handled, and resolves batches as durable.
use open_control_historian.Base.{
  Bool, List, [], false, holds, if◌then◌else◌, is_some, leb, length, none, not, set, some, suc,
  true, zero, ℕ, ◌&&◌, ◌-◌, ◌==◌, ◌||◌, ◌∷◌,
}
use open_control_historian.Core.Retry.{RetryQualification, RetryQualification-discrete}
use open_control_historian.Runtime.Latest.{PreparedPublication, can_complete, commit, seal}
use open_control_historian.Runtime.Queue.{can_push, pop, push}
use open_control_historian.Runtime.Commit.{
  AppendIdentity, AppendIdentity-discrete, DurableCommit, DurableCutoff, JournalIdentity-discrete,
  ManifestCommit,
}
use open_control_historian.Runtime.Receipt.{
  ReceiptState, changes_at, resolve_at, resolve_durable, resolve_handled, resolve_stopped,
}
use open_control_historian.Runtime.Ingress.{
  IngressState, Slot, SlotPhase, active_count, awaiting_durability, in_flight, preparing, queued,
  slot_at, stop_all,
}
use open_control_historian.Runtime.Latest

abbrev pub is_preparing : SlotPhase → Bool
is_preparing preparing = true
is_preparing _ = false

abbrev pub is_queued : SlotPhase → Bool
is_queued queued = true
is_queued _ = false

abbrev pub is_in_flight : SlotPhase → Bool
is_in_flight in_flight = true
is_in_flight _ = false

abbrev pub is_awaiting : SlotPhase → Bool
is_awaiting awaiting_durability = true
is_awaiting _ = false

-- The slot is taken and its bytes go back, with `saturating_sub`.
abbrev pub release : IngressState → ℕ → Slot → IngressState
release s index slot = record s {
  slots = set s.slots index none;
  reserved_bytes = s.reserved_bytes - slot.reservation;
}

unfoldable pub rollback_preparation : IngressState → ℕ → IngressState
rollback_preparation s index = elim (slot_at s.slots index) [
  | none ↦ s
  | some slot ↦ record (release s index slot) {
    receipts = resolve_at (λ t. (resolve_stopped t).0) slot.terminal s.receipts;
  }
]

-- The end of `try_submit`, where the prepared command joins the queue.
unfoldable pub enqueue_slot : IngressState → ℕ → Slot → IngressState × Bool
enqueue_slot s index slot =
    if not (is_preparing slot.phase) || not (can_push s.queue) then (stop_all s, false) else (
      record s {
        slots = set s.slots index (some (record slot { prepared = true; phase = queued }));
        queue = push s.queue index;
      },
      true,
    )

unfoldable pub enqueue : IngressState → ℕ → IngressState × Bool
enqueue s index = elim (slot_at s.slots index) [
  | none ↦ (stop_all s, false)
  | some slot ↦ enqueue_slot s index slot
]

pub data NextWork : Type 0 where
  work : ℕ → NextWork
  barrier_required empty drained failed : NextWork

unfoldable pub take_slot : IngressState → ℕ → Slot → IngressState × NextWork
take_slot s index slot = if not (is_queued slot.phase) || not slot.prepared then (s, failed) else (
  record s {
    slots = set s.slots index (some (record slot { prepared = false; phase = in_flight }));
  },
  work index,
)

-- Nothing is queued.
unfoldable pub take_idle : IngressState → IngressState × NextWork
take_idle s =
    let sealing = seal s.latest in
    if s.closed && (active_count s.slots == 0)
    then (if sealing.1 then (record s { latest = sealing.0 }, drained) else (s, failed))
    else (if s.closed && not s.barrier_requested
        then (record s { barrier_requested = true }, barrier_required)
        else (s, empty))

unfoldable pub take_next : IngressState → IngressState × NextWork
take_next s =
    let popped = record s { queue = (pop s.queue).0 } in
    elim ((pop s.queue).1) [
      | none ↦ take_idle popped
      | some index ↦ (elim (slot_at s.slots index) [
        | none ↦ (popped, failed)
        | some slot ↦ take_slot popped index slot
      ])
    ]

-- `complete_handled_inner` on a slot that is there.
unfoldable pub handle_slot :
    IngressState → ℕ → Slot → AppendIdentity → PreparedPublication → IngressState × Bool
handle_slot s index slot append preparation =
    let handled = record s {
      latest = Latest.commit s.latest preparation;
      slots = set s.slots index (
          some (record slot {
            retained_admission = true;
            append = some append;
            phase = awaiting_durability;
          }));
      receipts = resolve_at (λ t. (resolve_handled t append).0) slot.terminal s.receipts;
    } in
    if not (is_in_flight slot.phase) || not (can_complete s.latest preparation)
    then (stop_all s, false)
    else (if changes_at (λ t. (resolve_handled t append).1) slot.terminal s.receipts
        then (handled, true)
        else (stop_all handled, false))

unfoldable pub complete_handled :
    IngressState → ℕ → AppendIdentity → PreparedPublication → IngressState × Bool
complete_handled s index append preparation = elim (slot_at s.slots index) [
  | none ↦ (stop_all s, false)
  | some slot ↦ handle_slot s index slot append preparation
]

pub record DurableBatchEntry : Type 0 where
  pub slot : ℕ
  pub qualification : RetryQualification
  pub append : AppendIdentity

-- The durable outcome of the terminal at an index.
unfoldable pub durable_at : ℕ → List ReceiptState → Bool
durable_at i [] = false
durable_at zero (t ∷ ts) = is_some t.durable
durable_at (suc i) (t ∷ ts) = durable_at i ts

unfoldable pub entry_matches :
    IngressState → DurableCutoff → DurableBatchEntry → Slot → AppendIdentity → Bool
entry_matches s cutoff e slot append =
    is_awaiting slot.phase
    && (holds (AppendIdentity-discrete append e.append)
        && (holds (RetryQualification-discrete slot.qualification e.qualification)
            && (holds (JournalIdentity-discrete append.journal cutoff.journal)
                && (leb append.append_sequence cutoff.append_sequence
                    && (leb append.end_offset cutoff.end_offset
                        && not (durable_at slot.terminal s.receipts))))))

unfoldable pub entry_valid : IngressState → DurableCutoff → DurableBatchEntry → Bool
entry_valid s cutoff e = elim (slot_at s.slots e.slot) [
  | none ↦ false
  | some slot ↦ (elim slot.append [
    | none ↦ false
    | some append ↦ entry_matches s cutoff e slot append
  ])
]

unfoldable pub entries_valid : IngressState → DurableCutoff → List DurableBatchEntry → Bool
entries_valid s cutoff [] = true
entries_valid s cutoff (e ∷ rest) = entry_valid s cutoff e && entries_valid s cutoff rest

unfoldable pub release_entry :
    IngressState → ℕ → ManifestCommit → Slot → AppendIdentity → IngressState × Bool
release_entry s index committed slot append =
    let commit : DurableCommit = record { append = append; committed = committed } in
    let released = record (release s index slot) {
      receipts = resolve_at (λ t. (resolve_durable t commit).0) slot.terminal s.receipts;
    } in
    if changes_at (λ t. (resolve_durable t commit).1) slot.terminal s.receipts
    then (released, true)
    else (stop_all released, false)

-- A second entry for a slot finds it taken. The entries were checked before, so an append is there.
unfoldable pub resolve_entry : IngressState → ManifestCommit → ℕ → IngressState × Bool
resolve_entry s committed index = elim (slot_at s.slots index) [
  | none ↦ (stop_all s, false)
  | some slot ↦ (elim slot.append [
    | none ↦ (stop_all s, false)
    | some append ↦ release_entry s index committed slot append
  ])
]

unfoldable pub resolve_entries :
    IngressState → ManifestCommit → List DurableBatchEntry → IngressState × Bool
resolve_entries s committed [] = (s, true)
resolve_entries s committed (e ∷ rest) =
    let first = resolve_entry s committed e.slot in
    let later = resolve_entries first.0 committed rest in if first.1 then later else first

-- `verified` stands for the checks of the new retry projection: its store, options and reference,
-- and `verifies_transition`.
unfoldable pub complete_durable_batch :
    IngressState → Bool → List DurableBatchEntry → ManifestCommit → IngressState × Bool
complete_durable_batch s verified entries committed =
    if (length entries == 0)
      || (not verified || not (entries_valid s committed.durable_cutoff entries))
    then (stop_all s, false)
    else resolve_entries s committed entries
