-- ===== src/Runtime/Ingress/Receipts.antt =====
-- What the receipts of an ingress show: no critical section takes an outcome back.
use open_control_historian.Base.{
  Bool, List, Option, Option-cases, [], arith, inl, inr, none, set, some, true, ℕ, ◌∷◌,
}
use open_control_historian.Core.Bounded.{Uuid}
use open_control_historian.Runtime.Commit.{AppendIdentity, DurableCommit, ManifestCommit}
use open_control_historian.Runtime.Receipt.{
  ReceiptState, resolve_at, resolve_durable, resolve_handled, unresolved,
}
use open_control_historian.Runtime.Receipt.Final.{durable_as, handled_as, resolve_with-Keeps}
use open_control_historian.Runtime.Latest.{PreparedPublication, commit}
use open_control_historian.Runtime.Ingress.{
  IngressCommand, IngressState, RetryStateMatch, Slot, awaiting_durability, close_admission,
  expired, fresh_retry, replay, reserve, reserve_fresh, reserve_measured, reserve_retained,
  retained_conflict, slot_at, stop_all, stop_slots,
}
use open_control_historian.Runtime.Ingress.Writer.{
  DurableBatchEntry, complete_durable_batch, complete_handled, enqueue, enqueue_slot, handle_slot,
  release, release_entry, resolve_entries, resolve_entry, rollback_preparation, take_idle,
  take_next, take_slot,
}
use open_control_historian.Runtime.Ingress.Runs.{
  Event, closes, commits_batch, enqueues, handles, happen, rolls_back, run, stops_all, submits,
  takes_next,
}
use open_control_historian.Runtime.Receipt.Kept.{
  AllKept, AllKept-append, AllKept-refl, AllKept-resolve_at, AllKept-stopped, AllKept-trans,
}
use open_control_historian.Runtime.Latest

stop_slots-AllKept :
    (slots : List (Option Slot)) (rs : List ReceiptState) → AllKept rs (stop_slots slots rs)
unfolding stop_slots
stop_slots-AllKept [] rs = AllKept-refl rs
stop_slots-AllKept (none ∷ rest) rs = stop_slots-AllKept rest rs
stop_slots-AllKept (some slot ∷ rest) rs =
    AllKept-trans rs _ _ (AllKept-stopped slot.terminal rs) (stop_slots-AllKept rest _)

-- What a critical section leaves of the receipts of the state that it starts from.
abbrev Lasts : IngressState → IngressState → Type 0
Lasts s t = AllKept s.receipts t.receipts

stop_all-Lasts : (s : IngressState) → Lasts s (stop_all s)
unfolding stop_all
stop_all-Lasts s = stop_slots-AllKept s.slots s.receipts

reserve_retained-Lasts :
    (s : IngressState) (c : IngressCommand) (n : ℕ) (seen : RetryStateMatch)
    → Lasts s (reserve_retained s c n seen).0
unfolding reserve_retained reserve_fresh resolve_handled resolve_durable
reserve_retained-Lasts s c n (replay append commit) = AllKept-append s.receipts _
reserve_retained-Lasts s c n expired = AllKept-refl s.receipts
reserve_retained-Lasts s c n retained_conflict = AllKept-refl s.receipts
reserve_retained-Lasts s c n fresh_retry =
    let same = AllKept-refl s.receipts in
    let more = AllKept-append s.receipts unresolved in ground arith

reserve-Lasts :
    (s : IngressState) (store_id : Uuid) (c : IngressCommand) (measured : Option ℕ)
    (seen : RetryStateMatch)
    → Lasts s (reserve s store_id c measured seen).0
unfolding reserve reserve_measured
reserve-Lasts s store_id c none seen = let same = AllKept-refl s.receipts in ground arith
reserve-Lasts s store_id c (some n) seen =
    let same = AllKept-refl s.receipts in
    let retained = reserve_retained-Lasts s c n seen in ground arith

rollback-Lasts : (s : IngressState) (i : ℕ) → Lasts s (rollback_preparation s i)
unfolding rollback_preparation
rollback-Lasts s i = elim (Option-cases (slot_at s.slots i)) [
  | inl e ↦ rw (e, rollback_preparation) (AllKept-refl s.receipts)
  | inr (slot, e) ↦ rw (e, rollback_preparation) (AllKept-stopped slot.terminal s.receipts)
]

enqueue-Lasts : (s : IngressState) (i : ℕ) → Lasts s (enqueue s i).0
unfolding enqueue enqueue_slot
enqueue-Lasts s i =
    let same = AllKept-refl s.receipts in let halted = stop_all-Lasts s in ground arith

take_next-Lasts : (s : IngressState) → Lasts s (take_next s).0
unfolding take_next take_slot take_idle
take_next-Lasts s = let same = AllKept-refl s.receipts in ground arith

handle_slot-Lasts :
    (s : IngressState) (i : ℕ) (slot : Slot) (append : AppendIdentity)
    (preparation : PreparedPublication)
    → Lasts s (handle_slot s i slot append preparation).0
unfolding handle_slot
handle_slot-Lasts s i slot a preparation =
    let handled = record s {
      latest = Latest.commit s.latest preparation;
      slots = set s.slots i (
          some (record slot {
            retained_admission = true;
            append = some a;
            phase = awaiting_durability;
          }));
      receipts = resolve_at (λ t. (resolve_handled t a).0) slot.terminal s.receipts;
    } in
    let resolved : Lasts s handled =
      AllKept-resolve_at (λ t. (resolve_handled t a).0) slot.terminal s.receipts
        (λ r. resolve_with-Keeps r (handled_as a)) in
    let halted = stop_all-Lasts s in
    let stopped_late =
      AllKept-trans s.receipts handled.receipts (stop_all handled).receipts resolved
        (stop_all-Lasts handled) in
    ground arith

complete_handled-Lasts :
    (s : IngressState) (i : ℕ) (append : AppendIdentity) (preparation : PreparedPublication)
    → Lasts s (complete_handled s i append preparation).0
unfolding complete_handled
complete_handled-Lasts s i append preparation = elim (Option-cases (slot_at s.slots i)) [
  | inl e ↦ rw (e, complete_handled) (stop_all-Lasts s)
  | inr (slot, e) ↦ rw (e, complete_handled) (handle_slot-Lasts s i slot append preparation)
]

release_entry-Lasts :
    (s : IngressState) (i : ℕ) (committed : ManifestCommit) (slot : Slot) (append : AppendIdentity)
    → Lasts s (release_entry s i committed slot append).0
unfolding release_entry
release_entry-Lasts s i committed slot a =
    let commit : DurableCommit = record { append = a; committed = committed } in
    let released = record (release s i slot) {
      receipts = resolve_at (λ t. (resolve_durable t commit).0) slot.terminal s.receipts;
    } in
    let resolved : Lasts s released =
      AllKept-resolve_at (λ t. (resolve_durable t commit).0) slot.terminal s.receipts
        (λ r. resolve_with-Keeps r (durable_as commit)) in
    let halted =
      AllKept-trans s.receipts released.receipts (stop_all released).receipts resolved
        (stop_all-Lasts released) in
    ground arith

resolve_entry-Lasts :
    (s : IngressState) (committed : ManifestCommit) (i : ℕ)
    → Lasts s (resolve_entry s committed i).0
unfolding resolve_entry
resolve_entry-Lasts s committed i = elim (Option-cases (slot_at s.slots i)) [
  | inl e ↦ rw (e, resolve_entry) (stop_all-Lasts s)
  | inr (slot, e) ↦ elim (Option-cases slot.append) [
    | inl f ↦ rw (e, f, resolve_entry) (stop_all-Lasts s)
    | inr (append, f) ↦ rw (e, f, resolve_entry) (release_entry-Lasts s i committed slot append)
  ]
]

resolve_entries-Lasts :
    (s : IngressState) (committed : ManifestCommit) (entries : List DurableBatchEntry)
    → Lasts s (resolve_entries s committed entries).0
unfolding resolve_entries
resolve_entries-Lasts s committed [] = AllKept-refl s.receipts
resolve_entries-Lasts s committed (e ∷ rest) =
    let next = (resolve_entry s committed e.slot).0 in
    let first = resolve_entry-Lasts s committed e.slot in
    let later =
      AllKept-trans s.receipts next.receipts (resolve_entries next committed rest).0.receipts first
        (resolve_entries-Lasts next committed rest) in
    ground arith

batch-Lasts :
    (s : IngressState) (verified : Bool) (entries : List DurableBatchEntry)
    (committed : ManifestCommit)
    → Lasts s (complete_durable_batch s verified entries committed).0
unfolding complete_durable_batch
batch-Lasts s verified entries committed =
    let halted = stop_all-Lasts s in
    let resolved = resolve_entries-Lasts s committed entries in ground arith

happen-Lasts : (store_id : Uuid) (s : IngressState) (e : Event) → Lasts s (happen store_id s e)
unfolding happen close_admission
happen-Lasts store_id s (submits c measured seen) = reserve-Lasts s store_id c measured seen
happen-Lasts store_id s (enqueues i) = enqueue-Lasts s i
happen-Lasts store_id s (rolls_back i) = rollback-Lasts s i
happen-Lasts store_id s takes_next = take_next-Lasts s
happen-Lasts store_id s closes = AllKept-refl s.receipts
happen-Lasts store_id s stops_all = stop_all-Lasts s
happen-Lasts store_id s (handles i append preparation) =
    complete_handled-Lasts s i append preparation
happen-Lasts store_id s (commits_batch verified entries committed) =
    batch-Lasts s verified entries committed

-- Through any order of critical sections every receipt that was handed out keeps its place, and an
-- outcome that it shows, handled or durable, it shows ever after.
pub run-AllKept :
    (store_id : Uuid) (s : IngressState) (es : List Event)
    → AllKept s.receipts (run store_id s es).receipts
unfolding run
run-AllKept store_id s [] = AllKept-refl s.receipts
run-AllKept store_id s (e ∷ es) =
    AllKept-trans s.receipts (happen store_id s e).receipts _ (happen-Lasts store_id s e)
      (run-AllKept store_id (happen store_id s e) es)
