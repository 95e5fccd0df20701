-- ===== src/Runtime/Ingress/Batches.antt =====
-- Completion, of one command and of a durable batch, keeps the accounts.
use open_control_historian.Base.{
  Bool, List, Option-cases, [], arith, inl, inr, refl, set, some, true, ℕ, ◌∷◌, ◌≡◌,
}
use open_control_historian.Runtime.Commit.{AppendIdentity, DurableCommit, ManifestCommit}
use open_control_historian.Runtime.Receipt.{resolve_at, resolve_durable, resolve_handled}
use open_control_historian.Runtime.Latest.{PreparedPublication, commit}
use open_control_historian.Runtime.Ingress.{IngressState, Slot, awaiting_durability, slot_at}
use open_control_historian.Runtime.Ingress.Writer.{
  DurableBatchEntry, complete_durable_batch, complete_handled, handle_slot, release, release_entry,
  resolve_entries, resolve_entry,
}
use open_control_historian.Runtime.Ingress.Accounting.{
  IsAccounted, load-IsAccounted, release-IsAccounted, rewrite-IsAccounted, stop_all-IsAccounted,
}
use open_control_historian.Runtime.Latest

handle_slot-IsAccounted :
    (s : IngressState) (i : ℕ) (slot : Slot) (append : AppendIdentity)
    (preparation : PreparedPublication)
    → slot_at s.slots i ≡ some slot
    → IsAccounted s
    → IsAccounted (handle_slot s i slot append preparation).0
unfolding handle_slot
handle_slot-IsAccounted s i slot a preparation e v =
    let next = record slot {
      retained_admission = true;
      append = some a;
      phase = awaiting_durability;
    } in
    let written = record s { slots = set s.slots i (some next) } in
    let handled = record written {
      latest = Latest.commit s.latest preparation;
      receipts = resolve_at (λ t. (resolve_handled t a).0) slot.terminal s.receipts;
    } in
    let u =
      load-IsAccounted written handled refl refl refl
        (rewrite-IsAccounted s i slot next e refl refl v) in
    let stopped = stop_all-IsAccounted s v in
    let stopped_late = stop_all-IsAccounted handled u in ground arith

pub complete_handled-IsAccounted :
    (s : IngressState) (i : ℕ) (append : AppendIdentity) (preparation : PreparedPublication)
    → IsAccounted s
    → IsAccounted (complete_handled s i append preparation).0
unfolding complete_handled
complete_handled-IsAccounted s i append preparation v = elim (Option-cases (slot_at s.slots i)) [
  | inl e ↦ rw (e, complete_handled) (stop_all-IsAccounted s v)
  | inr (slot, e) ↦
      rw (e, complete_handled) (handle_slot-IsAccounted s i slot append preparation e v)
]

release_entry-IsAccounted :
    (s : IngressState) (i : ℕ) (committed : ManifestCommit) (slot : Slot) (append : AppendIdentity)
    → slot_at s.slots i ≡ some slot
    → IsAccounted s
    → IsAccounted (release_entry s i committed slot append).0
unfolding release_entry
release_entry-IsAccounted s i committed slot a e v =
    let commit : DurableCommit = record { append = a; committed = committed } in
    let freed = release s i slot in
    let released = record freed {
      receipts = resolve_at (λ t. (resolve_durable t commit).0) slot.terminal s.receipts;
    } in
    let u = load-IsAccounted freed released refl refl refl (release-IsAccounted s i slot e v) in
    let stopped = stop_all-IsAccounted released u in ground arith

resolve_entry-IsAccounted :
    (s : IngressState) (committed : ManifestCommit) (i : ℕ)
    → IsAccounted s
    → IsAccounted (resolve_entry s committed i).0
unfolding resolve_entry
resolve_entry-IsAccounted s committed i v = elim (Option-cases (slot_at s.slots i)) [
  | inl e ↦ rw (e, resolve_entry) (stop_all-IsAccounted s v)
  | inr (slot, e) ↦ elim (Option-cases slot.append) [
    | inl f ↦ rw (e, f, resolve_entry) (stop_all-IsAccounted s v)
    | inr (append, f) ↦
        rw (e, f, resolve_entry) (release_entry-IsAccounted s i committed slot append e v)
  ]
]

resolve_entries-IsAccounted :
    (s : IngressState) (committed : ManifestCommit) (entries : List DurableBatchEntry)
    → IsAccounted s
    → IsAccounted (resolve_entries s committed entries).0
unfolding resolve_entries
resolve_entries-IsAccounted s committed [] v = v
resolve_entries-IsAccounted s committed (e ∷ rest) v =
    let first = resolve_entry-IsAccounted s committed e.slot v in
    let later =
      resolve_entries-IsAccounted (resolve_entry s committed e.slot).0 committed rest first in
    ground arith

pub complete_durable_batch-IsAccounted :
    (s : IngressState) (verified : Bool) (entries : List DurableBatchEntry)
    (committed : ManifestCommit)
    → IsAccounted s
    → IsAccounted (complete_durable_batch s verified entries committed).0
unfolding complete_durable_batch
complete_durable_batch-IsAccounted s verified entries committed v =
    let stopped = stop_all-IsAccounted s v in
    let resolved = resolve_entries-IsAccounted s committed entries v in ground arith
