-- ===== src/Runtime/Ingress/Steps.antt =====
-- Every critical section keeps the accounts.
use open_control_historian.Base.{
  Bool-cases, Option, Option-cases, arith, false, inl, inr, none, refl, set, some, true, ℕ, ◌≡◌,
}
use open_control_historian.Core.Bounded.{Uuid}
use open_control_historian.Runtime.Queue.{pop, push}
use open_control_historian.Runtime.Receipt.{resolve_durable, resolve_handled}
use open_control_historian.Runtime.Latest.{commit, seal}
use open_control_historian.Runtime.Ingress.{
  IngressCommand, IngressState, RetryStateMatch, Slot, can_reserve, expired, free_slot, fresh_retry,
  in_flight, outstanding_match, queued, replay, reserve, reserve_fresh, reserve_measured,
  reserve_retained, retained_conflict, slot_at,
}
use open_control_historian.Runtime.Ingress.Writer.{
  enqueue, enqueue_slot, release, rollback_preparation, take_idle, take_next, take_slot,
}
use open_control_historian.Runtime.Ingress.Accounting.{
  IsAccounted, load-IsAccounted, release-IsAccounted, reserve_in-IsAccounted, rewrite-IsAccounted,
  stop_all-IsAccounted,
}

reserve_fresh-IsAccounted :
    (s : IngressState) (c : IngressCommand) (n : ℕ)
    → IsAccounted s
    → IsAccounted (reserve_fresh s c n).0
unfolding reserve_fresh
reserve_fresh-IsAccounted s c n v = elim (Option-cases (free_slot s.slots)) [
  | inl e ↦ ground arith
  | inr (i, e) ↦ elim (Bool-cases (can_reserve s c.priority n)) [
    | inl room ↦ let reserved = reserve_in-IsAccounted s c n i room e v in ground arith
    | inr room ↦ ground arith
  ]
]

reserve_retained-IsAccounted :
    (s : IngressState) (c : IngressCommand) (n : ℕ) (seen : RetryStateMatch)
    → IsAccounted s
    → IsAccounted (reserve_retained s c n seen).0
unfolding reserve_retained resolve_handled resolve_durable
reserve_retained-IsAccounted s c n (replay append commit) v = load-IsAccounted s _ refl refl refl v
reserve_retained-IsAccounted s c n expired v = v
reserve_retained-IsAccounted s c n retained_conflict v = v
reserve_retained-IsAccounted s c n fresh_retry v = reserve_fresh-IsAccounted s c n v

reserve_measured-IsAccounted :
    (s : IngressState) (c : IngressCommand) (n : ℕ) (seen : RetryStateMatch)
    → IsAccounted s
    → IsAccounted (reserve_measured s c n seen).0
unfolding reserve_measured
reserve_measured-IsAccounted s c n seen v =
    let retained = reserve_retained-IsAccounted s c n seen v in
    elim (Option-cases (outstanding_match s.slots c.retry)) [
      | inl e ↦ rw (e, reserve_measured) retained
      | inr (found, e) ↦ rw (e, reserve_measured) v
    ]

pub reserve-IsAccounted :
    (s : IngressState) (store_id : Uuid) (c : IngressCommand) (measured : Option ℕ)
    (seen : RetryStateMatch)
    → IsAccounted s
    → IsAccounted (reserve s store_id c measured seen).0
unfolding reserve
reserve-IsAccounted s store_id c none seen v = ground arith
reserve-IsAccounted s store_id c (some n) seen v =
    let reserved = reserve_measured-IsAccounted s c n seen v in ground arith

pub rollback-IsAccounted :
    (s : IngressState) (i : ℕ) → IsAccounted s → IsAccounted (rollback_preparation s i)
unfolding rollback_preparation
rollback-IsAccounted s i v = elim (Option-cases (slot_at s.slots i)) [
  | inl e ↦ rw (e, rollback_preparation) v
  | inr (slot, e) ↦
      rw (e, rollback_preparation)
        (load-IsAccounted (release s i slot) _ refl refl refl (release-IsAccounted s i slot e v))
]

enqueue_slot-IsAccounted :
    (s : IngressState) (i : ℕ) (slot : Slot)
    → slot_at s.slots i ≡ some slot
    → IsAccounted s
    → IsAccounted (enqueue_slot s i slot).0
unfolding enqueue_slot
enqueue_slot-IsAccounted s i slot e v =
    let stopped = stop_all-IsAccounted s v in
    let next = record slot { prepared = true; phase = queued } in
    let written = record s { slots = set s.slots i (some next) } in
    let queued =
      load-IsAccounted written (record written { queue = push s.queue i }) refl refl refl
        (rewrite-IsAccounted s i slot next e refl refl v) in
    ground arith

pub enqueue-IsAccounted : (s : IngressState) (i : ℕ) → IsAccounted s → IsAccounted (enqueue s i).0
unfolding enqueue
enqueue-IsAccounted s i v = elim (Option-cases (slot_at s.slots i)) [
  | inl e ↦ rw (e, enqueue) (stop_all-IsAccounted s v)
  | inr (slot, e) ↦ rw (e, enqueue) (enqueue_slot-IsAccounted s i slot e v)
]

take_slot-IsAccounted :
    (s : IngressState) (i : ℕ) (slot : Slot)
    → slot_at s.slots i ≡ some slot
    → IsAccounted s
    → IsAccounted (take_slot s i slot).0
unfolding take_slot
take_slot-IsAccounted s i slot e v =
    let taken =
      rewrite-IsAccounted s i slot (record slot { prepared = false; phase = in_flight }) e refl refl
        v in
    ground arith

take_idle-IsAccounted : (s : IngressState) → IsAccounted s → IsAccounted (take_idle s).0
unfolding take_idle
take_idle-IsAccounted s v =
    let sealing = load-IsAccounted s (record s { latest = (seal s.latest).0 }) refl refl refl v in
    let asking = load-IsAccounted s (record s { barrier_requested = true }) refl refl refl v in
    ground arith

pub take_next-IsAccounted : (s : IngressState) → IsAccounted s → IsAccounted (take_next s).0
unfolding take_next
take_next-IsAccounted s v =
    let popped = record s { queue = (pop s.queue).0 } in
    let u = load-IsAccounted s popped refl refl refl v in
    elim (Option-cases ((pop s.queue).1)) [
      | inl e ↦ rw (e, take_next) (take_idle-IsAccounted popped u)
      | inr (i, e) ↦ elim (Option-cases (slot_at s.slots i)) [
        | inl f ↦ rw (e, f, take_next) u
        | inr (slot, f) ↦ rw (e, f, take_next) (take_slot-IsAccounted popped i slot f u)
      ]
    ]
