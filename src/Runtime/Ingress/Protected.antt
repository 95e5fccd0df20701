-- ===== src/Runtime/Ingress/Protected.antt =====
-- What the protected reserve is for: the submission of a protected command.
-- The bytes of the protected commands alone.
use open_control_historian.Base.{
  Bool-cases, List, Option, Option-cases, [], arith, err, false, if◌then◌else◌, inl, inr, length,
  le→leb, lt→ltb, none, ok, refl, some, subst, sym, true, ℕ, ◌+◌, ◌-◌, ◌<◌, ◌==◌, ◌^◌, ◌∙◌, ◌∷◌,
  ◌≡◌, ◌≤◌, ◌⊎◌,
}
use open_control_historian.Base.Map.{same_bytes}
use open_control_historian.Core.Bounded.{Uuid}
use open_control_historian.Runtime.Queue.{max_outstanding_commands}
use open_control_historian.Runtime.Reservation.{class_ceiling, normal, protected}
use open_control_historian.Runtime.Ingress.{
  IngressCommand, IngressState, Slot, active_count, can_reserve, free_slot, fresh_retry, full,
  outstanding_match, preparing_in, reserve, reserve_fresh, reserve_in, reserve_measured,
  reserve_retained, slot_at,
}
use open_control_historian.Runtime.Ingress.Totals.{
  class_bytes, counts_under, free_slot-bound, weigh,
}
use open_control_historian.Runtime.Ingress.Accounting.{IsAccounted}

abbrev pub protected_bytes : Slot → ℕ
protected_bytes slot = if counts_under normal slot.priority then 0 else slot.reservation

protected_bytes-split :
    (slot : Slot) → class_bytes protected slot ≡ class_bytes normal slot + protected_bytes slot
protected_bytes-split slot = elim (Bool-cases (counts_under normal slot.priority)) [
  | inl e ↦ rw e (omega arith)
  | inr e ↦ rw e (omega arith)
]

weigh-split :
    (slots : List (Option Slot))
    → weigh (class_bytes protected) slots
      ≡ weigh (class_bytes normal) slots + weigh protected_bytes slots
unfolding weigh
weigh-split [] = omega arith
weigh-split (none ∷ rest) = omega (arith, weigh-split rest)
weigh-split (some slot ∷ rest) = omega (arith, weigh-split rest, protected_bytes-split slot)

-- The byte test passes, whatever bytes the other classes hold.
can_reserve-protected :
    (s : IngressState) (n : ℕ)
    → IsAccounted s
    → s.byte_limits.protected_reserve ≤ s.byte_limits.total
    → s.byte_limits.total < 2 ^ 64
    → weigh protected_bytes s.slots + n ≤ s.byte_limits.protected_reserve
    → can_reserve s protected n ≡ true
unfolding can_reserve class_ceiling
can_reserve-protected s n v nested fits room =
    let others : weigh (class_bytes normal) s.slots
        ≤ s.byte_limits.total - s.byte_limits.protected_reserve =
      v.within normal in
    let granted : s.reserved_bytes + n ≤ s.byte_limits.total =
      omega (arith, v.exact, weigh-split s.slots, others, nested, room) in
    let representable : s.reserved_bytes + n < 2 ^ 64 = omega (arith, granted, fits) in
    rw (lt→ltb _ _ representable, le→leb _ _ granted)

active_count-bound : (slots : List (Option Slot)) → active_count slots ≤ length slots
unfolding active_count
active_count-bound [] = omega arith
active_count-bound (none ∷ rest) = omega (arith, active_count-bound rest)
active_count-bound (some slot ∷ rest) = omega (arith, active_count-bound rest)

-- With no free slot every slot is active.
active_count-full :
    (slots : List (Option Slot)) → free_slot slots ≡ none → active_count slots ≡ length slots
unfolding active_count free_slot
active_count-full [] h = refl
active_count-full (none ∷ rest) h = cc
active_count-full (some slot ∷ rest) h = elim (Option-cases (free_slot rest)) [
  | inl e ↦ omega (arith, active_count-full rest e)
  | inr (i, e) ↦ cc (rw (e, free_slot) at h)
]

reserve_measured-fresh :
    (s : IngressState) (c : IngressCommand) (n : ℕ)
    → outstanding_match s.slots c.retry ≡ none
    → reserve_measured s c n fresh_retry ≡ reserve_fresh s c n
unfolding reserve_measured reserve_retained
reserve_measured-fresh s c n fresh = rw (fresh, reserve_measured)

-- In an open ingress of its store a new command comes to the reservation.
reserve-accepted :
    (s : IngressState) (store_id : Uuid) (c : IngressCommand) (n : ℕ)
    → s.closed ≡ false
    → same_bytes c.store_id store_id ≡ true
    → outstanding_match s.slots c.retry ≡ none
    → reserve s store_id c (some n) fresh_retry ≡ reserve_fresh s c n
unfolding reserve
reserve-accepted s store_id c n accepting in_store fresh =
    rw (accepting, in_store) (reserve_measured-fresh (record s { closed = false }) c n fresh)

-- A protected command of `n` bytes is submitted to an open ingress of its store, in which no
-- outstanding command matches its retry, the retained outcomes do not know it, and whose accounts
-- hold, with the protected reserve within a total of less than 2^64. If the bytes of the protected commands outstanding and `n` more fit the
-- protected reserve, then the bytes that other classes hold never refuse it. Only slots can: if all
-- sixteen are held it is refused as full and nothing changes, else it is given a vacant slot and `n`
-- bytes.
pub reserve-protected :
    (s : IngressState) (store_id : Uuid) (c : IngressCommand) (n : ℕ)
    → IsAccounted s
    → s.byte_limits.protected_reserve ≤ s.byte_limits.total
    → s.byte_limits.total < 2 ^ 64
    → s.closed ≡ false
    → same_bytes c.store_id store_id ≡ true
    → outstanding_match s.slots c.retry ≡ none
    → c.priority ≡ protected
    → weigh protected_bytes s.slots + n ≤ s.byte_limits.protected_reserve
    → ((active_count s.slots ≡ max_outstanding_commands)
        × (reserve s store_id c (some n) fresh_retry ≡ (s, err full)))
      ⊎ ((active_count s.slots < max_outstanding_commands)
          × ((i : ℕ) × (slot_at s.slots i ≡ none)
              × (reserve s store_id c (some n) fresh_retry
                  ≡ (reserve_in s c n i, ok (preparing_in i)))))
unfolding reserve_fresh
reserve-protected s store_id c n v nested fits accepting in_store fresh class room =
    let granted : can_reserve s c.priority n ≡ true =
      subst (λ q. can_reserve s q n ≡ true) (sym class)
        (can_reserve-protected s n v nested fits room) in
    let come = reserve-accepted s store_id c n accepting in_store fresh in
    elim (Bool-cases (active_count s.slots == max_outstanding_commands)) [
      | inl full_now ↦ inl (ground arith, come ∙ (rw full_now))
      | inr vacant ↦ elim (Option-cases (free_slot s.slots)) [
        | inl none_free ↦
            let all_held = active_count-full s.slots none_free in
            let sized = v.sized in absurd (ground arith)
        | inr (i, free) ↦
            let sized = v.sized in
            let bound = active_count-bound s.slots in
            inr (
              ground arith,
              (i, (free_slot-bound s.slots i free).1, come ∙ (rw (vacant, granted, free))),
            )
      ]
    ]
