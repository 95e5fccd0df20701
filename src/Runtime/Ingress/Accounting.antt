-- ===== src/Runtime/Ingress/Accounting.antt =====
-- The bytes that are reserved are those of the slots, class by class.
use open_control_historian.Base.{
  &&-true, Bool-cases, Option, ap, ap₂, arith, if◌then◌else◌, inl, inr, leb→le, length, length-set,
  none, refl, set, some, subst, sym, true, ℕ, ◌+◌, ◌<◌, ◌∙◌, ◌≡◌, ◌≤◌,
}
use open_control_historian.Core.Bounded.{Uuid}
use open_control_historian.Runtime.Queue.{max_outstanding_commands}
use open_control_historian.Runtime.Reservation.{
  AdmissionPriority, ByteReservationLimits, class_ceiling, protected,
}
use open_control_historian.Runtime.Ingress.{
  IngressCommand, IngressState, Slot, can_reserve, free_slot, new, reserve_in, slot_at, stop_all,
}
use open_control_historian.Runtime.Ingress.Writer.{release}
use open_control_historian.Runtime.Ingress.Totals.{
  class_bytes, class_ceiling_mono, counts_under, free_slot-bound, length-replicate, slot_at-bound,
  weigh, weigh-class, weigh-replicate, weigh-set, weight_of,
}

pub record IsAccounted (s : IngressState) : Type 0 where
  pub sized : length s.slots ≡ max_outstanding_commands
  pub exact : s.reserved_bytes ≡ weigh (class_bytes protected) s.slots
  pub within :
      (p : AdmissionPriority) → weigh (class_bytes p) s.slots ≤ class_ceiling s.byte_limits p

pub new-IsAccounted :
    (store_id : Uuid) (limits : ByteReservationLimits) (fresh : ℕ)
    → IsAccounted (new store_id limits fresh)
unfolding new
new-IsAccounted store_id limits fresh = record {
  sized = refl;
  exact = sym (weigh-replicate (class_bytes protected) 16);
  within = λ p. omega (arith, weigh-replicate (class_bytes p) 16);
}

pub stop_all-IsAccounted : (s : IngressState) → IsAccounted s → IsAccounted (stop_all s)
unfolding stop_all
stop_all-IsAccounted s v = record {
  sized = length-replicate (length s.slots) none ∙ v.sized;
  exact = sym (weigh-replicate (class_bytes protected) (length s.slots));
  within = λ p. omega (arith, weigh-replicate (class_bytes p) (length s.slots));
}

-- Only the slots, the bytes and the limits matter.
pub load-IsAccounted :
    (s t : IngressState)
    → t.slots ≡ s.slots
    → t.reserved_bytes ≡ s.reserved_bytes
    → t.byte_limits ≡ s.byte_limits
    → IsAccounted s
    → IsAccounted t
load-IsAccounted s t h k l v = record {
  sized = ap length h ∙ v.sized;
  exact = k ∙ v.exact ∙ ap (weigh (class_bytes protected)) (sym h);
  within = λ p.
      subst (λ x. weigh (class_bytes p) x ≤ class_ceiling t.byte_limits p) (sym h)
        (subst (λ x. weigh (class_bytes p) s.slots ≤ class_ceiling x p) (sym l) (v.within p));
}

-- What is left when the bytes of a slot are written anew.
weigh-slot :
    (s : IngressState) (i : ℕ) (old : Slot) (o : Option Slot) (p : AdmissionPriority)
    → slot_at s.slots i ≡ some old
    → weigh (class_bytes p) (set s.slots i o) + class_bytes p old
      ≡ weigh (class_bytes p) s.slots + weight_of (class_bytes p) o
weigh-slot s i old o p found =
    subst
      (λ x.
        weigh (class_bytes p) (set s.slots i o) + weight_of (class_bytes p) x
        ≡ weigh (class_bytes p) s.slots + weight_of (class_bytes p) o)
      found (weigh-set (class_bytes p) s.slots i o (slot_at-bound s.slots i old found))

weigh-vacant :
    (s : IngressState) (i : ℕ) (o : Option Slot) (p : AdmissionPriority)
    → i < length s.slots
    → slot_at s.slots i ≡ none
    → weigh (class_bytes p) (set s.slots i o)
      ≡ weigh (class_bytes p) s.slots + weight_of (class_bytes p) o
weigh-vacant s i o p bound vacant =
    let moved =
      subst
        (λ x.
          weigh (class_bytes p) (set s.slots i o) + weight_of (class_bytes p) x
          ≡ weigh (class_bytes p) s.slots + weight_of (class_bytes p) o)
        vacant (weigh-set (class_bytes p) s.slots i o bound) in
    omega (arith, moved)

-- One slot is changed to another of the same reservation and class.
pub rewrite-IsAccounted :
    (s : IngressState) (i : ℕ) (old slot : Slot)
    → slot_at s.slots i ≡ some old
    → slot.reservation ≡ old.reservation
    → slot.priority ≡ old.priority
    → IsAccounted s
    → IsAccounted (record s { slots = set s.slots i (some slot) })
rewrite-IsAccounted s i old slot found bytes class v =
    let same : (p : AdmissionPriority)
        → weigh (class_bytes p) (set s.slots i (some slot)) ≡ weigh (class_bytes p) s.slots =
      λ p. omega (
        arith,
        weigh-slot s i old (some slot) p found,
        ap₂ (λ n q. if counts_under p q then n else 0) bytes class,
      ) in
    record {
      sized = length-set s.slots i (some slot) ∙ v.sized;
      exact = v.exact ∙ sym (same protected);
      within = λ p. omega (arith, same p, v.within p);
    }

pub release-IsAccounted :
    (s : IngressState) (i : ℕ) (old : Slot)
    → slot_at s.slots i ≡ some old
    → IsAccounted s
    → IsAccounted (release s i old)
release-IsAccounted s i old found v = record {
  sized = length-set s.slots i none ∙ v.sized;
  exact = omega (arith, weigh-slot s i old none protected found, v.exact);
  within = λ p. omega (arith, weigh-slot s i old none p found, v.within p);
}

-- What `can_reserve` grants to a class leaves every class within its ceiling.
reserve-within :
    (s : IngressState) (q p : AdmissionPriority) (n : ℕ)
    → can_reserve s q n ≡ true
    → IsAccounted s
    → weigh (class_bytes p) s.slots + (if counts_under p q then n else 0)
      ≤ class_ceiling s.byte_limits p
unfolding can_reserve
reserve-within s q p n room v = elim (Bool-cases (counts_under p q)) [
  | inr e ↦ rw e (omega (arith, v.within p))
  | inl e ↦
      let granted : s.reserved_bytes + n ≤ class_ceiling s.byte_limits q =
        leb→le _ _ (&&-true _ _ room).1 in
      rw e (
        omega
          (arith, granted, v.exact, weigh-class p s.slots, class_ceiling_mono s.byte_limits p q e))
]

pub reserve_in-IsAccounted :
    (s : IngressState) (c : IngressCommand) (n i : ℕ)
    → can_reserve s c.priority n ≡ true
    → free_slot s.slots ≡ some i
    → IsAccounted s
    → IsAccounted (reserve_in s c n i)
reserve_in-IsAccounted s c n i room free v =
    let (bound, vacant) = free_slot-bound s.slots i free in
    let added : (p : AdmissionPriority)
        → weigh (class_bytes p) (reserve_in s c n i).slots
          ≡ weigh (class_bytes p) s.slots + (if counts_under p c.priority then n else 0) =
      λ p. weigh-vacant s i _ p bound vacant in
    record {
      sized = length-set s.slots i _ ∙ v.sized;
      exact = omega (arith, added protected, v.exact);
      within = λ p. omega (arith, added p, reserve-within s c.priority p n room v);
    }
