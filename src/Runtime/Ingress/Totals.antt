-- ===== src/Runtime/Ingress/Totals.antt =====
-- Sums over the slots, and what a write to one slot does to them.
use open_control_historian.Base.{
  Bool, Bool-cases, List, Option, Option-cases, [], ap, arith, false, if◌then◌else◌, inl, inr,
  length, none, refl, replicate, set, some, some-injective, subst, suc, true, zero, ℕ, ◌+◌, ◌<◌,
  ◌∷◌, ◌≡◌, ◌≤◌,
}
use open_control_historian.Runtime.Reservation.{
  AdmissionPriority, ByteReservationLimits, bulk, class_ceiling, normal, protected,
}
use open_control_historian.Runtime.Ingress.{Slot, free_slot, slot_at}

abbrev pub weight_of : (Slot → ℕ) → Option Slot → ℕ
weight_of w none = 0
weight_of w (some slot) = w slot

unfoldable pub weigh : (Slot → ℕ) → List (Option Slot) → ℕ
weigh w [] = 0
weigh w (o ∷ rest) = weight_of w o + weigh w rest

-- Classes at or below another share its ceiling.
abbrev pub counts_under : AdmissionPriority → AdmissionPriority → Bool
counts_under protected q = true
counts_under normal protected = false
counts_under normal q = true
counts_under bulk bulk = true
counts_under bulk q = false

-- The bytes of a slot that count against the ceiling of a class.
abbrev pub class_bytes : AdmissionPriority → Slot → ℕ
class_bytes p slot = if counts_under p slot.priority then slot.reservation else 0

pub slot_at-bound :
    (slots : List (Option Slot)) (i : ℕ) (slot : Slot)
    → slot_at slots i ≡ some slot
    → i < length slots
unfolding slot_at
slot_at-bound [] i slot h = cc
slot_at-bound (o ∷ rest) zero slot h = omega arith
slot_at-bound (o ∷ rest) (suc i) slot h = omega (arith, slot_at-bound rest i slot h)

pub free_slot-bound :
    (slots : List (Option Slot)) (i : ℕ)
    → free_slot slots ≡ some i
    → (i < length slots) × (slot_at slots i ≡ none)
unfolding free_slot slot_at
free_slot-bound [] i h = cc
free_slot-bound (none ∷ rest) i h =
    subst (λ k. (k < length (none ∷ rest)) × (slot_at (none ∷ rest) k ≡ none))
      (some-injective 0 i h) (omega arith, refl)
free_slot-bound (some slot ∷ rest) i h = elim (Option-cases (free_slot rest)) [
  | inl e ↦ cc (rw (e, free_slot) at h)
  | inr (j, e) ↦
      let (here, free) = free_slot-bound rest j e in
      let there : suc j ≡ i = some-injective (suc j) i (rw (e, free_slot) at h) in
      subst (λ k. (k < length (some slot ∷ rest)) × (slot_at (some slot ∷ rest) k ≡ none)) there
        (omega arith, free)
]

pub weigh-set :
    (w : Slot → ℕ) (slots : List (Option Slot)) (i : ℕ) (o : Option Slot)
    → i < length slots
    → weigh w (set slots i o) + weight_of w (slot_at slots i) ≡ weigh w slots + weight_of w o
unfolding weigh slot_at
weigh-set w [] i o h = absurd (omega (arith, h))
weigh-set w (x ∷ rest) zero o h = omega arith
weigh-set w (x ∷ rest) (suc i) o h = omega (arith, weigh-set w rest i o (omega (arith, h)))

pub weigh-replicate : (w : Slot → ℕ) (n : ℕ) → weigh w (replicate n none) ≡ 0
unfolding weigh
weigh-replicate w zero = refl
weigh-replicate w (suc n) = omega (arith, weigh-replicate w n)

pub length-replicate : (n : ℕ) (o : Option Slot) → length (replicate n o) ≡ n
length-replicate zero o = refl
length-replicate (suc n) o = ap suc (length-replicate n o)

class_bytes-le : (p : AdmissionPriority) (slot : Slot) → class_bytes p slot ≤ slot.reservation
class_bytes-le p slot = elim (Bool-cases (counts_under p slot.priority)) [
  | inl e ↦ rw e (omega arith)
  | inr e ↦ rw e (omega arith)
]

pub weigh-class :
    (p : AdmissionPriority) (slots : List (Option Slot))
    → weigh (class_bytes p) slots ≤ weigh (class_bytes protected) slots
unfolding weigh
weigh-class p [] = omega arith
weigh-class p (none ∷ rest) = omega (arith, weigh-class p rest)
weigh-class p (some slot ∷ rest) = omega (arith, weigh-class p rest, class_bytes-le p slot)

pub class_ceiling_mono :
    (l : ByteReservationLimits) (p q : AdmissionPriority)
    → counts_under p q ≡ true
    → class_ceiling l q ≤ class_ceiling l p
unfolding class_ceiling
class_ceiling_mono l protected protected h = omega arith
class_ceiling_mono l protected normal h = omega arith
class_ceiling_mono l protected bulk h = omega arith
class_ceiling_mono l normal protected h = cc
class_ceiling_mono l normal normal h = omega arith
class_ceiling_mono l normal bulk h = omega arith
class_ceiling_mono l bulk protected h = cc
class_ceiling_mono l bulk normal h = cc
class_ceiling_mono l bulk bulk h = omega arith
