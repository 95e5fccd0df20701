-- ===== src/Runtime/Queue/Ring.antt =====
-- The ring read as a list: what each operation does to the slots in the order of their arrival.
use open_control_historian.Base.{
  ==_iff, Bool-cases, List, Option, [], ap, ap₂, arith, get_elem?, if◌then◌else◌, inl, inr, length,
  length-append, length-set, ltb, ltb→lt, none, refl, replicate, set, some, suc, sym, zero, ℕ,
  ℕ_discrete, ◌%◌, ◌++◌, ◌+◌, ◌-◌, ◌<◌, ◌==◌, ◌∙◌, ◌∷◌, ◌≡◌, ◌≢◌, ◌≤◌,
}
use open_control_historian.Runtime.Queue.{
  FixedQueue, can_push, entry, max_outstanding_commands, new, pop, push,
}

pub entry-set :
    (es : List (Option ℕ)) (i j : ℕ) (v : Option ℕ)
    → i < length es
    → entry (set es i v) j ≡ (if i == j then v else entry es j)
unfolding entry
entry-set [] i j v h = absurd (omega (arith, h))
entry-set (e ∷ es) zero zero v h = ground arith
entry-set (e ∷ es) zero (suc j) v h = ground arith
entry-set (e ∷ es) (suc i) zero v h = ground arith
entry-set (e ∷ es) (suc i) (suc j) v h = ground (arith, entry-set es i j v)

-- The entry `i` places behind the head of the ring.
abbrev pub behind : FixedQueue → ℕ → Option ℕ
behind q i = entry q.entries ((q.head + i) % max_outstanding_commands)

-- The ring holds `xs`, the oldest slot first, and its other entries are free.
pub record Represents (q : FixedQueue) (xs : List ℕ) : Type 0 where
  pub sized : length q.entries ≡ max_outstanding_commands
  pub placed : q.head < max_outstanding_commands
  pub counted : q.len ≡ length xs
  pub few : length xs ≤ max_outstanding_commands
  pub shown : (i : ℕ) → i < max_outstanding_commands → behind q i ≡ get_elem? xs i

get_elem?-append :
    (xs : List ℕ) (x i : ℕ)
    → get_elem? (xs ++ x ∷ []) i ≡ (if length xs == i then some x else get_elem? xs i)
get_elem?-append [] x zero = ground arith
get_elem?-append [] x (suc i) = ground arith
get_elem?-append (y ∷ xs) x zero = ground arith
get_elem?-append (y ∷ xs) x (suc i) = ground (arith, get_elem?-append xs x i)

get_elem?-past : (xs : List ℕ) (i : ℕ) → length xs ≤ i → get_elem? xs i ≡ none
get_elem?-past [] i h = refl
get_elem?-past (x ∷ xs) zero h = absurd (omega (arith, h))
get_elem?-past (x ∷ xs) (suc i) h = get_elem?-past xs i (omega (arith, h))

entry-replicate : (n i : ℕ) → entry (replicate n none) i ≡ none
unfolding entry
entry-replicate zero i = refl
entry-replicate (suc n) zero = refl
entry-replicate (suc n) (suc i) = entry-replicate n i

pub new-Represents : Represents new []
unfolding new
new-Represents = record {
  sized = refl;
  placed = omega arith;
  counted = refl;
  few = omega arith;
  shown = λ i h. entry-replicate 16 ((0 + i) % 16);
}

-- There is room exactly while fewer than all places are taken.
pub can_push-Represents :
    (q : FixedQueue) (xs : List ℕ)
    → Represents q xs
    → can_push q ≡ ltb (length xs) max_outstanding_commands
unfolding can_push
can_push-Represents q xs v = elim (Bool-cases (ltb (length xs) 16)) [
  | inl less ↦
      let next =
        v.shown (length xs) (ltb→lt _ _ less) ∙ get_elem?-past xs (length xs) (omega arith) in
      rw (v.counted, less, next)
  | inr full ↦ rw (v.counted, full)
]

-- Two places of the ring are one only when they are equally far behind the head.
ring_apart : (h i j : ℕ) → h < 16 → i < 16 → j < 16 → ((h + i) % 16 ≡ (h + j) % 16) → (i ≡ j)
ring_apart h i j a b c e = omega arith

ring_test :
    (h n i j : ℕ) → n ≡ i → h < 16 → i < 16 → j < 16 → ((h + n) % 16 == (h + j) % 16) ≡ (i == j)
ring_test h n i j s a b c = elim (ℕ_discrete i j) [
  | yes e ↦ ground arith
  | no d ↦ let apart = ring_apart h i j a b c in ground (arith, apart)
]

pub push-Represents :
    (q : FixedQueue) (xs : List ℕ) (x : ℕ)
    → Represents q xs
    → length xs < max_outstanding_commands
    → Represents (push q x) (xs ++ x ∷ [])
unfolding push
push-Represents q xs x v h = record {
  sized = omega (arith, length-set q.entries ((q.head + q.len) % 16) (some x), v.sized);
  placed = v.placed;
  counted = omega (arith, v.counted, length-append xs (x ∷ []));
  few = omega (arith, h, length-append xs (x ∷ []));
  shown = λ i k.
      entry-set q.entries ((q.head + q.len) % 16) ((q.head + i) % 16) (some x)
        (omega (arith, v.sized))
      ∙ ap₂ (λ b o. if b then some x else o)
          (ring_test q.head q.len (length xs) i v.counted v.placed h k) (v.shown i k)
      ∙ sym (get_elem?-append xs x i);
}

pub pop_empty : (q : FixedQueue) → q.len ≡ 0 → pop q ≡ (q, none)
unfolding pop
pop_empty q h = ground arith

-- What `pop` leaves of a ring that is not empty.
abbrev popped : FixedQueue → FixedQueue
popped q = record {
  entries = set q.entries q.head none;
  head = (q.head + 1) % max_outstanding_commands;
  len = q.len - 1;
}

pop_taken : (q : FixedQueue) (n : ℕ) → q.len ≡ suc n → pop q ≡ (popped q, entry q.entries q.head)
unfolding pop
pop_taken q n h = ground arith

popped-shown :
    (q : FixedQueue) (x : ℕ) (xs : List ℕ) (i : ℕ)
    → Represents q (x ∷ xs)
    → i < 16
    → behind (popped q) i ≡ get_elem? xs i
popped-shown q x xs i v k = elim (ℕ_discrete i 15) [
  | yes e ↦
      let there : (((q.head + 1) % 16 + i) % 16) ≡ q.head = omega (arith, v.placed) in
      entry-set q.entries q.head (((q.head + 1) % 16 + i) % 16) none
        (omega (arith, v.sized, v.placed))
      ∙ rw there (rw ((==_iff q.head q.head).1 refl, get_elem?-past xs i (omega (arith, v.few))))
  | no d ↦
      let there : (((q.head + 1) % 16 + i) % 16) ≡ (q.head + suc i) % 16 =
        omega (arith, v.placed) in
      let other : q.head ≢ (q.head + suc i) % 16 = omega (arith, v.placed) in
      entry-set q.entries q.head (((q.head + 1) % 16 + i) % 16) none
        (omega (arith, v.sized, v.placed))
      ∙ rw there (ground arith ∙ v.shown (suc i) (omega arith))
]

pub pop-Represents :
    (q : FixedQueue) (x : ℕ) (xs : List ℕ)
    → Represents q (x ∷ xs)
    → ((pop q).1 ≡ some x) × Represents (pop q).0 xs
pop-Represents q x xs v = rw (pop_taken q (length xs) v.counted) (
  (let at : (q.head + 0) % 16 ≡ q.head = omega (arith, v.placed) in
      ap (entry q.entries) (sym at) ∙ v.shown 0 (omega arith)),
  record {
    sized = omega (arith, length-set q.entries q.head none, v.sized);
    placed = omega arith;
    counted = omega (arith, v.counted);
    few = omega (arith, v.few);
    shown = λ i k. popped-shown q x xs i v k;
  },
)
