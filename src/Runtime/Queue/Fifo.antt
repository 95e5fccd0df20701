-- ===== src/Runtime/Queue/Fifo.antt =====
-- The ring as a bounded first-in first-out queue: no sequence of operations tells the two apart.
use open_control_historian.Base.{
  Bool-cases, List, Option, [], ap, ap₂, if◌then◌else◌, inl, inr, length, ltb, ltb→lt, none, refl,
  some, ℕ, ◌++◌, ◌∷◌, ◌≡◌,
}
use open_control_historian.Runtime.Queue.{
  FixedQueue, can_push, clear, max_outstanding_commands, new, pop, push,
}
use open_control_historian.Runtime.Queue.Ring.{
  Represents, can_push-Represents, new-Represents, pop-Represents, pop_empty, push-Represents,
}

-- What the runtime does with the queue: it pushes a slot where `can_push` lets it, takes the next
-- one, or empties the queue when it stops.
pub data QueueOp : Type 0 where
  offers : ℕ → QueueOp
  takes clears : QueueOp

pub data Answer : Type 0 where
  accepted refused emptied : Answer
  taken : Option ℕ → Answer

abbrev pub step : FixedQueue → QueueOp → FixedQueue × Answer
step q (offers x) = if can_push q then (push q x, accepted) else (q, refused)
step q takes = let popped = pop q in (popped.0, taken popped.1)
step q clears = (clear q, emptied)

abbrev pub answers : FixedQueue → List QueueOp → List Answer
answers q [] = []
answers q (op ∷ ops) = let after = step q op in after.1 ∷ answers after.0 ops

-- The same operations of a list that holds the slots in the order of their arrival.
abbrev pub fifo_step : List ℕ → QueueOp → List ℕ × Answer
fifo_step xs (offers x) =
    if ltb (length xs) max_outstanding_commands then (xs ++ x ∷ [], accepted) else (xs, refused)
fifo_step [] takes = ([], taken none)
fifo_step (x ∷ xs) takes = (xs, taken (some x))
fifo_step xs clears = ([], emptied)

abbrev pub fifo_answers : List ℕ → List QueueOp → List Answer
fifo_answers xs [] = []
fifo_answers xs (op ∷ ops) = let after = fifo_step xs op in after.1 ∷ fifo_answers after.0 ops

-- One operation gives the same answer and keeps the ring in step with the list.
abbrev Agree : FixedQueue × Answer → List ℕ × Answer → Type 0
Agree s t = (s.1 ≡ t.1) × Represents s.0 t.0

step-Agree :
    (q : FixedQueue) (xs : List ℕ) (op : QueueOp)
    → Represents q xs
    → Agree (step q op) (fifo_step xs op)
unfolding clear new
step-Agree q xs (offers x) v = elim (Bool-cases (ltb (length xs) 16)) [
  | inl less ↦
      rw (can_push-Represents q xs v, less) (refl, push-Represents q xs x v (ltb→lt _ _ less))
  | inr full ↦ rw (can_push-Represents q xs v, full) (refl, v)
]
step-Agree q [] takes v = rw (pop_empty q v.counted) (refl, v)
step-Agree q (x ∷ xs) takes v =
    let (first, rest) = pop-Represents q x xs v in (ap taken first, rest)
step-Agree q [] clears v = (refl, new-Represents)
step-Agree q (x ∷ xs) clears v = (refl, new-Represents)

answers-Represents :
    (q : FixedQueue) (xs : List ℕ) (ops : List QueueOp)
    → Represents q xs
    → answers q ops ≡ fifo_answers xs ops
answers-Represents q xs [] v = refl
answers-Represents q xs (op ∷ ops) v =
    let agreed = step-Agree q xs op v in
    ap₂ ◌∷◌ agreed.0 (answers-Represents (step q op).0 (fifo_step xs op).0 ops agreed.1)

-- From an empty ring every sequence of offers, takes and clears is answered as a list would answer
-- it that holds at most sixteen slots, adds at its end and takes from its front.
pub answers-fifo_answers : (ops : List QueueOp) → answers new ops ≡ fifo_answers [] ops
answers-fifo_answers ops = answers-Represents new [] ops new-Represents
