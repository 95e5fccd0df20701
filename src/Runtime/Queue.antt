-- ===== src/Runtime/Queue.antt =====
-- crates/och-runtime/src/ingress.rs: `FixedQueue`, the ring of slot indices that wait for the writer.
pub mod Ring
pub mod Fifo
use open_control_historian.Base.{
  Bool, List, Option, [], if◌then◌else◌, is_some, ltb, none, not, replicate, set, some, suc, zero,
  ℕ, ◌%◌, ◌&&◌, ◌+◌, ◌-◌, ◌==◌, ◌∷◌,
}

abbrev pub max_outstanding_commands : ℕ
max_outstanding_commands = 16

pub record FixedQueue : Type 0 where
  pub entries : List (Option ℕ)
  pub head : ℕ
  pub len : ℕ

unfoldable pub new : FixedQueue
new = record { entries = replicate max_outstanding_commands none; head = 0; len = 0 }

-- An index into the array, whose entry is `None` when it is free.
unfoldable pub entry : List (Option ℕ) → ℕ → Option ℕ
entry [] i = none
entry (e ∷ es) zero = e
entry (e ∷ es) (suc i) = entry es i

unfoldable pub can_push : FixedQueue → Bool
can_push q =
    ltb q.len max_outstanding_commands
    && not (is_some (entry q.entries ((q.head + q.len) % max_outstanding_commands)))

unfoldable pub push : FixedQueue → ℕ → FixedQueue
push q slot_index = record q {
  entries = set q.entries ((q.head + q.len) % max_outstanding_commands) (some slot_index);
  len = q.len + 1;
}

unfoldable pub pop : FixedQueue → FixedQueue × Option ℕ
pop q = if q.len == 0 then (q, none) else (
  record {
    entries = set q.entries q.head none;
    head = (q.head + 1) % max_outstanding_commands;
    len = q.len - 1;
  },
  entry q.entries q.head,
)

unfoldable pub clear : FixedQueue → FixedQueue
clear q = record { entries = replicate max_outstanding_commands none; head = 0; len = 0 }
