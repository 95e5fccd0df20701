-- ===== src/Runtime/Tests.antt =====
-- The theorems of the ingress runtime at concrete inputs.
use open_control_historian.Base.{
  List, Option, [], arith, err, false, none, ok, refl, some, true, ℕ, ℕ_discrete, ◌*◌, ◌+◌, ◌<◌,
  ◌^◌, ◌↔◌, ◌∷◌, ◌≡◌, ◌≤◌, ◌⊎◌,
}
use open_control_historian.Base.Map.{Bytes-discrete}
use open_control_historian.Base.Int.{pos}
use open_control_historian.Core.Bounded.{Uuid}
use open_control_historian.Core.Timestamp.{Timestamp}
use open_control_historian.Core.Position.{ProducerPosition}
use open_control_historian.Core.Value.{good, unsigned}
use open_control_historian.Core.Observation.{sampled}
use open_control_historian.Runtime.Latest.{
  LatestSnapshot, LatestState, PlannedAdvance, PublishedObservation, advance, can_complete,
  find_indexed, make_unavailable, new, plan, plan_candidate, plan_in, publish_all, published, seal,
  stage,
}
use open_control_historian.Runtime.Latest.Order.{SeenAfter, publish_all-SeenAfter}
use open_control_historian.Runtime.Latest.Capacity.{CurrentIsBounded, publish_all-new-IsBounded}
use open_control_historian.Runtime.Latest.Refusal.{
  can_complete-publish_all, make_unavailable-publish_all, seal-publish_all,
}
use open_control_historian.Core.Retry.{classify}
use open_control_historian.Runtime.Commit.{AppendIdentity, JournalIdentity, ManifestCommit}
use open_control_historian.Runtime.Reservation.{
  AdmissionPriority, ByteReservationLimits, bulk, class_ceiling, group, normal, protected,
}
use open_control_historian.Runtime.Queue.{max_outstanding_commands}
use open_control_historian.Runtime.Queue.Fifo.{
  QueueOp, answers, answers-fifo_answers, clears, fifo_answers, offers, takes,
}
use open_control_historian.Runtime.Ingress.{
  IngressCommand, IngressState, active_count, can_reserve, free_slot, fresh_retry, full,
  outstanding_match, preparing_in, reserve, reserve_fresh, reserve_in, reserve_measured,
  reserve_retained, slot_at,
}
use open_control_historian.Runtime.Ingress.Totals.{weigh}
use open_control_historian.Runtime.Ingress.Accounting.{IsAccounted}
use open_control_historian.Runtime.Ingress.Runs.{
  Event, closes, enqueues, happen, run, run-new-IsAccounted, stops_all, submits, takes_next,
}
use open_control_historian.Runtime.Queue
use open_control_historian.Runtime.Ingress
use open_control_historian.Runtime.Ingress.Receipts.{run-AllKept}
use open_control_historian.Runtime.Receipt.Kept.{AllKept}
use open_control_historian.Runtime.Ingress.Protected.{protected_bytes, reserve-protected}
use open_control_historian.Runtime.Queue
use open_control_historian.Runtime.Ingress
use open_control_historian.Runtime.Queue
use open_control_historian.Runtime.Ingress
use open_control_historian.Runtime.Queue
use open_control_historian.Runtime.Ingress
use open_control_historian.Runtime.Queue
use open_control_historian.Runtime.Ingress
use open_control_historian.Runtime.Queue
use open_control_historian.Runtime.Ingress
use open_control_historian.Runtime.Queue
use open_control_historian.Runtime.Ingress
use open_control_historian.Runtime.Queue
use open_control_historian.Runtime.Ingress
use open_control_historian.Runtime.Queue
use open_control_historian.Runtime.Ingress
use open_control_historian.Runtime.Queue
use open_control_historian.Runtime.Ingress
use open_control_historian.Runtime.Queue
use open_control_historian.Runtime.Ingress
use open_control_historian.Runtime.Queue
use open_control_historian.Runtime.Ingress
use open_control_historian.Runtime.Queue
use open_control_historian.Runtime.Ingress

abbrev identity : ℕ → Uuid
identity n =
    0x01 ∷ 0x94 ∷ 0x1f ∷ 0x29 ∷ 0x7c ∷ 0x00 ∷ 0x70 ∷ 0x00 ∷ 0x80 ∷ 0x00 ∷ 0x00 ∷ 0x00 ∷ 0x00 ∷ 0x00
    ∷ 0x00 ∷ n ∷ []

abbrev midnight : Timestamp
midnight = record { unix_seconds = pos 0; nanosecond = 0 }

abbrev position : ℕ → ProducerPosition
position sequence = record { epoch = 1; sequence = sequence }

-- An observation of a series at a sequence number.
abbrev latest : ℕ → ℕ → PublishedObservation
latest series_id sequence = record {
  series = record {
    series_id = identity series_id;
    producer_id = identity 16;
    collection_mode = sampled;
  };
  observation = record {
    id = identity sequence;
    value = unsigned sequence;
    times = record { source = none; receive = midnight; effective = midnight };
    quality = record { level = good; flags = 0 };
    native_status = [];
    producer_position = some (position sequence);
    interval = none;
  };
  position = position sequence;
}

abbrev candidates : List (ℕ × Option PublishedObservation)
candidates = (1, some (latest 1 30)) ∷ (2, some (latest 2 31)) ∷ (3, some (latest 1 32)) ∷ []

abbrev first_state : LatestState
first_state = publish_all (new (identity 100) 0) candidates

publish_all-SeenAfter_example :
    SeenAfter first_state (publish_all first_state candidates) (identity 1)
publish_all-SeenAfter_example = publish_all-SeenAfter first_state candidates (identity 1)

publish_all-new-IsBounded_example : CurrentIsBounded first_state.current
publish_all-new-IsBounded_example = publish_all-new-IsBounded (identity 100) 0 candidates

abbrev snapshot : ℕ → List PublishedObservation → LatestSnapshot
snapshot id entries = record { store_id = identity 100; entries_id = id; entries = entries }

abbrev open_state : LatestState
open_state = new (identity 100) 0

abbrev first_plan : PlannedAdvance
first_plan = record { base = snapshot 0 []; index = none; candidate = latest 1 30 }

first_planned : plan open_state (some (latest 1 30)) ≡ ok (advance first_plan)
unfolding new plan plan_candidate plan_in find_indexed
first_planned = refl

can_complete-publish_all_example :
    (can_complete
        (publish_all open_state ((1, some (latest 2 31)) ∷ (2, none) ∷ []))
        (stage 3 (advance first_plan))
      ≡ true)
    ↔ (publish_all open_state ((1, some (latest 2 31)) ∷ (2, none) ∷ []) ≡ open_state)
can_complete-publish_all_example =
    can_complete-publish_all open_state (some (latest 1 30)) first_plan 3
      ((1, some (latest 2 31)) ∷ (2, none) ∷ []) first_planned
      ((λ e. ground arith), ((λ e. ground arith), tt))

make_unavailable-publish_all_example :
    published (publish_all (make_unavailable first_state) candidates) (identity 1) ≡ none
make_unavailable-publish_all_example =
    make_unavailable-publish_all first_state candidates (identity 1)

sealed_once : (seal open_state).1 ≡ true
unfolding seal new
sealed_once = refl

seal-publish_all_example :
    (published (seal open_state).0 (identity 1) ≡ published open_state (identity 1))
    × ((seal (seal open_state).0).1 ≡ false)
    × ((publish_all (seal open_state).0 ((1, some (latest 1 30)) ∷ [])).current ≡ none)
seal-publish_all_example =
    seal-publish_all open_state 1 (some (latest 1 30)) [] (identity 1) sealed_once

abbrev operations : List QueueOp
operations = offers 3 ∷ offers 1 ∷ takes ∷ takes ∷ takes ∷ offers 7 ∷ clears ∷ takes ∷ []

answers-fifo_answers_example : answers Queue.new operations ≡ fifo_answers [] operations
answers-fifo_answers_example = answers-fifo_answers operations

abbrev journal : JournalIdentity
journal = record { store_id = identity 100; generation = 1 }

abbrev appended : ℕ → AppendIdentity
appended n = record { journal = journal; append_sequence = n; end_offset = 100 * n }

abbrev first_commit : ManifestCommit
first_commit = record {
  manifest_generation = 1;
  registry_generation = 1;
  registry_slot = 0;
  durable_cutoff = record {
    journal = journal;
    checkpoint_generation = 1;
    append_sequence = 1;
    end_offset = 100;
  };
  retry_state = record { slot = 0; generation = 1 };
  sequence_floor = 0;
  catalog = none;
}

abbrev byte_limits : ByteReservationLimits
byte_limits = record { total = 1_000; protected_reserve = 200; normal_reserve = 300 }

abbrev command : AdmissionPriority → ℕ → IngressCommand
command class key = record {
  store_id = identity 100;
  retry = record {
    series_id = identity 1;
    producer_id = identity 16;
    key = key ∷ [];
    content = record { format = []; version = 1; sha256 = [] };
  };
  priority = class;
  barrier = group;
}

abbrev ingress : IngressState
ingress = Ingress.new (identity 100) byte_limits 0

abbrev events : List Event
events =
    submits (command bulk 1) (some 400) fresh_retry
    ∷ enqueues 0
    ∷ submits (command protected 2) (some 600) fresh_retry
    ∷ takes_next
    ∷ closes
    ∷ stops_all
    ∷ []

run-new-IsAccounted_example : IsAccounted (run (identity 100) ingress events)
run-new-IsAccounted_example = run-new-IsAccounted (identity 100) byte_limits 0 events

run-AllKept_example :
    AllKept
      (run (identity 100) ingress events).receipts
      (run (identity 100) (run (identity 100) ingress events) events).receipts
run-AllKept_example = run-AllKept (identity 100) (run (identity 100) ingress events) events

-- Bulk and normal commands that fill what their classes may hold.
abbrev loading : List Event
loading =
    submits (command bulk 1) (some 500) fresh_retry
    ∷ submits (command normal 2) (some 300) fresh_retry
    ∷ []

abbrev loaded : IngressState
loaded = run (identity 100) ingress loading

loaded_as : loaded ≡ reserve_in (reserve_in ingress (command bulk 1) 500 0) (command normal 2) 300 1
unfolding run happen reserve reserve_measured reserve_retained reserve_fresh outstanding_match
    classify active_count free_slot can_reserve class_ceiling Ingress.new Bytes-discrete ℕ_discrete
loaded_as = refl

loaded-IsAccounted : IsAccounted loaded
loaded-IsAccounted = run-new-IsAccounted (identity 100) byte_limits 0 loading

loaded_bytes : weigh protected_bytes loaded.slots + 150 ≤ loaded.byte_limits.protected_reserve
unfolding weigh Ingress.new
loaded_bytes = rw loaded_as (omega arith)

loaded_fresh : outstanding_match loaded.slots (command protected 3).retry ≡ none
unfolding outstanding_match classify Ingress.new Bytes-discrete ℕ_discrete
loaded_fresh = rw loaded_as refl

loaded_open : loaded.closed ≡ false
unfolding Ingress.new
loaded_open = rw loaded_as refl

loaded_limits :
    (loaded.byte_limits.protected_reserve ≤ loaded.byte_limits.total)
    × (loaded.byte_limits.total < 2 ^ 64)
unfolding Ingress.new
loaded_limits = rw loaded_as (omega arith, omega arith)

reserve-protected_example :
    ((active_count loaded.slots ≡ max_outstanding_commands)
      × (reserve loaded (identity 100) (command protected 3) (some 150) fresh_retry
          ≡ (loaded, err full)))
    ⊎ ((active_count loaded.slots < max_outstanding_commands)
        × ((i : ℕ) × (slot_at loaded.slots i ≡ none)
            × (reserve loaded (identity 100) (command protected 3) (some 150) fresh_retry
                ≡ (reserve_in loaded (command protected 3) 150 i, ok (preparing_in i)))))
unfolding Bytes-discrete ℕ_discrete
reserve-protected_example =
    reserve-protected loaded (identity 100) (command protected 3) 150 loaded-IsAccounted
      loaded_limits.0 loaded_limits.1 loaded_open refl loaded_fresh refl loaded_bytes
