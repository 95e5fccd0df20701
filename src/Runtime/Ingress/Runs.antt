-- ===== src/Runtime/Ingress/Runs.antt =====
-- Any interleaving of the critical sections: the accounts hold throughout, and what they are good for.
use open_control_historian.Base.{Bool, List, Option, [], refl, ℕ, ◌∷◌}
use open_control_historian.Core.Bounded.{Uuid}
use open_control_historian.Runtime.Commit.{AppendIdentity, ManifestCommit}
use open_control_historian.Runtime.Reservation.{ByteReservationLimits}
use open_control_historian.Runtime.Latest.{PreparedPublication}
use open_control_historian.Runtime.Ingress.{
  IngressCommand, IngressState, RetryStateMatch, close_admission, new, reserve, stop_all,
}
use open_control_historian.Runtime.Ingress.Writer.{
  DurableBatchEntry, complete_durable_batch, complete_handled, enqueue, rollback_preparation,
  take_next,
}
use open_control_historian.Runtime.Ingress.Accounting.{
  IsAccounted, load-IsAccounted, new-IsAccounted, stop_all-IsAccounted,
}
use open_control_historian.Runtime.Ingress.Steps.{
  enqueue-IsAccounted, reserve-IsAccounted, rollback-IsAccounted, take_next-IsAccounted,
}
use open_control_historian.Runtime.Ingress.Batches.{
  complete_durable_batch-IsAccounted, complete_handled-IsAccounted,
}

-- One critical section, of a submitter, the writer, the store worker or the supervisor, with what it
-- is given.
pub data Event : Type 0 where
  submits : IngressCommand → Option ℕ → RetryStateMatch → Event
  enqueues rolls_back : ℕ → Event
  takes_next closes stops_all : Event
  handles : ℕ → AppendIdentity → PreparedPublication → Event
  commits_batch : Bool → List DurableBatchEntry → ManifestCommit → Event

unfoldable pub happen : Uuid → IngressState → Event → IngressState
happen store_id s (submits c measured seen) = (reserve s store_id c measured seen).0
happen store_id s (enqueues i) = (enqueue s i).0
happen store_id s (rolls_back i) = rollback_preparation s i
happen store_id s takes_next = (take_next s).0
happen store_id s closes = close_admission s
happen store_id s stops_all = stop_all s
happen store_id s (handles i append preparation) = (complete_handled s i append preparation).0
happen store_id s (commits_batch verified entries committed) =
    (complete_durable_batch s verified entries committed).0

unfoldable pub run : Uuid → IngressState → List Event → IngressState
run store_id s [] = s
run store_id s (e ∷ es) = run store_id (happen store_id s e) es

happen-IsAccounted :
    (store_id : Uuid) (s : IngressState) (e : Event)
    → IsAccounted s
    → IsAccounted (happen store_id s e)
unfolding happen close_admission
happen-IsAccounted store_id s (submits c measured seen) v =
    reserve-IsAccounted s store_id c measured seen v
happen-IsAccounted store_id s (enqueues i) v = enqueue-IsAccounted s i v
happen-IsAccounted store_id s (rolls_back i) v = rollback-IsAccounted s i v
happen-IsAccounted store_id s takes_next v = take_next-IsAccounted s v
happen-IsAccounted store_id s closes v = load-IsAccounted s _ refl refl refl v
happen-IsAccounted store_id s stops_all v = stop_all-IsAccounted s v
happen-IsAccounted store_id s (handles i append preparation) v =
    complete_handled-IsAccounted s i append preparation v
happen-IsAccounted store_id s (commits_batch verified entries committed) v =
    complete_durable_batch-IsAccounted s verified entries committed v

run-IsAccounted :
    (store_id : Uuid) (s : IngressState) (es : List Event)
    → IsAccounted s
    → IsAccounted (run store_id s es)
unfolding run
run-IsAccounted store_id s [] v = v
run-IsAccounted store_id s (e ∷ es) v =
    run-IsAccounted store_id (happen store_id s e) es (happen-IsAccounted store_id s e v)

-- In any order of critical sections from a new ingress on, there are sixteen slots, the bytes that
-- are reserved are exactly those of the slots, and for each class the bytes of the slots at or below
-- it stay within its ceiling.
pub run-new-IsAccounted :
    (store_id : Uuid) (limits : ByteReservationLimits) (fresh : ℕ) (es : List Event)
    → IsAccounted (run store_id (new store_id limits fresh) es)
run-new-IsAccounted store_id limits fresh es =
    run-IsAccounted store_id (new store_id limits fresh) es (new-IsAccounted store_id limits fresh)
