-- ===== src/Runtime/Receipt/Kept.antt =====
-- Receipts that keep their places and outcomes, all of a list.
use open_control_historian.Base.{List, [], suc, zero, ℕ, ◌++◌, ◌∷◌}
use open_control_historian.Runtime.Receipt.{ReceiptState, resolve_at, resolve_stopped}
use open_control_historian.Runtime.Receipt.Final.{
  Keeps, Keeps-refl, Keeps-trans, resolve_with-Keeps, stopped,
}

-- Every receipt of the first list keeps its place and its outcomes in the second.
unfoldable pub AllKept : List ReceiptState → List ReceiptState → Type 0
AllKept [] ts = Unit
AllKept (r ∷ rs) [] = ⊥
AllKept (r ∷ rs) (t ∷ ts) = Keeps r t × AllKept rs ts

pub AllKept-refl : (rs : List ReceiptState) → AllKept rs rs
unfolding AllKept
AllKept-refl [] = tt
AllKept-refl (r ∷ rs) = (Keeps-refl r, AllKept-refl rs)

pub AllKept-trans : (rs ts us : List ReceiptState) → AllKept rs ts → AllKept ts us → AllKept rs us
unfolding AllKept
AllKept-trans [] ts us h k = tt
AllKept-trans (r ∷ rs) [] us h k = absurd h
AllKept-trans (r ∷ rs) (t ∷ ts) [] h k = absurd k
AllKept-trans (r ∷ rs) (t ∷ ts) (u ∷ us) h k =
    (Keeps-trans r t u h.0 k.0, AllKept-trans rs ts us h.1 k.1)

pub AllKept-append : (rs : List ReceiptState) (x : ReceiptState) → AllKept rs (rs ++ x ∷ [])
unfolding AllKept
AllKept-append [] x = tt
AllKept-append (r ∷ rs) x = (Keeps-refl r, AllKept-append rs x)

pub AllKept-resolve_at :
    (f : ReceiptState → ReceiptState) (i : ℕ) (rs : List ReceiptState)
    → ((r : ReceiptState) → Keeps r (f r))
    → AllKept rs (resolve_at f i rs)
unfolding AllKept resolve_at
AllKept-resolve_at f i [] h = tt
AllKept-resolve_at f zero (r ∷ rs) h = (h r, AllKept-refl rs)
AllKept-resolve_at f (suc i) (r ∷ rs) h = (Keeps-refl r, AllKept-resolve_at f i rs h)

pub AllKept-stopped :
    (i : ℕ) (rs : List ReceiptState) → AllKept rs (resolve_at (λ t. (resolve_stopped t).0) i rs)
AllKept-stopped i rs =
    AllKept-resolve_at (λ t. (resolve_stopped t).0) i rs (λ r. resolve_with-Keeps r stopped)
