-- ===== src/Base/Map/Laws.antt =====
-- The laws of `lookup`, `insert` and `update`.
use open_control_historian.Base.Tests.{Bool-cases, false→holds, if◌then◌else◌, true→holds}
use open_control_historian.Base.Lists.{All, All-mono, Ordered, length}
use open_control_historian.Base.Map.{
  Bytes, Bytes-discrete, KeyBefore, bytes_lt, bytes_lt_total, bytes_lt_trans, insert, lookup,
  same_bytes, update,
}
use Prim.Native.Nat.{ℕ, suc, ◌+◌, ◌≤◌}
use mathlib.Core.Path.{◌≡◌, refl, subst, sym}
use mathlib.Core.Bool.{true}
use mathlib.Core.Option.{none, some, some-injective}
use mathlib.Core.List.{List, [], ◌∷◌}
use mathlib.Core.Logic.{inl, inr}
use native.Mathlib.Omega.{arith}

same_bytes_refl : (k : Bytes) → same_bytes k k ≡ true
same_bytes_refl k = true→holds (Bytes-discrete k k) refl

module _ {ℓ} {V : Type ℓ} where
  pub lookup-insert :
      (k j : Bytes) (v : V) (m : List (Bytes × V))
      → lookup j (insert k v m) ≡ (if same_bytes k j then some v else lookup j m)
  unfolding lookup insert
  lookup-insert k j v [] = refl
  lookup-insert k j v ((i, w) ∷ m) = ground (arith, lookup-insert k j v m)

  pub lookup-update :
      (k j : Bytes) (v w : V) (m : List (Bytes × V))
      → lookup k m ≡ some w
      → lookup j (update k v m) ≡ (if same_bytes k j then some v else lookup j m)
  unfolding lookup update
  lookup-update k j v w [] h = cc
  lookup-update k j v w ((i, u) ∷ m) h = ground (arith, lookup-update k j v w m)

  pub length-insert :
      (k : Bytes) (v : V) (m : List (Bytes × V))
      → lookup k m ≡ none
      → length (insert k v m) ≡ suc (length m)
  unfolding lookup insert
  length-insert k v [] h = refl
  length-insert k v ((j, w) ∷ m) h = ground (arith, length-insert k v m)

  pub length-update : (k : Bytes) (v : V) (m : List (Bytes × V)) → length (update k v m) ≡ length m
  unfolding update
  length-update k v [] = refl
  length-update k v ((j, w) ∷ m) = ground (arith, length-update k v m)

  -- The sum of a measure over the values.
  unfoldable pub total : (V → ℕ) → List (Bytes × V) → ℕ
  total f [] = 0
  total f ((k, v) ∷ m) = f v + total f m

  pub total-insert :
      (f : V → ℕ) (k : Bytes) (v : V) (m : List (Bytes × V))
      → lookup k m ≡ none
      → total f (insert k v m) ≡ f v + total f m
  unfolding lookup insert total
  total-insert f k v [] h = refl
  total-insert f k v ((j, w) ∷ m) h = ground (arith, total-insert f k v m)

  pub total-update :
      (f : V → ℕ) (k : Bytes) (v w : V) (m : List (Bytes × V))
      → lookup k m ≡ some w
      → total f (update k v m) + f w ≡ total f m + f v
  unfolding lookup update total
  total-update f k v w [] h = cc
  total-update f k v w ((j, u) ∷ m) h = ground (arith, total-update f k v w m)

  pub total-lookup :
      (f : V → ℕ) (k : Bytes) (v : V) (m : List (Bytes × V)) → lookup k m ≡ some v → f v ≤ total f m
  unfolding lookup total
  total-lookup f k v [] h = cc
  total-lookup f k v ((j, w) ∷ m) h = ground (arith, total-lookup f k v m)

  pub All-insert {κ} :
      (P : Bytes × V → Type κ) (k : Bytes) (v : V) (m : List (Bytes × V))
      → P (k, v)
      → All P m
      → All P (insert k v m)
  unfolding insert
  All-insert P k v [] p h = (p, tt)
  All-insert P k v ((j, w) ∷ m) p h = elim (Bytes-discrete j k) [
    | yes e ↦ rw (true→holds (Bytes-discrete j k) e) (subst (λ x. P (x, v)) (sym e) p, h.1)
    | no n ↦ rw (false→holds (Bytes-discrete j k) n) (elim (Bool-cases (bytes_lt k j)) [
      | inl l ↦ rw l (p, h)
      | inr g ↦ rw g (h.0, All-insert P k v m p h.1)
    ])
  ]

  pub All-update {κ} :
      (P : Bytes × V → Type κ) (k : Bytes) (v : V) (m : List (Bytes × V))
      → P (k, v)
      → All P m
      → All P (update k v m)
  unfolding update
  All-update P k v [] p h = tt
  All-update P k v ((j, w) ∷ m) p h = elim (Bytes-discrete j k) [
    | yes e ↦ rw (true→holds (Bytes-discrete j k) e) (subst (λ x. P (x, v)) (sym e) p, h.1)
    | no n ↦ rw (false→holds (Bytes-discrete j k) n) (h.0, All-update P k v m p h.1)
  ]

  pub All-lookup {κ} :
      (P : Bytes × V → Type κ) (k : Bytes) (v : V) (m : List (Bytes × V))
      → All P m
      → lookup k m ≡ some v
      → P (k, v)
  unfolding lookup
  All-lookup P k v [] h e = cc
  All-lookup P k v ((j, w) ∷ m) h e = elim (Bytes-discrete j k) [
    | yes d ↦
        let found = rw (true→holds (Bytes-discrete j k) d) at e in
        subst (λ x. P (k, x)) (some-injective w v found) (subst (λ x. P (x, w)) d h.0)
    | no n ↦ All-lookup P k v m h.1 (rw (false→holds (Bytes-discrete j k) n) at e)
  ]

  -- The order of keys sees the key alone.
  above_update :
      (a : Bytes × V) (k : Bytes) (v w : V) (m : List (Bytes × V))
      → All (KeyBefore a) m
      → All (KeyBefore a) (update k v m)
  unfolding update
  above_update a k v w [] h = tt
  above_update a k v w ((j, u) ∷ m) h = ground (arith, above_update a k v w m)

  pub update-Ordered :
      (k : Bytes) (v : V) (m : List (Bytes × V))
      → Ordered KeyBefore m
      → Ordered KeyBefore (update k v m)
  unfolding update
  update-Ordered k v [] h = tt
  update-Ordered k v ((j, w) ∷ m) h =
      ground (arith, update-Ordered k v m, above_update (j, w) k v w m)

  pub insert-Ordered :
      (k : Bytes) (v : V) (m : List (Bytes × V))
      → Ordered KeyBefore m
      → Ordered KeyBefore (insert k v m)
  unfolding insert
  insert-Ordered k v [] h = (tt, tt)
  insert-Ordered k v ((j, w) ∷ m) h = elim (Bytes-discrete j k) [
    | yes e ↦ rw (true→holds (Bytes-discrete j k) e) h
    | no n ↦ rw (false→holds (Bytes-discrete j k) n) (elim (Bool-cases (bytes_lt k j)) [
      | inl l ↦ rw l (
        (l, All-mono (KeyBefore (j, w)) (KeyBefore (k, v)) (λ b. bytes_lt_trans k j b.0 l) m h.0),
        h,
      )
      | inr g ↦ rw g (
        All-insert (KeyBefore (j, w)) k v m (bytes_lt_total j k n g) h.0,
        insert-Ordered k v m h.1,
      )
    ])
  ]
