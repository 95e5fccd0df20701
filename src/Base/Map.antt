-- ===== src/Base/Map.antt =====
-- `BTreeMap` with byte arrays for keys: an association list in ascending order of keys.
pub mod Laws
use Prim.Native.Nat.{ℕ, zero, suc, ◌+◌}
use mathlib.Core.Path.{◌≡◌, refl, ap₂}
use mathlib.Core.Bool.{Bool, true, false, ◌&&◌, ◌||◌}
use mathlib.Core.Option.{Option, none, some}
use mathlib.Core.List.{List, [], ◌∷◌}
use mathlib.Core.Logic.{◌≢◌, inl, inr}
use native.Mathlib.Omega.{arith}
use native.Mathlib.Decide.{ℕ_discrete}
use open_control_historian.Base.Tests.{holds, if◌then◌else◌, ltb, ◌==◌}

abbrev pub Bytes : Type 0
Bytes = List ℕ

unfoldable pub Bytes-discrete : Discrete Bytes
Bytes-discrete = hlevel ℕ_discrete

-- The derived equality and order of byte arrays.
abbrev pub same_bytes : Bytes → Bytes → Bool
same_bytes a b = holds (Bytes-discrete a b)

unfoldable pub bytes_lt : Bytes → Bytes → Bool
bytes_lt [] [] = false
bytes_lt [] (y ∷ ys) = true
bytes_lt (x ∷ xs) [] = false
bytes_lt (x ∷ xs) (y ∷ ys) = ltb x y || (x == y) && bytes_lt xs ys

pub bytes_lt_trans :
    (a b c : Bytes) → bytes_lt a b ≡ true → bytes_lt b c ≡ true → bytes_lt a c ≡ true
unfolding bytes_lt
bytes_lt_trans [] [] c h k = cc
bytes_lt_trans [] (y ∷ ys) [] h k = cc
bytes_lt_trans [] (y ∷ ys) (z ∷ zs) h k = refl
bytes_lt_trans (x ∷ xs) [] c h k = cc
bytes_lt_trans (x ∷ xs) (y ∷ ys) [] h k = cc
bytes_lt_trans (x ∷ xs) (y ∷ ys) (z ∷ zs) h k = ground (arith, bytes_lt_trans xs ys zs)

-- Two keys that are not the same are in one order or the other.
pub bytes_lt_total : (a b : Bytes) → a ≢ b → bytes_lt b a ≡ false → bytes_lt a b ≡ true
unfolding bytes_lt
bytes_lt_total [] [] n h = absurd (n refl)
bytes_lt_total [] (y ∷ ys) n h = refl
bytes_lt_total (x ∷ xs) [] n h = cc
bytes_lt_total (x ∷ xs) (y ∷ ys) n h = elim (ℕ_discrete x y) [
  | yes e ↦ ground (arith, bytes_lt_total xs ys (λ p. n (ap₂ ◌∷◌ e p)))
  | no d ↦ ground arith
]

module _ {ℓ} {V : Type ℓ} where
  unfoldable pub lookup : Bytes → List (Bytes × V) → Option V
  lookup k [] = none
  lookup k ((j, v) ∷ m) = if same_bytes j k then some v else lookup k m

  -- A key that is there keeps its place and takes the new value.
  unfoldable pub insert : Bytes → V → List (Bytes × V) → List (Bytes × V)
  insert k v [] = (k, v) ∷ []
  insert k v ((j, w) ∷ m) =
      if same_bytes j k
      then (j, v) ∷ m
      else (if bytes_lt k j then (k, v) ∷ (j, w) ∷ m else (j, w) ∷ insert k v m)

  -- Writing through `get_mut`.
  unfoldable pub update : Bytes → V → List (Bytes × V) → List (Bytes × V)
  update k v [] = []
  update k v ((j, w) ∷ m) = if same_bytes j k then (j, v) ∷ m else (j, w) ∷ update k v m

  abbrev pub KeyBefore : Bytes × V → Bytes × V → Type 0
  KeyBefore a b = bytes_lt a.0 b.0 ≡ true
