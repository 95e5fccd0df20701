-- ===== src/Store/Words.antt =====
-- Integers as big-endian bytes, the way `to_be_bytes` and `from_be_bytes` of std lay them out.
use open_control_historian.Base.{
  All, All-append, Bool, List, [], ap, append-nil, append_assoc, arith, if◌then◌else◌, length,
  length-append, ltb, refl, subst, suc, sym, zero, ℕ, ◌%◌, ◌*◌, ◌++◌, ◌+◌, ◌-◌, ◌/◌, ◌<◌, ◌^◌, ◌∙◌,
  ◌∷◌, ◌≡◌, ◌≤◌,
}
use open_control_historian.Base.Int.{negsuc, pos, ℤ}
use open_control_historian.Core.Timestamp.{fits_i64}
use Prim.Native.Nat.pow
use native.Mathlib.Nat.{mul-le-mul_right, mul_assoc, mul_comm}

abbrev pub Bytes : Type 0
Bytes = List ℕ

-- The low `width` bytes of a number, most significant first.
unfoldable pub to_be_bytes : ℕ → ℕ → Bytes
to_be_bytes zero n = []
to_be_bytes (suc width) n = to_be_bytes width (n / 256) ++ n % 256 ∷ []

unfoldable pub add_bytes : ℕ → Bytes → ℕ
add_bytes total [] = total
add_bytes total (b ∷ bs) = add_bytes (total * 256 + b) bs

abbrev pub from_be_bytes : Bytes → ℕ
from_be_bytes bytes = add_bytes 0 bytes

-- The two's complement of an `i64`.
abbrev pub to_word : ℤ → ℕ
to_word (pos n) = n
to_word (negsuc n) = 2 ^ 64 - 1 - n

abbrev pub from_word : ℕ → ℤ
from_word w = if ltb w (2 ^ 63) then pos w else negsuc (2 ^ 64 - 1 - w)

pub length-to_be_bytes : (width n : ℕ) → length (to_be_bytes width n) ≡ width
unfolding to_be_bytes
length-to_be_bytes zero n = refl
length-to_be_bytes (suc width) n = omega (
  arith,
  length-append (to_be_bytes width (n / 256)) (n % 256 ∷ []),
  length-to_be_bytes width (n / 256),
)

add_bytes-append :
    (total : ℕ) (xs : Bytes) (b : ℕ) → add_bytes total (xs ++ b ∷ []) ≡ add_bytes total xs * 256 + b
unfolding add_bytes
add_bytes-append total [] b = refl
add_bytes-append total (x ∷ xs) b = add_bytes-append (total * 256 + x) xs b

pub from-to_be_bytes : (width n : ℕ) → n < 256 ^ width → from_be_bytes (to_be_bytes width n) ≡ n
unfolding to_be_bytes
from-to_be_bytes zero n h = unfold add_bytes in omega (arith, h)
from-to_be_bytes (suc width) n h =
    let small : n < 256 ^ width * 256 = subst (λ x. n < x) (pow.suc 256 width) h in
    let rest = from-to_be_bytes width (n / 256) (omega (arith, small)) in
    omega (arith, rest, add_bytes-append 0 (to_be_bytes width (n / 256)) (n % 256))

-- A byte is below 256.
abbrev pub AreBytes : Bytes → Type 0
AreBytes xs = All (λ b. b < 256) xs

pub to_be_bytes-AreBytes : (width n : ℕ) → AreBytes (to_be_bytes width n)
unfolding to_be_bytes
to_be_bytes-AreBytes zero n = tt
to_be_bytes-AreBytes (suc width) n =
    All-append _ (to_be_bytes width (n / 256)) (n % 256 ∷ []) (to_be_bytes-AreBytes width (n / 256))
      (omega arith, tt)

to_be-add_bytes :
    (width total : ℕ) (xs : Bytes)
    → AreBytes xs
    → to_be_bytes (width + length xs) (add_bytes total xs) ≡ to_be_bytes width total ++ xs
unfolding add_bytes to_be_bytes
to_be-add_bytes width total [] _ =
    let same : width + 0 ≡ width = omega arith in
    ap (λ w. to_be_bytes w total) same ∙ sym (append-nil (to_be_bytes width total))
to_be-add_bytes width total (b ∷ xs) (small, bytes) =
    let same : width + suc (length xs) ≡ suc width + length xs = omega arith in
    let high : (total * 256 + b) / 256 ≡ total = omega (arith, small) in
    let low : (total * 256 + b) % 256 ≡ b = omega (arith, small) in
    let later = to_be-add_bytes (suc width) (total * 256 + b) xs bytes in
    ap (λ w. to_be_bytes w (add_bytes (total * 256 + b) xs)) same
    ∙ later
    ∙ (rw (high, low) (append_assoc (to_be_bytes width total) (b ∷ []) xs))

-- Bytes are those of the number that they spell.
pub to-from_be_bytes :
    (width : ℕ) (xs : Bytes)
    → length xs ≡ width
    → AreBytes xs
    → to_be_bytes width (from_be_bytes xs) ≡ xs
to-from_be_bytes width xs size bytes =
    let all : to_be_bytes (0 + length xs) (from_be_bytes xs) ≡ xs =
      unfold to_be_bytes in to_be-add_bytes 0 0 xs bytes in
    let same : 0 + length xs ≡ width = omega (arith, size) in
    subst (λ w. to_be_bytes w (from_be_bytes xs) ≡ xs) same all

add_bytes-bound :
    (total : ℕ) (xs : Bytes) → AreBytes xs → add_bytes total xs < (total + 1) * 256 ^ length xs
unfolding add_bytes
add_bytes-bound total [] _ = omega arith
add_bytes-bound total (b ∷ xs) (small, bytes) =
    let p = 256 ^ length xs in
    let later = add_bytes-bound (total * 256 + b) xs bytes in
    let step : 256 ^ length (b ∷ xs) ≡ p * 256 = pow.suc 256 (length xs) in
    let wider : total * 256 + b + 1 ≤ (total + 1) * 256 = omega (arith, small) in
    let grown : (total * 256 + b + 1) * p ≤ (total + 1) * 256 * p = mul-le-mul_right p wider in
    let flat : (total + 1) * 256 * p ≡ (total + 1) * (p * 256) =
      mul_assoc (total + 1) 256 p ∙ ap (λ x. (total + 1) * x) (mul_comm 256 p) in
    rw step (omega (arith, later, grown, flat))

pub from_be_bytes-bound : (xs : Bytes) → AreBytes xs → from_be_bytes xs < 256 ^ length xs
from_be_bytes-bound xs bytes = omega (arith, add_bytes-bound 0 xs bytes)

pub from-to_word : (z : ℤ) → fits_i64 z ≡ Bool.true → from_word (to_word z) ≡ z
from-to_word (pos n) h = ground arith
from-to_word (negsuc n) h = ground arith

pub to_word-bound : (z : ℤ) → fits_i64 z ≡ Bool.true → to_word z < 256 ^ 8
to_word-bound (pos n) h = ground arith
to_word-bound (negsuc n) h = ground arith
