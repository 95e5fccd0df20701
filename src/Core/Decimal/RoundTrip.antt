-- ===== src/Core/Decimal/RoundTrip.antt =====
-- A `u128` that is printed is parsed back.
use open_control_historian.Base.{
  &&-true, Bool, Bool-cases, [], arith, false, inl, inr, length, length-append, ltb, ltb→lt, ok,
  refl, subst, suc, true, zero, ℕ, ◌%◌, ◌*◌, ◌++◌, ◌+◌, ◌/◌, ◌<◌, ◌==◌, ◌^◌, ◌∷◌, ◌≡◌, ◌≢◌, ◌≤◌,
}
use open_control_historian.Core.Bounded.{Text, all_bytes}
use open_control_historian.Core.Decimal.{
  add_digits-display, display_digits, is_digit, leads_with_zero, parse_canonical_u128,
}
use Prim.Native.Nat.pow

length-display : (fuel n : ℕ) → length (display_digits fuel n) ≤ fuel
unfolding display_digits
length-display zero n = omega arith
length-display (suc fuel) n = elim (Bool-cases (ltb n 10)) [
  | inl e ↦ rw (e, display_digits) (omega arith)
  | inr e ↦
      rw (e, display_digits)
        (omega (
          arith,
          length-append (display_digits fuel (n / 10)) ((b'0' + n % 10) ∷ []),
          length-display fuel (n / 10),
        ))
]

all_bytes-append :
    (test : ℕ → Bool) (xs : Text) (d : ℕ)
    → all_bytes test xs ≡ true
    → test d ≡ true
    → all_bytes test (xs ++ d ∷ []) ≡ true
unfolding all_bytes
all_bytes-append test [] d h k = rw k
all_bytes-append test (x ∷ xs) d h k =
    let (first, rest) = &&-true (test x) (all_bytes test xs) h in
    rw (first, all_bytes-append test xs d rest k)

is_digit-shown : (n : ℕ) → n < 10 → is_digit (b'0' + n) ≡ true
is_digit-shown n h = ground arith

digits_only : (fuel n : ℕ) → all_bytes is_digit (display_digits fuel n) ≡ true
unfolding display_digits all_bytes
digits_only zero n = refl
digits_only (suc fuel) n = elim (Bool-cases (ltb n 10)) [
  | inl e ↦ rw (e, display_digits) (rw (is_digit-shown n (ltb→lt _ _ e)))
  | inr e ↦
      rw (e, display_digits)
        (all_bytes-append is_digit (display_digits fuel (n / 10)) (b'0' + n % 10)
          (digits_only fuel (n / 10)) (is_digit-shown (n % 10) (omega arith)))
]

-- The text has a first byte, which is not `0`.
StartsNonzero : Text → Type 0
StartsNonzero [] = ⊥
StartsNonzero (b ∷ bs) = b ≢ b'0'

StartsNonzero-append : (xs ys : Text) → StartsNonzero xs → StartsNonzero (xs ++ ys)
unfolding StartsNonzero
StartsNonzero-append [] ys h = absurd h
StartsNonzero-append (x ∷ xs) ys h = h

leads_with_zero-StartsNonzero : (xs : Text) → StartsNonzero xs → leads_with_zero xs ≡ false
unfolding StartsNonzero
leads_with_zero-StartsNonzero [] h = absurd h
leads_with_zero-StartsNonzero (x ∷ []) h = refl
leads_with_zero-StartsNonzero (x ∷ y ∷ xs) h = ground arith

display-StartsNonzero : (fuel n : ℕ) → 0 < n → n < 10 ^ fuel → StartsNonzero (display_digits fuel n)
unfolding display_digits StartsNonzero
display-StartsNonzero zero n p h = absurd (omega (arith, p, h))
display-StartsNonzero (suc fuel) n p h = elim (Bool-cases (ltb n 10)) [
  | inl e ↦ rw (e, display_digits) (λ z. omega (arith, p, z))
  | inr e ↦
      let large : 10 ≤ n = ground arith in
      let small : n < 10 ^ fuel * 10 = subst (λ x. n < x) (pow.suc 10 fuel) h in
      rw (e, display_digits)
        (StartsNonzero-append (display_digits fuel (n / 10)) _
          (display-StartsNonzero fuel (n / 10) (omega (arith, large)) (omega (arith, small))))
]

display-canonical : (n : ℕ) → n < 10 ^ 39 → leads_with_zero (display_digits 39 n) ≡ false
unfolding display_digits
display-canonical zero h = refl
display-canonical (suc n) h =
    leads_with_zero-StartsNonzero (display_digits 39 (suc n))
      (display-StartsNonzero 39 (suc n) (omega arith) h)

display-nonempty : (fuel n : ℕ) → 0 < fuel → (length (display_digits fuel n) == 0) ≡ false
unfolding display_digits
display-nonempty zero n h = absurd (omega (arith, h))
display-nonempty (suc fuel) n h = elim (Bool-cases (ltb n 10)) [
  | inl e ↦ rw (e, display_digits) (ground arith)
  | inr e ↦
      let more = length-append (display_digits fuel (n / 10)) ((b'0' + n % 10) ∷ []) in
      rw (e, display_digits) (ground arith)
]

-- Every number of 128 bits, printed as its decimal digits, is parsed back: the text passes all the
-- checks of canonical form and no step of the accumulation overflows.
pub parse_canonical_u128-display_digits :
    (n : ℕ) → n < 2 ^ 128 → parse_canonical_u128 (display_digits 39 n) ≡ ok n
unfolding parse_canonical_u128
parse_canonical_u128-display_digits n h =
    let bound : n < 10 ^ 39 = omega (arith, h) in
    let short : ltb 39 (length (display_digits 39 n)) ≡ false =
      ground (arith, length-display 39 n) in
    rw (display-nonempty 39 n (omega arith), short, display-canonical n bound, digits_only 39 n)
      (add_digits-display 39 n bound (omega arith) h)
