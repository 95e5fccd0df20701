-- ===== src/Core/Decimal.antt =====
-- crates/och-core/src/position.rs: canonical decimal text of a `u128`.
pub mod RoundTrip
use open_control_historian.Base.{
  >>=-eq-ok, Bool, Bool-cases, [], ap, arith, err, false, if◌then◌else◌, inl, inr, leb, length, ltb,
  ltb→lt, not, ok, refl, subst, suc, sym, zero, ℕ, ◌%◌, ◌&&◌, ◌*◌, ◌++◌, ◌+◌, ◌-◌, ◌/◌, ◌<◌, ◌==◌,
  ◌>>=◌, ◌^◌, ◌||◌, ◌∙◌, ◌∷◌, ◌≡◌, ◌≤◌,
}
use open_control_historian.Core.Error.{Checked, invalid_canonical_decimal}
use open_control_historian.Core.Bounded.{Text, all_bytes}
use Prim.Native.Nat.pow

abbrev pub is_digit : ℕ → Bool
is_digit b = leb b'0' b && leb b b'9'

-- `checked_mul(10)` and `checked_add` of a digit, on 128 bits.
unfoldable pub add_digit : ℕ → ℕ → Checked ℕ
add_digit value digit =
    if ltb (value * 10) (2 ^ 128) && ltb (value * 10 + (digit - b'0')) (2 ^ 128)
    then ok (value * 10 + (digit - b'0'))
    else err invalid_canonical_decimal

unfoldable pub add_digits : ℕ → Text → Checked ℕ
add_digits value [] = ok value
add_digits value (digit ∷ rest) = add_digit value digit >>= λ next. add_digits next rest

abbrev pub leads_with_zero : Text → Bool
leads_with_zero [] = false
leads_with_zero (b ∷ []) = false
leads_with_zero (b ∷ c ∷ rest) = b == b'0'

unfoldable pub parse_canonical_u128 : Text → Checked ℕ
parse_canonical_u128 bytes =
    if (length bytes == 0)
      || (ltb 39 (length bytes) || (leads_with_zero bytes || not (all_bytes is_digit bytes)))
    then err invalid_canonical_decimal
    else add_digits 0 bytes

-- `Display` of a `u128`: its digits, at most `fuel` of them.
unfoldable pub display_digits : ℕ → ℕ → Text
display_digits zero n = []
display_digits (suc fuel) n =
    let front = display_digits fuel (n / 10) in
    if ltb n 10 then (b'0' + n) ∷ [] else front ++ (b'0' + n % 10) ∷ []

bind_ok : (m : Checked ℕ) → (m >>= λ next. ok next) ≡ m
bind_ok (ok a) = refl
bind_ok (err e) = refl

ok-injective : (v w : ℕ) (r : Checked ℕ) → r ≡ ok v → r ≡ ok w → v ≡ w
ok-injective v w r h k = cc (sym h ∙ k)

add_digits-append :
    (v : ℕ) (xs : Text) (d : ℕ) (w : ℕ)
    → add_digits v xs ≡ ok w
    → add_digits v (xs ++ d ∷ []) ≡ add_digit w d
unfolding add_digits
add_digits-append v [] d w h =
    bind_ok (add_digit v d) ∙ ap (λ x. add_digit x d) (ok-injective v w (ok v) refl h)
add_digits-append v (x ∷ xs) d w h =
    let (u, e, k) = >>=-eq-ok (add_digit v x) (λ next. add_digits next xs) h in
    rw e (add_digits-append u xs d w k)

add_digit-shown : (n : ℕ) → n < 2 ^ 128 → add_digit (n / 10) (b'0' + n % 10) ≡ ok n
unfolding add_digit
add_digit-shown n k = ground arith

add_digit-first : (n : ℕ) → n < 10 → add_digit 0 (b'0' + n) ≡ ok n
unfolding add_digit
add_digit-first n k = ground arith

positive_fuel : (fuel n : ℕ) → 10 ≤ n → n < 10 ^ fuel * 10 → 0 < fuel
positive_fuel zero n h k = absurd (omega (arith, h, k))
positive_fuel (suc fuel) n h k = omega arith

pub add_digits-display :
    (fuel n : ℕ)
    → n < 10 ^ fuel
    → 0 < fuel
    → n < 2 ^ 128
    → add_digits 0 (display_digits fuel n) ≡ ok n
unfolding display_digits add_digits
add_digits-display zero n h p k = absurd (omega (arith, p))
add_digits-display (suc fuel) n h p k = elim (Bool-cases (ltb n 10)) [
  | inl e ↦
      rw (e, display_digits) (bind_ok (add_digit 0 (b'0' + n)) ∙ add_digit-first n (ltb→lt _ _ e))
  | inr e ↦
      let large : 10 ≤ n = ground arith in
      let small : n < 10 ^ fuel * 10 = subst (λ x. n < x) (pow.suc 10 fuel) h in
      let front : n / 10 < 10 ^ fuel = omega (arith, small) in
      let more : 0 < fuel = positive_fuel fuel n large small in
      rw (e, display_digits)
        (add_digits-append 0 (display_digits fuel (n / 10)) (b'0' + n % 10) (n / 10)
            (add_digits-display fuel (n / 10) front more (omega (arith, k)))
          ∙ add_digit-shown n k)
]
