-- ===== src/Store/Codec/RoundTrip/Primitives.antt =====
-- Bytes, integers, texts, counts, options and lists round-trip.
use open_control_historian.Store.Error.{JournalError}
use open_control_historian.Store.Words.{
  Bytes, from-to_be_bytes, from-to_word, from_be_bytes, from_word, length-to_be_bytes, to_be_bytes,
  to_word, to_word-bound,
}
use open_control_historian.Store.Utf8.{is_utf8}
use open_control_historian.Core.Bounded.{Text}
use open_control_historian.Core.Timestamp.{fits_i64}
use open_control_historian.Base.Int.{ℤ}
use open_control_historian.Store.Codec.Encoder.{
  Encoder, Put, count, each, i64, optional, require_u32, skip, string, u128, u32, u64, u8,
}
use open_control_historian.Store.Codec.Cursor.{
  Cursor, Get, lift, match_tag, option, pure, repeat, take_bytes, ◌>>=◌,
}
use open_control_historian.Base.{
  All, Bool, List, Option, [], append-nil, append_assoc, arith, drop-append, false, leb, length,
  length-append, ltb, none, not, refl, refuse_if, some, subst, take-append, true, ℕ, ◌++◌, ◌+◌, ◌<◌,
  ◌^◌, ◌∷◌, ◌≡◌,
}
use open_control_historian.Store.Codec.RoundTrip.Combinators.{
  Gives, Gives-lift, Gives-pure, Gives-then, Passes, RoundTrips, RoundTrips-after,
  RoundTrips-checked, RoundTrips-made, RoundTrips-then, at,
}
use open_control_historian.Store.Codec.Encoder
use open_control_historian.Store.Codec.Cursor

pub RoundTrips-bytes :
    (n : ℕ) (w : Bytes) → length w ≡ n → RoundTrips (Encoder.bytes w) (take_bytes n) w
unfolding Encoder.bytes take_bytes
RoundTrips-bytes n w h = record {
  written = w;
  writes = λ out. refl;
  reads = λ passed left fits.
      let whole = length-append passed (w ++ left) in
      let part = length-append w left in
      let front = length-append passed w in
      let no_overflow : leb (2 ^ 64) (length passed + n) ≡ false = ground arith in
      let inside : leb (length passed + n) (length (passed ++ (w ++ left))) ≡ true = ground arith in
      let end : length passed + n ≡ length (passed ++ w) = omega (arith, front, h) in
      rw (
        no_overflow,
        inside,
        drop-append passed (w ++ left),
        end,
        ← h,
        take-append w left,
        append_assoc passed w left,
      );
}

RoundTrips-word :
    {A : Type 0} (width n : ℕ) (convert : Bytes → A) (a : A)
    → convert (to_be_bytes width n) ≡ a
    → RoundTrips
        (Encoder.bytes (to_be_bytes width n))
        (take_bytes width >>= λ read. pure (convert read))
        a
RoundTrips-word width n convert a h =
    RoundTrips-made _ (RoundTrips-bytes width (to_be_bytes width n) (length-to_be_bytes width n))
      (subst (λ x. Gives (pure (convert (to_be_bytes width n))) x) h (Gives-pure _))

pub RoundTrips-u8 : (n : ℕ) → RoundTrips (Encoder.u8 n) Cursor.u8 n
unfolding Encoder.u8 Cursor.u8
RoundTrips-u8 n = RoundTrips-made _ (RoundTrips-bytes 1 (n ∷ []) refl) (Gives-pure n)

pub RoundTrips-u32 : (n : ℕ) → n < 2 ^ 32 → RoundTrips (Encoder.u32 n) Cursor.u32 n
unfolding Encoder.u32 Cursor.u32
RoundTrips-u32 n h = RoundTrips-word 4 n from_be_bytes n (from-to_be_bytes 4 n h)

pub RoundTrips-u64 : (n : ℕ) → n < 2 ^ 64 → RoundTrips (Encoder.u64 n) Cursor.u64 n
unfolding Encoder.u64 Cursor.u64
RoundTrips-u64 n h = RoundTrips-word 8 n from_be_bytes n (from-to_be_bytes 8 n h)

pub RoundTrips-u128 : (n : ℕ) → n < 2 ^ 128 → RoundTrips (Encoder.u128 n) Cursor.u128 n
unfolding Encoder.u128 Cursor.u128
RoundTrips-u128 n h = RoundTrips-word 16 n from_be_bytes n (from-to_be_bytes 16 n h)

pub RoundTrips-i64 : (z : ℤ) → fits_i64 z ≡ true → RoundTrips (Encoder.i64 z) Cursor.i64 z
unfolding Encoder.i64 Cursor.i64
RoundTrips-i64 z h =
    RoundTrips-word 8 (to_word z) (λ read. from_word (from_be_bytes read)) z
      (rw (from-to_be_bytes 8 (to_word z) (to_word-bound z h)) (from-to_word z h))

Passes-require_u32 : (n : ℕ) (e : JournalError) → n < 2 ^ 32 → Passes (require_u32 n e)
unfolding require_u32
Passes-require_u32 n e h =
    let small : leb (2 ^ 32) n ≡ false = ground arith in record { passes = λ out. rw small }

-- A text that a bounded read accepts. A `String` is valid UTF-8 by its type.
unfoldable pub IsText : ℕ → Text → Type 0
IsText maximum value = (leb (length value) maximum ≡ true) × (is_utf8 value ≡ true)

pub Gives-refuse_if :
    (bad : Bool) (e : JournalError) → bad ≡ false → Gives (lift (refuse_if bad e)) tt
Gives-refuse_if bad e h = Gives-lift _ _ (rw h)

pub RoundTrips-string :
    (maximum : ℕ) (value : Text)
    → maximum < 2 ^ 32
    → IsText maximum value
    → RoundTrips (Encoder.string value) (Cursor.string maximum) value
unfolding Encoder.string Cursor.string IsText
RoundTrips-string maximum value bound (fits, valid) =
    let short : ltb maximum (length value) ≡ false = ground arith in
    let small : length value < 2 ^ 32 = ground arith in
    let utf8 : not (is_utf8 value) ≡ false = rw valid in
    RoundTrips-checked (Passes-require_u32 (length value) _ small) (
      RoundTrips-then _ (RoundTrips-u32 (length value) small) (
        RoundTrips-after _ (Gives-refuse_if _ _ short) (
          RoundTrips-made _ (RoundTrips-bytes (length value) value refl)
            (Gives-then _ (Gives-refuse_if _ _ utf8) (Gives-pure value)))))

pub RoundTrips-count :
    (maximum n : ℕ)
    → maximum < 2 ^ 32
    → leb n maximum ≡ true
    → RoundTrips (Encoder.count n) (Cursor.count maximum) n
unfolding Encoder.count Cursor.count
RoundTrips-count maximum n bound h =
    let short : ltb maximum n ≡ false = ground arith in
    let small : n < 2 ^ 32 = ground arith in
    RoundTrips-checked (Passes-require_u32 n _ small) (
      RoundTrips-made _ (RoundTrips-u32 n small)
        (Gives-then _ (Gives-refuse_if _ _ short) (Gives-pure n)))

-- The property of the value that is there, if one is.
unfoldable pub IfSome {ℓ} : {A : Type ℓ} → (A → Type 0) → Option A → Type 0
IfSome P none = Unit
IfSome P (some a) = P a

RoundTrips-present : RoundTrips (Encoder.u8 1) Cursor.option true
unfolding Cursor.option match_tag
RoundTrips-present = RoundTrips-made _ (RoundTrips-u8 1) (Gives-pure true)

RoundTrips-absent : RoundTrips (Encoder.u8 0) Cursor.option false
unfolding Cursor.option match_tag
RoundTrips-absent = RoundTrips-made _ (RoundTrips-u8 0) (Gives-pure false)

pub RoundTrips-optional :
    {A : Type 0} (put : A → Put) (read : Get A) (P : A → Type 0)
    → ((a : A) → P a → RoundTrips (put a) read a)
    → (value : Option A) → IfSome P value
    → RoundTrips (Encoder.optional put value) (Cursor.optional read) value
unfolding Encoder.optional Cursor.optional IfSome
RoundTrips-optional put read P pair none h = RoundTrips-made _ RoundTrips-absent (Gives-pure none)
RoundTrips-optional put read P pair (some a) h =
    RoundTrips-then _ RoundTrips-present (RoundTrips-made _ (pair a h) (Gives-pure (some a)))

pub RoundTrips-skip : {A : Type 0} (read : Get A) (a : A) → Gives read a → RoundTrips skip read a
unfolding skip
RoundTrips-skip read a h = record {
  written = [];
  writes = λ out. rw (append-nil out);
  reads = λ passed left fits. rw (h.gives (at passed left), append-nil passed);
}

pub RoundTrips-each :
    {A : Type 0} (put : A → Put) (read : Get A) (P : A → Type 0)
    → ((a : A) → P a → RoundTrips (put a) read a)
    → (values : List A) → All P values
    → RoundTrips (each put values) (repeat (length values) read) values
unfolding each repeat
RoundTrips-each put read P pair [] h = RoundTrips-skip _ _ (Gives-pure [])
RoundTrips-each put read P pair (a ∷ rest) h =
    RoundTrips-then _ (pair a h.0)
      (RoundTrips-made _ (RoundTrips-each put read P pair rest h.1) (Gives-pure (a ∷ rest)))
