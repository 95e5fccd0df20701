-- ===== src/Store/Codec/Encoder.antt =====
-- crates/och-store/src/codec.rs: the encoder, which collects bytes or only counts them.
-- A call on `&mut self` takes the encoder and returns it; every one of them is a `Put`, also where the
-- source's cannot fail.
use open_control_historian.Base.{
  List, Option, none, some, [], ◌∷◌, ◌++◌, ◌+◌, ◌-◌, ◌^◌, ◌>>=◌, ◌>>◌, ℕ, length, leb, ltb,
  if◌then◌else◌, ok, refuse_if,
}
use open_control_historian.Base.Int.{ℤ}
use open_control_historian.Core.Bounded.{Text}
use open_control_historian.Store.Error.{Journal, JournalError, invalid_count, invalid_length}
use open_control_historian.Store.Words.{Bytes, to_be_bytes, to_word}

pub data Encoder : Type 0 where
  output_bytes : Bytes → Encoder
  output_count : ℕ → Encoder

abbrev pub Put : Type 0
Put = Encoder → Journal Encoder

infixr 5 ◌then◌
-- One call after another, with `?`.
unfoldable pub ◌then◌ : Put → Put → Put
(first then second) encoder = first encoder >>= second

abbrev pub new : Encoder
new = output_bytes []

abbrev pub counting : Encoder
counting = output_count 0

abbrev pub len : Encoder → ℕ
len (output_bytes out) = length out
len (output_count n) = n

abbrev pub finish : Encoder → Bytes
finish (output_bytes out) = out
finish (output_count n) = []

-- `usize::saturating_add`.
abbrev pub saturating_add : ℕ → ℕ → ℕ
saturating_add a b = if ltb (a + b) (2 ^ 64) then a + b else 2 ^ 64 - 1

unfoldable pub bytes : Bytes → Put
bytes more (output_bytes out) = ok (output_bytes (out ++ more))
bytes more (output_count n) = ok (output_count (saturating_add n (length more)))

unfoldable pub u8 : ℕ → Put
u8 value = bytes (value ∷ [])

unfoldable pub u32 : ℕ → Put
u32 value = bytes (to_be_bytes 4 value)

unfoldable pub u64 : ℕ → Put
u64 value = bytes (to_be_bytes 8 value)

unfoldable pub u128 : ℕ → Put
u128 value = bytes (to_be_bytes 16 value)

unfoldable pub i64 : ℤ → Put
i64 value = bytes (to_be_bytes 8 (to_word value))

-- `u32::try_from(value)`, with the caller's refusal.
unfoldable pub require_u32 : ℕ → JournalError → Put
require_u32 value refusal encoder = refuse_if (leb (2 ^ 32) value) refusal >> ok encoder

unfoldable pub string : Text → Put
string value = require_u32 (length value) invalid_length then u32 (length value) then bytes value

unfoldable pub count : ℕ → Put
count value = require_u32 value invalid_count then u32 value

-- No call at all.
unfoldable pub skip : Put
skip encoder = ok encoder

-- `match value { Some(value) => { u8(1); … } None => u8(0) }`.
unfoldable pub optional {ℓ} : {A : Type ℓ} → (A → Put) → Option A → Put
optional put none = u8 0
optional put (some a) = u8 1 then put a

-- `for value in values`.
unfoldable pub each {ℓ} : {A : Type ℓ} → (A → Put) → List A → Put
each put [] = skip
each put (a ∷ rest) = put a then each put rest
