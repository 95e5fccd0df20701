-- ===== src/Store/Codec/Cursor.antt =====
-- crates/och-store/src/codec.rs: the cursor over the bytes of one payload.
-- A call on `&mut self` returns its value with the cursor after it.
use open_control_historian.Base.{
  Bool, List, Option, Result, none, some, [], ◌∷◌, ◌+◌, ◌^◌, ◌==◌, ℕ, zero, suc, true, false,
  length, leb, ltb, not, if◌then◌else◌, ok, err, refuse_if, take, drop,
}
use open_control_historian.Base
use open_control_historian.Base.Int.{ℤ}
use open_control_historian.Core.Error.{Checked}
use open_control_historian.Core.Bounded.{Text}
use open_control_historian.Store.Error.{
  Journal, invalid_canonical_data, invalid_count, invalid_length, invalid_utf8, trailing_bytes,
  truncated, unknown_tag,
}
use open_control_historian.Store.Words.{Bytes, from_be_bytes, from_word}
use open_control_historian.Store.Utf8.{is_utf8}

pub record Cursor : Type 0 where
  pub bytes : Bytes
  pub offset : ℕ

abbrev pub Get {ℓ} : Type ℓ → Type ℓ
Get A = Cursor → Journal (A × Cursor)

unfoldable pub pure {ℓ} : {A : Type ℓ} → A → Get A
pure a cursor = ok (a, cursor)

infixl 5 ◌>>=◌ ◌>>◌
-- `?`: the first failure is the result.
unfoldable pub ◌>>=◌ {ℓ κ} : {A : Type ℓ} {B : Type κ} → Get A → (A → Get B) → Get B
(read >>= next) cursor = Base.◌>>=◌ (read cursor) λ (a, after). next a after

abbrev pub ◌>>◌ {ℓ} : {B : Type ℓ} → Get (Unit {0}) → Get B → Get B
read >> next = read >>= λ passed. next

-- A result that needs no bytes.
unfoldable pub lift {ℓ} : {A : Type ℓ} → Journal A → Get A
lift (ok a) cursor = ok (a, cursor)
lift (err e) cursor = err e

-- `.map_err(invalid_model)`.
abbrev pub invalid_model {ℓ} : {A : Type ℓ} → Checked A → Journal A
invalid_model (ok a) = ok a
invalid_model (err e) = err invalid_canonical_data

abbrev pub new : Bytes → Cursor
new bytes = record { bytes = bytes; offset = 0 }

unfoldable pub take_bytes : ℕ → Get Bytes
take_bytes length_taken cursor =
    let end = cursor.offset + length_taken in
    if leb (2 ^ 64) end
    then err invalid_length
    else if leb end (length cursor.bytes)
    then ok (take length_taken (drop cursor.offset cursor.bytes), record cursor { offset = end })
    else err truncated

-- `[u8; 1]` has one byte.
abbrev pub first_byte : Bytes → ℕ
first_byte [] = 0
first_byte (b ∷ bs) = b

unfoldable pub u8 : Get ℕ
u8 = take_bytes 1 >>= λ read. pure (first_byte read)

unfoldable pub u32 : Get ℕ
u32 = take_bytes 4 >>= λ read. pure (from_be_bytes read)

unfoldable pub u64 : Get ℕ
u64 = take_bytes 8 >>= λ read. pure (from_be_bytes read)

unfoldable pub u128 : Get ℕ
u128 = take_bytes 16 >>= λ read. pure (from_be_bytes read)

unfoldable pub i64 : Get ℤ
i64 = take_bytes 8 >>= λ read. pure (from_word (from_be_bytes read))

unfoldable pub string : ℕ → Get Text
string maximum = do
  size ← u32
  lift (refuse_if (ltb maximum size) invalid_length)
  read ← take_bytes size
  lift (refuse_if (not (is_utf8 read)) invalid_utf8)
  pure read

unfoldable pub count : ℕ → Get ℕ
count maximum = do size ← u32; lift (refuse_if (ltb maximum size) invalid_count); pure size

-- `match tag { … }`: the branch of the tag, or `_ => Err(UnknownTag)`.
unfoldable pub match_tag {ℓ} : {A : Type ℓ} → List (ℕ × Get A) → ℕ → Get A
match_tag [] tag = lift (err unknown_tag)
match_tag ((t, branch) ∷ rest) tag =
    let otherwise = match_tag rest tag in if tag == t then branch else otherwise

unfoldable pub option : Get Bool
option = u8 >>= match_tag ((0, pure false) ∷ (1, pure true) ∷ [])

unfoldable pub finish : Cursor → Journal (Unit {0})
finish cursor = if cursor.offset == length cursor.bytes then ok tt else err trailing_bytes

abbrev pub when_present {ℓ} : {A : Type ℓ} → Get A → Bool → Get (Option A)
when_present read true = read >>= λ a. pure (some a)
when_present read false = pure none

-- `if cursor.option()? { Some(…) } else { None }`.
unfoldable pub optional {ℓ} : {A : Type ℓ} → Get A → Get (Option A)
optional read = option >>= when_present read

-- `for _ in 0..count { values.push(…) }`.
unfoldable pub repeat {ℓ} : {A : Type ℓ} → ℕ → Get A → Get (List A)
repeat zero read = pure []
repeat (suc n) read = read >>= λ a. repeat n read >>= λ rest. pure (a ∷ rest)
