-- ===== src/Store/Frame/Header.antt =====
-- The file header: exactly the headers of valid stores are accepted.
use open_control_historian.Base.{
  [], arith, drop, drop-drop, err, false, guard-ok, holds→true, length, length-drop, length-take,
  ltb, not, not-false→true, not_eq-false, ok, refl, subst, take, take-drop, take_whole, true→holds,
  ℕ, ◌%◌, ◌++◌, ◌/◌, ◌<◌, ◌==◌, ◌↔◌, ◌∙◌, ◌∷◌, ◌≡◌,
}
use open_control_historian.Base.Map.{Bytes, Bytes-discrete, same_bytes}
use open_control_historian.Store.Words.{add_bytes, from_be_bytes, to_be_bytes}
use open_control_historian.Core.Bounded.{Uuid}
use open_control_historian.Core.Identity.{from_bytes, validate_uuid_v7}
use open_control_historian.Store.Codec.Decode.Values.{invalid_identity_bytes}
use open_control_historian.Store.Frame.{
  decode_header, encode_header, header_len, header_magic, journal_version, slice,
}
use open_control_historian.Store.Codec.RoundTrip.Values.{IsIdentity}
use open_control_historian.Store.Codec.Encoder.{bytes}
use open_control_historian.Core.Error.{Checked}

-- A list of the header's length, cut at the field boundaries.
header_fields :
    (bytes : Bytes)
    → length bytes ≡ 28
    → bytes
      ≡ take 8 bytes
        ++ (take 2 (drop 8 bytes) ++ (take 2 (drop 10 bytes) ++ take 16 (drop 12 bytes)))
header_fields bytes h =
    let last = take_whole 16 (drop 12 bytes) (omega (arith, length-drop 12 bytes, h)) in
    let third = take-drop 2 (drop 10 bytes) in
    let second = take-drop 2 (drop 8 bytes) in
    rw (last, ← drop-drop 2 10 bytes, third, ← drop-drop 2 8 bytes, second, take-drop 8 bytes)

-- A field of two bytes that holds a small number is that number's bytes.
two_bytes :
    (field : Bytes) (n : ℕ)
    → length field ≡ 2
    → n < 256
    → from_be_bytes field ≡ n
    → field ≡ to_be_bytes 2 n
unfolding add_bytes to_be_bytes
two_bytes [] n size small h = absurd (omega (arith, size))
two_bytes (a ∷ []) n size small h = absurd (omega (arith, size))
two_bytes (a ∷ b ∷ []) n size small h =
    let high : a ≡ n / 256 % 256 = omega (arith, h, small) in
    let low : b ≡ n % 256 = omega (arith, h, small) in rw (high, low)
two_bytes (a ∷ b ∷ c ∷ rest) n size small h = absurd (omega (arith, size))

invalid_identity_bytes-ok :
    (r : Checked Uuid) (id : Uuid) → invalid_identity_bytes r ≡ ok id → r ≡ ok id
invalid_identity_bytes-ok (ok a) id h = cc
invalid_identity_bytes-ok (err e) id h = cc

-- The constructor gives the bytes it accepted.
from_bytes-same : (bytes id : Uuid) → from_bytes bytes ≡ ok id → bytes ≡ id
unfolding from_bytes validate_uuid_v7
from_bytes-same bytes id h = ground arith

module _ (bytes : Bytes) (store_id : Uuid) where
  decode_header_sound :
      decode_header bytes ≡ ok store_id → IsIdentity store_id × (bytes ≡ encode_header store_id)
  unfolding decode_header encode_header IsIdentity
  decode_header_sound h =
      let (long, h₁) = guard-ok (ltb (length bytes) header_len) _ _ _ h in
      let (short, h₂) = guard-ok (ltb header_len (length bytes)) _ _ _ h₁ in
      let (magic, h₃) = guard-ok (not (same_bytes (slice 0 8 bytes) header_magic)) _ _ _ h₂ in
      let (version, h₄) =
        guard-ok (not (from_be_bytes (slice 8 10 bytes) == journal_version)) _ _ _ h₃ in
      let (size, h₅) = guard-ok (not (from_be_bytes (slice 10 12 bytes) == header_len)) _ _ _ h₄ in
      let whole : length bytes ≡ 28 = ground arith in
      let id = slice 12 28 bytes in
      let accepted = invalid_identity_bytes-ok (from_bytes id) store_id h₅ in
      let same = from_bytes-same id store_id accepted in
      let same_magic : take 8 bytes ≡ header_magic =
        holds→true (Bytes-discrete (take 8 bytes) header_magic) (not-false→true _ magic) in
      let version_bytes =
        two_bytes (take 2 (drop 8 bytes)) 1
          (length-take 2 (drop 8 bytes) (omega (arith, length-drop 8 bytes, whole))) (omega arith)
          (not_eq-false version) in
      let size_bytes =
        two_bytes (take 2 (drop 10 bytes)) 28
          (length-take 2 (drop 10 bytes) (omega (arith, length-drop 10 bytes, whole))) (omega arith)
          (not_eq-false size) in
      let sixteen : length store_id ≡ 16 =
        subst (λ x. length x ≡ 16) same
          (length-take 16 (drop 12 bytes) (omega (arith, length-drop 12 bytes, whole))) in
      (
        (sixteen, subst (λ x. from_bytes x ≡ ok store_id) same accepted),
        header_fields bytes whole ∙ (rw (same_magic, version_bytes, size_bytes, same)),
      )

  decode_header_complete :
      IsIdentity store_id × (bytes ≡ encode_header store_id) → decode_header bytes ≡ ok store_id
  unfolding decode_header encode_header IsIdentity to_be_bytes add_bytes
  decode_header_complete ((sixteen, valid), same) =
      let size : length (encode_header store_id) ≡ 28 = omega (arith, sixteen) in
      let whole : length bytes ≡ 28 = rw same size in
      let long : ltb (length bytes) header_len ≡ false = ground arith in
      let short : ltb header_len (length bytes) ≡ false = ground arith in
      rw (long, short, same)
        (rw (
          true→holds (Bytes-discrete header_magic header_magic) refl,
          take_whole 16 store_id sixteen,
          valid,
        ))

  -- A file header is accepted, as the header of a store, exactly when it is the one written for that
  -- store and the store's identity is valid.
  pub decode_header_iff :
      (decode_header bytes ≡ ok store_id) ↔ (IsIdentity store_id × (bytes ≡ encode_header store_id))
  decode_header_iff = (decode_header_sound, decode_header_complete)
