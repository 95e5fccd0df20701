-- ===== src/Store/Frame/Fields.antt =====
-- The fields of a frame's prefix, read back as the bytes that were written.
-- Two bytes by their places.
use open_control_historian.Base.{
  All-drop, All-take, [], ap, arith, drop, drop-drop, guard-ok, holds→true, length, length-drop,
  length-take, not, not-false→true, not_eq-false, ok, refl, suc, sym, take, take-plus, zero, ℕ,
  ◌++◌, ◌+◌, ◌<◌, ◌==◌, ◌∙◌, ◌∷◌, ◌≡◌, ◌≤◌,
}
use open_control_historian.Base.Map.{Bytes, Bytes-discrete, same_bytes}
use open_control_historian.Store.Words.{AreBytes, from_be_bytes, to-from_be_bytes, to_be_bytes}
use open_control_historian.Core.Identity.{byte_at}
use open_control_historian.Store.Frame.{
  append_sequence_new, check_prefix, frame_magic, frame_prefix, journal_version, slice,
}
use open_control_historian.Store.Codec.Encoder.{bytes}
use open_control_historian.Store.Frame.Intact.{payload_len}

take_two :
    (i : ℕ) (xs : Bytes)
    → i + 2 ≤ length xs
    → take 2 (drop i xs) ≡ byte_at xs i ∷ byte_at xs (i + 1) ∷ []
take_two zero [] h = absurd (omega (arith, h))
take_two zero (a ∷ []) h = absurd (omega (arith, h))
take_two zero (a ∷ b ∷ rest) h = refl
take_two (suc i) [] h = absurd (omega (arith, h))
take_two (suc i) (x ∷ xs) h =
    let same : suc i + 1 ≡ suc (i + 1) = omega arith in
    take_two i xs (omega (arith, h)) ∙ ap (λ k. byte_at xs i ∷ byte_at (x ∷ xs) k ∷ []) (sym same)

-- What the prefix says.
pub record Prefixed (bytes : Bytes) (s : ℕ) : Type 0 where
  pub magic : take 4 bytes ≡ frame_magic
  pub version : from_be_bytes (slice 4 6 bytes) ≡ journal_version
  pub kind : byte_at bytes 6 ≡ 1
  pub flags : byte_at bytes 7 ≡ 0
  pub sequence : from_be_bytes (slice 8 16 bytes) ≡ s
  pub positive : 0 < s

pub check_prefix-Prefixed : (bytes : Bytes) (s : ℕ) → check_prefix bytes ≡ ok s → Prefixed bytes s
unfolding check_prefix append_sequence_new
check_prefix-Prefixed bytes s h =
    let (magic, h₁) = guard-ok (not (same_bytes (slice 0 4 bytes) frame_magic)) _ _ _ h in
    let (version, h₂) =
      guard-ok (not (from_be_bytes (slice 4 6 bytes) == journal_version)) _ _ _ h₁ in
    let (kind, h₃) = guard-ok (not (byte_at bytes 6 == 1)) _ _ _ h₂ in
    let (flags, h₄) = guard-ok (not (byte_at bytes 7 == 0)) _ _ _ h₃ in
    record {
      magic = holds→true (Bytes-discrete (take 4 bytes) frame_magic) (not-false→true _ magic);
      version = not_eq-false version;
      kind = not_eq-false kind;
      flags = not_eq-false flags;
      sequence = ground arith;
      positive = ground arith;
    }

-- The first 20 bytes, cut at the field boundaries.
prefix_fields :
    (bytes : Bytes)
    → take 20 bytes
      ≡ take 4 bytes
        ++ (take 2 (drop 4 bytes)
            ++ (take 2 (drop 6 bytes) ++ (take 8 (drop 8 bytes) ++ take 4 (drop 16 bytes))))
prefix_fields bytes =
    let first = take-plus 4 16 bytes in
    let second = take-plus 2 14 (drop 4 bytes) in
    let third = take-plus 2 12 (drop 6 bytes) in
    let fourth = take-plus 8 4 (drop 8 bytes) in
    rw (first, second, drop-drop 2 4 bytes, third, drop-drop 2 6 bytes, fourth, drop-drop 8 8 bytes)

joined :
    (a b c d e a' b' c' d' e' : Bytes)
    → a ≡ a'
    → b ≡ b'
    → c ≡ c'
    → d ≡ d'
    → e ≡ e'
    → a ++ (b ++ (c ++ (d ++ e))) ≡ a' ++ (b' ++ (c' ++ (d' ++ e')))
joined a b c d e a' b' c' d' e' h₁ h₂ h₃ h₄ h₅ = rw (h₁, h₂, h₃, h₄, h₅)

module _ (bytes : Bytes) (are_bytes : AreBytes bytes) where
  -- A field of the bytes is that of its number.
  field_bytes :
      (first width : ℕ)
      → first + width ≤ length bytes
      → to_be_bytes width (from_be_bytes (take width (drop first bytes)))
        ≡ take width (drop first bytes)
  field_bytes first width fits =
      to-from_be_bytes width (take width (drop first bytes))
        (length-take width (drop first bytes) (omega (arith, length-drop first bytes, fits)))
        (All-take _ width (drop first bytes) (All-drop _ first bytes are_bytes))

  pub prefix_bytes :
      (s : ℕ)
      → 20 ≤ length bytes
      → check_prefix bytes ≡ ok s
      → take 20 bytes ≡ frame_prefix s (payload_len bytes)
  unfolding frame_prefix
  prefix_bytes s long h =
      let said = check_prefix-Prefixed bytes s h in
      let version =
        sym (field_bytes 4 2 (omega (arith, long))) ∙ ap (λ n. to_be_bytes 2 n) said.version in
      let sequence =
        sym (field_bytes 8 8 (omega (arith, long))) ∙ ap (λ n. to_be_bytes 8 n) said.sequence in
      let size = sym (field_bytes 16 4 (omega (arith, long))) in
      let two : take 2 (drop 6 bytes) ≡ 1 ∷ 0 ∷ [] =
        take_two 6 bytes (omega (arith, long)) ∙ (rw (said.kind, said.flags)) in
      prefix_fields bytes ∙ joined _ _ _ _ _ _ _ _ _ _ said.magic version two sequence size
