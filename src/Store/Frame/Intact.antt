-- ===== src/Store/Frame/Intact.antt =====
-- What holds of every frame that the decoder accepts.
use open_control_historian.Base.{
  >>=-eq-ok, Option, arith, guard-ok, length, ltb, not, not_eq-false, ok, refl, subst, take, ℕ, ◌+◌,
  ◌==◌, ◌||◌, ◌≡◌, ◌≤◌,
}
use open_control_historian.Base.Map.{Bytes}
use open_control_historian.Store.Words.{from_be_bytes}
use open_control_historian.Store.Checksum.{crc32c}
use open_control_historian.Store.Codec.Decode.Payload.{DecodedAdmission, decode_payload}
use open_control_historian.Store.Validate.{validate_decoded}
use open_control_historian.Store.Frame.{
  check_payload_len, check_prefix, check_successor, decode_admission_frame, frame_crc_len,
  frame_prefix_len, max_admission_payload, slice,
}
use open_control_historian.Store.Codec.Encoder.{bytes}
use open_control_historian.Store.Codec.Cursor

-- The payload length that the prefix states.
abbrev pub payload_len : Bytes → ℕ
payload_len bytes = from_be_bytes (slice 16 20 bytes)

abbrev pub payload_end : Bytes → ℕ
payload_end bytes = frame_prefix_len + payload_len bytes

-- The facts that the decoder has checked one by one, with the prefix and the payload it has read.
pub record IsIntact (bytes : Bytes) (limit : ℕ) (before : Option ℕ) (d : DecodedAdmission)
    : Type 0 where
  pub prefix : check_prefix bytes ≡ ok d.append_sequence
  pub in_order : check_successor before d.append_sequence ≡ ok tt
  pub bounded : payload_len bytes ≤ max_admission_payload
  pub within : payload_len bytes ≤ limit
  pub exact : length bytes ≡ payload_end bytes + frame_crc_len
  pub covered :
      crc32c (take (payload_end bytes) bytes)
      ≡ from_be_bytes (slice (payload_end bytes) (payload_end bytes + frame_crc_len) bytes)
  pub rest : Cursor.Cursor
  pub read :
      decode_payload d.append_sequence
        (Cursor.new (slice frame_prefix_len (payload_end bytes) bytes))
      ≡ ok (d, rest)
  pub finished : Cursor.finish rest ≡ ok tt
  pub valid : validate_decoded d ≡ ok tt

-- Whatever the reader gives has the property.
Yields {ℓ} : {A : Type ℓ} → (A → Type 0) → Cursor.Get A → Type ℓ
Yields P read = (start after : Cursor.Cursor) (a : _) → read start ≡ ok (a, after) → P a

Yields-then {ℓ κ} :
    {A : Type ℓ} {B : Type κ} (P : B → Type 0) (read : Cursor.Get A) (next : A → Cursor.Get B)
    → ((a : A) → Yields P (next a))
    → Yields P (Cursor.◌>>=◌ read next)
unfolding Yields Cursor.◌>>=◌
Yields-then P read next later start after b h =
    let (found, read_so, rest) = >>=-eq-ok (read start) _ h in later found.0 found.1 after b rest

Yields-pure {ℓ} : {A : Type ℓ} (P : A → Type 0) (a : A) → P a → Yields P (Cursor.pure a)
unfolding Yields Cursor.pure
Yields-pure P a h start after b same = let equal : a ≡ b = cc same in subst P equal h

decode_payload-Yields :
    (s : ℕ) → Yields (λ (d : DecodedAdmission). d.append_sequence ≡ s) (decode_payload s)
unfolding decode_payload
decode_payload-Yields s = Yields-then _ _ _ λ store. Yields-then _ _ _ λ declaration.
    Yields-then _ _ _ λ envelope. Yields-then _ _ _ λ retry.
      Yields-then _ _ _
        λ batch. Yields-then _ _ _ λ lifecycle. Yields-then _ _ _ λ evidence. Yields-pure _ _ refl

pub decode_admission_frame-IsIntact :
    (bytes : Bytes) (limit : ℕ) (before : Option ℕ) (d : DecodedAdmission)
    → decode_admission_frame bytes limit before ≡ ok d
    → IsIntact bytes limit before d
unfolding decode_admission_frame check_payload_len
decode_admission_frame-IsIntact bytes limit before d h =
    let payload_len = from_be_bytes (slice 16 20 bytes) in
    let offset = frame_prefix_len + payload_len in
    let expected = offset + frame_crc_len in
    let (_, h₁) = guard-ok (ltb (length bytes) (frame_prefix_len + frame_crc_len)) _ _ _ h in
    let (s, prefix, h₂) = >>=-eq-ok (check_prefix bytes) _ h₁ in
    let (_, in_order, h₃) = >>=-eq-ok (check_successor before s) _ h₂ in
    let (allowed, h₄) =
      guard-ok (ltb max_admission_payload payload_len || ltb limit payload_len) _ _ _ h₃ in
    let (long, h₅) = guard-ok (ltb (length bytes) expected) _ _ _ h₄ in
    let (short, h₆) = guard-ok (ltb expected (length bytes)) _ _ _ h₅ in
    let (checksum, h₇) =
      guard-ok (not (crc32c (take offset bytes) == from_be_bytes (slice offset expected bytes))) _ _
        _ h₆ in
    let start = Cursor.new (slice frame_prefix_len offset bytes) in
    let (decoded, read, h₈) = >>=-eq-ok (decode_payload s start) _ h₇ in
    let (_, finished, h₉) = >>=-eq-ok (Cursor.finish decoded.1) _ h₈ in
    let (_, valid, done) = >>=-eq-ok (validate_decoded decoded.0) _ h₉ in
    let sequence : decoded.0.append_sequence ≡ s =
      unfold Yields in decode_payload-Yields s start decoded.1 decoded.0 read in
    let same : decoded.0 ≡ d = cc done in
    subst (IsIntact bytes limit before) same (record {
      prefix = rw sequence prefix;
      in_order = rw sequence in_order;
      bounded = ground arith;
      within = ground arith;
      exact = ground arith;
      covered = not_eq-false checksum;
      rest = decoded.1;
      read = rw sequence read;
      finished = finished;
      valid = valid;
    })
