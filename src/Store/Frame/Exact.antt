-- ===== src/Store/Frame/Exact.antt =====
-- Which bytes the frame decoder accepts: exactly the frames that the writer lays out.
use open_control_historian.Base.{
  >>=-eq-ok, All-drop, All-take, Option, ap, arith, drop, false, guard-ok, length, length-drop,
  length-take, ltb, none, ok, some, subst, sym, take, take-drop, take-plus, take_whole, true, ℕ,
  ◌++◌, ◌+◌, ◌-◌, ◌<◌, ◌==◌, ◌^◌, ◌↔◌, ◌∙◌, ◌≡◌, ◌≤◌,
}
use open_control_historian.Base.Map.{Bytes}
use open_control_historian.Store.Words.{
  AreBytes, from_be_bytes, from_be_bytes-bound, to-from_be_bytes, to_be_bytes,
}
use open_control_historian.Store.Checksum.{crc32c}
use open_control_historian.Store.Codec.Decode.Payload.{DecodedAdmission, decode_payload}
use open_control_historian.Store.Validate.{validate_decoded}
use open_control_historian.Store.Frame.{
  check_successor, decode_admission_frame, frame_bytes, frame_crc_len, frame_prefix,
  frame_prefix_len, max_admission_payload, slice, successor,
}
use open_control_historian.Store.Codec.Encoder.{bytes}
use open_control_historian.Store.Frame.Layout.{Follows, decode-frame_read, frame}
use open_control_historian.Store.Frame.Intact.{
  IsIntact, decode_admission_frame-IsIntact, payload_end, payload_len,
}
use open_control_historian.Store.Frame.Fields.{check_prefix-Prefixed, prefix_bytes}
use open_control_historian.Store.Codec.Cursor

-- The bytes are the frame that `frame_bytes` writes, with the sequence of the admission, which comes
-- first or right after the one before, and with a payload within the limit that is read to its end,
-- as the admission, whose parts are related as they must be.
pub record IsFrameOf (bytes : Bytes) (limit : ℕ) (before : Option ℕ) (d : DecodedAdmission)
    : Type 0 where
  pub payload : Bytes
  pub laid_out : frame_bytes d.append_sequence payload ≡ ok bytes
  pub positive : 0 < d.append_sequence
  pub representable : d.append_sequence < 2 ^ 64
  pub follows : Follows before d.append_sequence
  pub within : length payload ≤ limit
  pub rest : Cursor.Cursor
  pub read : decode_payload d.append_sequence (Cursor.new payload) ≡ ok (d, rest)
  pub finished : Cursor.finish rest ≡ ok tt
  pub valid : validate_decoded d ≡ ok tt

successor-ok : (p next : ℕ) → successor p ≡ ok next → next ≡ p + 1
unfolding successor
successor-ok p next h = ground arith

check_successor-ok :
    (before : Option ℕ) (s : ℕ) → check_successor before s ≡ ok tt → Follows before s
unfolding check_successor Follows
check_successor-ok none s h = tt
check_successor-ok (some p) s h =
    let (next, successive, h₁) = >>=-eq-ok (successor p) _ h in
    let same : (s == next) ≡ true = ground arith in
    let is_next = successor-ok p next successive in ground arith

frame_bytes-frame :
    (s : ℕ) (payload : Bytes)
    → length payload ≤ max_admission_payload
    → frame_bytes s payload ≡ ok (frame s payload)
unfolding frame_bytes
frame_bytes-frame s payload small =
    let within : ltb max_admission_payload (length payload) ≡ false = ground arith in rw within

module _ (bytes : Bytes) (are_bytes : AreBytes bytes) where
  module _ (limit : ℕ) (before : Option ℕ) (d : DecodedAdmission)
      (intact : IsIntact bytes limit before d) where
    abbrev payload : Bytes
    payload = slice frame_prefix_len (payload_end bytes) bytes

    length-payload : length payload ≡ payload_len bytes
    length-payload =
        let width : payload_end bytes - frame_prefix_len ≡ payload_len bytes = omega arith in
        let size =
          length-take (payload_len bytes) (drop 20 bytes)
            (omega (arith, length-drop 20 bytes, intact.exact)) in
        rw width size

    covered_bytes :
        take (payload_end bytes) bytes ≡ frame_prefix d.append_sequence (length payload) ++ payload
    covered_bytes =
        let width : payload_end bytes - frame_prefix_len ≡ payload_len bytes = omega arith in
        let front =
          prefix_bytes bytes are_bytes d.append_sequence (omega (arith, intact.exact))
            intact.prefix in
        let split = take-plus 20 (payload_len bytes) bytes in
        split
        ∙ ap (λ xs. xs ++ take (payload_len bytes) (drop 20 bytes))
            (front ∙ ap (λ n. frame_prefix d.append_sequence n) (sym length-payload))
        ∙ ap (λ n. frame_prefix d.append_sequence (length payload) ++ take n (drop 20 bytes))
            (sym width)

    checksum_bytes :
        drop (payload_end bytes) bytes ≡ to_be_bytes 4 (crc32c (take (payload_end bytes) bytes))
    checksum_bytes =
        let width : payload_end bytes + frame_crc_len - payload_end bytes ≡ 4 = omega arith in
        let four : length (drop (payload_end bytes) bytes) ≡ 4 =
          omega (arith, length-drop (payload_end bytes) bytes, intact.exact) in
        let whole = take_whole 4 (drop (payload_end bytes) bytes) four in
        let covered : crc32c (take (payload_end bytes) bytes)
            ≡ from_be_bytes (drop (payload_end bytes) bytes) =
          intact.covered
          ∙ ap (λ n. from_be_bytes (take n (drop (payload_end bytes) bytes))) width
          ∙ ap (λ xs. from_be_bytes xs) whole in
        sym (
          to-from_be_bytes 4 (drop (payload_end bytes) bytes) four
            (All-drop _ (payload_end bytes) bytes are_bytes))
        ∙ ap (λ n. to_be_bytes 4 n) (sym covered)

    laid : frame d.append_sequence payload ≡ bytes
    laid =
        ap (λ c. c ++ to_be_bytes 4 (crc32c c)) (sym covered_bytes)
        ∙ ap (λ xs. take (payload_end bytes) bytes ++ xs) (sym checksum_bytes)
        ∙ take-drop (payload_end bytes) bytes

    IsFrameOf-IsIntact : IsFrameOf bytes limit before d
    IsFrameOf-IsIntact =
        let said = check_prefix-Prefixed bytes d.append_sequence intact.prefix in
        let sequence_bytes = take 8 (drop 8 bytes) in
        let eight =
          length-take 8 (drop 8 bytes) (omega (arith, length-drop 8 bytes, intact.exact)) in
        let below : from_be_bytes sequence_bytes < 256 ^ 8 =
          subst (λ n. from_be_bytes sequence_bytes < 256 ^ n) eight
            (from_be_bytes-bound sequence_bytes
              (All-take _ 8 (drop 8 bytes) (All-drop _ 8 bytes are_bytes))) in
        let small : length payload ≤ max_admission_payload =
          omega (arith, length-payload, intact.bounded) in
        record {
          payload = payload;
          laid_out = frame_bytes-frame d.append_sequence payload small ∙ ap (λ x. ok x) laid;
          positive = said.positive;
          representable = omega (arith, below, said.sequence);
          follows = check_successor-ok before d.append_sequence intact.in_order;
          within = omega (arith, length-payload, intact.within);
          rest = intact.rest;
          read = intact.read;
          finished = intact.finished;
          valid = intact.valid;
        }

IsFrameOf-decodes :
    (bytes : Bytes) (limit : ℕ) (before : Option ℕ) (d : DecodedAdmission)
    → IsFrameOf bytes limit before d
    → decode_admission_frame bytes limit before ≡ ok d
unfolding frame_bytes
IsFrameOf-decodes bytes limit before d f =
    let (small, done) = guard-ok (ltb max_admission_payload (length f.payload)) _ _ _ f.laid_out in
    let same : frame d.append_sequence f.payload ≡ bytes = cc done in
    subst (λ x. decode_admission_frame x limit before ≡ ok d) same
      (decode-frame_read d.append_sequence f.payload limit before d f.rest f.positive
        f.representable (ground arith) f.within f.follows f.read f.finished f.valid)

-- Of any bytes: the decoder accepts them as an admission exactly if they are a frame as the writer
-- lays it out, with its magic, version, kind, flags, length and checksum, that carries a sequence of
-- 64 bits other than 0 which follows the previous one, and whose payload is within the limit and is
-- read to its end as that admission, valid in the relations of its parts.
pub decode_admission_frame_iff :
    (bytes : Bytes) (limit : ℕ) (before : Option ℕ) (d : DecodedAdmission)
    → AreBytes bytes
    → (decode_admission_frame bytes limit before ≡ ok d) ↔ IsFrameOf bytes limit before d
decode_admission_frame_iff bytes limit before d are_bytes = (
  λ h.
      IsFrameOf-IsIntact bytes are_bytes limit before d
        (decode_admission_frame-IsIntact bytes limit before d h),
  IsFrameOf-decodes bytes limit before d,
)
