-- ===== src/Store/Journal/Turns.antt =====
-- One turn of the recovery scan, at a complete frame and at a torn one.
use open_control_historian.Base.{
  Bool-cases, Option, arith, drop, drop-append, false, if◌then◌else◌, inl, inr, leb, length,
  length-append, length-take, ltb, none, ok, some, take, take-append, take-append_short, take-take,
  true, ℕ, ◌&&◌, ◌++◌, ◌+◌, ◌-◌, ◌<◌, ◌==◌, ◌^◌, ◌≡◌, ◌≤◌, ◌⊎◌,
}
use open_control_historian.Base.Map.{Bytes}
use open_control_historian.Core.Bounded.{Uuid}
use open_control_historian.Store.Codec.Decode.Payload.{DecodedAdmission}
use open_control_historian.Store.Frame.{
  decode_admission_frame, decode_limits_new, frame_len_from_prefix, frame_prefix_len,
  max_admission_payload,
}
use open_control_historian.Store.Frame.Intact.{decode_admission_frame-IsIntact}
use open_control_historian.Store.Journal.{
  ScanContext, of_store, scan_decoded, scan_frame, scan_turn, scanned, stopped,
}

-- Bytes that were written as one frame, and what they decode to.
pub record Frame : Type 0 where
  pub bytes : Bytes
  pub decoded : DecodedAdmission

-- The frame is one that the store accepts after the previous sequence.
pub record IsFrame (limit : ℕ) (store_id : Uuid) (before : Option ℕ) (f : Frame) : Type 0 where
  pub measured : frame_len_from_prefix (take frame_prefix_len f.bytes) limit ≡ ok (length f.bytes)
  pub decodes : decode_admission_frame f.bytes limit before ≡ ok f.decoded
  pub in_store : of_store store_id f.decoded ≡ true

-- The checkpoint does not end inside the frame.
abbrev pub Outside : ℕ → ℕ → ℕ → Type 0
Outside checkpoint_end offset end = (checkpoint_end ≤ offset) ⊎ (end ≤ checkpoint_end)

decode_limits-ok : (limit : ℕ) → limit ≤ max_admission_payload → decode_limits_new limit ≡ ok limit
unfolding decode_limits_new
decode_limits-ok limit h = ground arith

Outside-false : (e offset end : ℕ) → Outside e offset end → (ltb offset e && ltb e end) ≡ false
Outside-false e offset end (inl h) = ground arith
Outside-false e offset end (inr h) = ground arith

module _ (c : ScanContext) (bounded : c.payload_limit ≤ max_admission_payload) where
  pub scan_turn-frame :
      (f : Frame) (before : Option ℕ) (passed left : Bytes)
      → c.file ≡ passed ++ (f.bytes ++ left)
      → length c.file < 2 ^ 64
      → IsFrame c.payload_limit c.store_id before f
      → Outside c.checkpoint_end (length passed) (length passed + length f.bytes)
      → scan_turn c false before (length passed)
        ≡ ok (
            scanned (record { end_offset = length passed + length f.bytes; admission = f.decoded }))
  unfolding scan_turn scan_frame scan_decoded
  scan_turn-frame f before passed left same short frame outside =
      let intact =
        decode_admission_frame-IsIntact f.bytes c.payload_limit before f.decoded frame.decodes in
      let whole : length c.file ≡ length passed + length f.bytes + length left =
        rw same
          (omega (arith, length-append passed (f.bytes ++ left), length-append f.bytes left)) in
      let here : drop (length passed) c.file ≡ f.bytes ++ left =
        rw same (drop-append passed (f.bytes ++ left)) in
      let prefix : take frame_prefix_len (f.bytes ++ left) ≡ take frame_prefix_len f.bytes =
        take-append_short frame_prefix_len f.bytes left (omega (arith, intact.exact)) in
      let more : ltb (length passed) (length c.file) ≡ true =
        let l = intact.exact in ground arith in
      let enough : ltb (length c.file - length passed) frame_prefix_len ≡ false =
        let l = intact.exact in ground arith in
      let no_overflow : leb (2 ^ 64) (length passed + length f.bytes) ≡ false = ground arith in
      let complete : ltb (length c.file) (length passed + length f.bytes) ≡ false = ground arith in
      rw (
        more,
        enough,
        here,
        decode_limits-ok c.payload_limit bounded,
        prefix,
        frame.measured,
        no_overflow,
        complete,
        Outside-false _ _ _ outside,
        here,
        take-append f.bytes left,
        frame.decodes,
        frame.in_store,
      )

  -- A tail that is a proper part of a frame is torn off, an empty one leaves the file whole.
  abbrev pub cut : ℕ → ℕ → Option ℕ
  cut k offset = if k == 0 then none else some offset

  pub scan_turn-torn :
      (next : Bytes) (k : ℕ) (before : Option ℕ) (passed : Bytes)
      → c.file ≡ passed ++ take k next
      → length c.file < 2 ^ 64
      → length passed + length next < 2 ^ 64
      → frame_len_from_prefix (take frame_prefix_len next) c.payload_limit ≡ ok (length next)
      → k < length next
      → c.checkpoint_end ≤ length passed
      → scan_turn c false before (length passed) ≡ ok (stopped (cut k (length passed)))
  unfolding scan_turn scan_frame
  scan_turn-torn next k before passed same short fits measured proper after =
      let size = length-take k next (omega (arith, proper)) in
      let whole : length c.file ≡ length passed + k =
        rw same (omega (arith, length-append passed (take k next), size)) in
      let unprotected : ltb (length passed) c.checkpoint_end ≡ false = ground arith in
      elim (Bool-cases (k == 0)) [
        | inl empty ↦
            let finished : ltb (length passed) (length c.file) ≡ false = ground arith in
            rw (finished, empty)
        | inr some_bytes ↦
            let more : ltb (length passed) (length c.file) ≡ true = ground arith in
            elim (Bool-cases (ltb (length c.file - length passed) frame_prefix_len)) [
              | inl few ↦ rw (more, few, unprotected, some_bytes)
              | inr enough ↦
                  let here : drop (length passed) c.file ≡ take k next =
                    rw same (drop-append passed (take k next)) in
                  let prefix : take frame_prefix_len (take k next) ≡ take frame_prefix_len next =
                    take-take frame_prefix_len k next (ground arith) in
                  let no_overflow : leb (2 ^ 64) (length passed + length next) ≡ false =
                    ground arith in
                  let beyond : ltb (length c.file) (length passed + length next) ≡ true =
                    ground arith in
                  rw (
                    more,
                    enough,
                    here,
                    decode_limits-ok c.payload_limit bounded,
                    prefix,
                    measured,
                    no_overflow,
                    beyond,
                    unprotected,
                    some_bytes,
                  )
            ]
      ]
