-- ===== src/Store/Journal/Recovery.antt =====
-- The recovery scan of a journal: the frames that are complete are read, a torn tail is cut off.
use open_control_historian.Base.{
  List, Option, [], append_assoc, arith, false, if◌then◌else◌, inl, inr, length, length-append,
  length-take, ltb, none, not, ok, refl, some, subst, suc, take, true, zero, ℕ, ◌&&◌, ◌++◌, ◌+◌,
  ◌<◌, ◌==◌, ◌^◌, ◌∷◌, ◌≡◌, ◌≤◌,
}
use open_control_historian.Base.Map.{Bytes}
use open_control_historian.Core.Bounded.{Uuid}
use open_control_historian.Runtime.Commit.{JournalIdentity}
use open_control_historian.Store.Frame.{
  frame_len_from_prefix, frame_prefix_len, header_len, max_admission_payload,
}
use open_control_historian.Store.Frame.Intact.{decode_admission_frame-IsIntact}
use open_control_historian.Store.Journal.{
  ActiveJournalLimits, RecoveredAdmission, ScanContext, check_checkpoint, prefix_sequence,
  previous_of_floor, scan_journal, scan_loop, scan_turn,
}
use open_control_historian.Store.Journal.Turns.{
  Frame, IsFrame, Outside, cut, scan_turn-frame, scan_turn-torn,
}

-- Frames that were appended one after the other, the first after the given sequence.
unfoldable pub Frames : ℕ → Uuid → Option ℕ → List Frame → Type 0
Frames limit store_id before [] = Unit {0}
Frames limit store_id before (f ∷ rest) =
    IsFrame limit store_id before f × Frames limit store_id (some f.decoded.append_sequence) rest

unfoldable pub written : List Frame → Bytes
written [] = []
written (f ∷ rest) = f.bytes ++ written rest

-- Where the frames end that start at the offset.
pub end_of : ℕ → List Frame → ℕ
end_of offset [] = offset
end_of offset (f ∷ rest) = end_of (offset + length f.bytes) rest

pub last_sequence : ℕ → List Frame → ℕ
last_sequence floor [] = floor
last_sequence floor (f ∷ rest) = last_sequence f.decoded.append_sequence rest

pub records_from : ℕ → List Frame → List RecoveredAdmission
records_from offset [] = []
records_from offset (f ∷ rest) =
    record { end_offset = offset + length f.bytes; admission = f.decoded }
    ∷ records_from (offset + length f.bytes) rest

-- The checkpoint ends between two of the frames or where they end.
Aligned : ℕ → ℕ → List Frame → Type 0
Aligned e offset [] = e ≤ offset
Aligned e offset (f ∷ rest) =
    Outside e offset (offset + length f.bytes) × Aligned e (offset + length f.bytes) rest

-- A torn tail takes the place of one record.
abbrev pub torn : ℕ → ℕ
torn k = if k == 0 then 0 else 1

≤-end_of : (offset : ℕ) (frames : List Frame) → offset ≤ end_of offset frames
unfolding end_of
≤-end_of offset [] = omega arith
≤-end_of offset (f ∷ rest) = omega (arith, ≤-end_of (offset + length f.bytes) rest)

Aligned-after : (e offset : ℕ) (frames : List Frame) → e ≤ offset → Aligned e offset frames
unfolding Aligned
Aligned-after e offset [] h = h
Aligned-after e offset (f ∷ rest) h =
    (inl h, Aligned-after e (offset + length f.bytes) rest (omega (arith, h)))

Aligned-end_of :
    (offset : ℕ) (durable later : List Frame)
    → Aligned (end_of offset durable) offset (durable ++ later)
unfolding Aligned end_of
Aligned-end_of offset [] later = Aligned-after offset offset later (omega arith)
Aligned-end_of offset (f ∷ rest) later =
    (inr (≤-end_of _ rest), Aligned-end_of (offset + length f.bytes) rest later)

module _ (limit : ℕ) (store_id : Uuid) (floor : ℕ) where
  -- No record ends before it starts.
  prefix_sequence-before :
      (e offset : ℕ) (before : Option ℕ) (frames : List Frame)
      → Frames limit store_id before frames
      → e ≤ offset
      → prefix_sequence floor e (records_from offset frames) ≡ floor
  unfolding Frames records_from prefix_sequence
  prefix_sequence-before e offset before [] _ h = refl
  prefix_sequence-before e offset before (f ∷ rest) (frame, frames) h =
      let intact = decode_admission_frame-IsIntact f.bytes limit before f.decoded frame.decodes in
      let apart : (offset + length f.bytes == e) ≡ false = let l = intact.exact in ground arith in
      rw apart (
        prefix_sequence-before e (offset + length f.bytes) (some f.decoded.append_sequence) rest
          frames (omega (arith, h)))

  prefix_sequence-end_of :
      (offset : ℕ) (before : Option ℕ) (durable later : List Frame)
      → Frames limit store_id before (durable ++ later)
      → prefix_sequence floor (end_of offset durable) (records_from offset (durable ++ later))
        ≡ last_sequence floor durable
  unfolding Frames records_from prefix_sequence end_of last_sequence
  prefix_sequence-end_of offset before [] later frames =
      prefix_sequence-before offset offset before later frames (omega arith)
  prefix_sequence-end_of offset before (f ∷ []) later (_, frames) =
      let same : (offset + length f.bytes == offset + length f.bytes) ≡ true = ground arith in
      rw same
  prefix_sequence-end_of offset before (f ∷ (g ∷ rest)) later (_, (frame, frames)) =
      let intact = decode_admission_frame-IsIntact g.bytes limit _ g.decoded frame.decodes in
      let later_end = ≤-end_of (offset + length f.bytes + length g.bytes) rest in
      let apart : (offset + length f.bytes
            == end_of (offset + length f.bytes + length g.bytes) rest)
          ≡ false =
        let l = intact.exact in ground arith in
      rw apart (
        prefix_sequence-end_of (offset + length f.bytes) (some f.decoded.append_sequence) (g ∷ rest)
          later (frame, frames))

module _ (c : ScanContext) (bounded : c.payload_limit ≤ max_admission_payload) (next : Bytes)
    (k : ℕ)
    (measured : frame_len_from_prefix (take frame_prefix_len next) c.payload_limit
      ≡ ok (length next))
    (proper : k < length next) (short : length c.file + length next < 2 ^ 64) where
  scan_loop-Frames :
      (frames : List Frame) (room : ℕ) (before : Option ℕ) (passed : Bytes)
      → c.file ≡ passed ++ (written frames ++ take k next)
      → length frames + torn k ≤ room
      → Frames c.payload_limit c.store_id before frames
      → Aligned c.checkpoint_end (length passed) frames
      → scan_loop c room before (length passed)
        ≡ ok (record {
          records = records_from (length passed) frames;
          valid_end = end_of (length passed) frames;
          truncate_to = cut c bounded k (end_of (length passed) frames);
        })
  unfolding Frames Aligned written records_from end_of scan_loop
  scan_loop-Frames [] zero before passed same small _ aligned =
      let none_torn : (k == 0) ≡ true = ground arith in
      let whole : length c.file ≡ length passed + k = rw same (
        omega (
          arith,
          length-append passed (take k next),
          length-take k next (omega (arith, proper)),
        )) in
      let finished : ltb (length passed) (length c.file) ≡ false = ground arith in
      unfold scan_turn in rw (finished, none_torn)
  scan_loop-Frames [] (suc room) before passed same small _ aligned =
      let whole : length c.file ≡ length passed + k = rw same (
        omega (
          arith,
          length-append passed (take k next),
          length-take k next (omega (arith, proper)),
        )) in
      rw (
        scan_turn-torn c bounded next k before passed same (ground arith) (ground arith) measured
          proper aligned)
  scan_loop-Frames (f ∷ rest) zero before passed same small _ _ = ground arith
  scan_loop-Frames (f ∷ rest) (suc room) before passed same small (frame, frames)
        (outside, aligned) =
      let left = written rest ++ take k next in
      let here : c.file ≡ passed ++ (f.bytes ++ left) =
        rw same (rw (append_assoc f.bytes (written rest) (take k next))) in
      let beyond : c.file ≡ (passed ++ f.bytes) ++ left =
        rw here (rw (append_assoc passed f.bytes left)) in
      let turn = scan_turn-frame c bounded f before passed left here (ground arith) frame outside in
      let later =
        subst
          (λ n.
            Aligned c.checkpoint_end n rest
            → scan_loop c room (some f.decoded.append_sequence) n
              ≡ ok (record {
                records = records_from n rest;
                valid_end = end_of n rest;
                truncate_to = cut c bounded k (end_of n rest);
              }))
          (length-append passed f.bytes)
          (scan_loop-Frames rest room (some f.decoded.append_sequence) (passed ++ f.bytes) beyond
            (omega (arith, small)) frames) in
      rw (turn, later aligned)

-- Frames that come later end later.
end_of-within :
    (offset : ℕ) (durable later : List Frame)
    → ltb (end_of offset (durable ++ later)) (end_of offset durable) ≡ false
unfolding end_of
end_of-within offset [] later = let l = ≤-end_of offset later in ground arith
end_of-within offset (f ∷ rest) later = end_of-within (offset + length f.bytes) rest later

-- The durable frames end where they start only if there are none.
end_of-start :
    (floor limit : ℕ) (store_id : Uuid) (offset : ℕ) (before : Option ℕ)
    (durable later : List Frame)
    → Frames limit store_id before (durable ++ later)
    → ((end_of offset durable == offset) && not (last_sequence floor durable == floor)) ≡ false
unfolding Frames end_of last_sequence
end_of-start floor limit store_id offset before [] later frames = ground arith
end_of-start floor limit store_id offset before (f ∷ rest) later (frame, _) =
    let intact = decode_admission_frame-IsIntact f.bytes limit before f.decoded frame.decodes in
    let end = ≤-end_of (offset + length f.bytes) rest in
    let apart : (end_of (offset + length f.bytes) rest == offset) ≡ false =
      let l = intact.exact in ground arith in
    rw apart

-- A journal file: a header, frames, and the first bytes of a frame whose write was cut short.
abbrev pub journal_file : Bytes → List Frame → Bytes → ℕ → Bytes
journal_file header frames next k = header ++ (written frames ++ take k next)

-- After a crash: a journal holds frames that are durable, later frames that no checkpoint names yet,
-- and the first k bytes of a further frame (a proper part of it, or none). Its checkpoint names the
-- end and the last sequence of the durable frames. The frames are such that the store accepts each
-- after the one before it, and with the torn frame, if there is one, they are within the record
-- limit. Then the scan succeeds, it recovers every complete frame at its offset, the later ones too,
-- and it asks to truncate the file at the end of the complete frames exactly if k is not 0.
pub scan_journal-recovers :
    (identity : JournalIdentity) (limits : ActiveJournalLimits) (sequence_floor slot : ℕ)
    (durable later : List Frame) (header next : Bytes) (k : ℕ)
    → limits.payload_limit ≤ max_admission_payload
    → length header ≡ header_len
    → Frames limits.payload_limit identity.store_id
        (previous_of_floor sequence_floor)
        (durable ++ later)
    → frame_len_from_prefix (take frame_prefix_len next) limits.payload_limit ≡ ok (length next)
    → k < length next
    → length (durable ++ later) + torn k ≤ limits.record_limit
    → length (journal_file header (durable ++ later) next k) + length next < 2 ^ 64
    → scan_journal
        (journal_file header (durable ++ later) next k)
        identity
        limits
        (record {
          slot_generation = slot;
          append_sequence = last_sequence sequence_floor durable;
          end_offset = end_of header_len durable;
        })
        sequence_floor
      ≡ ok (record {
        records = records_from header_len (durable ++ later);
        valid_end = end_of header_len (durable ++ later);
        truncate_to = if k == 0 then none else some (end_of header_len (durable ++ later));
      })
unfolding scan_journal check_checkpoint
scan_journal-recovers identity limits sequence_floor slot durable later header next k bounded starts
      frames measured proper small short =
    let c : ScanContext = record {
      file = journal_file header (durable ++ later) next k;
      store_id = identity.store_id;
      payload_limit = limits.payload_limit;
      checkpoint_end = end_of header_len durable;
    } in
    let scanned_all =
      subst
        (λ n.
          Aligned c.checkpoint_end n (durable ++ later)
          → scan_loop c limits.record_limit (previous_of_floor sequence_floor) n
            ≡ ok (record {
              records = records_from n (durable ++ later);
              valid_end = end_of n (durable ++ later);
              truncate_to = cut c bounded k (end_of n (durable ++ later));
            }))
        starts
        (scan_loop-Frames c bounded next k measured proper short (durable ++ later)
          limits.record_limit (previous_of_floor sequence_floor) header refl small frames) in
    let named =
      prefix_sequence-end_of limits.payload_limit identity.store_id sequence_floor header_len
        (previous_of_floor sequence_floor) durable later frames in
    let reached : ltb (end_of header_len (durable ++ later)) (end_of header_len durable) ≡ false =
      end_of-within header_len durable later in
    let genesis : ((end_of header_len durable == header_len)
          && not (last_sequence sequence_floor durable == sequence_floor))
        ≡ false =
      end_of-start sequence_floor limits.payload_limit identity.store_id header_len
        (previous_of_floor sequence_floor) durable later frames in
    let same : (last_sequence sequence_floor durable == last_sequence sequence_floor durable)
        ≡ true =
      ground arith in
    rw (scanned_all (Aligned-end_of header_len durable later), reached, genesis, named, same)
