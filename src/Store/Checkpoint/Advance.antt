-- ===== src/Store/Checkpoint/Advance.antt =====
-- The checkpoint file over its life: what was written last is what is read.
use open_control_historian.Base.{
  List, [], append-nil, arith, drop, drop-append, false, holds, inl, inr, leb, length,
  length-append, length-drop, length-take, ltb, ok, refl, some, subst, sym, take, take-append, true,
  ℕ, ◌%◌, ◌++◌, ◌+◌, ◌-◌, ◌<◌, ◌==◌, ◌^◌, ◌∷◌, ◌≡◌, ◌≤◌, ◌⊎◌,
}
use open_control_historian.Base.Map.{Bytes}
use open_control_historian.Runtime.Commit.{JournalIdentity}
use open_control_historian.Store.Frame.{header_len}
use open_control_historian.Store.Journal.{CheckpointState}
use open_control_historian.Store.Checkpoint.{
  SlotDecode, all_zero, checkpoint_file_len, choose_slot, decode_checkpoint_slot, empty_slot,
  encode_checkpoint, genesis_checkpoint_state, initialize_checkpoint, invalid_nonzero,
  prepare_checkpoint_slot, read_checkpoint, valid, write_prepared_checkpoint_slot, zeros,
}
use open_control_historian.Store.Codec.RoundTrip.Values.{IsIdentity}
use open_control_historian.Store.Checkpoint.Slot.{
  IsCheckpoint, decode_checkpoint_slot-encode, length-encode_checkpoint,
}

-- What may stand in the other slot: nothing, if the state is the first, or the state before it.
Older : SlotDecode → CheckpointState → Type 0
Older empty_slot state = state.slot_generation ≡ 1
Older invalid_nonzero state = ⊥
Older (valid older) state =
    (state.slot_generation ≡ older.slot_generation + 1)
    × (older.append_sequence < state.append_sequence)
    × (older.end_offset < state.end_offset)

-- Checkpoints that are written one after the other.
unfoldable pub Advances : ℕ → CheckpointState → List CheckpointState → Type 0
Advances journal_len state [] = Unit {0}
Advances journal_len state (next ∷ rest) =
    (next.slot_generation ≡ state.slot_generation + 1)
    × (state.append_sequence < next.append_sequence)
    × (state.end_offset < next.end_offset)
    × (next.slot_generation < 2 ^ 64)
    × (next.append_sequence < 2 ^ 64)
    × (next.end_offset ≤ journal_len)
    × Advances journal_len next rest

unfoldable pub last_state : CheckpointState → List CheckpointState → CheckpointState
last_state state [] = state
last_state state (next ∷ rest) = last_state next rest

abbrev write_checkpoint : JournalIdentity → Bytes → CheckpointState → Bytes
write_checkpoint identity file state =
    write_prepared_checkpoint_slot file (prepare_checkpoint_slot identity state)

abbrev pub write_all : JournalIdentity → Bytes → List CheckpointState → Bytes
write_all identity file [] = file
write_all identity file (next ∷ rest) =
    write_all identity (write_checkpoint identity file next) rest

above_not_eq : (a b : ℕ) → b < a → (a == b) ≡ false
above_not_eq a b h = ground arith

choose_slot-first :
    (state : CheckpointState) (other : SlotDecode)
    → Older other state
    → choose_slot (valid state) other ≡ ok (some state)
unfolding Older choose_slot
choose_slot-first state empty_slot h =
    let one : (state.slot_generation == 1) ≡ true = ground arith in rw one
choose_slot-first state invalid_nonzero h = absurd h
choose_slot-first state (valid older) (next, sequence, end) =
    let newer : ltb state.slot_generation older.slot_generation ≡ false = ground arith in
    let same : (state.slot_generation == older.slot_generation + 1) ≡ true = ground arith in
    let later : leb state.append_sequence older.append_sequence ≡ false = ground arith in
    let further : leb state.end_offset older.end_offset ≡ false = ground arith in
    rw (newer, same, later, further)

choose_slot-second :
    (state : CheckpointState) (other : SlotDecode)
    → Older other state
    → choose_slot other (valid state) ≡ ok (some state)
unfolding Older choose_slot
choose_slot-second state empty_slot h =
    let one : (state.slot_generation == 1) ≡ true = ground arith in rw one
choose_slot-second state invalid_nonzero h = absurd h
choose_slot-second state (valid older) (next, sequence, end) =
    let newer : ltb older.slot_generation state.slot_generation ≡ true = ground arith in
    let same : (state.slot_generation == older.slot_generation + 1) ≡ true = ground arith in
    let later : leb state.append_sequence older.append_sequence ≡ false = ground arith in
    let further : leb state.end_offset older.end_offset ≡ false = ground arith in
    rw (newer, same, later, further)

module _ (identity : JournalIdentity) (sequence_floor journal_len : ℕ)
    (is_identity : IsIdentity identity.store_id) (generation_fits : identity.generation < 2 ^ 64)
    (floor_fits : sequence_floor < 2 ^ 64) (has_header : header_len ≤ journal_len)
    (journal_fits : journal_len < 2 ^ 64) where
  abbrev decode_at : ℕ → Bytes → SlotDecode
  decode_at index bytes = decode_checkpoint_slot bytes index identity sequence_floor journal_len

  -- The file holds the state in the slot of its generation, and what may stand beside it.
  record Holds (file : Bytes) (state : CheckpointState) : Type 0 where
    whole : length file ≡ checkpoint_file_len
    good : IsCheckpoint sequence_floor journal_len state
    not_before : sequence_floor ≤ state.append_sequence
    slots :
        (((state.slot_generation - 1) % 2 ≡ 0)
          × (decode_at 0 (take 64 file) ≡ valid state)
          × Older (decode_at 1 (drop 64 file)) state)
        ⊎ (((state.slot_generation - 1) % 2 ≡ 1)
            × (decode_at 1 (drop 64 file) ≡ valid state)
            × Older (decode_at 0 (take 64 file)) state)

  read_checkpoint-Holds :
      (file : Bytes) (state : CheckpointState)
      → Holds file state
      → read_checkpoint (ok file) identity sequence_floor journal_len ≡ ok (some state)
  unfolding read_checkpoint
  read_checkpoint-Holds file state holds = elim holds.slots [
    | inl (_, here, older) ↦ rw here (choose_slot-first state (decode_at 1 (drop 64 file)) older)
    | inr (_, here, older) ↦ rw here (choose_slot-second state (decode_at 0 (take 64 file)) older)
  ]

  written_slot :
      (state : CheckpointState)
      → IsCheckpoint sequence_floor journal_len state
      → (index : ℕ) → (state.slot_generation - 1) % 2 ≡ index
      → decode_at index (encode_checkpoint identity state) ≡ valid state
  unfolding IsIdentity
  written_slot state good index at_index =
      subst (λ i. decode_at i (encode_checkpoint identity state) ≡ valid state) at_index
        (decode_checkpoint_slot-encode identity is_identity.0 state sequence_floor journal_len
          is_identity.1 generation_fits good)

  abbrev write : Bytes → CheckpointState → Bytes
  write file state = write_checkpoint identity file state

  -- A file of two slots.
  first_half : (a b : Bytes) → length a ≡ 64 → take 64 (a ++ b) ≡ a
  first_half a b size = subst (λ n. take n (a ++ b) ≡ a) size (take-append a b)

  second_half : (a b : Bytes) → length a ≡ 64 → drop 64 (a ++ b) ≡ b
  second_half a b size = subst (λ n. drop n (a ++ b) ≡ b) size (drop-append a b)

  -- Written to the first slot: the second one stays.
  write_first :
      (file : Bytes) (state : CheckpointState)
      → length file ≡ 128
      → (state.slot_generation - 1) % 2 ≡ 0
      → write file state ≡ encode_checkpoint identity state ++ drop 64 file
  unfolding write_prepared_checkpoint_slot prepare_checkpoint_slot IsIdentity
  write_first file state whole index =
      rw (index, length-encode_checkpoint identity is_identity.0 state)

  write_second :
      (file : Bytes) (state : CheckpointState)
      → length file ≡ 128
      → (state.slot_generation - 1) % 2 ≡ 1
      → write file state ≡ take 64 file ++ encode_checkpoint identity state
  unfolding write_prepared_checkpoint_slot prepare_checkpoint_slot IsIdentity
  write_second file state whole index =
      let nothing : drop 128 file ≡ [] =
        let rest = drop-append file [] in
        subst (λ n. drop n file ≡ []) whole (rw (append-nil file) at rest) in
      rw (
        index,
        length-encode_checkpoint identity is_identity.0 state,
        nothing,
        append-nil (encode_checkpoint identity state),
      )

  length-encoded : (state : CheckpointState) → length (encode_checkpoint identity state) ≡ 64
  unfolding IsIdentity
  length-encoded state = length-encode_checkpoint identity is_identity.0 state

  Holds-first :
      (file : Bytes) (state : CheckpointState)
      → length file ≡ 128
      → IsCheckpoint sequence_floor journal_len state
      → sequence_floor ≤ state.append_sequence
      → (state.slot_generation - 1) % 2 ≡ 0
      → Older (decode_at 1 (drop 64 file)) state
      → Holds (write file state) state
  Holds-first file state whole good not_before index older =
      let encoded = encode_checkpoint identity state in
      let size = length-encoded state in
      let tail = drop 64 file in
      subst (λ f. Holds f state) (sym (write_first file state whole index))
        (record {
          whole = omega (arith, size, length-append encoded tail, length-drop 64 file, whole);
          good = good;
          not_before = not_before;
          slots = inl (
            index,
            subst (λ x. decode_at 0 x ≡ valid state) (sym (first_half encoded tail size))
                (written_slot state good 0 index),
            subst (λ x. Older (decode_at 1 x) state) (sym (second_half encoded tail size)) older,
          );
        })

  Holds-second :
      (file : Bytes) (state : CheckpointState)
      → length file ≡ 128
      → IsCheckpoint sequence_floor journal_len state
      → sequence_floor ≤ state.append_sequence
      → (state.slot_generation - 1) % 2 ≡ 1
      → Older (decode_at 0 (take 64 file)) state
      → Holds (write file state) state
  Holds-second file state whole good not_before index older =
      let encoded = encode_checkpoint identity state in
      let start = take 64 file in
      let size = length-take 64 file (omega (arith, whole)) in
      subst (λ f. Holds f state) (sym (write_second file state whole index))
        (record {
          whole = omega (arith, size, length-append start encoded, length-encoded state);
          good = good;
          not_before = not_before;
          slots = inr (
            index,
            subst (λ x. decode_at 1 x ≡ valid state) (sym (second_half start encoded size))
                (written_slot state good 1 index),
            subst (λ x. Older (decode_at 0 x) state) (sym (first_half start encoded size)) older,
          );
        })

  Holds-initialize :
      Holds
        (initialize_checkpoint [] identity sequence_floor).0
        (genesis_checkpoint_state sequence_floor)
  unfolding initialize_checkpoint zeros
  Holds-initialize =
      let same : (sequence_floor == sequence_floor) ≡ true = ground arith in
      let good : IsCheckpoint sequence_floor journal_len (genesis_checkpoint_state sequence_floor) =
        record {
          numbered = omega arith;
          after_header = omega arith;
          in_journal = has_header;
          genesis = rw same;
          slot_generation_fits = omega arith;
          append_sequence_fits = floor_fits;
          end_offset_fits = omega (arith, has_header, journal_fits);
        } in
      let empty : Older (decode_at 1 (zeros 64)) (genesis_checkpoint_state sequence_floor) =
        unfold Older decode_checkpoint_slot all_zero in refl in
      Holds-first (zeros 128) (genesis_checkpoint_state sequence_floor) refl good (omega arith) refl
        empty

  Holds-next :
      (file : Bytes) (state next : CheckpointState)
      → Holds file state
      → next.slot_generation ≡ state.slot_generation + 1
      → state.append_sequence < next.append_sequence
      → state.end_offset < next.end_offset
      → next.slot_generation < 2 ^ 64
      → next.append_sequence < 2 ^ 64
      → next.end_offset ≤ journal_len
      → Holds (write file next) next
  Holds-next file state next holds successive later further small small_sequence in_journal =
      let before = holds.not_before in
      let header = holds.good.after_header in
      let numbered = holds.good.numbered in
      let apart = above_not_eq next.append_sequence sequence_floor (omega (arith, before, later)) in
      let beyond = above_not_eq next.end_offset header_len (omega (arith, header, further)) in
      let good : IsCheckpoint sequence_floor journal_len next = record {
        numbered = omega (arith, successive);
        after_header = omega (arith, header, further);
        in_journal = in_journal;
        genesis = rw (apart, beyond);
        slot_generation_fits = small;
        append_sequence_fits = small_sequence;
        end_offset_fits = omega (arith, in_journal, journal_fits);
      } in
      let kept : sequence_floor ≤ next.append_sequence = omega (arith, before, later) in
      let older : Older (valid state) next = unfold Older in (successive, later, further) in
      elim holds.slots [
        | inl (index, here, _) ↦
            Holds-second file next holds.whole good kept
              (omega (arith, index, successive, numbered))
              (subst (λ slot. Older slot next) (sym here) older)
        | inr (index, here, _) ↦
            Holds-first file next holds.whole good kept (omega (arith, index, successive, numbered))
              (subst (λ slot. Older slot next) (sym here) older)
      ]

  Holds-write_all :
      (file : Bytes) (state : CheckpointState) (later : List CheckpointState)
      → Holds file state
      → Advances journal_len state later
      → Holds (write_all identity file later) (last_state state later)
  unfolding Advances last_state
  Holds-write_all file state [] holds _ = holds
  Holds-write_all file state (next ∷ rest) holds (one, two, three, four, five, six, advances) =
      Holds-write_all (write file next) next rest
        (Holds-next file state next holds one two three four five six) advances

  -- A checkpoint file that was initialised when it was empty, and then written with any sequence of
  -- checkpoints, each of the next slot generation, with a higher append sequence and a higher end
  -- offset, all below 2^64 and within the journal: reading it gives the checkpoint that was written
  -- last, or the genesis checkpoint if there is none. The identity is valid, its generation and the
  -- sequence floor are below 2^64, and the journal holds at least its header.
  pub read_checkpoint-write_all :
      (later : List CheckpointState)
      → Advances journal_len (genesis_checkpoint_state sequence_floor) later
      → read_checkpoint
          (ok (write_all identity (initialize_checkpoint [] identity sequence_floor).0 later))
          identity
          sequence_floor
          journal_len
        ≡ ok (some (last_state (genesis_checkpoint_state sequence_floor) later))
  read_checkpoint-write_all later advances =
      read_checkpoint-Holds _ _ (Holds-write_all _ _ later Holds-initialize advances)
