-- ===== src/Store/Checkpoint/Slot.antt =====
-- A checkpoint slot that was written is read back as the same state.
use open_control_historian.Base.{
  append_assoc, arith, drop, drop-append, drop-drop, false, length, length-append, ltb, ok, refl,
  subst, take, take-append, true, true→holds, ℕ, ◌%◌, ◌++◌, ◌-◌, ◌<◌, ◌==◌, ◌^◌, ◌≡◌, ◌≤◌,
}
use open_control_historian.Base.Map.{Bytes, Bytes-discrete, same_bytes}
use open_control_historian.Core.Identity.{from_bytes}
use open_control_historian.Runtime.Commit.{JournalIdentity}
use open_control_historian.Store.Words.{
  add_bytes, from-to_be_bytes, from_be_bytes, length-to_be_bytes, to_be_bytes,
}
use open_control_historian.Store.Checksum.{crc32c, crc32c-bound}
use open_control_historian.Store.Frame.{header_len, slice}
use open_control_historian.Store.Journal.{CheckpointState}
use open_control_historian.Store.Checkpoint.{
  all_zero, checkpoint_fields, checkpoint_magic, checkpoint_slot_len, decode_checkpoint_slot,
  differ, encode_checkpoint, malformed_slot, misplaced_state, state_of, valid,
}

-- The state is one of the journal, whose file is so long.
pub record IsCheckpoint (sequence_floor journal_len : ℕ) (state : CheckpointState) : Type 0 where
  pub numbered : 0 < state.slot_generation
  pub after_header : header_len ≤ state.end_offset
  pub in_journal : state.end_offset ≤ journal_len
  pub genesis :
      differ (state.append_sequence == sequence_floor) (state.end_offset == header_len) ≡ false
  pub slot_generation_fits : state.slot_generation < 2 ^ 64
  pub append_sequence_fits : state.append_sequence < 2 ^ 64
  pub end_offset_fits : state.end_offset < 2 ^ 64

same_bytes_refl : (xs : Bytes) → same_bytes xs xs ≡ true
same_bytes_refl xs = true→holds (Bytes-discrete xs xs) refl

module _ (identity : JournalIdentity) (sixteen : length identity.store_id ≡ 16)
    (state : CheckpointState) where
  abbrev fields : Bytes
  fields = checkpoint_fields identity state

  abbrev crc : Bytes
  crc = to_be_bytes 4 (crc32c fields)

  -- What follows the store's identity.
  abbrev numbers : Bytes
  numbers =
      to_be_bytes 8 identity.generation
      ++ (to_be_bytes 8 state.slot_generation
          ++ (to_be_bytes 8 state.append_sequence ++ to_be_bytes 8 state.end_offset))

  length-fields : length fields ≡ 60
  unfolding checkpoint_fields
  length-fields =
      let numbers_len : length numbers ≡ 32 = unfold to_be_bytes in refl in
      let after = length-append identity.store_id numbers in
      unfold to_be_bytes in omega (arith, after, numbers_len, sixteen)

  pub length-encode_checkpoint : length (encode_checkpoint identity state) ≡ checkpoint_slot_len
  unfolding encode_checkpoint
  length-encode_checkpoint =
      omega (arith, length-append fields crc, length-fields, length-to_be_bytes 4 (crc32c fields))

  from_twelve : drop 12 (encode_checkpoint identity state) ≡ identity.store_id ++ (numbers ++ crc)
  unfolding encode_checkpoint checkpoint_fields
  from_twelve = let flat = append_assoc identity.store_id numbers crc in unfold to_be_bytes in flat

  from_28 : drop 28 (encode_checkpoint identity state) ≡ numbers ++ crc
  from_28 =
      let two_steps = drop-drop 16 12 (encode_checkpoint identity state) in
      let passed =
        subst (λ n. drop n (identity.store_id ++ (numbers ++ crc)) ≡ numbers ++ crc) sixteen
          (drop-append identity.store_id (numbers ++ crc)) in
      rw (← two_steps, from_twelve) passed

  store_field : slice 12 28 (encode_checkpoint identity state) ≡ identity.store_id
  store_field = rw from_twelve (
      subst (λ n. take n (identity.store_id ++ (numbers ++ crc)) ≡ identity.store_id) sixteen
        (take-append identity.store_id (numbers ++ crc)))

  generation_field :
      slice 28 36 (encode_checkpoint identity state) ≡ to_be_bytes 8 identity.generation
  generation_field = rw from_28 (unfold to_be_bytes in refl)

  slot_generation_field :
      slice 36 44 (encode_checkpoint identity state) ≡ to_be_bytes 8 state.slot_generation
  slot_generation_field =
      rw (← drop-drop 8 28 (encode_checkpoint identity state), from_28) (unfold to_be_bytes in refl)

  append_sequence_field :
      slice 44 52 (encode_checkpoint identity state) ≡ to_be_bytes 8 state.append_sequence
  append_sequence_field =
      rw (← drop-drop 16 28 (encode_checkpoint identity state), from_28)
        (unfold to_be_bytes in refl)

  end_offset_field : slice 52 60 (encode_checkpoint identity state) ≡ to_be_bytes 8 state.end_offset
  end_offset_field =
      rw (← drop-drop 24 28 (encode_checkpoint identity state), from_28)
        (unfold to_be_bytes in refl)

  checksum_field : slice 60 64 (encode_checkpoint identity state) ≡ crc
  checksum_field =
      rw (← drop-drop 32 28 (encode_checkpoint identity state), from_28)
        (unfold to_be_bytes in refl)

  covered : take 60 (encode_checkpoint identity state) ≡ fields
  unfolding encode_checkpoint
  covered = subst (λ n. take n (fields ++ crc) ≡ fields) length-fields (take-append fields crc)

  not_zero : all_zero (encode_checkpoint identity state) ≡ false
  unfolding encode_checkpoint checkpoint_fields all_zero
  not_zero = refl

  well_formed : malformed_slot (encode_checkpoint identity state) ≡ false
  unfolding malformed_slot
  well_formed =
      let magic : same_bytes (take 8 (encode_checkpoint identity state)) checkpoint_magic ≡ true =
        unfold encode_checkpoint checkpoint_fields in same_bytes_refl checkpoint_magic in
      let version : from_be_bytes (slice 8 10 (encode_checkpoint identity state)) ≡ 1 =
        unfold encode_checkpoint checkpoint_fields to_be_bytes add_bytes in refl in
      let size : from_be_bytes (slice 10 12 (encode_checkpoint identity state)) ≡ 64 =
        unfold encode_checkpoint checkpoint_fields to_be_bytes add_bytes in refl in
      let checksum : (crc32c fields == from_be_bytes crc) ≡ true =
        rw (from-to_be_bytes 4 (crc32c fields) (crc32c-bound fields)) (ground arith) in
      rw (length-encode_checkpoint, magic, version, size, covered, checksum_field, checksum)

  module _ (sequence_floor journal_len : ℕ)
      (accepted : from_bytes identity.store_id ≡ ok identity.store_id)
      (generation_fits : identity.generation < 2 ^ 64)
      (good : IsCheckpoint sequence_floor journal_len state) where
    state_fields : state_of (encode_checkpoint identity state) ≡ state
    state_fields = rw (
      slot_generation_field,
      append_sequence_field,
      end_offset_field,
      from-to_be_bytes 8 state.slot_generation good.slot_generation_fits,
      from-to_be_bytes 8 state.append_sequence good.append_sequence_fits,
      from-to_be_bytes 8 state.end_offset good.end_offset_fits,
    )

    placed :
        misplaced_state state ((state.slot_generation - 1) % 2) sequence_floor journal_len ≡ false
    unfolding misplaced_state
    placed =
        let a = good.numbered in
        let nonzero : (state.slot_generation == 0) ≡ false = ground arith in
        let index : ((state.slot_generation - 1) % 2 == (state.slot_generation - 1) % 2) ≡ true =
          ground arith in
        let b = good.after_header in
        let c = good.in_journal in
        let long : ltb state.end_offset header_len ≡ false = ground arith in
        let short : ltb journal_len state.end_offset ≡ false = ground arith in
        rw (nonzero, index, long, short, good.genesis)

    pub decode_checkpoint_slot-encode :
        decode_checkpoint_slot
          (encode_checkpoint identity state)
          ((state.slot_generation - 1) % 2)
          identity
          sequence_floor
          journal_len
        ≡ valid state
    unfolding decode_checkpoint_slot
    decode_checkpoint_slot-encode =
        let same_generation : (identity.generation == identity.generation) ≡ true = ground arith in
        rw (
          not_zero,
          well_formed,
          store_field,
          accepted,
          same_bytes_refl identity.store_id,
          generation_field,
          from-to_be_bytes 8 identity.generation generation_fits,
          same_generation,
          state_fields,
          placed,
        )
