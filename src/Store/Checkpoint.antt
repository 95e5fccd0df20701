-- ===== src/Store/Checkpoint.antt =====
-- crates/och-store/src/active.rs: the checkpoint file, two slots of 64 bytes that are written in
-- turn. A write overwrites the bytes from its offset on and succeeds; what a read gives is an
-- argument.
pub mod Slot
pub mod Advance
use open_control_historian.Base.{
  Bool, Option, [], drop, err, false, if◌then◌else◌, leb, length, ltb, none, not, ok, some, suc,
  take, true, zero, ℕ, ◌%◌, ◌&&◌, ◌*◌, ◌++◌, ◌+◌, ◌-◌, ◌==◌, ◌>>=◌, ◌>>◌, ◌||◌, ◌∷◌,
}
use open_control_historian.Base.Map.{Bytes, same_bytes}
use open_control_historian.Core.Bounded.{Uuid}
use open_control_historian.Core.Error.{Checked}
use open_control_historian.Core.Identity.{from_bytes}
use open_control_historian.Runtime.Commit.{JournalIdentity}
use open_control_historian.Store.Words.{from_be_bytes, to_be_bytes}
use open_control_historian.Store.Checksum.{crc32c}
use open_control_historian.Store.Frame.{header_len, slice}
use open_control_historian.Store.Journal.{Active, CheckpointState, invalid_layout}
use open_control_historian.Store.Codec.Encoder

abbrev pub checkpoint_magic : Bytes
checkpoint_magic = b'O' ∷ b'C' ∷ b'H' ∷ b'C' ∷ b'P' ∷ b'0' ∷ b'0' ∷ b'1' ∷ []

abbrev pub checkpoint_version : ℕ
checkpoint_version = 1

abbrev pub checkpoint_slot_len : ℕ
checkpoint_slot_len = 64

abbrev pub checkpoint_file_len : ℕ
checkpoint_file_len = checkpoint_slot_len * 2

-- The bytes of a slot before its checksum.
unfoldable pub checkpoint_fields : JournalIdentity → CheckpointState → Bytes
checkpoint_fields identity state =
    checkpoint_magic
    ++ (to_be_bytes 2 checkpoint_version
        ++ (to_be_bytes 2 checkpoint_slot_len
            ++ (identity.store_id
                ++ (to_be_bytes 8 identity.generation
                    ++ (to_be_bytes 8 state.slot_generation
                        ++ (to_be_bytes 8 state.append_sequence
                            ++ to_be_bytes 8 state.end_offset))))))

unfoldable pub encode_checkpoint : JournalIdentity → CheckpointState → Bytes
encode_checkpoint identity state =
    let fields = checkpoint_fields identity state in fields ++ to_be_bytes 4 (crc32c fields)

pub data SlotDecode : Type 0 where
  empty_slot invalid_nonzero : SlotDecode
  valid : CheckpointState → SlotDecode

unfoldable pub all_zero : Bytes → Bool
all_zero [] = true
all_zero (byte ∷ bytes) = byte == 0 && all_zero bytes

-- `!=` on Booleans.
abbrev pub differ : Bool → Bool → Bool
differ true b = not b
differ false b = b

-- `store_id == Ok(identity.store_id)`.
abbrev pub names_store : Checked Uuid → Uuid → Bool
names_store (ok id) store_id = same_bytes id store_id
names_store (err e) store_id = false

-- The checks of the layout of a slot.
unfoldable pub malformed_slot : Bytes → Bool
malformed_slot bytes =
    not (length bytes == checkpoint_slot_len)
    || (not (same_bytes (take 8 bytes) checkpoint_magic)
        || (not (from_be_bytes (slice 8 10 bytes) == checkpoint_version)
            || (not (from_be_bytes (slice 10 12 bytes) == checkpoint_slot_len)
                || not (crc32c (take 60 bytes) == from_be_bytes (slice 60 64 bytes)))))

-- The checks of what a slot says, at its index.
unfoldable pub misplaced_state : CheckpointState → ℕ → ℕ → ℕ → Bool
misplaced_state state slot_index sequence_floor journal_len =
    state.slot_generation == 0
    || (not ((state.slot_generation - 1) % 2 == slot_index)
        || (ltb state.end_offset header_len
            || (ltb journal_len state.end_offset
                || differ (state.append_sequence == sequence_floor)
                    (state.end_offset == header_len))))

abbrev pub state_of : Bytes → CheckpointState
state_of bytes = record {
  slot_generation = from_be_bytes (slice 36 44 bytes);
  append_sequence = from_be_bytes (slice 44 52 bytes);
  end_offset = from_be_bytes (slice 52 60 bytes);
}

unfoldable pub decode_checkpoint_slot : Bytes → ℕ → JournalIdentity → ℕ → ℕ → SlotDecode
decode_checkpoint_slot bytes slot_index identity sequence_floor journal_len =
    if all_zero bytes
    then empty_slot
    else if malformed_slot bytes
    then invalid_nonzero
    else if not (names_store (from_bytes (slice 12 28 bytes)) identity.store_id)
        || (not (from_be_bytes (slice 28 36 bytes) == identity.generation)
            || misplaced_state (state_of bytes) slot_index sequence_floor journal_len)
    then invalid_nonzero
    else valid (state_of bytes)

-- A slot that is alone holds the first generation.
abbrev sole_state : CheckpointState → Active (Option CheckpointState)
sole_state state = if state.slot_generation == 1 then ok (some state) else err invalid_layout

abbrev newer_state : CheckpointState → CheckpointState → Active (Option CheckpointState)
newer_state older newer =
    if not (newer.slot_generation == older.slot_generation + 1)
      || (leb newer.append_sequence older.append_sequence || leb newer.end_offset older.end_offset)
    then err invalid_layout
    else ok (some newer)

unfoldable pub choose_slot : SlotDecode → SlotDecode → Active (Option CheckpointState)
choose_slot empty_slot empty_slot = ok none
choose_slot empty_slot (valid state) = sole_state state
choose_slot empty_slot invalid_nonzero = err invalid_layout
choose_slot invalid_nonzero second = err invalid_layout
choose_slot (valid state) empty_slot = sole_state state
choose_slot (valid state) invalid_nonzero = err invalid_layout
choose_slot (valid first) (valid second) =
    if ltb first.slot_generation second.slot_generation
    then newer_state first second
    else newer_state second first

-- `read` is what `read_exact` gives: the 128 bytes of the file or its error.
unfoldable pub read_checkpoint :
    Active Bytes → JournalIdentity → ℕ → ℕ → Active (Option CheckpointState)
read_checkpoint read identity sequence_floor journal_len = do
  bytes ← read
  choose_slot
      (decode_checkpoint_slot (take checkpoint_slot_len bytes) 0 identity sequence_floor
        journal_len)
      (decode_checkpoint_slot (drop checkpoint_slot_len bytes) 1 identity sequence_floor
        journal_len)

pub record PreparedCheckpointSlot : Type 0 where
  pub bytes : Bytes
  pub offset : ℕ

unfoldable pub prepare_checkpoint_slot : JournalIdentity → CheckpointState → PreparedCheckpointSlot
prepare_checkpoint_slot identity state = record {
  bytes = encode_checkpoint identity state;
  offset = (state.slot_generation - 1) % 2 * checkpoint_slot_len;
}

unfoldable pub write_prepared_checkpoint_slot : Bytes → PreparedCheckpointSlot → Bytes
write_prepared_checkpoint_slot file prepared =
    take prepared.offset file
    ++ (prepared.bytes ++ drop (prepared.offset + length prepared.bytes) file)

abbrev pub genesis_checkpoint_state : ℕ → CheckpointState
genesis_checkpoint_state sequence_floor = record {
  slot_generation = 1;
  append_sequence = sequence_floor;
  end_offset = header_len;
}

unfoldable pub zeros : ℕ → Bytes
zeros zero = []
zeros (suc n) = 0 ∷ zeros n

-- `set_len`: the file is cut, or filled up with zeros.
abbrev pub set_len : ℕ → Bytes → Bytes
set_len len file = take len (file ++ zeros (len - length file))

unfoldable pub initialize_checkpoint : Bytes → JournalIdentity → ℕ → Bytes × CheckpointState
initialize_checkpoint file identity sequence_floor =
    let state = genesis_checkpoint_state sequence_floor in
    (
      write_prepared_checkpoint_slot (set_len checkpoint_file_len file)
          (prepare_checkpoint_slot identity state),
      state,
    )
