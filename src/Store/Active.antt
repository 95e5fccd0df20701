-- ===== src/Store/Active.antt =====
-- crates/och-store/src/active.rs: `ActiveJournal`, the open journal with its checkpoint. The two
-- files are their bytes. What the operating system answers is an argument: an error stands for what
-- `io_error` makes of it.
pub mod Sound
use open_control_historian.Base.{
  Bool, List, Option, [], err, if◌then◌else◌, last?, leb, length, ltb, map_ok, none, not, ok,
  refuse_if, some, take, ℕ, ◌&&◌, ◌++◌, ◌+◌, ◌==◌, ◌>>=◌, ◌>>◌, ◌^◌, ◌||◌, ◌∷◌,
}
use open_control_historian.Base.Map.{Bytes, same_bytes}
use open_control_historian.Runtime.Commit.{DurableCutoff, JournalIdentity}
use open_control_historian.Store.Codec.Encoder.{bytes, saturating_add, ◌then◌}
use open_control_historian.Store.Frame.{
  append_sequence_new, decode_admission_frame, decode_limits_new,
}
use open_control_historian.Store.Frame.Prepared.{PreparedFrame}
use open_control_historian.Store.Journal.{
  Active, ActiveJournalError, ActiveJournalLimits, CheckpointState, RecoveredAdmission, faulted,
  from_journal, invalid_layout, of_store, reopen_required, rotation_required, sequence_mismatch,
  storage_pressure, store_mismatch,
}
use open_control_historian.Store.Checkpoint.{
  PreparedCheckpointSlot, prepare_checkpoint_slot, write_prepared_checkpoint_slot,
}
use open_control_historian.Store.Codec.Encoder

-- `StoreWriteState` of crates/och-store/src/pressure.rs.
pub data StoreWriteState : Type 0 where
  writable write_reopen_required write_faulted : StoreWriteState

pub record ActiveJournal : Type 0 where
  pub journal : Bytes
  pub checkpoint : Bytes
  pub identity : JournalIdentity
  pub limits : ActiveJournalLimits
  pub checkpoint_state : CheckpointState
  pub active_bytes : ℕ
  pub records : List RecoveredAdmission
  pub sync_count : ℕ
  pub write_state : StoreWriteState

-- What a write of a whole buffer does: all of it, or a part of it and then an error.
pub data Written : Type 0 where
  all_written : Written
  partly_written : ℕ → ActiveJournalError → Written

unfoldable pub ensure_usable : ActiveJournal → Active (Unit {0})
ensure_usable j = elim j.write_state [
  | writable ↦ ok tt
  | write_reopen_required ↦ err reopen_required
  | write_faulted ↦ err faulted
]

abbrev pub state_after : ActiveJournalError → StoreWriteState
state_after (storage_pressure evidence) = write_reopen_required
state_after error = write_faulted

unfoldable pub record_mutation_error : ActiveJournal → ActiveJournalError → ActiveJournal
record_mutation_error j error = record j { write_state = state_after error }

unfoldable pub last_append_sequence : ActiveJournal → ℕ
last_append_sequence j = elim (last? j.records) [
  | none ↦ j.checkpoint_state.append_sequence
  | some r ↦ r.admission.append_sequence
]

unfoldable pub next_append_sequence : ActiveJournal → Active ℕ
next_append_sequence j = do
  ensure_usable j
  refuse_if (leb (2 ^ 64) (last_append_sequence j + 1)) sequence_mismatch
  from_journal (append_sequence_new (last_append_sequence j + 1))

-- The sequence of the last record, checked again.
abbrev pub previous_sequence : List RecoveredAdmission → Active (Option ℕ)
previous_sequence records = elim (last? records) [
  | none ↦ ok none
  | some r ↦ map_ok (λ s. some s) (from_journal (append_sequence_new r.admission.append_sequence))
]

-- What `append` checks before it touches the file, with the end offset that it computes.
unfoldable pub check_append : ActiveJournal → PreparedFrame → Active RecoveredAdmission
check_append j frame = do
  ensure_usable j
  next ← next_append_sequence j
  refuse_if (not (frame.append_sequence == next)) sequence_mismatch
  previous ← previous_sequence j.records
  limit ← from_journal (decode_limits_new j.limits.payload_limit)
  decoded ← from_journal (decode_admission_frame frame.bytes limit previous)
  refuse_if
      (not (of_store j.identity.store_id decoded)
        || not (
            same_bytes frame.admission.store_id j.identity.store_id
            && same_bytes frame.admission.declaration.store_id j.identity.store_id))
      store_mismatch
  refuse_if (leb (2 ^ 64) (j.active_bytes + length frame.bytes)) rotation_required
  refuse_if
      (ltb j.limits.active_bytes (j.active_bytes + length frame.bytes)
        || leb j.limits.record_limit (length j.records))
      rotation_required
  ok (record { end_offset = j.active_bytes + length frame.bytes; admission = decoded })

-- The write at the end of the file, where `seek` went.
unfoldable pub write_frame :
    ActiveJournal → PreparedFrame → RecoveredAdmission → Written → ActiveJournal × Active ℕ
write_frame j frame r all_written = (
  record j {
    journal = j.journal ++ frame.bytes;
    active_bytes = r.end_offset;
    records = j.records ++ r ∷ [];
  },
  ok r.end_offset,
)
write_frame j frame r (partly_written n error) = (
  record_mutation_error (record j { journal = j.journal ++ take n frame.bytes }) error,
  err error,
)

-- The rest of `append`, after its checks.
unfoldable pub append_checked :
    ActiveJournal
    → PreparedFrame
    → Written
    → Active RecoveredAdmission
    → Active (Unit {0})
    → ActiveJournal × Active ℕ
append_checked j frame write (err error) seek = (j, err error)
append_checked j frame write (ok r) (err error) = (j, err error)
append_checked j frame write (ok r) (ok _) = write_frame j frame r write

unfoldable pub append :
    ActiveJournal → PreparedFrame → Active (Unit {0}) → Written → ActiveJournal × Active ℕ
append j frame seek write = append_checked j frame write (check_append j frame) seek

unfoldable pub can_fit : ActiveJournal → ℕ → Bool
can_fit j frame_len =
    ltb (length j.records) j.limits.record_limit
    && (ltb (j.active_bytes + frame_len) (2 ^ 64)
        && leb (j.active_bytes + frame_len) j.limits.active_bytes)

unfoldable pub durable_cutoff_from_state : JournalIdentity → CheckpointState → DurableCutoff
durable_cutoff_from_state identity state = record {
  journal = identity;
  checkpoint_generation = state.slot_generation;
  append_sequence = state.append_sequence;
  end_offset = state.end_offset;
}

abbrev pub durable_cutoff : ActiveJournal → DurableCutoff
durable_cutoff j = durable_cutoff_from_state j.identity j.checkpoint_state

unfoldable pub pending_checkpoint_state : ActiveJournal → ℕ → Active CheckpointState
pending_checkpoint_state j last_sequence = do
  refuse_if (leb (2 ^ 64) (j.checkpoint_state.slot_generation + 1)) invalid_layout
  ok (record {
    slot_generation = j.checkpoint_state.slot_generation + 1;
    append_sequence = last_sequence;
    end_offset = j.active_bytes;
  })

-- Nothing was appended since the checkpoint.
abbrev pub is_synced : ActiveJournal → Bool
is_synced j =
    (last_append_sequence j == j.checkpoint_state.append_sequence)
    && (j.active_bytes == j.checkpoint_state.end_offset)

unfoldable pub pending_durable_cutoff : ActiveJournal → Active DurableCutoff
pending_durable_cutoff j = do
  ensure_usable j
  if is_synced j
      then ok (durable_cutoff j)
      else (map_ok (durable_cutoff_from_state j.identity)
          (pending_checkpoint_state j (last_append_sequence j)))

-- What the system answers to the three steps of a synchronization.
pub record SyncAnswers : Type 0 where
  pub journal_sync : Active (Unit {0})
  pub checkpoint_write : Written
  pub checkpoint_sync : Active (Unit {0})

-- The checkpoint file after a write of the slot, the whole of it or a part.
abbrev write_slot : Bytes → PreparedCheckpointSlot → Written → Bytes × Active (Unit {0})
write_slot file prepared all_written = (write_prepared_checkpoint_slot file prepared, ok tt)
write_slot file prepared (partly_written n error) = (
  write_prepared_checkpoint_slot file (record prepared { bytes = take n prepared.bytes }),
  err error,
)

-- The last steps: the slot has been written, or not.
unfoldable pub adopt_checkpoint :
    ActiveJournal → CheckpointState → Active (Unit {0}) → ActiveJournal × Active DurableCutoff
adopt_checkpoint j next (err error) = (record_mutation_error j error, err error)
adopt_checkpoint j next (ok _) =
    let adopted = record j {
      checkpoint_state = next;
      sync_count = saturating_add j.sync_count 1;
    } in
    (adopted, ok (durable_cutoff adopted))

unfoldable pub sync_checkpoint :
    ActiveJournal → CheckpointState → SyncAnswers → ActiveJournal × Active DurableCutoff
sync_checkpoint j next answers = elim answers.journal_sync [
  | err error ↦ (record_mutation_error j error, err error)
  | ok _ ↦
      let (file, answer) =
        write_slot j.checkpoint (prepare_checkpoint_slot j.identity next)
          answers.checkpoint_write in
      adopt_checkpoint (record j { checkpoint = file }) next (answer >> answers.checkpoint_sync)
]

unfoldable pub sync_pending : ActiveJournal → SyncAnswers → ActiveJournal × Active DurableCutoff
sync_pending j answers = elim (ensure_usable j) [
  | err error ↦ (j, err error)
  | ok _ ↦
      if is_synced j
      then (j, ok (durable_cutoff j))
      else elim (pending_checkpoint_state j (last_append_sequence j)) [
        | err error ↦ (j, err error)
        | ok next ↦ sync_checkpoint j next answers
      ]
]
