-- ===== src/Store/Journal.antt =====
-- crates/och-store/src/active.rs: the active journal file and its recovery scan. The file is its
-- bytes; a read of bytes that are there succeeds.
pub mod Turns
pub mod Recovery
use open_control_historian.Base.{
  Bool, List, Option, Result, [], drop, err, false, if◌then◌else◌, leb, length, ltb, map_ok, none,
  not, ok, refuse_if, some, suc, take, true, zero, ℕ, ◌&&◌, ◌*◌, ◌+◌, ◌-◌, ◌==◌, ◌>>=◌, ◌>>◌, ◌^◌,
  ◌||◌, ◌∷◌,
}
use open_control_historian.Base.Map.{Bytes, same_bytes}
use open_control_historian.Core.Bounded.{Uuid}
use open_control_historian.Runtime.Commit.{JournalIdentity}
use open_control_historian.Store.Error.{Journal, JournalError}
use open_control_historian.Store.Codec.Decode.Payload.{DecodedAdmission}
use open_control_historian.Store.Frame.{
  decode_admission_frame, decode_limits_new, frame_len_from_prefix, frame_prefix_len, header_len,
  max_admission_payload,
}

-- `StoreIoEvidence` is opaque, the evidence that the operating system gives.
pub data ActiveJournalError : Type 0 where
  invalid_options already_exists already_open missing_artifact invalid_layout store_mismatch
        rotation_required frame_too_large sequence_mismatch faulted reopen_required :
      ActiveJournalError
  journal_error : JournalError → ActiveJournalError
  io_error storage_pressure : ℕ → ActiveJournalError

abbrev pub Active {ℓ} : Type ℓ → Type ℓ
Active A = Result ActiveJournalError A

-- `.map_err(ActiveJournalError::Journal)`.
abbrev pub from_journal {ℓ} : {A : Type ℓ} → Journal A → Active A
from_journal (ok a) = ok a
from_journal (err e) = err (journal_error e)

pub record ActiveJournalLimits : Type 0 where
  pub payload_limit : ℕ
  pub active_bytes : ℕ
  pub record_limit : ℕ

abbrev pub max_active_journal_bytes : ℕ
max_active_journal_bytes = 512 * 1_024 * 1_024

abbrev pub max_active_journal_records : ℕ
max_active_journal_records = 4_096

unfoldable pub limits_new : ℕ → ℕ → ℕ → Active ActiveJournalLimits
limits_new max_payload_len max_active_bytes max_active_records =
    if ltb max_admission_payload max_payload_len
      || (ltb max_active_bytes header_len
          || (ltb max_active_journal_bytes max_active_bytes
              || ltb max_active_journal_records max_active_records))
    then err invalid_options
    else ok (record {
      payload_limit = max_payload_len;
      active_bytes = max_active_bytes;
      record_limit = max_active_records;
    })

pub record RecoveredAdmission : Type 0 where
  pub end_offset : ℕ
  pub admission : DecodedAdmission

pub record CheckpointState : Type 0 where
  pub slot_generation : ℕ
  pub append_sequence : ℕ
  pub end_offset : ℕ

pub record ScanResult : Type 0 where
  pub records : List RecoveredAdmission
  pub valid_end : ℕ
  pub truncate_to : Option ℕ

-- What one turn of the loop does: it ends the scan, with the truncation if there is one, or reads a
-- record.
pub data ScanTurn : Type 0 where
  stopped : Option ℕ → ScanTurn
  scanned : RecoveredAdmission → ScanTurn

-- The store that the decoded admission and its declaration name.
abbrev pub of_store : Uuid → DecodedAdmission → Bool
of_store store_id d = same_bytes d.store_id store_id && same_bytes d.declaration.store_id store_id

-- What the scan knows and does not change: the file, the store, the limit and the checkpoint's end.
pub record ScanContext : Type 0 where
  pub file : Bytes
  pub store_id : Uuid
  pub payload_limit : ℕ
  pub checkpoint_end : ℕ

-- A tail that may be torn off, at or after the checkpoint; before it the file is damaged.
abbrev tear : ScanContext → ℕ → Active ScanTurn
tear c offset =
    if ltb offset c.checkpoint_end then err invalid_layout else ok (stopped (some offset))

-- The frame at the offset, of which the decoder has said what it is.
unfoldable pub scan_decoded : ScanContext → ℕ → ℕ → Journal DecodedAdmission → Active ScanTurn
scan_decoded c offset end (ok decoded) =
    if not (of_store c.store_id decoded)
    then err store_mismatch
    else ok (scanned (record { end_offset = end; admission = decoded }))
scan_decoded c offset end (err e) =
    if not (ltb offset c.checkpoint_end) && (end == length c.file)
    then ok (stopped (some offset))
    else err invalid_layout

-- The frame at the offset, of which the prefix has said how long it is.
unfoldable pub scan_frame : ScanContext → Option ℕ → ℕ → Journal ℕ → Active ScanTurn
scan_frame c previous offset (err e) =
    if not (ltb offset c.checkpoint_end) && (length c.file - offset == frame_prefix_len)
    then ok (stopped (some offset))
    else err invalid_layout
scan_frame c previous offset (ok frame_len) =
    let end = offset + frame_len in
    if leb (2 ^ 64) end
    then err invalid_layout
    else if ltb (length c.file) end
    then tear c offset
    else if ltb offset c.checkpoint_end && ltb c.checkpoint_end end
    then err invalid_layout
    else scan_decoded c offset end
        (decode_admission_frame (take frame_len (drop offset c.file)) c.payload_limit previous)

-- One turn of the loop; `full` says that the records have reached their limit.
unfoldable pub scan_turn : ScanContext → Bool → Option ℕ → ℕ → Active ScanTurn
scan_turn c full previous offset =
    if not (ltb offset (length c.file))
    then ok (stopped none)
    else if full
    then err invalid_layout
    else if ltb (length c.file - offset) frame_prefix_len
    then tear c offset
    else (from_journal (decode_limits_new c.payload_limit) >>= λ limit.
        scan_frame c previous offset
          (frame_len_from_prefix (take frame_prefix_len (drop offset c.file)) limit))

-- A record read before the others.
abbrev pub with_record : RecoveredAdmission → ScanResult → ScanResult
with_record r later = record later { records = r ∷ later.records }

-- The loop: `room` is how many more records the limit allows. With no room left a turn stops the scan
-- or refuses, so the loop ends.
unfoldable pub scan_loop : ScanContext → ℕ → Option ℕ → ℕ → Active ScanResult
scan_loop c zero previous offset = scan_turn c true previous offset >>= λ turn. elim turn [
  | stopped truncate_to ↦
      ok (record { records = []; valid_end = offset; truncate_to = truncate_to })
  | scanned r ↦ err invalid_layout
]
scan_loop c (suc room) previous offset = scan_turn c false previous offset >>= λ turn. elim turn [
  | stopped truncate_to ↦
      ok (record { records = []; valid_end = offset; truncate_to = truncate_to })
  | scanned r ↦
      map_ok (with_record r) (scan_loop c room (some r.admission.append_sequence) r.end_offset)
]

-- The sequence of the first record that ends at the offset, or the floor.
unfoldable pub prefix_sequence : ℕ → ℕ → List RecoveredAdmission → ℕ
prefix_sequence floor end [] = floor
prefix_sequence floor end (r ∷ rest) =
    if r.end_offset == end then r.admission.append_sequence else prefix_sequence floor end rest

abbrev pub previous_of_floor : ℕ → Option ℕ
previous_of_floor floor = if floor == 0 then none else some floor

-- What is checked of the checkpoint after the loop.
unfoldable pub check_checkpoint : CheckpointState → ℕ → ScanResult → Active (Unit {0})
check_checkpoint checkpoint sequence_floor scan = do
  refuse_if
      (ltb scan.valid_end checkpoint.end_offset
        || (checkpoint.end_offset == header_len)
          && not (checkpoint.append_sequence == sequence_floor))
      invalid_layout
  refuse_if
      (not (
        checkpoint.append_sequence
        == prefix_sequence sequence_floor checkpoint.end_offset scan.records))
      invalid_layout

unfoldable pub scan_journal :
    Bytes → JournalIdentity → ActiveJournalLimits → CheckpointState → ℕ → Active ScanResult
scan_journal file identity limits checkpoint sequence_floor =
    let c : ScanContext = record {
      file = file;
      store_id = identity.store_id;
      payload_limit = limits.payload_limit;
      checkpoint_end = checkpoint.end_offset;
    } in
    do
      scan ← scan_loop c limits.record_limit (previous_of_floor sequence_floor) header_len
      check_checkpoint checkpoint sequence_floor scan
      ok scan
