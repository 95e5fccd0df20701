-- ===== src/Store/Active/Sound.antt =====
-- Appends to the open journal, with whatever the system answers.
use open_control_historian.Base.{
  >>=-eq-ok, [], ap, arith, err, guard-ok, leb, length, length-append, ltb, not, ok, refl, sym,
  take, ◌&&◌, ◌++◌, ◌+◌, ◌<◌, ◌==◌, ◌^◌, ◌||◌, ◌∷◌, ◌≡◌, ◌≤◌,
}
use open_control_historian.Base.Map.{same_bytes}
use open_control_historian.Store.Frame.{decode_admission_frame, decode_limits_new}
use open_control_historian.Store.Frame.Prepared.{PreparedFrame}
use open_control_historian.Store.Journal.{
  Active, ActiveJournalError, RecoveredAdmission, already_exists, already_open, faulted,
  frame_too_large, from_journal, invalid_layout, invalid_options, io_error, journal_error,
  missing_artifact, of_store, reopen_required, rotation_required, sequence_mismatch,
  storage_pressure, store_mismatch,
}
use open_control_historian.Store.Active.{
  ActiveJournal, Written, all_written, append, append_checked, check_append, ensure_usable,
  next_append_sequence, partly_written, previous_sequence, record_mutation_error, write_frame,
}

-- The counters agree with the file and the limits, and the durable cutoff is within them. A partly
-- written frame may follow the records only in a journal that can no longer be used.
pub record IsSound (j : ActiveJournal) : Type 0 where
  pub stored : j.active_bytes ≤ length j.journal
  pub exact : ensure_usable j ≡ ok tt → length j.journal ≡ j.active_bytes
  pub durable : j.checkpoint_state.end_offset ≤ j.active_bytes
  pub within_bytes : j.active_bytes ≤ j.limits.active_bytes
  pub within_records : length j.records ≤ j.limits.record_limit

-- What the checks of an append leave known.
record CheckedAppend (j : ActiveJournal) (frame : PreparedFrame) (r : RecoveredAdmission)
    : Type 0 where
  usable : ensure_usable j ≡ ok tt
  ends : r.end_offset ≡ j.active_bytes + length frame.bytes
  fits : r.end_offset ≤ j.limits.active_bytes
  has_room : length j.records < j.limits.record_limit

check_append-CheckedAppend :
    (j : ActiveJournal) (frame : PreparedFrame) (r : RecoveredAdmission)
    → check_append j frame ≡ ok r
    → CheckedAppend j frame r
unfolding check_append
check_append-CheckedAppend j frame r h =
    let (_, usable, h₁) = >>=-eq-ok (ensure_usable j) _ h in
    let (next, _, h₂) = >>=-eq-ok (next_append_sequence j) _ h₁ in
    let (_, h₃) = guard-ok (not (frame.append_sequence == next)) _ _ _ h₂ in
    let (previous, _, h₄) = >>=-eq-ok (previous_sequence j.records) _ h₃ in
    let (limit, _, h₅) = >>=-eq-ok (from_journal (decode_limits_new j.limits.payload_limit)) _ h₄ in
    let (decoded, _, h₆) =
      >>=-eq-ok (from_journal (decode_admission_frame frame.bytes limit previous)) _ h₅ in
    let (_, h₇) =
      guard-ok
        (not (of_store j.identity.store_id decoded)
          || not (
              same_bytes frame.admission.store_id j.identity.store_id
              && same_bytes frame.admission.declaration.store_id j.identity.store_id))
        _ _ _ h₆ in
    let (_, h₈) = guard-ok (leb (2 ^ 64) (j.active_bytes + length frame.bytes)) _ _ _ h₇ in
    let (room, done) =
      guard-ok
        (ltb j.limits.active_bytes (j.active_bytes + length frame.bytes)
          || leb j.limits.record_limit (length j.records))
        _ _ _ h₈ in
    let end : j.active_bytes + length frame.bytes ≡ r.end_offset =
      let same : record { end_offset = j.active_bytes + length frame.bytes; admission = decoded }
          ≡ r =
        cc done in
      ap (λ x. x.end_offset) same in
    record { usable = usable; ends = sym end; fits = ground arith; has_room = ground arith }

-- After an error of a mutation the journal is not usable.
unusable :
    (j : ActiveJournal) (error : ActiveJournalError)
    → ¬ (ensure_usable (record_mutation_error j error) ≡ ok tt)
unfolding ensure_usable record_mutation_error
unusable j invalid_options h = cc h
unusable j already_exists h = cc h
unusable j already_open h = cc h
unusable j missing_artifact h = cc h
unusable j invalid_layout h = cc h
unusable j store_mismatch h = cc h
unusable j rotation_required h = cc h
unusable j frame_too_large h = cc h
unusable j sequence_mismatch h = cc h
unusable j faulted h = cc h
unusable j reopen_required h = cc h
unusable j (journal_error e) h = cc h
unusable j (io_error n) h = cc h
unusable j (storage_pressure n) h = cc h

write_frame-IsSound :
    (j : ActiveJournal) (frame : PreparedFrame) (r : RecoveredAdmission) (write : Written)
    → CheckedAppend j frame r
    → IsSound j
    → IsSound (write_frame j frame r write).0
unfolding write_frame
write_frame-IsSound j frame r all_written checked sound =
    let at_end = sound.exact checked.usable in
    let size = length-append j.journal frame.bytes in
    let ends = checked.ends in
    let same : length (j.journal ++ frame.bytes) ≡ r.end_offset =
      omega (arith, at_end, size, ends) in
    record {
      stored = omega (arith, same);
      exact = λ _. same;
      durable = omega (arith, ends, sound.durable);
      within_bytes = checked.fits;
      within_records = omega (arith, length-append j.records (r ∷ []), checked.has_room);
    }
write_frame-IsSound j frame r (partly_written n error) checked sound = record {
  stored =
      unfold record_mutation_error in
      omega (arith, length-append j.journal (take n frame.bytes), sound.stored);
  exact = λ usable. absurd (unusable _ error usable);
  durable = unfold record_mutation_error in sound.durable;
  within_bytes = unfold record_mutation_error in sound.within_bytes;
  within_records = unfold record_mutation_error in sound.within_records;
}

append_checked-IsSound :
    (j : ActiveJournal) (frame : PreparedFrame) (write : Written)
    (checked : Active RecoveredAdmission) (seek : Active (Unit {0}))
    → check_append j frame ≡ checked
    → IsSound j
    → IsSound (append_checked j frame write checked seek).0
unfolding append_checked
append_checked-IsSound j frame write (err error) seek same sound = sound
append_checked-IsSound j frame write (ok r) (err error) same sound = sound
append_checked-IsSound j frame write (ok r) (ok _) same sound =
    write_frame-IsSound j frame r write (check_append-CheckedAppend j frame r same) sound

-- Whatever frame is appended, and whatever the system answers, partial writes included: an append
-- keeps the journal sound. The bytes that are counted are in the file and, while the journal can be
-- used, are all of it; they and the records stay within the limits, and the durable cutoff within
-- the counted bytes.
pub append-IsSound :
    (j : ActiveJournal) (frame : PreparedFrame) (seek : Active (Unit {0})) (write : Written)
    → IsSound j
    → IsSound (append j frame seek write).0
unfolding append
append-IsSound j frame seek write sound =
    append_checked-IsSound j frame write (check_append j frame) seek refl sound
