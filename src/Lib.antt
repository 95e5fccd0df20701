-- ===== src/Lib.antt =====
-- Open Control Historian: the canonical model of building-control evidence, the registry of series
-- declarations that authorizes it, the volatile publication of latest observations, and the journal
-- that keeps the evidence.
--
-- The parts. A producer delivers a collection envelope: observations with identities, times and
-- producer positions, and gaps, the stretches of producer positions that are known to be lost. An
-- envelope is admitted only when its observations and gaps agree. A registry binds each series to
-- its source and keeps its declarations, a numbered chain that ends when the series is retired;
-- `bind` joins an admitted envelope to the latest declaration of its series. The runtime accepts
-- bound envelopes, and as it handles them publishes the latest observation of a series to readers.
-- A bound envelope with the evidence of its capture becomes a canonical admission, which the store
-- encodes as one frame of its journal and validates again when it reads the journal back.
--
-- Core models crates/och-core/src:
--   Core/Error         error.rs: `ModelError`
--   Core/Timestamp     time.rs: `Timestamp` and its conversions
--   Core/TimeInterval  time.rs: `TimeInterval`
--   Core/Bounded       bounded.rs: checks of text; an identity is its bytes
--   Core/Position      position.rs: `ProducerPosition`
--   Core/Identity      identity.rs: the check of an identity's bytes
--   Core/Decimal       position.rs: `parse_canonical_u128` and printing
--   Core/Value         value.rs, quality.rs: exact values, quality, native status
--   Core/Quality       quality.rs: `QualityFlags`
--   Core/Observation   observation.rs
--   Core/Gap           collection.rs: `Gap`
--   Core/Collection    collection.rs: `validate_observed`, `CollectionEnvelope`
--   Core/Declaration   series.rs: bindings, payloads, declarations, histories
--   Core/Series        series.rs: `SeriesRegistry` with register and resolve
--   Core/Series/Revision  series.rs: revise and retire
--   Core/Series/Bind   series.rs: bind
--   Core/Retry         retry.rs: `RetryQualification::classify`
--   Core/Source        source.rs: source and capture evidence
--   Core/Admission     source.rs: `CanonicalAdmission::observed` and `no_change`
-- Runtime models crates/och-runtime/src:
--   Runtime/Latest     latest.rs: `LatestState`, and the publication steps of the writer
--   Runtime/Queue      ingress.rs: `FixedQueue`
--   Runtime/Receipt    ingress.rs: `ReceiptTerminal`
--   Runtime/Reservation  ingress.rs: `ByteReservationLimits`
--   Runtime/Commit     ingress.rs and crates/och-store/src: appends and commits as data
--   Runtime/Ingress    ingress.rs: the state behind the mutex, `try_submit` to the reservation
--   Runtime/Ingress/Writer  ingress.rs: joining the queue, rollback, the writer, durable batches
-- Store models crates/och-store/src:
--   Store/Error        error.rs: `JournalV1Error`
--   Store/Words        the byte orders of std that the codec uses
--   Store/Utf8         `from_utf8` of std
--   Store/Codec/Encoder, Store/Codec/Cursor  codec.rs: `Encoder` and `Cursor`
--   Store/Codec/Encode, Store/Codec/Decode   codec.rs: every encode and decode function, by part
--   Store/Codec/RoundTrip, Store/Codec/Agreement  what the two do together, part by part
--   Store/Checksum     codec.rs: `crc32c`
--   Store/Validate     codec.rs: `validate_decoded`, and decoded.rs: `all_evidence_ids`
--   Store/Frame        codec.rs: sequences, the file header, frames and their prefixes
--   Store/Frame/Prepared  codec.rs: `PreparedAdmissionV1`
--   Store/Journal      active.rs: `scan_journal`, the recovery of a journal file after a crash
--   Store/Checkpoint   active.rs: `encode_checkpoint`, `read_checkpoint`, the slots of the checkpoint
--   Store/Active       active.rs: `ActiveJournal` with `append` and `sync_pending`
-- Base holds the shared helpers: tests, lists, the result type, integers, ordered maps.
--
-- How code is read. A method on `&mut self` takes the state and returns the state after it. A
-- `Result` is `Result`, an `Option` is `Option`, `?` is the bind of a do block. `BTreeMap` is an
-- association list in ascending order of keys. A hash set of identities is the list of those seen.
-- Strings are their UTF-8 bytes. Unsigned integers are natural numbers and `i64` is an integer; the
-- range is a hypothesis or a computed test where the code depends on it: `to_unix_milliseconds`
-- narrows to 64 bits by the test `fits_i64`. An `Arc` carries the identity of its allocation, since
-- the code compares allocations; the terminals of receipts are shared the same way, as indices into
-- a list. A call of the encoder or the cursor, `&mut self`, is a function from its state to a
-- result with the state after it, and a sequence of calls with `?` is their composition. A frame,
-- which the source writes in place, is the concatenation of its fields. Each stretch of code under
-- the ingress mutex is one function, and concurrency is any sequence of them. The frame length that
-- the codec measures and the answer of the committed retry projection are arguments.
--
-- Bounds. Every function is structurally recursive. `display_digits` takes the number of digits as
-- fuel, 39 for 128 bits, which is enough since 2^128 is below 10^39. The scan that skips gaps walks
-- the gaps that are left, which is what the code's index does. The cursor refuses an offset beyond
-- 64 bits as the code does; the round trips are stated for slices shorter than 2^64 bytes. The scan
-- of a journal recurses on how many more records its limit allows; with none left a turn of it ends
-- the scan or refuses the file.
--
-- Not modelled: poisoned locks, wake-ups and channels of the runtime; manifests, segments, recovery
-- states and generations of crates/och-store; opening a journal; file system calls: an open journal
-- takes their answers as arguments, the scan's reads and the first checkpoint's write are taken to
-- succeed; Display and Debug texts; host harnesses, the tools and scripts.
pub mod Base
pub mod Core
pub mod Runtime
pub mod Store
