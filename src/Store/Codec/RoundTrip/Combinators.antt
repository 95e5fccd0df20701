-- ===== src/Store/Codec/RoundTrip/Combinators.antt =====
-- What one call of the encoder writes and one call of the cursor reads back, and how such pairs
-- follow one another.
use open_control_historian.Store.Error.{Journal}
use open_control_historian.Store.Words.{Bytes}
use open_control_historian.Store.Codec.Encoder.{Put, output_bytes, ◌then◌}
use open_control_historian.Store.Codec.Cursor.{Cursor, Get, lift, pure, ◌>>=◌}
use open_control_historian.Base.{append_assoc, length, ok, refl, ◌++◌, ◌<◌, ◌^◌, ◌≡◌}

-- The cursor between what it has passed and what is left.
abbrev pub at : Bytes → Bytes → Cursor
at passed left = record { bytes = passed ++ left; offset = length passed }

-- The call writes these bytes after any others.
abbrev pub Writes : Put → Bytes → Type 0
Writes put written = (out : Bytes) → put (output_bytes out) ≡ ok (output_bytes (out ++ written))

-- Within a slice of fewer than 2^64 bytes, the reader takes what was written and gives the value.
abbrev pub Reads {ℓ} : {A : Type ℓ} → Get A → Bytes → A → Type ℓ
Reads read written a =
    (passed left : Bytes)
    → length (passed ++ (written ++ left)) < 2 ^ 64
    → read (at passed (written ++ left)) ≡ ok (a, at (passed ++ written) left)

pub record RoundTrips {ℓ} {A : Type ℓ} (put : Put) (read : Get A) (a : A) : Type ℓ where
  pub written : Bytes
  pub writes : Writes put written
  pub reads : Reads read written a

-- The call writes nothing and does not fail.
pub record Passes (put : Put) : Type 0 where
  pub passes : (out : Bytes) → put (output_bytes out) ≡ ok (output_bytes out)

-- The reader gives the value and takes nothing.
pub record Gives {ℓ} {A : Type ℓ} (read : Get A) (a : A) : Type ℓ where
  pub gives : (cursor : Cursor) → read cursor ≡ ok (a, cursor)

-- Two pairs in a row: what follows may depend on the value read.
pub RoundTrips-then {ℓ κ} :
    {A : Type ℓ} {B : Type κ} {p q : Put} {read : Get A} {a : A} {b : B} (next : A → Get B)
    → RoundTrips p read a
    → RoundTrips q (next a) b
    → RoundTrips (p then q) (read >>= next) b
unfolding ◌then◌ ◌>>=◌
RoundTrips-then next first second =
    let v = first.written in
    let w = second.written in
    record {
      written = v ++ w;
      writes = λ out. rw (first.writes out, second.writes (out ++ v), append_assoc out v w);
      reads = λ passed left fits.
          let regroup = append_assoc v w left in
          let h = first.reads passed (w ++ left) (rw regroup at fits) in
          let k =
            second.reads (passed ++ v) left
              (rw (append_assoc passed v (w ++ left)) (rw regroup at fits)) in
          rw (regroup, h, k, append_assoc passed v w);
    }

-- A value made of what was read.
pub RoundTrips-made {ℓ κ} :
    {A : Type ℓ} {B : Type κ} {p : Put} {read : Get A} {a : A} {b : B} (next : A → Get B)
    → RoundTrips p read a
    → Gives (next a) b
    → RoundTrips p (read >>= next) b
unfolding ◌>>=◌
RoundTrips-made next pair made = record {
  written = pair.written;
  writes = pair.writes;
  reads = λ passed left fits.
      rw (pair.reads passed left fits, made.gives (at (passed ++ pair.written) left));
}

-- A check before what is read.
pub RoundTrips-after {ℓ κ} :
    {A : Type ℓ} {B : Type κ} {p : Put} {check : Get A} {a : A} {b : B} (next : A → Get B)
    → Gives check a
    → RoundTrips p (next a) b
    → RoundTrips p (check >>= next) b
unfolding ◌>>=◌
RoundTrips-after next checked pair = record {
  written = pair.written;
  writes = pair.writes;
  reads = λ passed left fits.
      rw (checked.gives (at passed (pair.written ++ left)), pair.reads passed left fits);
}

-- A check before what is written.
pub RoundTrips-checked {ℓ} :
    {A : Type ℓ} {check p : Put} {read : Get A} {a : A}
    → Passes check
    → RoundTrips p read a
    → RoundTrips (check then p) read a
unfolding ◌then◌
RoundTrips-checked checked pair = record {
  written = pair.written;
  writes = λ out. rw (checked.passes out, pair.writes out);
  reads = pair.reads;
}

pub Gives-pure {ℓ} : {A : Type ℓ} (a : A) → Gives (pure a) a
unfolding pure
Gives-pure a = record { gives = λ cursor. refl }

pub Gives-lift {ℓ} :
    {A : Type ℓ} (result : Journal A) (a : A) → result ≡ ok a → Gives (lift result) a
unfolding lift
Gives-lift result a passes = record { gives = λ cursor. rw passes }

pub Gives-then {ℓ κ} :
    {A : Type ℓ} {B : Type κ} {read : Get A} {a : A} {b : B} (next : A → Get B)
    → Gives read a
    → Gives (next a) b
    → Gives (read >>= next) b
unfolding ◌>>=◌
Gives-then next first second = record {
  gives = λ cursor. rw (first.gives cursor, second.gives cursor);
}
