-- ===== src/Store/Codec/Agreement.antt =====
-- The counting encoder and the one that collects bytes agree, on success and on refusal.
pub mod Values
pub mod Payload
use open_control_historian.Store.Error.{Journal, JournalError}
use open_control_historian.Store.Words.{Bytes, to_be_bytes, to_word}
use open_control_historian.Core.Bounded.{Text}
use open_control_historian.Base.Int.{ℤ}
use open_control_historian.Store.Codec.Encoder.{
  Put, bytes, count, each, i64, optional, output_bytes, output_count, require_u32, saturating_add,
  skip, string, u128, u32, u64, u8, ◌then◌,
}
use open_control_historian.Base.{
  Bool-cases, List, Option, Result-cases, [], append-nil, append_assoc, arith, err, inl, inr, leb,
  length, length-append, map_ok, none, ok, refl, some, ℕ, ◌++◌, ◌+◌, ◌<◌, ◌^◌, ◌∷◌, ◌≡◌,
}

-- What one call does to either encoder: the bytes it appends, or its refusal.
pub record Agrees (put : Put) : Type 0 where
  pub outcome : Journal Bytes
  pub collects :
      (out : Bytes) → put (output_bytes out) ≡ map_ok (λ w. output_bytes (out ++ w)) outcome
  pub counts :
      (n : ℕ)
      → n < 2 ^ 64
      → put (output_count n) ≡ map_ok (λ w. output_count (saturating_add n (length w))) outcome

pub Agrees-bytes : (w : Bytes) → Agrees (bytes w)
unfolding bytes
Agrees-bytes w = record { outcome = ok w; collects = λ out. refl; counts = λ n h. refl }

pub Agrees-skip : Agrees skip
unfolding skip
Agrees-skip = record {
  outcome = ok [];
  collects = λ out. rw (append-nil out);
  counts = λ n h. ground arith;
}

Agrees-refusal : (n : ℕ) (e : JournalError) → Agrees (require_u32 n e)
unfolding require_u32
Agrees-refusal n e = elim (Bool-cases (leb (2 ^ 32) n)) [
  | inl large ↦ record { outcome = err e; collects = λ out. rw large; counts = λ m h. rw large }
  | inr small ↦ record {
    outcome = ok [];
    collects = λ out. rw (small, append-nil out);
    counts = λ m h. rw small (ground arith);
  }
]

-- Two saturating additions are one.
saturating_add_twice :
    (n a b : ℕ) → n < 2 ^ 64 → saturating_add (saturating_add n a) b ≡ saturating_add n (a + b)
saturating_add_twice n a b h = ground arith

pub Agrees-then : {p q : Put} → Agrees p → Agrees q → Agrees (p then q)
unfolding ◌then◌
Agrees-then {q} first second = elim (Result-cases first.outcome) [
  | inl (v, e) ↦ elim (Result-cases second.outcome) [
    | inl (w, k) ↦ record {
      outcome = ok (v ++ w);
      collects =
          λ out. rw (first.collects out, e, second.collects (out ++ v), k, append_assoc out v w);
      counts = λ n h.
          let bound : saturating_add n (length v) < 2 ^ 64 = ground arith in
          rw (
            first.counts n h,
            e,
            second.counts (saturating_add n (length v)) bound,
            k,
            length-append v w,
            saturating_add_twice n (length v) (length w) h,
          );
    }
    | inr (refusal, k) ↦ record {
      outcome = err refusal;
      collects = λ out. rw (first.collects out, e, second.collects (out ++ v), k);
      counts = λ n h.
          let bound : saturating_add n (length v) < 2 ^ 64 = ground arith in
          rw (first.counts n h, e, second.counts (saturating_add n (length v)) bound, k);
    }
  ]
  | inr (refusal, e) ↦ record {
    outcome = err refusal;
    collects = λ out. rw (first.collects out, e);
    counts = λ n h. rw (first.counts n h, e);
  }
]

pub Agrees-u8 : (n : ℕ) → Agrees (u8 n)
unfolding u8
Agrees-u8 n = Agrees-bytes (n ∷ [])

pub Agrees-u32 : (n : ℕ) → Agrees (u32 n)
unfolding u32
Agrees-u32 n = Agrees-bytes (to_be_bytes 4 n)

pub Agrees-u64 : (n : ℕ) → Agrees (u64 n)
unfolding u64
Agrees-u64 n = Agrees-bytes (to_be_bytes 8 n)

pub Agrees-u128 : (n : ℕ) → Agrees (u128 n)
unfolding u128
Agrees-u128 n = Agrees-bytes (to_be_bytes 16 n)

pub Agrees-i64 : (z : ℤ) → Agrees (i64 z)
unfolding i64
Agrees-i64 z = Agrees-bytes (to_be_bytes 8 (to_word z))

pub Agrees-string : (value : Text) → Agrees (string value)
unfolding string
Agrees-string value =
    Agrees-then (Agrees-refusal (length value) _)
      (Agrees-then (Agrees-u32 (length value)) (Agrees-bytes value))

pub Agrees-count : (n : ℕ) → Agrees (count n)
unfolding count
Agrees-count n = Agrees-then (Agrees-refusal n _) (Agrees-u32 n)

pub Agrees-optional :
    {A : Type 0} (put : A → Put)
    → ((a : A) → Agrees (put a))
    → (value : Option A) → Agrees (optional put value)
unfolding optional
Agrees-optional put agrees none = Agrees-u8 0
Agrees-optional put agrees (some a) = Agrees-then (Agrees-u8 1) (agrees a)

pub Agrees-each :
    {A : Type 0} (put : A → Put)
    → ((a : A) → Agrees (put a))
    → (values : List A) → Agrees (each put values)
unfolding each
Agrees-each put agrees [] = Agrees-skip
Agrees-each put agrees (a ∷ rest) = Agrees-then (agrees a) (Agrees-each put agrees rest)

-- How a sequence of calls is taken apart.
pub ruleset agreement = (
  Agrees-then, Agrees-u8, Agrees-u32, Agrees-u64, Agrees-u128, Agrees-i64, Agrees-string,
  Agrees-count, Agrees-bytes, Agrees-skip,
)
