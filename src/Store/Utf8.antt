-- ===== src/Store/Utf8.antt =====
-- `core::str::from_utf8` of std, which the codec calls: the well-formed byte sequences of Unicode.
use open_control_historian.Base.{
  Bool, [], ◌∷◌, ◌&&◌, ◌==◌, true, false, ltb, leb, ◌||◌, ℕ, zero, suc, if◌then◌else◌,
}
use open_control_historian.Core.Bounded.{Text}

-- What may follow: how many continuation bytes, and the bounds of the first of them.
record Pending : Type 0 where
  count : ℕ
  low : ℕ
  high : ℕ

abbrev continue : ℕ → Pending
continue count = record { count = count; low = 0x80; high = 0xbf }

-- The first byte of a scalar decides how many bytes follow. `0xe0` and `0xf0` exclude overlong
-- forms, `0xed` the surrogates and `0xf4` what lies above U+10FFFF.
abbrev can_start : ℕ → Bool
can_start b = ltb b 0x80 || leb 0xc2 b && leb b 0xf4

abbrev after_start : ℕ → Pending
after_start b =
    if ltb b 0x80
    then continue 0
    else if ltb b 0xe0
    then continue 1
    else if b == 0xe0
    then record { count = 2; low = 0xa0; high = 0xbf }
    else if b == 0xed
    then record { count = 2; low = 0x80; high = 0x9f }
    else if ltb b 0xf0
    then continue 2
    else if b == 0xf0
    then record { count = 3; low = 0x90; high = 0xbf }
    else if b == 0xf4
    then record { count = 3; low = 0x80; high = 0x8f }
    else continue 3

unfoldable pub valid_from : ℕ → ℕ → ℕ → Text → Bool
valid_from zero low high [] = true
valid_from (suc n) low high [] = false
valid_from zero low high (b ∷ bs) =
    let next = after_start b in can_start b && valid_from next.count next.low next.high bs
valid_from (suc n) low high (b ∷ bs) = leb low b && leb b high && valid_from n 0x80 0xbf bs

-- Whether the bytes are valid UTF-8.
unfoldable pub is_utf8 : Text → Bool
unfolding valid_from
is_utf8 bytes = valid_from 0 0x80 0xbf bytes
