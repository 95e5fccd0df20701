-- ===== src/Store/Checksum.antt =====
-- crates/och-store/src/codec.rs: the CRC-32C of a frame, bit by bit.
use open_control_historian.Base.{[], arith, suc, zero, ℕ, ◌%◌, ◌-◌, ◌/◌, ◌<◌, ◌^◌, ◌∷◌}
use open_control_historian.Store.Words.{Bytes}
use Prim.Native.Nat.{bit_and, bit_xor}

abbrev polynomial : ℕ
polynomial = 0x82f63b78

-- One of the eight rounds: `crc & 1` is the lowest bit and `0_u32.wrapping_sub` of it the mask.
unfoldable pub crc_round : ℕ → ℕ
crc_round crc =
    let mask = (2 ^ 32 - crc % 2) % 2 ^ 32 in bit_xor (crc / 2) (bit_and polynomial mask)

unfoldable pub crc_rounds : ℕ → ℕ → ℕ
crc_rounds zero crc = crc
crc_rounds (suc n) crc = crc_rounds n (crc_round crc)

unfoldable pub crc_bytes : ℕ → Bytes → ℕ
crc_bytes crc [] = crc
crc_bytes crc (b ∷ bs) = crc_bytes (crc_rounds 8 (bit_xor crc b)) bs

-- `!crc` is the complement in 32 bits.
unfoldable pub crc32c : Bytes → ℕ
crc32c bytes = 2 ^ 32 - 1 - crc_bytes (2 ^ 32 - 1) bytes

pub crc32c-bound : (bytes : Bytes) → crc32c bytes < 2 ^ 32
unfolding crc32c
crc32c-bound bytes = omega arith
