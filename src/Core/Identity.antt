-- ===== src/Core/Identity.antt =====
-- crates/och-core/src/identity.rs: the nominal UUIDv7 identities, which differ by name only.
use open_control_historian.Base.{
  List, [], ◌∷◌, ◌||◌, ◌/◌, ◌==◌, not, ℕ, zero, suc, err, ok, if◌then◌else◌,
}
use Prim.Native.Nat.{bit_and}
use open_control_historian.Core.Error.{Checked, invalid_identity}
use open_control_historian.Core.Bounded.{Uuid}

-- `bytes[i]` of an array that has the index.
abbrev pub byte_at : List ℕ → ℕ → ℕ
byte_at [] i = 0
byte_at (b ∷ bs) zero = b
byte_at (b ∷ bs) (suc i) = byte_at bs i

unfoldable pub validate_uuid_v7 : Uuid → Checked Uuid
validate_uuid_v7 bytes =
    if not (byte_at bytes 6 / 16 == 7) || not (bit_and (byte_at bytes 8) 0xc0 == 0x80)
    then err invalid_identity
    else ok bytes

-- The constructor `from_bytes` that the macro `identity_type` declares for every identity.
unfoldable pub from_bytes : Uuid → Checked Uuid
unfolding validate_uuid_v7
from_bytes bytes = validate_uuid_v7 bytes
