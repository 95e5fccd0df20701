-- ===== src/Core/Bounded.antt =====
-- crates/och-core/src/bounded.rs: bounded exact text and portable tokens.
-- A `String` is the list of its UTF-8 bytes, and an identity the list of its sixteen bytes.
use open_control_historian.Base.{
  Bool, List, [], err, if◌then◌else◌, leb, length, ltb, not, ok, true, ℕ, ◌&&◌, ◌+◌, ◌∷◌,
}
use open_control_historian.Core.Error.{
  Checked, invalid_content_format, invalid_exact_text, invalid_portable_token, invalid_retry_key,
}

abbrev pub Text : Type 0
Text = List ℕ

-- The identity types of identity.rs. They differ by name only, so one model serves them all.
abbrev pub Uuid : Type 0
Uuid = List ℕ

abbrev pub max_text_scalars : ℕ
max_text_scalars = 4_096

abbrev pub max_portable_token_bytes : ℕ
max_portable_token_bytes = 256

abbrev pub max_content_format_bytes : ℕ
max_content_format_bytes = 64

abbrev pub max_retry_key_bytes : ℕ
max_retry_key_bytes = 128

unfoldable pub all_bytes : (ℕ → Bool) → Text → Bool
all_bytes test [] = true
all_bytes test (b ∷ bs) = test b && all_bytes test bs

abbrev pub is_printable : ℕ → Bool
is_printable b = leb b' ' b && leb b b'~'

unfoldable pub validate_printable_ascii : Text → ℕ → Bool
unfolding all_bytes
validate_printable_ascii value maximum =
    ltb 0 (length value) && leb (length value) maximum && all_bytes is_printable value

-- The constructor of the four token types that the macro `portable_token` declares.
unfoldable pub portable_token_new : Text → Checked Text
portable_token_new value =
    if not (validate_printable_ascii value max_portable_token_bytes)
    then err invalid_portable_token
    else ok value

-- `value.chars().count()`: every byte of valid UTF-8 but a continuation byte starts a scalar.
unfoldable pub scalar_count : Text → ℕ
scalar_count [] = 0
scalar_count (b ∷ bs) = scalar_count bs + (if leb 128 b && ltb b 192 then 0 else 1)

unfoldable pub exact_text_new : Text → Checked Text
exact_text_new value =
    if ltb max_text_scalars (scalar_count value) then err invalid_exact_text else ok value

abbrev pub is_format_byte : ℕ → Bool
is_format_byte b = leb b'!' b && leb b b'~' && not (leb b'A' b && leb b b'Z')

unfoldable pub content_format_new : Text → Checked Text
content_format_new value =
    if not (
      ltb 0 (length value)
      && leb (length value) max_content_format_bytes
      && all_bytes is_format_byte value)
    then err invalid_content_format
    else ok value

unfoldable pub retry_key_new : Text → Checked Text
retry_key_new value =
    if not (validate_printable_ascii value max_retry_key_bytes)
    then err invalid_retry_key
    else ok value
