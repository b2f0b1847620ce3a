-- ===== src/Crypto/Account.antt =====
-- crates/omachat-crypto/src/account.rs: handles and display names. What the standard library says of
-- characters is `CharLib`.
use oma_chat.Base.{
  ℕ, Bool, false, not, ◌||◌, ◌&&◌, ◌==◌, List, [], ◌∷◌, Result, ok, err, ◌>>◌, reject_if, length,
  leb, ltb, anyb, allb, Bytes, bytes_eq, if◌then◌else◌,
}

abbrev pub min_handle_bytes : ℕ
min_handle_bytes = 3

abbrev pub max_handle_bytes : ℕ
max_handle_bytes = 32

abbrev pub max_display_name_chars : ℕ
max_display_name_chars = 80

abbrev pub max_display_name_bytes : ℕ
max_display_name_bytes = 256

pub data AccountError : Type 0 where
  invalid_handle invalid_display_name : AccountError

unfoldable pub is_between : ℕ → ℕ → ℕ → Bool
is_between low high c = leb low c && leb c high

-- `u8::is_ascii_lowercase` and `is_ascii_digit`.
unfoldable pub is_ascii_lowercase : ℕ → Bool
is_ascii_lowercase byte = is_between 97 122 byte

unfoldable pub is_ascii_digit : ℕ → Bool
is_ascii_digit byte = is_between 48 57 byte

-- `strip_prefix('@').unwrap_or(value)`.
unfoldable pub strip_at : Bytes → Bytes
strip_at [] = []
strip_at (byte ∷ rest) = if byte == 64 then rest else byte ∷ rest

unfoldable pub is_handle_byte : ℕ → Bool
is_handle_byte byte = is_ascii_lowercase byte || (is_ascii_digit byte || (byte == 95))

unfoldable pub starts_lowercase : Bytes → Bool
starts_lowercase [] = false
starts_lowercase (byte ∷ rest) = is_ascii_lowercase byte && allb is_handle_byte rest

-- `GlobalHandle::parse`: the canonical text.
unfoldable pub parse_global_handle : Bytes → Result AccountError Bytes
parse_global_handle value =
    let canonical = strip_at value in
    if is_between min_handle_bytes max_handle_bytes (length canonical) && starts_lowercase canonical
    then ok canonical
    else err invalid_handle

pub record CharLib : Type 0 where
  -- `str::chars` and `str::trim`
  pub chars : Bytes → List ℕ
  pub trim : Bytes → Bytes
  pub is_control : ℕ → Bool

unfoldable pub is_unsafe_display_format : ℕ → Bool
is_unsafe_display_format c =
    (c == 173)
    || ((c == 1564)
        || (is_between 8203 8207 c
            || (is_between 8234 8238 c
                || (is_between 8288 8303 c
                    || ((c == 65279)
                        || (is_between 65529 65531 c || is_between 917504 917631 c))))))

-- `DisplayName::parse`.
unfoldable pub parse_display_name : CharLib → Bytes → Result AccountError Bytes
parse_display_name lib value = do
  reject_if
      ((length (lib.chars value) == 0)
        || (ltb max_display_name_chars (length (lib.chars value))
            || (ltb max_display_name_bytes (length value)
                || (not (bytes_eq (lib.trim value) value)
                    || anyb (λ c. lib.is_control c || is_unsafe_display_format c)
                        (lib.chars value)))))
      invalid_display_name
  ok value
