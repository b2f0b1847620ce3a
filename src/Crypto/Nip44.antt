-- ===== src/Crypto/Nip44.antt =====
-- crates/omachat-crypto/src/nip44.rs: NIP-44 version 2 payloads. `usize` has 64 bits. The curve, the
-- key derivation, the cipher, the MAC, base64 and the UTF-8 test are the fields of `Nip44Lib`.
pub mod Lengths
pub mod Padding
pub mod RoundTrip
pub mod Authenticity
pub mod Parties
use oma_chat.Base.{
  ℕ, zero, suc, ◌+◌, ◌-◌, ◌*◌, ◌/◌, ◌%◌, Bool, true, false, ◌||◌, Option, none, some, List, [], ◌∷◌,
  ◌++◌, Result, ok, err, ◌>>=◌, ◌>>◌, reject_if, ok_or, ltb, leb, ◌==◌, if◌then◌else◌, checked_sub,
  length, is_empty, get_elem?, take, drop, replicate, Bytes, text, u64_max, not, bytes_eq,
}

pub data Nip44Error : Type 0 where
  invalid_secret_key invalid_public_key invalid_plaintext_length payload_too_large : Nip44Error
  invalid_payload_size invalid_base64 unsupported_version invalid_mac invalid_padding : Nip44Error
  invalid_utf8 randomness_unavailable key_derivation_failed : Nip44Error

abbrev pub version : ℕ
version = 2

abbrev pub nonce_len : ℕ
nonce_len = 32

abbrev pub mac_len : ℕ
mac_len = 32

abbrev pub message_key_len : ℕ
message_key_len = 76

abbrev pub min_encoded_payload_len : ℕ
min_encoded_payload_len = 132

abbrev pub min_decoded_payload_len : ℕ
min_decoded_payload_len = 99

abbrev pub extended_prefix_threshold : ℕ
extended_prefix_threshold = 65536

abbrev pub max_plaintext_len : ℕ
max_plaintext_len = 1048576

-- `usize::checked_add`, `checked_mul` and `checked_div`.
abbrev pub checked_add : ℕ → ℕ → Option ℕ
checked_add a b = if leb (a + b) u64_max then some (a + b) else none

abbrev pub checked_mul : ℕ → ℕ → Option ℕ
checked_mul a b = if leb (a * b) u64_max then some (a * b) else none

abbrev pub checked_div : ℕ → ℕ → Option ℕ
checked_div a b = if b == 0 then none else some (a / b)

-- `Option::and_then`.
infixl 5 ◌and_then◌
abbrev pub ◌and_then◌ {ℓ κ} : {A : Type ℓ} {B : Type κ} → Option A → (A → Option B) → Option B
none and_then f = none
some a and_then f = f a

-- The first power of two in p, 2p, 4p, … that is at least n, among as many as the fuel.
unfoldable pub power_from : ℕ → ℕ → ℕ → Option ℕ
power_from zero p n = none
power_from (suc f) p n = let rest = power_from f (2 * p) n in if leb n p then some p else rest

-- `usize::checked_next_power_of_two`: the powers below 2^64.
unfoldable pub checked_next_power_of_two : ℕ → Option ℕ
checked_next_power_of_two n = power_from 64 1 n

abbrev pub chunk_of : ℕ → ℕ
chunk_of next_power = if leb next_power 256 then 32 else next_power / 8

-- The closing chain of `calc_padded_len`.
unfoldable pub chunked_len : ℕ → ℕ → Option ℕ
chunked_len plaintext_len chunk =
    checked_sub plaintext_len 1
    and_then (λ n. checked_div n chunk)
    and_then (λ chunks. checked_add chunks 1)
    and_then (λ chunks. checked_mul chunks chunk)

unfoldable pub calc_padded_len : ℕ → Result Nip44Error ℕ
calc_padded_len plaintext_len =
    if plaintext_len == 0
    then err invalid_plaintext_length
    else if leb plaintext_len 32
    then ok 32
    else do
      next_power ← ok_or (checked_next_power_of_two plaintext_len) payload_too_large
      ok_or (chunked_len plaintext_len (chunk_of next_power)) payload_too_large

unfoldable pub maximum_encoded_payload_len : Result Nip44Error ℕ
unfolding calc_padded_len checked_next_power_of_two power_from chunked_len
maximum_encoded_payload_len = do
  let prefix_len : ℕ = if leb extended_prefix_threshold max_plaintext_len then 6 else 2
  padded_len ← calc_padded_len max_plaintext_len
  raw_len ←
      ok_or
        (checked_add 1 nonce_len
          and_then (λ n. checked_add n prefix_len)
          and_then (λ n. checked_add n padded_len)
          and_then (λ n. checked_add n mac_len))
        payload_too_large
  ok_or (checked_add raw_len 2 and_then (λ n. checked_div n 3) and_then (λ n. checked_mul n 4))
      payload_too_large

-- `(n as u16).to_be_bytes()` and `(n as u32).to_be_bytes()`.
abbrev pub u16_be_bytes : ℕ → Bytes
u16_be_bytes n = (n / 256 % 256) ∷ (n % 256) ∷ []

abbrev pub u32_be_bytes : ℕ → Bytes
u32_be_bytes n = (n / 16777216 % 256) ∷ (n / 65536 % 256) ∷ (n / 256 % 256) ∷ (n % 256) ∷ []

-- `Vec::resize(n, 0)`.
abbrev pub resize : ℕ → Bytes → Bytes
resize n v = take n v ++ replicate (n - length v) 0

-- The length prefix of a padded plaintext.
abbrev pub prefix_of : ℕ → Bytes
prefix_of n = if leb extended_prefix_threshold n then 0 ∷ 0 ∷ u32_be_bytes n else u16_be_bytes n

-- `prefix_len` of `pad`.
abbrev pub prefix_width : ℕ → ℕ
prefix_width n = if leb extended_prefix_threshold n then 6 else 2

unfoldable pub pad : Bytes → Result Nip44Error Bytes
pad plaintext =
    let plaintext_len = length plaintext in
    let prefix_len = prefix_width plaintext_len in
    do
      reject_if (plaintext_len == 0) invalid_plaintext_length
      reject_if (ltb max_plaintext_len plaintext_len || ltb 4294967295 plaintext_len)
          payload_too_large
      padded_len ← calc_padded_len plaintext_len
      ok (resize (prefix_len + padded_len) (prefix_of plaintext_len ++ plaintext))

-- `v[i]`, for an index in range.
abbrev pub byte_at : ℕ → Bytes → ℕ
byte_at i v = elim (get_elem? v i) [ none ↦ 0 | some b ↦ b ]

-- The first statements of `unpad`: the prefix's length and the plaintext's.
unfoldable pub read_prefix : Bytes → Result Nip44Error (ℕ × ℕ)
read_prefix padded =
    let first = 256 * byte_at 0 padded + byte_at 1 padded in
    let n =
      16777216 * byte_at 2 padded
      + 65536 * byte_at 3 padded
      + 256 * byte_at 4 padded
      + byte_at 5 padded in
    do
      reject_if (ltb (length padded) 2) invalid_padding
      if first == 0
          then (reject_if (ltb (length padded) 6) invalid_padding
              >> (reject_if (ltb n extended_prefix_threshold) invalid_padding >> ok (6, n)))
          else ok (2, first)

-- `slice.get(from..to)` with from ≤ to.
abbrev pub get_range : ℕ → ℕ → Bytes → Option Bytes
get_range from to v = if leb to (length v) then some (take (to - from) (drop from v)) else none

unfoldable pub unpad : Bytes → Result Nip44Error Bytes
unpad padded = do
  (prefix_len, plaintext_len) ← read_prefix padded
  reject_if (ltb max_plaintext_len plaintext_len) payload_too_large
  padded_len ← calc_padded_len plaintext_len
  expected ← ok_or (checked_add prefix_len padded_len) invalid_padding
  reject_if (not (length padded == expected)) invalid_padding
  end ← ok_or (checked_add prefix_len plaintext_len) invalid_padding
  ok_or (get_range prefix_len end padded) invalid_padding

-- What the file takes from other crates. `none` is an error of the library.
pub record Nip44Lib : Type 0 where
  -- `SecretKey::from_slice`, `PublicKey::from_sec1_bytes`
  pub is_secret_key : Bytes → Bool
  pub is_public_key : Bytes → Bool
  -- the x coordinate of peer · secret
  pub shared_x : Bytes → Bytes → Option Bytes
  pub hkdf_extract : Bytes → Bytes → Bytes
  pub hkdf_expand : Bytes → Bytes → ℕ → Option Bytes
  -- key, nonce, bytes
  pub chacha20 : Bytes → Bytes → Bytes → Option Bytes
  -- key, message
  pub hmac : Bytes → Bytes → Option Bytes
  -- key, message, supplied tag
  pub hmac_verify : Bytes → Bytes → Bytes → Option Bool
  pub base64_encode : Bytes → Bytes
  pub base64_decode : Bytes → Option Bytes
  pub is_utf8 : Bytes → Bool

abbrev pub starts_with_hash : Bytes → Bool
starts_with_hash [] = false
starts_with_hash (c ∷ s) = c == b'#'

abbrev pub first_is : ℕ → Bytes → Bool
first_is v [] = false
first_is v (c ∷ s) = c == v

-- `&v[from..to]`
abbrev pub slice : ℕ → ℕ → Bytes → Bytes
slice from to v = take (to - from) (drop from v)

module _ (lib : Nip44Lib) where
  open lib use {
    is_secret_key, is_public_key, shared_x, hkdf_extract, hkdf_expand, chacha20, hmac, hmac_verify,
    base64_encode, base64_decode, is_utf8,
  }

  unfoldable pub conversation_key : Bytes → Bytes → Result Nip44Error Bytes
  conversation_key local_secret peer_public_key =
      let compressed_peer : Bytes = 2 ∷ peer_public_key in
      do
        reject_if (not (is_secret_key local_secret)) invalid_secret_key
        reject_if (not (is_public_key compressed_peer)) invalid_public_key
        x ← ok_or (shared_x local_secret compressed_peer) invalid_public_key
        ok (hkdf_extract (text "nip44-v2") x)

  unfoldable pub message_keys : Bytes → Bytes → Result Nip44Error Bytes
  message_keys key nonce = ok_or (hkdf_expand key nonce message_key_len) key_derivation_failed

  unfoldable pub encrypt_with_conversation_key : Bytes → Bytes → Bytes → Result Nip44Error Bytes
  encrypt_with_conversation_key key plaintext nonce = do
    padded ← pad plaintext
    keys ← message_keys key nonce
    ciphertext ← ok_or (chacha20 (take 32 keys) (slice 32 44 keys) padded) key_derivation_failed
    mac ← ok_or (hmac (drop 44 keys) (nonce ++ ciphertext)) key_derivation_failed
    ok (base64_encode (version ∷ (nonce ++ (ciphertext ++ mac))))

  -- The part of `decrypt_with_conversation_key` behind the version byte.
  unfoldable pub decrypt_body : Bytes → Bytes → Result Nip44Error Bytes
  decrypt_body key decoded =
      let nonce = slice 1 33 decoded in
      let ciphertext_end = length decoded - mac_len in
      let ciphertext = slice 33 ciphertext_end decoded in
      let supplied_mac = drop ciphertext_end decoded in
      do
        keys ← message_keys key nonce
        verified ←
            ok_or (hmac_verify (drop 44 keys) (nonce ++ ciphertext) supplied_mac)
              key_derivation_failed
        reject_if (not verified) invalid_mac
        padded ← ok_or (chacha20 (take 32 keys) (slice 32 44 keys) ciphertext) key_derivation_failed
        plaintext ← unpad padded
        reject_if (not (is_utf8 plaintext)) invalid_utf8
        ok plaintext

  unfoldable pub decrypt_with_conversation_key : Bytes → Bytes → Result Nip44Error Bytes
  decrypt_with_conversation_key key payload = do
    reject_if (is_empty payload || starts_with_hash payload) unsupported_version
    reject_if (ltb (length payload) min_encoded_payload_len) invalid_payload_size
    longest ← maximum_encoded_payload_len
    reject_if (ltb longest (length payload)) payload_too_large
    decoded ← ok_or (base64_decode payload) invalid_base64
    reject_if (ltb (length decoded) min_decoded_payload_len) invalid_payload_size
    reject_if (not (first_is version decoded)) unsupported_version
    decrypt_body key decoded

  unfoldable pub encrypt_with_nonce : Bytes → Bytes → Bytes → Bytes → Result Nip44Error Bytes
  encrypt_with_nonce local_secret peer_public_key plaintext nonce = do
    key ← conversation_key local_secret peer_public_key
    encrypt_with_conversation_key key plaintext nonce

  pub decrypt : Bytes → Bytes → Bytes → Result Nip44Error Bytes
  decrypt local_secret peer_public_key payload = do
    key ← conversation_key local_secret peer_public_key
    decrypt_with_conversation_key key payload
