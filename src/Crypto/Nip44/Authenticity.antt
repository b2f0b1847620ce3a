-- ===== src/Crypto/Nip44/Authenticity.antt =====
-- What a successful decryption of crates/omachat-crypto/src/nip44.rs has checked.
use oma_chat.Base.{
  ok_or-elim, reject_if-elim, >>=-elim, ℕ, ◌+◌, ◌-◌, ◌≤◌, ◌<◌, ◌≡◌, true, some, ok, reject_if,
  arith, length, drop, ◌++◌, Bytes, ok_or-eq-ok, length-take, length-drop,
}
use oma_chat.Crypto.Nip44.RoundTrip.{maximum_encoded_payload_len_lem}
use oma_chat.Crypto.Nip44.{
  version, first_is, maximum_encoded_payload_len, Nip44Lib, message_keys, decrypt_body,
  decrypt_with_conversation_key, unpad, read_prefix, slice, mac_len, message_key_len,
  max_plaintext_len, get_range, calc_padded_len, checked_add,
}

read_prefix_pos : (v : Bytes) (p n : ℕ) → read_prefix v ≡ ok (p, n) → 0 < n
unfolding read_prefix reject_if
read_prefix_pos v p n h = ground arith

length-get_range :
    (p n e : ℕ) (v w : Bytes) → checked_add p n ≡ some e → get_range p e v ≡ some w → length w ≡ n
length-get_range p n e v w h g = ground (arith, length-take (p + n - p) (drop p v), length-drop p v)

-- What `unpad` returns has 1 to 2^20 bytes.
pub unpad_bounds : (v w : Bytes) → unpad v ≡ ok w → (0 < length w) × (length w ≤ max_plaintext_len)
unfolding unpad
unpad_bounds v w h = >>=-elim (read_prefix v) _ h λ a r h₁. reject_if-elim _ _ _ h₁ λ small h₂.
    >>=-elim (calc_padded_len a.1) _ h₂ λ padded c h₃.
      ok_or-elim (checked_add a.0 padded) _ _ h₃ λ expected x h₄. reject_if-elim _ _ _ h₄ λ same h₅.
        ok_or-elim (checked_add a.0 a.1) _ _ h₅ λ e y h₆.
          let size = length-get_range a.0 a.1 e v w y (ok_or-eq-ok _ _ h₆) in
          (ground (arith, read_prefix_pos v a.0 a.1 r), ground arith)

length-get_range-le : (p e : ℕ) (v w : Bytes) → get_range p e v ≡ some w → length w ≤ length v
length-get_range-le p e v w g = ground (arith, length-take (e - p) (drop p v), length-drop p v)

-- What `unpad` returns is no longer than what it is given.
pub unpad_shorter : (v w : Bytes) → unpad v ≡ ok w → length w ≤ length v
unfolding unpad
unpad_shorter v w h = >>=-elim (read_prefix v) _ h λ a r h₁. reject_if-elim _ _ _ h₁ λ small h₂.
    >>=-elim (calc_padded_len a.1) _ h₂ λ padded c h₃.
      ok_or-elim (checked_add a.0 padded) _ _ h₃ λ expected x h₄. reject_if-elim _ _ _ h₄ λ same h₅.
        ok_or-elim (checked_add a.0 a.1) _ _ h₅
          λ e y h₆. length-get_range-le a.0 e v w (ok_or-eq-ok _ _ h₆)

-- The parts that a decoded payload is split into.
abbrev pub nonce_part : Bytes → Bytes
nonce_part d = slice 1 33 d

abbrev pub ciphertext_part : Bytes → Bytes
ciphertext_part d = slice 33 (length d - mac_len) d

abbrev pub mac_part : Bytes → Bytes
mac_part d = drop (length d - mac_len) d

-- A payload that decrypts is base64 of version 2 bytes, at most as long as the longest plaintext
-- allows, whose trailing 32 bytes the MAC under the derived key accepted for the nonce and the
-- ciphertext; the plaintext is UTF-8 of 1 to 2^20 bytes.
pub decrypt_authentic :
    (lib : Nip44Lib) (key payload plaintext : Bytes)
    → decrypt_with_conversation_key lib key payload ≡ ok plaintext
    → (decoded keys : Bytes) × (length payload ≤ 1398196)
      × (lib.base64_decode payload ≡ some decoded)
      × (first_is version decoded ≡ true)
      × (lib.hkdf_expand key (nonce_part decoded) message_key_len ≡ some keys)
      × (lib.hmac_verify
            (drop 44 keys)
            (nonce_part decoded ++ ciphertext_part decoded)
            (mac_part decoded)
          ≡ some true)
      × (lib.is_utf8 plaintext ≡ true)
      × (0 < length plaintext)
      × (length plaintext ≤ max_plaintext_len)
unfolding decrypt_with_conversation_key decrypt_body message_keys
decrypt_authentic lib key payload pt h = reject_if-elim _ _ _ h λ kind h₁.
    reject_if-elim _ _ _ h₁ λ short h₂. >>=-elim maximum_encoded_payload_len _ h₂ λ longest top h₂'.
      reject_if-elim _ _ _ h₂' λ long h₃.
        ok_or-elim (lib.base64_decode payload) _ _ h₃ λ d decode h₄.
          reject_if-elim _ _ _ h₄ λ least h₅. reject_if-elim _ _ _ h₅ λ v h₆.
            ok_or-elim (lib.hkdf_expand key (nonce_part d) message_key_len) _ _ h₆ λ keys x h₇.
              ok_or-elim _ _ _ h₇ λ verified y h₈. reject_if-elim _ _ _ h₈ λ accepted h₉.
                ok_or-elim _ _ _ h₉ λ padded z h₁₀. >>=-elim (unpad padded) _ h₁₀ λ w u h₁₁.
                  reject_if-elim _ _ _ h₁₁ λ utf8 same.
                    let e : w ≡ pt = ground arith in
                    let bounds = unpad_bounds padded w u in
                    (
                      d,
                      keys,
                      ground (arith, maximum_encoded_payload_len_lem),
                      decode,
                      ground arith,
                      x,
                      ground arith,
                      ground arith,
                      rw e at bounds.0,
                      rw e at bounds.1,
                    )
