-- ===== src/Crypto/Nip44/RoundTrip.antt =====
-- Decryption of crates/omachat-crypto/src/nip44.rs undoes encryption, over libraries that keep
-- their documented laws.
use mathlib.Core.List.{append_assoc}
use oma_chat.Base.{
  ok_or, reject_if, length-take, length-drop, [], le→ltb_false, subst, suc, ◌+◌, ◌-◌, ◌*◌, ◌/◌, ◌≤◌,
  ◌<◌, ◌≡◌, refl, ap, true, false, some, ◌∷◌, ◌++◌, ok, arith, length, take, drop, Bytes,
  length-append, take-append, drop-append, is_empty,
}
use oma_chat.Crypto.Nip44.{
  first_is, Nip44Lib, message_keys, encrypt_with_conversation_key, decrypt_body,
  decrypt_with_conversation_key, pad, unpad, slice, mac_len, nonce_len, version, max_plaintext_len,
  starts_with_hash, maximum_encoded_payload_len, message_key_len,
}
use oma_chat.Crypto.Nip44.Padding.{unpad-pad}

-- What the file relies on in its libraries.
pub record Nip44Laws (lib : Nip44Lib) : Type 0 where
  pub expand_total :
      (key nonce : Bytes)
      → length key ≡ 32
      → (keys : Bytes) × (lib.hkdf_expand key nonce message_key_len ≡ some keys)
        × (length keys ≡ message_key_len)
  pub chacha20_involutive :
      (key iv m : Bytes)
      → length key ≡ 32
      → length iv ≡ 12
      → (c : Bytes) × (lib.chacha20 key iv m ≡ some c)
        × (lib.chacha20 key iv c ≡ some m)
        × (length c ≡ length m)
  pub hmac_verifies :
      (key m : Bytes)
      → (tag : Bytes) × (lib.hmac key m ≡ some tag)
        × (lib.hmac_verify key m tag ≡ some true)
        × (length tag ≡ mac_len)
  pub base64_round_trip : (b : Bytes) → lib.base64_decode (lib.base64_encode b) ≡ some b
  pub base64_length : (b : Bytes) → length (lib.base64_encode b) ≡ (length b + 2) / 3 * 4
  pub base64_alphabet : (b : Bytes) → starts_with_hash (lib.base64_encode b) ≡ false

-- The parts of a payload stand where `decrypt_body` looks for them.
module _ (nonce ciphertext mac : Bytes) (n : length nonce ≡ nonce_len)
    (m : length mac ≡ mac_len) where
  abbrev framed : Bytes
  framed = version ∷ (nonce ++ (ciphertext ++ mac))

  length-framed : length framed ≡ 33 + length ciphertext + 32
  length-framed =
      omega (arith, length-append nonce (ciphertext ++ mac), length-append ciphertext mac)

  framed-nonce : slice 1 33 framed ≡ nonce
  unfolding drop
  framed-nonce = rw (← n) (take-append nonce (ciphertext ++ mac))

  drop-33 : drop 33 framed ≡ ciphertext ++ mac
  unfolding drop
  drop-33 =
      subst (λ k. drop (suc k) framed ≡ ciphertext ++ mac) n (drop-append nonce (ciphertext ++ mac))

  framed_ciphertext : slice 33 (length framed - mac_len) framed ≡ ciphertext
  framed_ciphertext =
      let e : length framed - mac_len - 33 ≡ length ciphertext = omega (arith, length-framed) in
      rw (drop-33, e) (take-append ciphertext mac)

  framed_mac : drop (length framed - mac_len) framed ≡ mac
  framed_mac =
      let e : length framed - mac_len ≡ length (version ∷ (nonce ++ ciphertext)) =
        omega (arith, length-framed, length-append nonce ciphertext) in
      rw (e, ← append_assoc nonce ciphertext mac)
        (drop-append (version ∷ (nonce ++ ciphertext)) mac)

-- `decrypt_body` on values whose library calls are known.
decrypt_body_steps :
    (lib : Nip44Lib) (key decoded nonce ciphertext mac keys padded plaintext : Bytes)
    → slice 1 33 decoded ≡ nonce
    → slice 33 (length decoded - mac_len) decoded ≡ ciphertext
    → drop (length decoded - mac_len) decoded ≡ mac
    → lib.hkdf_expand key nonce message_key_len ≡ some keys
    → lib.hmac_verify (drop 44 keys) (nonce ++ ciphertext) mac ≡ some true
    → lib.chacha20 (take 32 keys) (slice 32 44 keys) ciphertext ≡ some padded
    → unpad padded ≡ ok plaintext
    → lib.is_utf8 plaintext ≡ true
    → decrypt_body lib key decoded ≡ ok plaintext
unfolding decrypt_body message_keys reject_if ok_or
decrypt_body_steps lib key d nonce ct mac keys padded pt a b c expand verify cipher un utf =
    rw (a, b, c, expand, verify, cipher, un, utf)

pub maximum_encoded_payload_len_lem : maximum_encoded_payload_len ≡ ok 1398196
unfolding maximum_encoded_payload_len ok_or
maximum_encoded_payload_len_lem = refl

is_empty-eq-false : (v : Bytes) → 0 < length v → is_empty v ≡ false
is_empty-eq-false [] h = absurd (omega arith)
is_empty-eq-false (x ∷ v) h = refl

-- `decrypt_with_conversation_key` on a payload of admissible length.
decrypt_steps :
    (lib : Nip44Lib) (key payload decoded rest plaintext : Bytes)
    → starts_with_hash payload ≡ false
    → 132 ≤ length payload
    → length payload ≤ 1398196
    → lib.base64_decode payload ≡ some decoded
    → decoded ≡ version ∷ rest
    → 99 ≤ length decoded
    → decrypt_body lib key decoded ≡ ok plaintext
    → decrypt_with_conversation_key lib key payload ≡ ok plaintext
unfolding decrypt_with_conversation_key reject_if ok_or
decrypt_steps lib key payload decoded rest pt hash short long decode e least body = rw (
  is_empty-eq-false payload (omega arith),
  hash,
  le→ltb_false _ _ short,
  maximum_encoded_payload_len_lem,
  le→ltb_false _ _ long,
  decode,
  le→ltb_false _ _ least,
  ap (first_is version) e,
  body,
)

encrypt_steps :
    (lib : Nip44Lib) (key plaintext nonce padded keys ciphertext mac : Bytes)
    → pad plaintext ≡ ok padded
    → lib.hkdf_expand key nonce message_key_len ≡ some keys
    → lib.chacha20 (take 32 keys) (slice 32 44 keys) padded ≡ some ciphertext
    → lib.hmac (drop 44 keys) (nonce ++ ciphertext) ≡ some mac
    → encrypt_with_conversation_key lib key plaintext nonce
      ≡ ok (lib.base64_encode (version ∷ (nonce ++ (ciphertext ++ mac))))
unfolding encrypt_with_conversation_key message_keys ok_or
encrypt_steps lib key pt nonce padded keys ct mac p expand cipher tag = rw (p, expand, cipher, tag)

module _ (lib : Nip44Lib) (laws : Nip44Laws lib) (key plaintext nonce : Bytes) (k : length key ≡ 32)
    (n : length nonce ≡ nonce_len) (some_text : 0 < length plaintext)
    (fits : length plaintext ≤ max_plaintext_len) (utf8 : lib.is_utf8 plaintext ≡ true) where
  -- Under one 32-byte conversation key and a 32-byte nonce, a UTF-8 plaintext of 1 to 2^20 bytes
  -- encrypts to some payload, and that payload decrypts to the plaintext.
  pub decrypt-encrypt :
      (payload : Bytes) × (encrypt_with_conversation_key lib key plaintext nonce ≡ ok payload)
      × (decrypt_with_conversation_key lib key payload ≡ ok plaintext)
  decrypt-encrypt =
      let (padded, p, u, shape, least, most) = unpad-pad plaintext some_text fits in
      let (keys, expand, size) = laws.expand_total key nonce k in
      let (ct, cipher, back, same) =
        laws.chacha20_involutive (take 32 keys) (slice 32 44 keys) padded
          (omega (arith, length-take 32 keys))
          (omega (arith, length-take 12 (drop 32 keys), length-drop 32 keys)) in
      let (mac, tag, verify, width) = laws.hmac_verifies (drop 44 keys) (nonce ++ ct) in
      let decoded = framed nonce ct mac n width in
      let long : length (lib.base64_encode decoded) ≡ (length decoded + 2) / 3 * 4 =
        laws.base64_length decoded in
      let total : length decoded ≡ 33 + length ct + 32 = length-framed nonce ct mac n width in
      (
        lib.base64_encode decoded,
        encrypt_steps lib key plaintext nonce padded keys ct mac p expand cipher tag,
        decrypt_steps lib key (lib.base64_encode decoded) decoded (nonce ++ (ct ++ mac)) plaintext
            (laws.base64_alphabet decoded) (omega arith) (omega arith)
            (laws.base64_round_trip decoded) refl (omega arith)
            (decrypt_body_steps lib key decoded nonce ct mac keys padded plaintext
              (framed-nonce nonce ct mac n width) (framed_ciphertext nonce ct mac n width)
              (framed_mac nonce ct mac n width) expand verify back u utf8),
      )
