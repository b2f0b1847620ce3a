-- ===== src/Crypto/Nip44/Parties.antt =====
-- `encrypt_with_nonce` and `decrypt` of crates/omachat-crypto/src/nip44.rs between two parties.
use oma_chat.Base.{
  Result, ◌+◌, ◌*◌, ◌/◌, ◌≤◌, ◌<◌, ◌≡◌, refl, true, some, Option, ok, arith, ◌++◌, ◌∷◌, length,
  take, drop, Bytes, text, >>=-elim, ok_or-elim, ok-injective, subst, sym, ◌∙◌, reject_if, ok_or,
  ap, length-append, length-take, length-drop,
}
use oma_chat.Crypto.Nip44.{
  Nip44Error, Nip44Lib, nonce_len, max_plaintext_len, conversation_key, encrypt_with_nonce,
  encrypt_with_conversation_key, decrypt, decrypt_with_conversation_key, pad, unpad, message_keys,
  slice, message_key_len, version,
}
use oma_chat.Crypto.Nip44.Padding.{pad_bounds, unpad-pad}
use oma_chat.Crypto.Nip44.RoundTrip.{Nip44Laws, decrypt-encrypt}
use oma_chat.Crypto.Nip44.Authenticity.{unpad_shorter}

-- Diffie-Hellman on x coordinates: both parties compute one secret, of which the derived key has 32
-- bytes.
pub record AgreementLaws (lib : Nip44Lib) (xonly : Bytes → Option Bytes) : Type 0 where
  pub agreement :
      (a b key_a key_b : Bytes)
      → xonly a ≡ some key_a
      → xonly b ≡ some key_b
      → (x : Bytes) × (lib.is_secret_key a ≡ true)
        × (lib.is_public_key (2 ∷ key_b) ≡ true)
        × (lib.shared_x a (2 ∷ key_b) ≡ some x)
        × (lib.shared_x b (2 ∷ key_a) ≡ some x)
  pub length-extract : (salt x : Bytes) → length (lib.hkdf_extract salt x) ≡ 32

conversation_key-some :
    (lib : Nip44Lib) (a key x : Bytes)
    → lib.is_secret_key a ≡ true
    → lib.is_public_key (2 ∷ key) ≡ true
    → lib.shared_x a (2 ∷ key) ≡ some x
    → conversation_key lib a key ≡ ok (lib.hkdf_extract (text "nip44-v2") x)
unfolding conversation_key reject_if ok_or
conversation_key-some lib a key x s p h = rw (s, p, h) refl

some-injective : {a b : Bytes} → some a ≡ some b → a ≡ b
some-injective h = cc

module _ (lib : Nip44Lib) (laws : Nip44Laws lib) where
  length-expanded :
      (key nonce keys : Bytes)
      → length key ≡ 32
      → lib.hkdf_expand key nonce message_key_len ≡ some keys
      → length keys ≡ message_key_len
  length-expanded key nonce keys k h =
      let (other, e, size) = laws.expand_total key nonce k in
      subst (λ v. length v ≡ message_key_len) (some-injective (sym e ∙ h)) size

  length-ciphered :
      (key iv m c : Bytes)
      → length key ≡ 32
      → length iv ≡ 12
      → lib.chacha20 key iv m ≡ some c
      → length c ≡ length m
  length-ciphered key iv m c k i h =
      let (other, e, back, size) = laws.chacha20_involutive key iv m k i in
      subst (λ v. length v ≡ length m) (some-injective (sym e ∙ h)) size

unpad-of-pad : (pt padded : Bytes) → pad pt ≡ ok padded → unpad padded ≡ ok pt
unpad-of-pad pt padded p =
    let (some_text, fits) = pad_bounds pt padded p in
    let (other, q, u, shape, least, most) = unpad-pad pt some_text fits in
    subst (λ v. unpad v ≡ ok pt) (ok-injective (sym q ∙ p)) u

payload_covers :
    (lib : Nip44Lib)
    → Nip44Laws lib
    → (pt padded nonce ct mac payload : Bytes) → pad pt ≡ ok padded
    → length ct ≡ length padded
    → ◌≡◌ {A = Result Nip44Error Bytes}
        (ok (lib.base64_encode (version ∷ (nonce ++ (ct ++ mac)))))
        (ok payload)
    → length pt ≤ length payload
payload_covers lib laws pt padded nonce ct mac payload p same built =
    let framed : Bytes = version ∷ (nonce ++ (ct ++ mac)) in
    let size : length payload ≡ (length framed + 2) / 3 * 4 =
      ap length (sym (ok-injective built)) ∙ laws.base64_length framed in
    omega (
      arith,
      size,
      same,
      unpad_shorter padded pt (unpad-of-pad pt padded p),
      length-append nonce (ct ++ mac),
      length-append ct mac,
    )

encrypt-length :
    (lib : Nip44Lib)
    → Nip44Laws lib
    → (key plaintext nonce payload : Bytes) → length key ≡ 32
    → encrypt_with_conversation_key lib key plaintext nonce ≡ ok payload
    → (0 < length plaintext)
      × (length plaintext ≤ max_plaintext_len)
      × (length plaintext ≤ length payload)
unfolding encrypt_with_conversation_key message_keys
encrypt-length lib laws key pt nonce payload k h = >>=-elim (pad pt) _ h λ padded p h₁.
    ok_or-elim (lib.hkdf_expand key nonce message_key_len) _ _ h₁ λ keys x h₂.
      ok_or-elim (lib.chacha20 (take 32 keys) (slice 32 44 keys) padded) _ _ h₂ λ ct c h₃.
        ok_or-elim (lib.hmac (drop 44 keys) (nonce ++ ct)) _ _ h₃ λ mac m built.
          let size = length-expanded lib laws key nonce keys k x in
          let same =
            length-ciphered lib laws (take 32 keys) (slice 32 44 keys) padded ct
              (omega (arith, size, length-take 32 keys))
              (omega (arith, size, length-take 12 (drop 32 keys), length-drop 32 keys)) c in
          let (some_text, fits) = pad_bounds pt padded p in
          (some_text, fits, payload_covers lib laws pt padded nonce ct mac payload p same built)

module _ (lib : Nip44Lib) (laws : Nip44Laws lib) (xonly : Bytes → Option Bytes)
    (agree : AgreementLaws lib xonly) (a b key_a key_b : Bytes) (is_a : xonly a ≡ some key_a)
    (is_b : xonly b ≡ some key_b) (plaintext nonce payload : Bytes) (n : length nonce ≡ nonce_len)
    (utf8 : lib.is_utf8 plaintext ≡ true) where
  -- What one party encrypts for the other's key, with a nonce of 32 bytes, the other decrypts with the
  -- first one's key to the same text, which is UTF-8 and is no longer than the payload.
  pub decrypt-encrypt_with_nonce :
      encrypt_with_nonce lib a key_b plaintext nonce ≡ ok payload
      → (decrypt lib b key_a payload ≡ ok plaintext)
        × (0 < length plaintext)
        × (length plaintext ≤ length payload)
  unfolding encrypt_with_nonce decrypt
  decrypt-encrypt_with_nonce h =
      let (x, sa, pb, there, back) = agree.agreement a b key_a key_b is_a is_b in
      let (x', sb, pa, back', there') = agree.agreement b a key_b key_a is_b is_a in
      let key = lib.hkdf_extract (text "nip44-v2") x in
      let k : length key ≡ 32 = agree.length-extract (text "nip44-v2") x in
      let mine = conversation_key-some lib a key_b x sa pb there in
      let theirs = conversation_key-some lib b key_a x sb pa back in
      let h' : encrypt_with_conversation_key lib key plaintext nonce ≡ ok payload = rw mine at h in
      let (some_text, fits, shorter) = encrypt-length lib laws key plaintext nonce payload k h' in
      let (other, made, opened) =
        decrypt-encrypt lib laws key plaintext nonce k n some_text fits utf8 in
      (
        rw theirs (
            subst (λ v. decrypt_with_conversation_key lib key v ≡ ok plaintext)
              (ok-injective (sym made ∙ h')) opened),
        some_text,
        shorter,
      )
