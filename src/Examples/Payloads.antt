-- ===== src/Examples/Payloads.antt =====
-- Payloads.
use oma_chat.Base.{
  list_eq, bytes_eq, take, ok_or, reject_if, ℕ, ◌+◌, ◌*◌, ◌≤◌, ◌<◌, ◌≡◌, refl, ◌⊎◌, true, some, ok,
  arith, ◌++◌, ◌∷◌, drop, length, replicate, Bytes, text,
}
use oma_chat.Crypto.Nip44.{
  prefix_width, power_from, checked_next_power_of_two, chunked_len, maximum_encoded_payload_len,
  message_keys, decrypt_body, read_prefix, calc_padded_len, pad, unpad,
  encrypt_with_conversation_key, decrypt_with_conversation_key, first_is, version, message_key_len,
  max_plaintext_len,
}
use oma_chat.Crypto.Nip44.Lengths.{calc_padded_len_bounds}
use oma_chat.Crypto.Nip44.Padding.{unpad-pad}
use oma_chat.Crypto.Nip44.RoundTrip.{decrypt-encrypt}
use oma_chat.Crypto.Nip44.Authenticity.{mac_part, ciphertext_part, nonce_part, decrypt_authentic}
use oma_chat.Examples.Libraries.{marked, plain_nip44, plain_nip44_laws, mark}

abbrev key : Bytes
key = replicate 32 5

abbrev nonce : Bytes
nonce = replicate 32 9

abbrev padded_hello : Bytes
padded_hello = 0 ∷ 5 ∷ (text "hello" ++ replicate 27 0)

abbrev hello_payload : Bytes
hello_payload = mark (2 ∷ (nonce ++ (padded_hello ++ replicate 32 7)))

calc_padded_len_bounds_example :
    (padded : ℕ) × (calc_padded_len 33 ≡ ok padded)
    × (32 ≤ padded)
    × (padded ≤ max_plaintext_len)
    × (33 ≤ padded)
    × ((padded < 33 + 32) ⊎ (4 * padded ≤ 5 * 33))
calc_padded_len_bounds_example = calc_padded_len_bounds 33 (omega arith) (omega arith)

unpad-pad_example :
    (padded : Bytes) × (pad (text "hello") ≡ ok padded)
    × (unpad padded ≡ ok (text "hello"))
    × ((n : ℕ) × (calc_padded_len 5 ≡ ok n) × (length padded ≡ prefix_width 5 + n))
    × (34 ≤ length padded)
    × (length padded ≤ 6 + max_plaintext_len)
unpad-pad_example = unpad-pad (text "hello") (omega arith) (omega arith)

unpad_hello : unpad padded_hello ≡ ok (text "hello")
unfolding unpad read_prefix calc_padded_len reject_if ok_or drop take bytes_eq list_eq chunked_len
    checked_next_power_of_two power_from
unpad_hello = refl

decrypt-encrypt_example :
    (payload : Bytes) × (encrypt_with_conversation_key plain_nip44 key (text "hello") nonce
      ≡ ok payload)
    × (decrypt_with_conversation_key plain_nip44 key payload ≡ ok (text "hello"))
decrypt-encrypt_example =
    decrypt-encrypt plain_nip44 plain_nip44_laws key (text "hello") nonce refl refl (omega arith)
      (omega arith) refl

decrypt_hello : decrypt_with_conversation_key plain_nip44 key hello_payload ≡ ok (text "hello")
unfolding decrypt_with_conversation_key decrypt_body message_keys maximum_encoded_payload_len unpad
    read_prefix calc_padded_len reject_if ok_or drop take bytes_eq list_eq chunked_len
    checked_next_power_of_two power_from
decrypt_hello = refl

decrypt_authentic_example :
    (decoded keys : Bytes) × (length hello_payload ≤ 1398196)
    × (marked hello_payload ≡ some decoded)
    × (first_is version decoded ≡ true)
    × (some (replicate message_key_len 1) ≡ some keys)
    × (plain_nip44.hmac_verify
          (drop 44 keys)
          (nonce_part decoded ++ ciphertext_part decoded)
          (mac_part decoded)
        ≡ some true)
    × (true ≡ true)
    × (0 < length (text "hello"))
    × (length (text "hello") ≤ max_plaintext_len)
decrypt_authentic_example =
    decrypt_authentic plain_nip44 key hello_payload (text "hello") decrypt_hello
