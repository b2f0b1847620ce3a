-- ===== src/Server/Transcripts.antt =====
-- crates/omachat-proto/src/hosted.rs: the byte strings that devices, servers and Nostr keys sign.
pub mod Binding
use oma_chat.Base.{
  ℕ, zero, suc, ◌+◌, ◌*◌, ◌/◌, ◌%◌, ◌≤◌, ◌<◌, ◌≡◌, refl, List, [], ◌∷◌, ◌++◌, arith, leb, length,
  take, drop, Bytes, text, ap, sym, ◌∙◌, subst, take-append, drop-append, length-append,
  if◌then◌else◌,
}

abbrev pub auth_domain : Bytes
auth_domain = text "omachat-server-auth-v1" ++ (0 ∷ [])

abbrev pub hello_domain : Bytes
hello_domain = text "omachat-server-hello-v1" ++ (0 ∷ [])

abbrev pub nostr_bind_domain : Bytes
nostr_bind_domain = text "omachat-nostr-bind-v1" ++ (0 ∷ [])

abbrev pub nostr_unbind_domain : Bytes
nostr_unbind_domain = text "omachat-nostr-unbind-v1" ++ (0 ∷ [])

-- `to_be_bytes` of an integer of that many bytes.
unfoldable pub to_be_bytes : ℕ → ℕ → Bytes
to_be_bytes zero n = []
to_be_bytes (suc width) n = to_be_bytes width (n / 256) ++ ((n % 256) ∷ [])

-- `u16::try_from(length).unwrap_or(u16::MAX)`.
unfoldable pub clamped_u16 : ℕ → ℕ
clamped_u16 n = if leb n 65535 then n else 65535

unfoldable pub push_str : Bytes → Bytes
push_str value = let size = clamped_u16 (length value) in to_be_bytes 2 size ++ take size value

abbrev pub hello_transcript : Bytes → Bytes → Bytes
hello_transcript challenge device_public_key = hello_domain ++ (challenge ++ device_public_key)

abbrev pub auth_transcript : Bytes → Bytes → Bytes → Bytes
auth_transcript server_public_key challenge device_public_key =
    auth_domain ++ (server_public_key ++ (challenge ++ device_public_key))

unfoldable pub proof_transcript : Bytes → Bytes → Bytes → Bytes → Bytes → Bytes → ℕ → Bytes
proof_transcript domain server_public_key account_id handle nostr_public_key nonce timestamp =
    domain
    ++ (server_public_key
        ++ (push_str account_id
            ++ (push_str handle ++ (nostr_public_key ++ (nonce ++ to_be_bytes 8 timestamp)))))

unfoldable pub nostr_bind_transcript : Bytes → Bytes → Bytes → Bytes → Bytes → ℕ → Bytes
nostr_bind_transcript = proof_transcript nostr_bind_domain

unfoldable pub nostr_unbind_transcript : Bytes → Bytes → Bytes → Bytes → Bytes → ℕ → Bytes
nostr_unbind_transcript = proof_transcript nostr_unbind_domain
