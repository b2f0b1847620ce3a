-- ===== src/Nostr/Event.antt =====
-- crates/omachat-nostr/src/event.rs: NIP-01 events, their resource limits, signing and verification.
-- JSON, hex, SHA-256 and Schnorr signatures are the fields of `EventLib`; `none` is an error of the
-- library. The JSON error that `EventError::Json` wraps is dropped.
pub mod Limits
pub mod Verification
pub mod Signing
use oma_chat.Base.{
  if◌then◌else◌, ℕ, suc, ◌+◌, ◌*◌, Bool, true, false, not, ◌||◌, Option, none, some, List, [], ◌∷◌,
  Result, ok, err, ◌>>=◌, ◌>>◌, reject_if, ok_or, ltb, ◌==◌, length, anyb, allb, list_eq, Bytes,
  bytes_eq, is_lower_hex, saturating_add, ◌&&◌,
}

abbrev pub Tag : Type 0
Tag = List Bytes

pub record UnsignedEvent : Type 0 where
  pub pubkey : Bytes
  pub created_at : ℕ
  pub kind : ℕ
  pub tags : List Tag
  pub content : Bytes

pub record SignedEvent : Type 0 where
  pub id : Bytes
  pub pubkey : Bytes
  pub created_at : ℕ
  pub kind : ℕ
  pub tags : List Tag
  pub content : Bytes
  pub sig : Bytes

pub record EventLimits : Type 0 where
  pub max_serialized_bytes : ℕ
  pub max_content_bytes : ℕ
  pub max_tags : ℕ
  pub max_tag_fields : ℕ
  pub max_tag_field_bytes : ℕ
  pub max_future_seconds : ℕ

-- `EventLimits::default`.
abbrev pub default_limits : EventLimits
default_limits = record {
  max_serialized_bytes = 256 * 1024;
  max_content_bytes = 64 * 1024;
  max_tags = 64;
  max_tag_fields = 16;
  max_tag_field_bytes = 1024;
  max_future_seconds = 15 * 60;
}

pub data EventError : Type 0 where
  json : EventError
  invalid_hex : ℕ → EventError
  secret_key public_key public_key_mismatch signing signature id_mismatch : EventError
  -- the size, then the maximum
  serialized_too_large : ℕ → ℕ → EventError
  content_too_large : ℕ → ℕ → EventError
  too_many_tags : ℕ → ℕ → EventError
  -- the tag's index, its fields, the maximum
  too_many_tag_fields : ℕ → ℕ → ℕ → EventError
  -- the tag's index, the field's index, its bytes, the maximum
  tag_field_too_large : ℕ → ℕ → ℕ → ℕ → EventError
  -- `created_at`, then the maximum
  too_far_in_future : ℕ → ℕ → EventError

pub record EventLib : Type 0 where
  -- `hex::encode`, and `hex::decode_to_slice` into a buffer of so many bytes
  pub hex_encode : Bytes → Bytes
  pub hex_decode : ℕ → Bytes → Option Bytes
  -- `serde_json::to_vec` of `[0,pubkey,time,kind,tags,content]`
  pub canonical_to_json : UnsignedEvent → Option Bytes
  -- `serde_json::to_vec` and `from_slice` of a signed event
  pub signed_to_json : SignedEvent → Option Bytes
  pub signed_of_json : Bytes → Option SignedEvent
  pub sha256 : Bytes → Bytes
  -- the x-only public key of a secret key, where it is one
  pub xonly_of_secret : Bytes → Option Bytes
  -- secret key, message, auxiliary randomness
  pub sign_raw : Bytes → Bytes → Bytes → Option Bytes
  -- `VerifyingKey::from_bytes` and `Signature::try_from` succeed
  pub is_verifying_key : Bytes → Bool
  pub is_signature : Bytes → Bool
  -- public key, message, signature
  pub verify_raw : Bytes → Bytes → Bytes → Bool

-- The derived `==` of events.
pub signed_eq : SignedEvent → SignedEvent → Bool
signed_eq a b =
    bytes_eq a.id b.id
    && (bytes_eq a.pubkey b.pubkey
        && (a.created_at == b.created_at
            && (a.kind == b.kind
                && (list_eq (list_eq bytes_eq) a.tags b.tags
                    && (bytes_eq a.content b.content && bytes_eq a.sig b.sig)))))

-- `SignedEvent::unsigned`.
abbrev pub unsigned : SignedEvent → UnsignedEvent
unsigned e = record {
  pubkey = e.pubkey;
  created_at = e.created_at;
  kind = e.kind;
  tags = e.tags;
  content = e.content;
}

abbrev pub signed_event : UnsignedEvent → Bytes → Bytes → SignedEvent
signed_event e id sig = record {
  id = id;
  pubkey = e.pubkey;
  created_at = e.created_at;
  kind = e.kind;
  tags = e.tags;
  content = e.content;
  sig = sig;
}

-- The loop over the fields of one tag, from a field's index on.
unfoldable pub check_fields : EventLimits → ℕ → ℕ → Tag → Result EventError (Unit {0})
check_fields limits tag_index field_index [] = ok tt
check_fields limits tag_index field_index (field ∷ fields) =
    let rest = check_fields limits tag_index (suc field_index) fields in
    if ltb limits.max_tag_field_bytes (length field)
    then err (tag_field_too_large tag_index field_index (length field) limits.max_tag_field_bytes)
    else rest

-- The loop over the tags, from a tag's index on.
unfoldable pub check_tags : EventLimits → ℕ → List Tag → Result EventError (Unit {0})
check_tags limits tag_index [] = ok tt
check_tags limits tag_index (tag ∷ tags) =
    let rest = check_tags limits (suc tag_index) tags in
    if ltb limits.max_tag_fields (length tag)
    then err (too_many_tag_fields tag_index (length tag) limits.max_tag_fields)
    else (check_fields limits tag_index 0 tag >> rest)

module _ (lib : EventLib) where
  -- `decode_hex::<N>`; N is 32 in `decode_hex_32` and 64 in `decode_hex_64`.
  unfoldable pub decode_hex : ℕ → Bytes → Result EventError Bytes
  decode_hex n value = do
    reject_if (not (length value == n * 2) || anyb (λ c. not (is_lower_hex c)) value)
        (invalid_hex n)
    ok_or (lib.hex_decode n value) (invalid_hex n)

  unfoldable pub xonly_public_key : Bytes → Result EventError Bytes
  xonly_public_key secret = ok_or (lib.xonly_of_secret secret) secret_key

  unfoldable pub validate : UnsignedEvent → EventLimits → Result EventError (Unit {0})
  validate e limits = do
    decode_hex 32 e.pubkey >>= λ _. ok tt
    reject_if (ltb limits.max_content_bytes (length e.content))
        (content_too_large (length e.content) limits.max_content_bytes)
    reject_if (ltb limits.max_tags (length e.tags)) (too_many_tags (length e.tags) limits.max_tags)
    check_tags limits 0 e.tags

  -- `UnsignedEvent::new`.
  unfoldable pub new_unsigned : UnsignedEvent → EventLimits → Result EventError UnsignedEvent
  new_unsigned e limits = do validate e limits; ok e

  -- `UnsignedEvent::id`, over `canonical_json`.
  unfoldable pub event_id : UnsignedEvent → Result EventError Bytes
  event_id e = do bytes ← ok_or (lib.canonical_to_json e) json; ok (lib.sha256 bytes)

  -- The tail of `SignedEvent::verify`: the identifier, the key and the signature.
  unfoldable pub check_signature : SignedEvent → Result EventError (Unit {0})
  check_signature e = do
    expected_id ← event_id (unsigned e)
    supplied_id ← decode_hex 32 e.id
    reject_if (not (bytes_eq expected_id supplied_id)) id_mismatch
    key ← decode_hex 32 e.pubkey
    reject_if (not (lib.is_verifying_key key)) public_key
    signature_bytes ← decode_hex 64 e.sig
    reject_if (not (lib.is_signature signature_bytes)) signature
    reject_if (not (lib.verify_raw key expected_id signature_bytes)) signature
    ok tt

  -- `SignedEvent::verify`.
  unfoldable pub verify : SignedEvent → ℕ → EventLimits → Result EventError (Unit {0})
  verify e now limits = do
    serialized ← ok_or (lib.signed_to_json e) json
    reject_if (ltb limits.max_serialized_bytes (length serialized))
        (serialized_too_large (length serialized) limits.max_serialized_bytes)
    reject_if (ltb (saturating_add now limits.max_future_seconds) e.created_at)
        (too_far_in_future e.created_at (saturating_add now limits.max_future_seconds))
    validate (unsigned e) limits
    check_signature e

  -- `SignedEvent::from_json`.
  unfoldable pub from_json : Bytes → ℕ → EventLimits → Result EventError SignedEvent
  from_json bytes now limits = do
    reject_if (ltb limits.max_serialized_bytes (length bytes))
        (serialized_too_large (length bytes) limits.max_serialized_bytes)
    e ← ok_or (lib.signed_of_json bytes) json
    verify e now limits
    ok e

  -- `UnsignedEvent::sign_with_aux`.
  unfoldable pub sign_with_aux :
      UnsignedEvent → Bytes → Bytes → EventLimits → Result EventError SignedEvent
  sign_with_aux e secret aux limits = do
    validate e limits
    verifying_bytes ← ok_or (lib.xonly_of_secret secret) secret_key
    declared ← decode_hex 32 e.pubkey
    reject_if (not (bytes_eq verifying_bytes declared)) public_key_mismatch
    id ← event_id e
    sig ← ok_or (lib.sign_raw secret id aux) signing
    ok (signed_event e (lib.hex_encode id) (lib.hex_encode sig))
