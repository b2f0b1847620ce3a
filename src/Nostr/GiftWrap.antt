-- ===== src/Nostr/GiftWrap.antt =====
-- crates/omachat-nostr/src/gift_wrap.rs: rumors, and the seals and gift wraps around them. serde's
-- form of a rumor is `GiftWrapLib`; random bytes are drawn from a list of what the system yields.
pub mod Rumors
pub mod Opening
pub mod Layers
pub mod RoundTrip
pub mod Material
use oma_chat.Base.{
  ℕ, zero, suc, ◌+◌, ◌-◌, ◌*◌, ◌%◌, ◌==◌, Bool, true, false, not, ◌||◌, ◌&&◌, Option, none, some,
  List, [], ◌∷◌, ◌++◌, Result, ok, err, ◌>>=◌, ◌>>◌, reject_if, ok_or, map_err, ltb, length, anyb,
  is_empty, Bytes, text, bytes_eq, is_lower_hex, if◌then◌else◌,
}
use oma_chat.Crypto.Nip44.{Nip44Lib, Nip44Error}
use oma_chat.Crypto.Nip44
use oma_chat.Nostr.Event.{
  Tag, UnsignedEvent, SignedEvent, EventLimits, EventError, EventLib, new_unsigned, event_id,
  sign_with_aux, verify, xonly_public_key,
}
use oma_chat.Nostr.Event
use oma_chat.Nostr.Urls.{Url, UrlLib, is_some, is_none}
use oma_chat.Nostr.Tags.{recipient_tags, is_misaddressed}
use oma_chat.Nostr.Inbox.{gift_wrap_kind}

abbrev pub seal_kind : ℕ
seal_kind = 13

abbrev pub chat_message_kind : ℕ
chat_message_kind = 14

abbrev pub ephemeral_gift_wrap_kind : ℕ
ephemeral_gift_wrap_kind = 21059

abbrev pub max_chat_recipients : ℕ
max_chat_recipients = 10

abbrev pub max_timestamp_skew_seconds : ℕ
max_timestamp_skew_seconds = 2 * 24 * 60 * 60

pub record Rumor : Type 0 where
  pub id : Bytes
  pub pubkey : Bytes
  pub created_at : ℕ
  pub kind : ℕ
  pub tags : List Tag
  pub content : Bytes

pub data GiftWrapError : Type 0 where
  event_error : EventError → GiftWrapError
  encryption : Nip44Error → GiftWrapError
  json invalid_recipient_count duplicate_or_self_recipient invalid_relay_hint : GiftWrapError
  invalid_hex rumor_id_mismatch author_mismatch wrong_wrapper_kind : GiftWrapError
  recipient_mismatch wrong_seal_kind seal_has_tags rumor_too_large : GiftWrapError
  randomness_unavailable : GiftWrapError

pub record ChatRecipient : Type 0 where
  pub public_key : Bytes
  pub relay_hint : Option Bytes

pub data GiftWrapPersistence : Type 0 where
  persistent ephemeral : GiftWrapPersistence

-- `GiftWrapPersistence::kind`.
unfoldable pub kind_of : GiftWrapPersistence → ℕ
kind_of persistent = gift_wrap_kind
kind_of ephemeral = ephemeral_gift_wrap_kind

pub record GiftWrapMaterial : Type 0 where
  pub seal_created_at : ℕ
  pub seal_nonce : Bytes
  pub seal_auxiliary_randomness : Bytes
  pub wrapper_secret_key : Bytes
  pub wrapper_created_at : ℕ
  pub wrapper_nonce : Bytes
  pub wrapper_auxiliary_randomness : Bytes

pub record OpenedGiftWrap : Type 0 where
  pub seal : SignedEvent
  pub rumor : Rumor

pub record GiftWrapLib : Type 0 where
  pub events : EventLib
  pub nip44 : Nip44Lib
  -- `serde_json::to_string` and `from_str` of a rumor
  pub rumor_to_json : Rumor → Option Bytes
  pub rumor_of_json : Bytes → Option Rumor

abbrev pub rumor_event : Rumor → UnsignedEvent
rumor_event rumor = record {
  pubkey = rumor.pubkey;
  created_at = rumor.created_at;
  kind = rumor.kind;
  tags = rumor.tags;
  content = rumor.content;
}

abbrev pub rumor_of : UnsignedEvent → Bytes → Rumor
rumor_of e id = record {
  id = id;
  pubkey = e.pubkey;
  created_at = e.created_at;
  kind = e.kind;
  tags = e.tags;
  content = e.content;
}

-- The condition that `validate_relay_hint` refuses.
unfoldable pub is_refused_hint : Url → Bool
is_refused_hint parsed =
    not (bytes_eq parsed.scheme (text "ws") || bytes_eq parsed.scheme (text "wss"))
    || (is_none parsed.host_str
        || (not (is_empty parsed.username) || (is_some parsed.password || is_some parsed.fragment)))

unfoldable pub validate_relay_hint : UrlLib → Bytes → Result GiftWrapError (Unit {0})
validate_relay_hint urls relay = do
  parsed ← ok_or (urls.parse relay) invalid_relay_hint
  reject_if (is_refused_hint parsed) invalid_relay_hint
  ok tt

unfoldable pub validate_lower_hex : Bytes → ℕ → Result GiftWrapError (Unit {0})
validate_lower_hex value bytes =
    reject_if (not (length value == bytes * 2) || anyb (λ c. not (is_lower_hex c)) value)
      invalid_hex

unfoldable pub hint_field : Option Bytes → List Bytes
hint_field none = []
hint_field (some relay) = relay ∷ []

unfoldable pub check_reply : Option Bytes → Result GiftWrapError (List Tag)
check_reply none = ok []
check_reply (some reply) = do validate_lower_hex reply 32; ok ((text "e" ∷ reply ∷ []) ∷ [])

unfoldable pub subject_tag : Option Bytes → List Tag
subject_tag none = []
subject_tag (some subject) = (text "subject" ∷ subject ∷ []) ∷ []

-- `Rumor::new`.
unfoldable pub new_rumor : EventLib → UnsignedEvent → EventLimits → Result GiftWrapError Rumor
new_rumor events e limits = do
  made ← map_err event_error (new_unsigned events e limits)
  id ← map_err event_error (event_id events made)
  ok (rumor_of made (events.hex_encode id))

module _ (events : EventLib) (urls : UrlLib) where
  unfoldable pub check_hint : Option Bytes → Result GiftWrapError (Unit {0})
  check_hint none = ok tt
  check_hint (some relay) = validate_relay_hint urls relay

  -- The loop of `create_chat_rumor`: the tags of the recipients, after those that were seen.
  unfoldable pub recipient_fields :
      Bytes → List ChatRecipient → List Bytes → Result GiftWrapError (List Tag)
  recipient_fields sender [] seen = ok []
  recipient_fields sender (recipient ∷ recipients) seen =
      let public_key = events.hex_encode recipient.public_key in
      do
        reject_if (bytes_eq public_key sender || anyb (λ k. bytes_eq k public_key) seen)
            duplicate_or_self_recipient
        check_hint recipient.relay_hint
        tags ← recipient_fields sender recipients (public_key ∷ seen)
        ok ((text "p" ∷ public_key ∷ hint_field recipient.relay_hint) ∷ tags)

  unfoldable pub create_chat_rumor :
      Bytes
      → ℕ
      → List ChatRecipient
      → Bytes
      → Option Bytes
      → Option Bytes
      → EventLimits
      → Result GiftWrapError Rumor
  create_chat_rumor sender_secret_key created_at recipients content subject reply_to limits = do
    reject_if (is_empty recipients || ltb max_chat_recipients (length recipients))
        invalid_recipient_count
    sender_key ← map_err event_error (xonly_public_key events sender_secret_key)
    let sender = events.hex_encode sender_key
    addressed ← recipient_fields sender recipients []
    reply ← check_reply reply_to
    e ← map_err event_error (
        new_unsigned events
          (record {
            pubkey = sender;
            created_at = created_at;
            kind = chat_message_kind;
            tags = addressed ++ (reply ++ subject_tag subject);
            content = content;
          })
          limits)
    new_rumor events e limits

module _ (lib : GiftWrapLib) where
  -- `Rumor::verify`.
  unfoldable pub verify_rumor : Rumor → EventLimits → Result GiftWrapError (Unit {0})
  verify_rumor rumor limits = do
    e ← map_err event_error (new_unsigned lib.events (rumor_event rumor) limits)
    id ← map_err event_error (event_id lib.events e)
    reject_if (not (bytes_eq (lib.events.hex_encode id) rumor.id)) rumor_id_mismatch
    ok tt

  -- `UnsignedEvent::new(..)?.sign_with_aux(..)?`.
  unfoldable pub make_and_sign :
      UnsignedEvent → Bytes → Bytes → EventLimits → Result GiftWrapError SignedEvent
  make_and_sign e secret aux limits = do
    made ← map_err event_error (new_unsigned lib.events e limits)
    map_err event_error (sign_with_aux lib.events made secret aux limits)

  -- The seal of a rumor whose author is checked.
  unfoldable pub create_seal :
      Rumor → Bytes → Bytes → GiftWrapMaterial → EventLimits → Result GiftWrapError SignedEvent
  create_seal rumor sender_secret_key recipient_public_key material limits = do
    rumor_json ← ok_or (lib.rumor_to_json rumor) json
    encrypted_rumor ← map_err encryption (
        Nip44.encrypt_with_nonce lib.nip44 sender_secret_key recipient_public_key rumor_json
          material.seal_nonce)
    make_and_sign
        (record {
          pubkey = rumor.pubkey;
          created_at = material.seal_created_at;
          kind = seal_kind;
          tags = [];
          content = encrypted_rumor;
        })
        sender_secret_key material.seal_auxiliary_randomness limits

  -- The gift wrap around a seal.
  unfoldable pub wrap_seal :
      SignedEvent
      → Bytes
      → GiftWrapPersistence
      → GiftWrapMaterial
      → EventLimits
      → Result GiftWrapError SignedEvent
  wrap_seal seal recipient_public_key lasting material limits = do
    wrapper_public ← map_err event_error (xonly_public_key lib.events material.wrapper_secret_key)
    seal_json ← ok_or (lib.events.signed_to_json seal) json
    encrypted_seal ← map_err encryption (
        Nip44.encrypt_with_nonce lib.nip44 material.wrapper_secret_key recipient_public_key
          seal_json material.wrapper_nonce)
    make_and_sign
        (record {
          pubkey = lib.events.hex_encode wrapper_public;
          created_at = material.wrapper_created_at;
          kind = kind_of lasting;
          tags = (text "p" ∷ lib.events.hex_encode recipient_public_key ∷ []) ∷ [];
          content = encrypted_seal;
        })
        material.wrapper_secret_key material.wrapper_auxiliary_randomness limits

  unfoldable pub create_gift_wrap_with_material :
      Rumor
      → Bytes
      → Bytes
      → GiftWrapPersistence
      → GiftWrapMaterial
      → EventLimits
      → Result GiftWrapError SignedEvent
  create_gift_wrap_with_material rumor sender_secret_key recipient_public_key lasting material
        limits =
      do
        verify_rumor rumor limits
        sender ← map_err event_error (xonly_public_key lib.events sender_secret_key)
        reject_if (not (bytes_eq rumor.pubkey (lib.events.hex_encode sender))) author_mismatch
        seal ← create_seal rumor sender_secret_key recipient_public_key material limits
        wrap_seal seal recipient_public_key lasting material limits

  unfoldable pub decode_lower_hex_32 : Bytes → Result GiftWrapError Bytes
  decode_lower_hex_32 value = do
    validate_lower_hex value 32
    ok_or (lib.events.hex_decode 32 value) invalid_hex

  -- The rumor inside a seal that was opened.
  unfoldable pub open_seal : SignedEvent → Bytes → EventLimits → Result GiftWrapError OpenedGiftWrap
  open_seal seal recipient_secret_key limits = do
    reject_if (not (seal.kind == seal_kind)) wrong_seal_kind
    reject_if (not (is_empty seal.tags)) seal_has_tags
    author_public ← decode_lower_hex_32 seal.pubkey
    rumor_json ←
        map_err encryption (Nip44.decrypt lib.nip44 recipient_secret_key author_public seal.content)
    reject_if (ltb limits.max_serialized_bytes (length rumor_json)) rumor_too_large
    rumor ← ok_or (lib.rumor_of_json rumor_json) json
    verify_rumor rumor limits
    reject_if (not (bytes_eq rumor.pubkey seal.pubkey)) author_mismatch
    ok (record { seal = seal; rumor = rumor })

  unfoldable pub open_gift_wrap :
      SignedEvent → Bytes → ℕ → EventLimits → Result GiftWrapError OpenedGiftWrap
  open_gift_wrap gift_wrap recipient_secret_key now limits = do
    map_err event_error (verify lib.events gift_wrap now limits)
    reject_if
        (not ((gift_wrap.kind == gift_wrap_kind) || (gift_wrap.kind == ephemeral_gift_wrap_kind)))
        wrong_wrapper_kind
    recipient_key ← map_err event_error (xonly_public_key lib.events recipient_secret_key)
    reject_if
        (is_misaddressed (lib.events.hex_encode recipient_key) (recipient_tags gift_wrap.tags))
        recipient_mismatch
    wrapper_public ← decode_lower_hex_32 gift_wrap.pubkey
    seal_json ←
        map_err encryption
          (Nip44.decrypt lib.nip44 recipient_secret_key wrapper_public gift_wrap.content)
    seal ← map_err event_error (Event.from_json lib.events seal_json now limits)
    open_seal seal recipient_secret_key limits

-- What the system's generator yields, call by call; the end of the list is a failure.
abbrev pub Draws : Type 0
Draws = List (Option Bytes)

-- `random_array`: 32 bytes, and what follows.
unfoldable pub random_array : Draws → Result GiftWrapError (Bytes × Draws)
random_array [] = err randomness_unavailable
random_array (none ∷ draws) = err randomness_unavailable
random_array (some bytes ∷ draws) = ok (bytes, draws)

-- The loop of `random_secret_key`, with the tries left.
unfoldable pub random_secret_key : EventLib → ℕ → Draws → Result GiftWrapError (Bytes × Draws)
random_secret_key events zero draws = err randomness_unavailable
random_secret_key events (suc tries) [] = err randomness_unavailable
random_secret_key events (suc tries) (none ∷ draws) = err randomness_unavailable
random_secret_key events (suc tries) (some candidate ∷ draws) =
    let again = random_secret_key events tries draws in
    if is_some (events.xonly_of_secret candidate) then ok (candidate, draws) else again

-- `u64::from_le_bytes`.
unfoldable pub from_le_bytes : Bytes → ℕ
from_le_bytes [] = 0
from_le_bytes (b ∷ bytes) = b + 256 * from_le_bytes bytes

unfoldable pub random_past_timestamp : ℕ → Draws → Result GiftWrapError (ℕ × Draws)
random_past_timestamp now [] = err randomness_unavailable
random_past_timestamp now (none ∷ draws) = err randomness_unavailable
random_past_timestamp now (some bytes ∷ draws) =
    ok (now - from_le_bytes bytes % (max_timestamp_skew_seconds + 1), draws)

-- The material that `create_gift_wrap` draws, in the order of its fields.
unfoldable pub draw_material : EventLib → ℕ → Draws → Result GiftWrapError GiftWrapMaterial
draw_material events now draws = do
  seal_time ← random_past_timestamp now draws
  seal_nonce ← random_array seal_time.1
  seal_aux ← random_array seal_nonce.1
  wrapper_secret ← random_secret_key events 128 seal_aux.1
  wrapper_time ← random_past_timestamp now wrapper_secret.1
  wrapper_nonce ← random_array wrapper_time.1
  wrapper_aux ← random_array wrapper_nonce.1
  ok (record {
    seal_created_at = seal_time.0;
    seal_nonce = seal_nonce.0;
    seal_auxiliary_randomness = seal_aux.0;
    wrapper_secret_key = wrapper_secret.0;
    wrapper_created_at = wrapper_time.0;
    wrapper_nonce = wrapper_nonce.0;
    wrapper_auxiliary_randomness = wrapper_aux.0;
  })

unfoldable pub create_gift_wrap :
    GiftWrapLib
    → Rumor
    → Bytes
    → Bytes
    → ℕ
    → GiftWrapPersistence
    → EventLimits
    → Draws
    → Result GiftWrapError SignedEvent
create_gift_wrap lib rumor sender_secret_key recipient_public_key now lasting limits draws = do
  material ← draw_material lib.events now draws
  create_gift_wrap_with_material lib rumor sender_secret_key recipient_public_key lasting material
      limits
