-- ===== src/Examples/Messages.antt =====
-- Gift wraps and the inbox that receives them.
use oma_chat.Base.{
  if◌then◌else◌, Option, list_eq, bytes_eq, anyb, take, drop, ok_or, reject_if, map_err,
  is_lower_hex, ◌≤◌, ◌<◌, ◌≡◌, refl, true, false, none, some, Result, ok, err, arith, List, [], ◌∷◌,
  length, replicate, Bytes, text,
}
use oma_chat.Nostr.Event.{
  EventLib, SignedEvent, xonly_public_key, new_unsigned, event_id, check_fields, check_tags,
  decode_hex, default_limits, validate, sign_with_aux,
}
use oma_chat.Nostr.Urls.{is_some}
use oma_chat.Crypto.Nip44.{
  Nip44Error, power_from, checked_next_power_of_two, chunked_len, message_keys, calc_padded_len,
  pad, encrypt_with_conversation_key, conversation_key, encrypt_with_nonce, decrypt,
}
use oma_chat.Nostr.GiftWrap.{
  from_le_bytes, random_past_timestamp, random_array, Draws, draw_material, random_secret_key,
  GiftWrapError, Rumor, GiftWrapMaterial, OpenedGiftWrap, ChatRecipient, persistent,
  create_gift_wrap_with_material, create_seal, wrap_seal, make_and_sign, verify_rumor,
  create_chat_rumor, recipient_fields, check_hint, check_reply, subject_tag, hint_field,
  validate_relay_hint, validate_lower_hex, is_refused_hint, new_rumor, kind_of, open_gift_wrap,
}
use oma_chat.Crypto.Nip44.Parties.{decrypt-encrypt_with_nonce}
use oma_chat.Nostr.GiftWrap.Opening.{IsOpened, open_gift_wrap-IsOpened}
use oma_chat.Nostr.GiftWrap.RoundTrip.{open_gift_wrap-create_gift_wrap}
use oma_chat.Nostr.GiftWrap.Rumors.{IsChat, create_chat_rumor-IsChat}
use oma_chat.Nostr.GiftWrap.Material.{IsMaterial, draw_material-IsMaterial, random_secret_key-finds}
use oma_chat.Examples.Libraries.{plain_nip44_laws, hex, plain_urls, plain_events}
use oma_chat.Examples.Wrapping.{plain_agreement, wraps, wraps_laws}

abbrev alice : Bytes
alice = replicate 32 1

abbrev pub bob : Bytes
bob = replicate 32 3

abbrev pub public_of_all : Bytes
public_of_all = replicate 32 2

abbrev pub hello : Rumor
hello = record {
  id = hex (replicate 32 5);
  pubkey = hex (replicate 32 2);
  created_at = 90;
  kind = 14;
  tags = [];
  content = text "hi";
}

abbrev material : GiftWrapMaterial
material = record {
  seal_created_at = 80;
  seal_nonce = replicate 32 9;
  seal_auxiliary_randomness = replicate 32 0;
  wrapper_secret_key = replicate 32 8;
  wrapper_created_at = 85;
  wrapper_nonce = replicate 32 7;
  wrapper_auxiliary_randomness = replicate 32 0;
}

abbrev nothing : SignedEvent
nothing = record {
  id = [];
  pubkey = [];
  created_at = 0;
  kind = 0;
  tags = [];
  content = [];
  sig = [];
}

abbrev made : Result GiftWrapError SignedEvent → SignedEvent
made (ok e) = e
made (err e) = nothing

abbrev pub wrap : SignedEvent
wrap = made (
    create_gift_wrap_with_material wraps hello alice public_of_all persistent material
      default_limits)

abbrev the_text : Option Bytes → Bytes
the_text none = []
the_text (some b) = b

abbrev wrap_json : Bytes
wrap_json = the_text (wraps.events.signed_to_json wrap)

pub wrap_created :
    (create_gift_wrap_with_material wraps hello alice public_of_all persistent material
        default_limits
      ≡ ok wrap)
    × (wraps.events.signed_to_json wrap ≡ some wrap_json)
    × (length wrap_json ≡ 1274)
    × (wrap.kind ≡ 1059)
    × (wrap.tags ≡ (text "p" ∷ hex public_of_all ∷ []) ∷ [])
unfolding create_gift_wrap_with_material create_seal wrap_seal make_and_sign verify_rumor kind_of
    xonly_public_key new_unsigned event_id validate decode_hex check_tags check_fields sign_with_aux
    encrypt_with_nonce conversation_key encrypt_with_conversation_key pad calc_padded_len
    chunked_len checked_next_power_of_two power_from message_keys is_lower_hex anyb bytes_eq list_eq
    reject_if ok_or map_err take drop
wrap_created = (refl, refl, refl, refl, refl)

abbrev the_payload : Result Nip44Error Bytes → Bytes
the_payload (ok b) = b
the_payload (err e) = []

pub wrap_opens :
    (seal : SignedEvent) × (open_gift_wrap wraps wrap bob 100 default_limits
      ≡ ok (record { seal = seal; rumor = hello }))
    × (seal.pubkey ≡ hex public_of_all)
wrap_opens =
    open_gift_wrap-create_gift_wrap wraps wraps_laws alice bob public_of_all public_of_all refl refl
      hello persistent material default_limits wrap wrap_json 100 wrap_created.0 refl refl
      (omega arith) (omega arith) (omega arith) wrap_created.1 (omega (arith, wrap_created.2))

open_gift_wrap-create_gift_wrap_example :
    (seal : SignedEvent) × (open_gift_wrap wraps wrap bob 100 default_limits
      ≡ ok (record { seal = seal; rumor = hello }))
    × (seal.pubkey ≡ hex public_of_all)
open_gift_wrap-create_gift_wrap_example =
    open_gift_wrap-create_gift_wrap wraps wraps_laws alice bob public_of_all public_of_all refl refl
      hello persistent material default_limits wrap wrap_json 100 wrap_created.0 refl refl
      (omega arith) (omega arith) (omega arith) wrap_created.1 (omega (arith, wrap_created.2))

abbrev pub opened : OpenedGiftWrap
opened = record { seal = wrap_opens.0; rumor = hello }

open_gift_wrap-IsOpened_example : IsOpened wraps wrap bob 100 default_limits opened
open_gift_wrap-IsOpened_example =
    open_gift_wrap-IsOpened wraps wrap bob 100 default_limits opened wrap_opens.1

abbrev hello_payload : Bytes
hello_payload =
    the_payload (encrypt_with_nonce wraps.nip44 alice public_of_all (text "hello") (replicate 32 9))

hello_encrypted :
    encrypt_with_nonce wraps.nip44 alice public_of_all (text "hello") (replicate 32 9)
    ≡ ok hello_payload
unfolding encrypt_with_nonce conversation_key encrypt_with_conversation_key pad calc_padded_len
    chunked_len checked_next_power_of_two power_from message_keys reject_if ok_or take drop
hello_encrypted = refl

decrypt-encrypt_with_nonce_example :
    (decrypt wraps.nip44 bob public_of_all hello_payload ≡ ok (text "hello"))
    × (0 < length (text "hello"))
    × (length (text "hello") ≤ length hello_payload)
decrypt-encrypt_with_nonce_example =
    decrypt-encrypt_with_nonce wraps.nip44 plain_nip44_laws wraps.events.xonly_of_secret
      plain_agreement alice bob public_of_all public_of_all refl refl (text "hello")
      (replicate 32 9) hello_payload refl refl hello_encrypted

abbrev recipients : List ChatRecipient
recipients = record { public_key = replicate 32 4; relay_hint = some (text "wss://a") } ∷ []

abbrev chat : Rumor
chat = record {
  id = hex (replicate 32 5);
  pubkey = hex public_of_all;
  created_at = 90;
  kind = 14;
  tags =
      (text "p" ∷ hex (replicate 32 4) ∷ text "wss://a" ∷ [])
      ∷ (text "e" ∷ hex (replicate 32 6) ∷ [])
      ∷ (text "subject" ∷ text "greeting" ∷ [])
      ∷ [];
  content = text "hi";
}

chat_created :
    create_chat_rumor plain_events plain_urls alice 90 recipients
      (text "hi")
      (some (text "greeting"))
      (some (hex (replicate 32 6)))
      default_limits
    ≡ ok chat
unfolding create_chat_rumor recipient_fields check_hint check_reply subject_tag hint_field
    validate_relay_hint validate_lower_hex is_refused_hint new_rumor xonly_public_key new_unsigned
    event_id validate decode_hex check_tags check_fields is_lower_hex anyb bytes_eq list_eq
    reject_if ok_or map_err
chat_created = refl

create_chat_rumor-IsChat_example :
    IsChat plain_events alice 90 recipients
      (text "hi")
      (some (text "greeting"))
      (some (hex (replicate 32 6)))
      default_limits
      chat
create_chat_rumor-IsChat_example =
    create_chat_rumor-IsChat plain_events plain_urls default_limits alice 90 recipients (text "hi")
      (some (text "greeting")) (some (hex (replicate 32 6))) chat chat_created

-- Two of 32 bytes are no secret keys here.
abbrev picky_events : EventLib
picky_events = record plain_events {
  xonly_of_secret = λ s. if bytes_eq s (replicate 32 0) then none else some public_of_all;
}

abbrev draws : Draws
draws =
    some (5 ∷ 1 ∷ [])
    ∷ some (replicate 32 9)
    ∷ some (replicate 32 8)
    ∷ some (replicate 32 0)
    ∷ some (replicate 32 7)
    ∷ some (9 ∷ [])
    ∷ some (replicate 32 6)
    ∷ some (replicate 32 5)
    ∷ []

abbrev drawn_material : GiftWrapMaterial
drawn_material = record {
  seal_created_at = 739;
  seal_nonce = replicate 32 9;
  seal_auxiliary_randomness = replicate 32 8;
  wrapper_secret_key = replicate 32 7;
  wrapper_created_at = 991;
  wrapper_nonce = replicate 32 6;
  wrapper_auxiliary_randomness = replicate 32 5;
}

material_drawn : draw_material picky_events 1000 draws ≡ ok drawn_material
unfolding draw_material random_array random_secret_key random_past_timestamp from_le_bytes bytes_eq
    list_eq
material_drawn = refl

draw_material-IsMaterial_example : IsMaterial picky_events 1000 drawn_material
draw_material-IsMaterial_example =
    draw_material-IsMaterial picky_events 1000 draws drawn_material material_drawn

zeros_refused :
    (is_some (picky_events.xonly_of_secret (replicate 32 0)) ≡ false)
    × (is_some (picky_events.xonly_of_secret (replicate 32 7)) ≡ true)
unfolding bytes_eq list_eq
zeros_refused = (refl, refl)

random_secret_key-finds_example :
    random_secret_key picky_events 128 (some (replicate 32 0) ∷ some (replicate 32 7) ∷ [])
    ≡ ok (replicate 32 7, [])
random_secret_key-finds_example =
    random_secret_key-finds picky_events 128 (replicate 32 0 ∷ []) (replicate 32 7) [] (omega arith)
      (zeros_refused.0, tt) zeros_refused.1
