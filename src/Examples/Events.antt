-- ===== src/Examples/Events.antt =====
-- Events.
use oma_chat.Base.{
  ok_or, reject_if, list_eq, bytes_eq, anyb, is_lower_hex, ◌≡◌, refl, ◌↔◌, [], ◌∷◌, ok, arith,
  replicate, text,
}
use oma_chat.Nostr.Event.{
  event_id, check_fields, check_tags, decode_hex, UnsignedEvent, SignedEvent, default_limits,
  unsigned, validate, verify, sign_with_aux, signed_event,
}
use oma_chat.Nostr.Event.Verification.{IsAcceptable, verify_lem}
use oma_chat.Nostr.Event.Signing.{verify-sign_with_aux}
use oma_chat.Examples.Libraries.{plain_events, plain_events_laws, hex}

-- A list of two relays for direct messages.
abbrev pub relays_draft : UnsignedEvent
relays_draft = record {
  pubkey = hex (replicate 32 2);
  created_at = 100;
  kind = 10050;
  tags = (text "relay" ∷ text "wss://b" ∷ []) ∷ (text "relay" ∷ text "wss://a" ∷ []) ∷ [];
  content = [];
}

abbrev pub relays_event : SignedEvent
relays_event = signed_event relays_draft (hex (replicate 32 3)) (hex (replicate 64 3))

sign_draft :
    sign_with_aux plain_events relays_draft (replicate 32 1) (replicate 32 0) default_limits
    ≡ ok relays_event
unfolding sign_with_aux validate decode_hex check_tags check_fields event_id is_lower_hex anyb
    bytes_eq list_eq reject_if ok_or
sign_draft = refl

verify_lem_example :
    (verify plain_events relays_event 200 default_limits ≡ ok tt)
    ↔ IsAcceptable plain_events 200 default_limits relays_event
verify_lem_example = verify_lem plain_events relays_event 200 default_limits

verify-sign_with_aux_example :
    (unsigned relays_event ≡ relays_draft)
    × (verify plain_events relays_event 200 default_limits ≡ ok tt)
verify-sign_with_aux_example =
    verify-sign_with_aux plain_events plain_events_laws relays_draft (replicate 32 1)
      (replicate 32 0) default_limits relays_event sign_draft 200 (text "{}") refl (omega arith)
      (omega arith)
