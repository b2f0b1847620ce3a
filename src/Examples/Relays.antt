-- ===== src/Examples/Relays.antt =====
-- Relay lists, inboxes, the cache and routes.
use oma_chat.Base.{
  none, some, ◌⊎◌, map_err, ok_or, reject_if, is_lower_hex, list_eq, anyb, ◌≡◌, refl, true, false,
  [], ◌∷◌, ok, arith, replicate, Bytes, text, bytes_eq,
}
use oma_chat.Nostr.Event.{
  event_id, check_fields, check_tags, decode_hex, validate, check_signature, SignedEvent,
  default_limits, verify,
}
use oma_chat.Nostr.Discovery.{
  validate_limits, is_refused_relay_url, normalize_relay_url, merge_relay, merge_tags, add_flags,
  parse_relay_list, RelayList, RelayPreference, RelayDiscoveryLimits, parse_nip65_relay_list,
  parse_nip17_dm_relay_list, merge_url, nip17_dm_relay_list_kind, nip17_fields, nip65_fields,
}
use oma_chat.Nostr.Discovery.Merging.{IsRelaySet}
use oma_chat.Nostr.Discovery.Parsing.{IsRelayListOf, parse_nip17_dm_relay_list-IsRelayListOf}
use oma_chat.Nostr.Inbox.{validate_policy, VerifiedDmInbox, verify_dm_inbox, default_policy}
use oma_chat.Nostr.Urls.{secure_or_loopback, is_secure_or_loopback}
use oma_chat.Nostr.Inbox.Verified.{IsVerifiedInbox, verify_dm_inbox-IsVerifiedInbox}
use oma_chat.Nostr.RelayListCache.{ListJson, VerifiedRelayListCacheRecord, insert_event}
use oma_chat.Nostr.RelayListCache.Newest.{IsCheckedList, IsInsertion, insert_event-IsInsertion}
use oma_chat.Examples.Libraries.{plain_events, plain_urls, hex}
use oma_chat.Examples.Events.{relays_event}

abbrev limits : RelayDiscoveryLimits
limits = record { max_relays = 3; max_url_bytes = 2048 }

abbrev both : Bytes → RelayPreference
both u = record { url = u; read = true; write = true }

abbrev relays_list : RelayList
relays_list = record {
  public_key = hex (replicate 32 2);
  created_at = 100;
  relays = both (text "wss://b") ∷ both (text "wss://a") ∷ [];
}

merge_same :
    merge_url (both (text "wss://a") ∷ []) (text "wss://a") true false limits
    ≡ ok (both (text "wss://a") ∷ [])
unfolding merge_url add_flags bytes_eq list_eq
merge_same = refl

one_relay : IsRelaySet (λ u. Unit) 3 (both (text "wss://a") ∷ [])
unfolding anyb
one_relay = record { distinct = (refl, tt); bounded = omega arith; urls = (tt, tt) }

parse_relays :
    parse_nip17_dm_relay_list plain_urls limits plain_events relays_event 200 default_limits
    ≡ ok relays_list
unfolding parse_nip17_dm_relay_list parse_relay_list merge_tags merge_relay merge_url add_flags
    normalize_relay_url is_refused_relay_url validate_limits nip17_fields verify check_signature
    validate decode_hex check_tags check_fields event_id is_lower_hex anyb bytes_eq list_eq
    reject_if ok_or map_err
parse_relays = refl

parse_nip17_dm_relay_list-IsRelayListOf_example :
    IsRelayListOf plain_events plain_urls limits nip17_dm_relay_list_kind
      (text "relay")
      nip17_fields
      relays_event
      200
      default_limits
      relays_list
parse_nip17_dm_relay_list-IsRelayListOf_example =
    parse_nip17_dm_relay_list-IsRelayListOf plain_events plain_urls limits relays_event 200
      default_limits relays_list parse_relays

-- A list of one relay to write to.
abbrev written_event : SignedEvent
written_event = record relays_event {
  kind = 10002;
  tags = (text "r" ∷ text "wss://a" ∷ text "write" ∷ []) ∷ [];
}

abbrev written_list : RelayList
written_list = record {
  public_key = hex (replicate 32 2);
  created_at = 100;
  relays = record { url = text "wss://a"; read = false; write = true } ∷ [];
}

parse_written :
    parse_nip65_relay_list plain_urls limits plain_events written_event 200 default_limits
    ≡ ok written_list
unfolding parse_nip65_relay_list parse_relay_list merge_tags merge_relay merge_url add_flags
    normalize_relay_url is_refused_relay_url validate_limits nip65_fields verify check_signature
    validate decode_hex check_tags check_fields event_id is_lower_hex anyb bytes_eq list_eq
    reject_if ok_or map_err
parse_written = refl

abbrev pub relays_inbox : VerifiedDmInbox
relays_inbox = record {
  recipient_public_key = hex (replicate 32 2);
  source_event_id = hex (replicate 32 3);
  source_created_at = 100;
  relay_urls = text "wss://b" ∷ text "wss://a" ∷ [];
  source_event = relays_event;
}

pub verify_inbox :
    verify_dm_inbox plain_events plain_urls relays_event
      (replicate 32 2)
      200
      default_limits
      default_policy
    ≡ ok relays_inbox
unfolding verify_dm_inbox validate_policy secure_or_loopback is_secure_or_loopback
    parse_nip17_dm_relay_list parse_relay_list merge_tags merge_relay merge_url add_flags
    normalize_relay_url is_refused_relay_url validate_limits nip17_fields verify check_signature
    validate decode_hex check_tags check_fields event_id is_lower_hex anyb bytes_eq list_eq
    reject_if ok_or map_err
verify_inbox = refl

verify_dm_inbox-IsVerifiedInbox_example :
    IsVerifiedInbox plain_events plain_urls relays_event
      (replicate 32 2)
      200
      default_limits
      default_policy
      relays_inbox
verify_dm_inbox-IsVerifiedInbox_example =
    verify_dm_inbox-IsVerifiedInbox plain_events plain_urls relays_event (replicate 32 2) 200
      default_limits default_policy relays_inbox verify_inbox

-- A gift wrap for the owner of the inbox.
abbrev pub gift_wrap : SignedEvent
gift_wrap = record relays_event { kind = 1059; tags = (text "p" ∷ hex (replicate 32 2) ∷ []) ∷ [] }

abbrev plain_lists : ListJson
plain_lists = record { to_vec = λ c. some (text "{}"); from_slice = λ b. none }

insert_event-IsInsertion_example :
    ((insert_event plain_events plain_urls limits plain_lists 200 default_limits [] written_event
        150).0
      ≡ [])
    ⊎ ((r : VerifiedRelayListCacheRecord) × IsCheckedList plain_events plain_urls limits plain_lists
          200 default_limits [] written_event 150 r
        × IsInsertion [] written_event.pubkey r (
            insert_event plain_events plain_urls limits plain_lists 200 default_limits []
              written_event 150))
insert_event-IsInsertion_example =
    insert_event-IsInsertion plain_events plain_urls limits plain_lists 200 default_limits []
      written_event 150 tt
