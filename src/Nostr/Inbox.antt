-- ===== src/Nostr/Inbox.antt =====
-- crates/omachat-nostr/src/inbox.rs: the verified DM inbox of a recipient and the plan for a gift
-- wrap. The errors carry other errors where the source carries their text.
pub mod Verified
pub mod Plan
use oma_chat.Base.{
  ℕ, ◌-◌, ◌*◌, ◌==◌, min, Bool, true, false, not, ◌||◌, ◌&&◌, List, [], ◌∷◌, map, Result, ok, err,
  ◌>>=◌, ◌>>◌, reject_if, map_err, ltb, length, anyb, Bytes, bytes_eq, if◌then◌else◌,
}
use oma_chat.Nostr.Event.{SignedEvent, EventLimits, EventError, EventLib, verify}
use oma_chat.Nostr.Urls.{UrlLib, secure_or_loopback}
use oma_chat.Nostr.Tags.{recipient_tags, is_misaddressed}
use oma_chat.Nostr.Discovery.{
  RelayPreference, RelayList, RelayDiscoveryLimits, RelayDiscoveryError, parse_nip17_dm_relay_list,
}

abbrev pub gift_wrap_kind : ℕ
gift_wrap_kind = 1059

pub record DmInboxPolicy : Type 0 where
  pub maximum_age_seconds : ℕ
  pub max_relays : ℕ
  pub max_url_bytes : ℕ
  pub require_tls : Bool

-- `DmInboxPolicy::default`.
abbrev pub default_policy : DmInboxPolicy
default_policy = record {
  maximum_age_seconds = 30 * 24 * 60 * 60;
  max_relays = 3;
  max_url_bytes = 2048;
  require_tls = true;
}

pub record VerifiedDmInbox : Type 0 where
  pub recipient_public_key : Bytes
  pub source_event_id : Bytes
  pub source_created_at : ℕ
  pub relay_urls : List Bytes
  pub source_event : SignedEvent

pub record DmPublishPlan : Type 0 where
  pub event : SignedEvent
  pub recipient_public_key : Bytes
  pub relay_urls : List Bytes
  pub required_acknowledgements : ℕ
  pub inbox_event_id : Bytes

pub data DmInboxError : Type 0 where
  invalid_policy : DmInboxError
  invalid_relay_list : RelayDiscoveryError → DmInboxError
  relay_list_subject_mismatch relay_list_from_future : DmInboxError
  -- the age, then the maximum
  stale_relay_list : ℕ → ℕ → DmInboxError
  insecure_relay : DmInboxError
  invalid_gift_wrap : EventError → DmInboxError
  wrong_gift_wrap_kind gift_wrap_recipient_mismatch : DmInboxError

unfoldable pub validate_policy : DmInboxPolicy → Result DmInboxError (Unit {0})
validate_policy policy =
    reject_if
      ((policy.maximum_age_seconds == 0)
        || ((policy.max_relays == 0) || (ltb 3 policy.max_relays || (policy.max_url_bytes == 0))))
      invalid_policy

abbrev pub urls_of : List RelayPreference → List Bytes
urls_of relays = map (λ (r : RelayPreference). r.url) relays

abbrev pub discovery_limits : DmInboxPolicy → RelayDiscoveryLimits
discovery_limits policy = record {
  max_relays = policy.max_relays;
  max_url_bytes = policy.max_url_bytes;
}

module _ (lib : EventLib) (urls : UrlLib) where
  unfoldable pub verify_dm_inbox :
      SignedEvent → Bytes → ℕ → EventLimits → DmInboxPolicy → Result DmInboxError VerifiedDmInbox
  verify_dm_inbox event expected_recipient_public_key now event_limits policy = do
    validate_policy policy
    let expected_recipient = lib.hex_encode expected_recipient_public_key
    list ←
        map_err invalid_relay_list
          (parse_nip17_dm_relay_list urls (discovery_limits policy) lib event now event_limits)
    reject_if (not (bytes_eq list.public_key expected_recipient)) relay_list_subject_mismatch
    reject_if (ltb now list.created_at) relay_list_from_future
    let age = now - list.created_at
    reject_if (ltb policy.maximum_age_seconds age) (stale_relay_list age policy.maximum_age_seconds)
    let relay_urls = urls_of list.relays
    reject_if (policy.require_tls && anyb (λ u. not (secure_or_loopback urls u)) relay_urls)
        insecure_relay
    ok (record {
      recipient_public_key = expected_recipient;
      source_event_id = event.id;
      source_created_at = list.created_at;
      relay_urls = relay_urls;
      source_event = event;
    })

  pub plan_dm_publish :
      SignedEvent → VerifiedDmInbox → ℕ → EventLimits → Result DmInboxError DmPublishPlan
  plan_dm_publish gift_wrap inbox now event_limits = do
    map_err invalid_gift_wrap (verify lib gift_wrap now event_limits)
    reject_if (not (gift_wrap.kind == gift_wrap_kind)) wrong_gift_wrap_kind
    reject_if (is_misaddressed inbox.recipient_public_key (recipient_tags gift_wrap.tags))
        gift_wrap_recipient_mismatch
    let required_acknowledgements = min (length inbox.relay_urls) 2
    reject_if (required_acknowledgements == 0) invalid_policy
    ok (record {
      event = gift_wrap;
      recipient_public_key = inbox.recipient_public_key;
      relay_urls = inbox.relay_urls;
      required_acknowledgements = required_acknowledgements;
      inbox_event_id = inbox.source_event_id;
    })
