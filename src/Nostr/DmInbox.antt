-- ===== src/Nostr/DmInbox.antt =====
-- crates/omachat-nostr/src/dm_inbox.rs: what becomes of the gift wraps that relays deliver. The JSON
-- of the subscription filter is a record of its members.
pub mod Receiving
pub mod Outcomes
use oma_chat.Base.{
  ℕ, ◌-◌, ◌*◌, ◌==◌, Bool, true, false, not, ◌||◌, ◌&&◌, Option, none, some, List, [], ◌∷◌, map,
  Result, ok, err, ◌>>=◌, ◌>>◌, reject_if, ok_or, map_err, length, allb, get_elem?, filterb, Bytes,
  text, bytes_eq, is_lower_hex, if◌then◌else◌,
}
use oma_chat.Nostr.Event.{Tag, SignedEvent, EventLimits, default_limits, xonly_public_key}
use oma_chat.Nostr.Inbox.{gift_wrap_kind}
use oma_chat.Nostr.Tags.{recipient_tags}
use oma_chat.Nostr.Dedup
use oma_chat.Nostr.Dedup.{Seen, nothing_seen, contains, with, without}
use oma_chat.Nostr.GiftWrap.{
  GiftWrapLib, GiftWrapError, OpenedGiftWrap, open_gift_wrap, chat_message_kind,
}

abbrev pub default_dm_lookback_seconds : ℕ
default_dm_lookback_seconds = 30 * 24 * 60 * 60

abbrev pub default_dm_fetch_limit : ℕ
default_dm_fetch_limit = 500

pub record DmInboxConfig : Type 0 where
  pub lookback_seconds : ℕ
  pub fetch_limit : ℕ
  pub dedup_capacity : ℕ
  pub dedup_ttl_seconds : ℕ
  pub event_limits : EventLimits

-- `DmInboxConfig::default`.
abbrev pub default_inbox_config : DmInboxConfig
default_inbox_config = record {
  lookback_seconds = default_dm_lookback_seconds;
  fetch_limit = default_dm_fetch_limit;
  dedup_capacity = 10000;
  dedup_ttl_seconds = default_dm_lookback_seconds;
  event_limits = default_limits;
}

pub record DmMessageMetadata : Type 0 where
  pub gift_wrap_id : Bytes
  pub seal_id : Bytes
  pub rumor_id : Bytes
  pub author_pubkey : Bytes
  pub created_at : ℕ

pub record DmMessage : Type 0 where
  pub metadata : DmMessageMetadata
  pub tags : List Tag
  pub content : Bytes

pub data DmInboxReceive : Type 0 where
  message : DmMessage → DmInboxReceive
  blocked : DmMessageMetadata → DmInboxReceive
  duplicate : Bytes → DmInboxReceive

pub data DmReceiveError : Type 0 where
  invalid_config invalid_public_key invalid_secret_key wrong_recipient : DmReceiveError
  unexpected_gift_wrap_kind unexpected_rumor_kind : ℕ → DmReceiveError
  gift_wrap : GiftWrapError → DmReceiveError

pub record DmInbox : Type 0 where
  pub config : DmInboxConfig
  pub blocked_authors : List Bytes
  pub memory : Seen

pub record SubscriptionFilter : Type 0 where
  pub kinds : List ℕ
  pub p_tags : List Bytes
  pub since : ℕ
  pub limit : ℕ

-- `DmInbox::new`.
unfoldable pub new_inbox : DmInboxConfig → Result DmReceiveError DmInbox
new_inbox config = do
  reject_if
      ((config.lookback_seconds == 0)
        || ((config.fetch_limit == 0)
            || ((config.dedup_capacity == 0) || (config.dedup_ttl_seconds == 0))))
      invalid_config
  ok (record { config = config; blocked_authors = []; memory = nothing_seen })

unfoldable pub validate_xonly : Bytes → Result DmReceiveError (Unit {0})
validate_xonly value =
    reject_if (not ((length value == 64) && allb is_lower_hex value)) invalid_public_key

unfoldable pub subscription_filter : DmInbox → Bytes → ℕ → Result DmReceiveError SubscriptionFilter
subscription_filter inbox recipient_xonly_public_key now = do
  validate_xonly recipient_xonly_public_key
  ok (record {
    kinds = gift_wrap_kind ∷ [];
    p_tags = recipient_xonly_public_key ∷ [];
    since = now - inbox.config.lookback_seconds;
    limit = inbox.config.fetch_limit;
  })

unfoldable pub block_author : DmInbox → Bytes → DmInbox × Result DmReceiveError (Unit {0})
block_author inbox author = elim (validate_xonly author) [
  | err e ↦ (inbox, err e)
  | ok u ↦ (record inbox { blocked_authors = with inbox.blocked_authors author }, ok tt)
]

unfoldable pub unblock_author : DmInbox → Bytes → DmInbox × Result DmReceiveError (Unit {0})
unblock_author inbox author = elim (validate_xonly author) [
  | err e ↦ (inbox, err e)
  | ok u ↦ (record inbox { blocked_authors = without inbox.blocked_authors author }, ok tt)
]

-- `filter_map(|tag| tag.get(1))`.
unfoldable pub second_fields : List Tag → List Bytes
second_fields [] = []
second_fields (tag ∷ tags) = elim (get_elem? tag 1) [
  | none ↦ second_fields tags
  | some field ↦ field ∷ second_fields tags
]

unfoldable pub is_exactly : Bytes → List Bytes → Bool
is_exactly recipient (field ∷ []) = bytes_eq field recipient
is_exactly recipient fields = false

unfoldable pub require_exact_outer_recipient :
    SignedEvent → Bytes → Result DmReceiveError (Unit {0})
require_exact_outer_recipient wrap recipient_hex =
    reject_if (not (is_exactly recipient_hex (second_fields (recipient_tags wrap.tags))))
      wrong_recipient

-- `remember`: the memory afterwards, and whether the id is new.
unfoldable pub remember_wrap : DmInbox → Bytes → ℕ → DmInbox × Bool
remember_wrap inbox id now =
    let (memory, is_new) =
      Dedup.remember inbox.config.dedup_capacity inbox.config.dedup_ttl_seconds now id
        inbox.memory in
    (record inbox { memory = memory }, is_new)

unfoldable pub metadata_of : SignedEvent → OpenedGiftWrap → DmMessageMetadata
metadata_of wrap opened = record {
  gift_wrap_id = wrap.id;
  seal_id = opened.seal.id;
  rumor_id = opened.rumor.id;
  author_pubkey = opened.rumor.pubkey;
  created_at = opened.rumor.created_at;
}

unfoldable pub apply_author_policy : DmInbox → SignedEvent → OpenedGiftWrap → DmInboxReceive
apply_author_policy inbox wrap opened =
    if contains inbox.blocked_authors opened.rumor.pubkey
    then blocked (metadata_of wrap opened)
    else message (record {
      metadata = metadata_of wrap opened;
      tags = opened.rumor.tags;
      content = opened.rumor.content;
    })

-- What `receive` does before it changes the memory.
unfoldable pub admit :
    GiftWrapLib → EventLimits → SignedEvent → Bytes → ℕ → Result DmReceiveError OpenedGiftWrap
admit lib limits wrap recipient_secret_key now = do
  reject_if (not (wrap.kind == gift_wrap_kind)) (unexpected_gift_wrap_kind wrap.kind)
  recipient ← map_err (λ _. invalid_secret_key) (xonly_public_key lib.events recipient_secret_key)
  require_exact_outer_recipient wrap (lib.events.hex_encode recipient)
  opened ← map_err gift_wrap (open_gift_wrap lib wrap recipient_secret_key now limits)
  reject_if (not (opened.rumor.kind == chat_message_kind)) (unexpected_rumor_kind opened.rumor.kind)
  ok opened

unfoldable pub receive :
    GiftWrapLib → DmInbox → SignedEvent → Bytes → ℕ → DmInbox × Result DmReceiveError DmInboxReceive
receive lib inbox wrap recipient_secret_key now =
    elim (admit lib inbox.config.event_limits wrap recipient_secret_key now) [
      | err e ↦ (inbox, err e)
      | ok opened ↦
          let (next, is_new) = remember_wrap inbox wrap.id now in
          (next, ok (if is_new then apply_author_policy next wrap opened else duplicate wrap.id))
    ]
