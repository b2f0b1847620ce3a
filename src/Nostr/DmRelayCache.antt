-- ===== src/Nostr/DmRelayCache.antt =====
-- crates/omachat-nostr/src/dm_relay_cache.rs: the cache of verified DM relays, and
-- `VerifiedDmInbox::to_cache_record` of inbox.rs. A `BTreeMap` is an association list in key order,
-- a `BTreeSet` the list of what was put into it; serde's encoding of the persisted form is a field
-- of `CacheJson`.
pub mod Canonical
pub mod Insert
pub mod Reading
use oma_chat.Base.{
  ℕ, suc, ◌-◌, ◌==◌, Bool, true, false, not, ◌||◌, ◌&&◌, Option, none, some, List, [], ◌∷◌, map,
  Result, ok, err, ◌>>=◌, ◌>>◌, reject_if, ok_or, map_err, ltb, leb, length, anyb, list_eq,
  replicate, is_empty, Bytes, bytes_eq, bytes_cmp, checked_sub, u64_max, if◌then◌else◌,
}
use oma_chat.Base.Assoc
use oma_chat.Base.Assoc.{BTreeMap}
use oma_chat.Nostr.Event.{SignedEvent, EventLimits, EventLib, signed_eq}
use oma_chat.Nostr.Urls.{Url, UrlLib, is_secure_or_loopback, is_some, is_none}
use oma_chat.Nostr.Inbox.{DmInboxPolicy, VerifiedDmInbox, verify_dm_inbox}
use Prim.Native.Nat.{Ordering}

abbrev pub max_cached_dm_recipients : ℕ
max_cached_dm_recipients = 4096

abbrev pub max_dm_relays_per_recipient : ℕ
max_dm_relays_per_recipient = 3

abbrev pub max_dm_relay_endpoint_bytes : ℕ
max_dm_relay_endpoint_bytes = 2048

abbrev pub max_serialized_cache_bytes : ℕ
max_serialized_cache_bytes = 1048576

abbrev pub cache_format_version : ℕ
cache_format_version = 1

pub record VerifiedDmRelayRecord : Type 0 where
  pub recipient_pubkey : Bytes
  pub source_event_id : Bytes
  pub source_created_at : ℕ
  pub verified_at : ℕ
  pub relays : List Bytes
  pub source_event : SignedEvent

pub record PersistedDmRelayRecord : Type 0 where
  pub verified_at : ℕ
  pub source_event : SignedEvent

pub record PersistedDmRelayCache : Type 0 where
  pub version : ℕ
  pub records : List PersistedDmRelayRecord

pub data DmRelayCacheError : Type 0 where
  invalid_recipient invalid_source_event invalid_verification_time invalid_endpoint :
      DmRelayCacheError
  endpoint_too_long duplicate_endpoint too_many_relays cache_full cache_too_large :
      DmRelayCacheError
  invalid_encoding unsupported_version rollback equivocation : DmRelayCacheError
  source_binding_mismatch : DmRelayCacheError

pub data CacheMutation : Type 0 where
  stored unchanged : CacheMutation

pub data DmRelayCacheLookup : Type 0 where
  missing : DmRelayCacheLookup
  fresh offline_stale unusable_clock_rollback : VerifiedDmRelayRecord → DmRelayCacheLookup

pub record CacheJson : Type 0 where
  -- `serde_json::to_vec` and `from_slice` of the persisted cache
  pub to_vec : PersistedDmRelayCache → Option Bytes
  pub from_slice : Bytes → Option PersistedDmRelayCache

abbrev pub Cache : Type 0
Cache = BTreeMap VerifiedDmRelayRecord

abbrev pub zero_32 : Bytes
zero_32 = replicate 32 0

-- What a parsed endpoint must not be, in `canonicalize_and_validate` and in `route_bootstrap`.
unfoldable pub is_refused_endpoint : UrlLib → Url → Bool
is_refused_endpoint urls parsed =
    not (is_secure_or_loopback urls parsed)
    || (is_none parsed.host_str
        || (not (is_empty parsed.username) || (is_some parsed.password || is_some parsed.fragment)))

-- The loop of `canonicalize_and_validate` over the endpoints. What is pushed to `canonical` is what
-- is put into `seen`, so one list, latest first, stands for both.
unfoldable pub canonical_endpoints :
    UrlLib → List Bytes → List Bytes → Result DmRelayCacheError (List Bytes)
canonical_endpoints urls [] seen = ok seen
canonical_endpoints urls (endpoint ∷ endpoints) seen =
    reject_if (ltb max_dm_relay_endpoint_bytes (length endpoint)) endpoint_too_long
    >> (ok_or (urls.parse endpoint) invalid_endpoint >>= λ parsed.
        (reject_if (is_refused_endpoint urls parsed) invalid_endpoint
          >> (reject_if (anyb (λ u. bytes_eq u parsed.serialization) seen) duplicate_endpoint
              >> canonical_endpoints urls endpoints (parsed.serialization ∷ seen))))

-- `canonical.sort()`.
unfoldable pub insert_sorted : Bytes → List Bytes → List Bytes
insert_sorted u [] = u ∷ []
insert_sorted u (v ∷ us) = elim (bytes_cmp u v) [
  | Ordering.gt ↦ v ∷ insert_sorted u us
  | _ ↦ u ∷ v ∷ us
]

unfoldable pub sort : List Bytes → List Bytes
sort [] = []
sort (u ∷ us) = insert_sorted u (sort us)

module _ (lib : EventLib) (urls : UrlLib) where
  -- The record with its relays in canonical order, or the error.
  unfoldable pub canonicalize_and_validate :
      VerifiedDmRelayRecord → Result DmRelayCacheError VerifiedDmRelayRecord
  canonicalize_and_validate r = do
    reject_if (bytes_eq r.recipient_pubkey zero_32) invalid_recipient
    reject_if (bytes_eq r.source_event_id zero_32) invalid_source_event
    reject_if (ltb r.verified_at r.source_created_at) invalid_verification_time
    reject_if
        (not (bytes_eq r.source_event.pubkey (lib.hex_encode r.recipient_pubkey))
          || (not (bytes_eq r.source_event.id (lib.hex_encode r.source_event_id))
              || not (r.source_event.created_at == r.source_created_at)))
        source_binding_mismatch
    reject_if (ltb max_dm_relays_per_recipient (length r.relays)) too_many_relays
    canonical ← canonical_endpoints urls r.relays []
    ok (record r { relays = sort canonical })

  -- `VerifiedDmRelayRecord::from_authenticated_event` applied by `VerifiedDmInbox::to_cache_record`.
  unfoldable pub to_cache_record :
      VerifiedDmInbox → ℕ → Result DmRelayCacheError VerifiedDmRelayRecord
  to_cache_record inbox verified_at = do
    recipient_pubkey ← ok_or (lib.hex_decode 32 inbox.recipient_public_key) invalid_recipient
    source_event_id ← ok_or (lib.hex_decode 32 inbox.source_event_id) invalid_source_event
    canonicalize_and_validate (record {
      recipient_pubkey = recipient_pubkey;
      source_event_id = source_event_id;
      source_created_at = inbox.source_created_at;
      verified_at = verified_at;
      relays = inbox.relay_urls;
      source_event = inbox.source_event;
    })

abbrev pub persisted_record : VerifiedDmRelayRecord → PersistedDmRelayRecord
persisted_record r = record { verified_at = r.verified_at; source_event = r.source_event }

abbrev pub persisted : Cache → PersistedDmRelayCache
persisted cache = record {
  version = cache_format_version;
  records = map persisted_record (Assoc.values cache);
}

module _ (json : CacheJson) where
  unfoldable pub to_json : Cache → Result DmRelayCacheError Bytes
  to_json cache = do
    encoded ← ok_or (json.to_vec (persisted cache)) invalid_encoding
    reject_if (ltb max_serialized_cache_bytes (length encoded)) cache_too_large
    ok encoded

-- What `insert` finds out about the entry that is there: `none` goes on to store the record.
unfoldable pub conflict :
    VerifiedDmRelayRecord → VerifiedDmRelayRecord → Option (Result DmRelayCacheError CacheMutation)
conflict r current =
    if ltb r.source_created_at current.source_created_at
    then some (err rollback)
    else if r.source_created_at == current.source_created_at
    then if not (bytes_eq r.source_event_id current.source_event_id)
      then some (err equivocation)
      else if (not (list_eq bytes_eq r.relays current.relays)
          || not (signed_eq r.source_event current.source_event))
      then some (err source_binding_mismatch)
      else some (ok unchanged)
    else none

module _ (lib : EventLib) (urls : UrlLib) (json : CacheJson) where
  -- The tail of `insert`: store, and undo that where the cache no longer serialises.
  unfoldable pub store :
      Cache → Bytes → VerifiedDmRelayRecord → Cache × Result DmRelayCacheError CacheMutation
  store cache key r =
      let updated = Assoc.insert key r cache in
      elim (to_json json updated) [
        | ok encoded ↦ (updated, ok stored)
        | err e ↦ elim (Assoc.lookup key cache) [
          | some previous ↦ (Assoc.insert key previous updated, err e)
          | none ↦ (Assoc.remove key updated, err e)
        ]
      ]

  unfoldable pub insert_canonical :
      Cache → Bytes → VerifiedDmRelayRecord → Cache × Result DmRelayCacheError CacheMutation
  insert_canonical cache key r = elim (Assoc.lookup key cache) [
    | some current ↦ elim (conflict r current) [
      | some answer ↦ (cache, answer)
      | none ↦ store cache key r
    ]
    | none ↦
        if leb max_cached_dm_recipients (length cache)
        then (cache, err cache_full)
        else store cache key r
  ]

  unfoldable pub insert :
      Cache → VerifiedDmRelayRecord → Cache × Result DmRelayCacheError CacheMutation
  insert cache r = elim (canonicalize_and_validate lib urls r) [
    | err e ↦ (cache, err e)
    | ok c ↦ insert_canonical cache (lib.hex_encode c.recipient_pubkey) c
  ]

-- `lookup`, on the entry of the key.
unfoldable pub classify : Option VerifiedDmRelayRecord → ℕ → ℕ → DmRelayCacheLookup
classify none now window = missing
classify (some r) now window = elim (checked_sub now r.source_created_at) [
  | none ↦ unusable_clock_rollback r
  | some age ↦ if leb age window then fresh r else offline_stale r
]

unfoldable pub lookup : EventLib → Cache → Bytes → ℕ → ℕ → DmRelayCacheLookup
lookup lib cache recipient_pubkey now freshness_window_secs =
    classify (Assoc.lookup (lib.hex_encode recipient_pubkey) cache) now freshness_window_secs

module _ (lib : EventLib) (urls : UrlLib) (json : CacheJson) (now : ℕ) (event_limits : EventLimits)
    (policy : DmInboxPolicy) where
  abbrev pub stale_tolerant_policy : DmInboxPolicy
  stale_tolerant_policy = record policy { maximum_age_seconds = u64_max }

  -- The loop of `from_json`, with the recipients seen.
  unfoldable pub restore :
      List PersistedDmRelayRecord → List Bytes → Cache → Result DmRelayCacheError Cache
  restore [] seen cache = ok cache
  restore (p ∷ ps) seen cache =
      reject_if (ltb now p.verified_at) invalid_verification_time
      >> (ok_or (lib.hex_decode 32 p.source_event.pubkey) invalid_recipient >>= λ recipient.
          (reject_if (anyb (λ k. bytes_eq k recipient) seen) invalid_encoding
            >> (map_err (λ _. invalid_source_event)
                  (verify_dm_inbox lib urls p.source_event recipient now event_limits
                    stale_tolerant_policy)
                >>= λ verified.
                    (to_cache_record lib urls verified p.verified_at >>= λ r.
                    ((insert lib urls json cache r).1 >>= λ _.
                    restore ps (recipient ∷ seen) (insert lib urls json cache r).0)))))

  unfoldable pub from_json : Bytes → Result DmRelayCacheError Cache
  from_json encoded = do
    reject_if (ltb max_serialized_cache_bytes (length encoded)) cache_too_large
    persisted ← ok_or (json.from_slice encoded) invalid_encoding
    reject_if (not (persisted.version == cache_format_version)) unsupported_version
    reject_if (ltb max_cached_dm_recipients (length persisted.records)) cache_full
    restore persisted.records [] []
