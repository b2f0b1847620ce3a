-- ===== src/Nostr/RelayListCache.antt =====
-- crates/omachat-nostr/src/relay_list_cache.rs: the cache of verified NIP-65 relay lists. serde is
-- `ListJson`.
pub mod Newest
use Prim.Native.Nat.{Ordering}
use oma_chat.Base.{
  ℕ, ◌*◌, ◌==◌, Bool, true, false, not, ◌||◌, ◌&&◌, Option, none, some, List, [], ◌∷◌, map, Result,
  ok, err, ◌>>=◌, ◌>>◌, reject_if, ok_or, map_err, ltb, leb, length, anyb, checked_sub, Bytes,
  bytes_eq, bytes_cmp, if◌then◌else◌,
}
use oma_chat.Base.Assoc
use oma_chat.Base.Assoc.{BTreeMap}
use oma_chat.Nostr.Event.{SignedEvent, EventLimits, EventLib}
use oma_chat.Nostr.Urls.{UrlLib}
use oma_chat.Nostr.Discovery.{RelayDiscoveryLimits, RelayList, parse_nip65_relay_list}

abbrev pub max_cached_relay_lists : ℕ
max_cached_relay_lists = 4096

abbrev pub max_serialized_relay_list_cache_bytes : ℕ
max_serialized_relay_list_cache_bytes = 1048576

abbrev pub relay_list_cache_version : ℕ
relay_list_cache_version = 1

pub record VerifiedRelayListCacheRecord : Type 0 where
  pub relay_list : RelayList
  pub source_event : SignedEvent
  pub verified_at : ℕ

abbrev pub RelayListCache : Type 0
RelayListCache = BTreeMap VerifiedRelayListCacheRecord

pub data RelayListCacheMutation : Type 0 where
  list_stored list_unchanged : RelayListCacheMutation

pub data RelayListCacheLookup : Type 0 where
  list_missing : RelayListCacheLookup
  list_fresh list_offline_stale list_clock_rollback :
      VerifiedRelayListCacheRecord → RelayListCacheLookup

pub data RelayListCacheError : Type 0 where
  list_invalid_verification_time list_invalid_source_event list_invalid_encoding :
      RelayListCacheError
  list_unsupported_version list_rollback list_cache_full list_cache_too_large : RelayListCacheError

pub record PersistedRelayListCacheRecord : Type 0 where
  pub verified_at : ℕ
  pub source_event : SignedEvent

pub record PersistedRelayListCache : Type 0 where
  pub version : ℕ
  pub records : List PersistedRelayListCacheRecord

pub record ListJson : Type 0 where
  -- `serde_json::to_vec` and `from_slice` of the persisted cache
  pub to_vec : PersistedRelayListCache → Option Bytes
  pub from_slice : Bytes → Option PersistedRelayListCache

abbrev pub persisted_list : VerifiedRelayListCacheRecord → PersistedRelayListCacheRecord
persisted_list r = record { verified_at = r.verified_at; source_event = r.source_event }

unfoldable pub to_json : ListJson → RelayListCache → Result RelayListCacheError Bytes
to_json json cache = do
  encoded ←
      ok_or
        (json.to_vec (record {
          version = relay_list_cache_version;
          records = map persisted_list (Assoc.values cache);
        }))
        list_invalid_encoding
  reject_if (ltb max_serialized_relay_list_cache_bytes (length encoded)) list_cache_too_large
  ok encoded

-- `a >= b` of strings.
unfoldable pub is_at_least : Bytes → Bytes → Bool
is_at_least a b = elim (bytes_cmp a b) [
  | Ordering.lt ↦ false
  | Ordering.eq ↦ true
  | Ordering.gt ↦ true
]

-- What stands under the key against the event, if anything.
unfoldable pub list_conflict :
    SignedEvent → SignedEvent → Option (Result RelayListCacheError RelayListCacheMutation)
list_conflict event current =
    if ltb event.created_at current.created_at
    then some (err list_rollback)
    else if (event.created_at == current.created_at) && is_at_least event.id current.id
    then some (ok list_unchanged)
    else none

-- The tail of `insert_event`: store, and undo that where the cache no longer serialises.
unfoldable pub store_list :
    ListJson
    → RelayListCache
    → Bytes
    → VerifiedRelayListCacheRecord
    → RelayListCache × Result RelayListCacheError RelayListCacheMutation
store_list json cache key r =
    let updated = Assoc.insert key r cache in
    elim (to_json json updated) [
      | ok encoded ↦ (updated, ok list_stored)
      | err e ↦ elim (Assoc.lookup key cache) [
        | some previous ↦ (Assoc.insert key previous updated, err e)
        | none ↦ (Assoc.remove key updated, err e)
      ]
    ]

unfoldable pub insert_list :
    ListJson
    → RelayListCache
    → Bytes
    → VerifiedRelayListCacheRecord
    → RelayListCache × Result RelayListCacheError RelayListCacheMutation
insert_list json cache key r = elim (Assoc.lookup key cache) [
  | some current ↦ elim (list_conflict r.source_event current.source_event) [
    | some answer ↦ (cache, answer)
    | none ↦ store_list json cache key r
  ]
  | none ↦
      if leb max_cached_relay_lists (length cache)
      then (cache, err list_cache_full)
      else store_list json cache key r
]

module _ (lib : EventLib) (urls : UrlLib) (limits : RelayDiscoveryLimits) (json : ListJson)
    (now : ℕ) (event_limits : EventLimits) where
  -- What `insert_event` has checked before it looks at the cache.
  unfoldable pub check_event :
      SignedEvent → ℕ → Result RelayListCacheError VerifiedRelayListCacheRecord
  check_event event verified_at = do
    reject_if (ltb now verified_at || ltb verified_at event.created_at)
        list_invalid_verification_time
    relay_list ←
        map_err (λ _. list_invalid_source_event)
          (parse_nip65_relay_list urls limits lib event now event_limits)
    ok (record { relay_list = relay_list; source_event = event; verified_at = verified_at })

  unfoldable pub insert_event :
      RelayListCache
      → SignedEvent
      → ℕ
      → RelayListCache × Result RelayListCacheError RelayListCacheMutation
  insert_event cache event verified_at = elim (check_event event verified_at) [
    | err e ↦ (cache, err e)
    | ok r ↦ insert_list json cache r.relay_list.public_key r
  ]

  -- The loop of `from_json`, with the keys seen.
  unfoldable pub restore_lists :
      List PersistedRelayListCacheRecord
      → List Bytes
      → RelayListCache
      → Result RelayListCacheError RelayListCache
  restore_lists [] seen cache = ok cache
  restore_lists (p ∷ ps) seen cache =
      reject_if (ltb now p.verified_at) list_invalid_verification_time
      >> (ok_or (lib.hex_decode 32 p.source_event.pubkey) list_invalid_source_event >>= λ key.
          (reject_if (anyb (λ k. bytes_eq k key) seen) list_invalid_encoding
            >> ((insert_event cache p.source_event p.verified_at).1 >>= λ _.
                restore_lists ps (key ∷ seen) (insert_event cache p.source_event p.verified_at).0)))

  unfoldable pub from_json : Bytes → Result RelayListCacheError RelayListCache
  from_json encoded = do
    reject_if (ltb max_serialized_relay_list_cache_bytes (length encoded)) list_cache_too_large
    persisted ← ok_or (json.from_slice encoded) list_invalid_encoding
    reject_if (not (persisted.version == relay_list_cache_version)) list_unsupported_version
    reject_if (ltb max_cached_relay_lists (length persisted.records)) list_cache_full
    restore_lists persisted.records [] []

-- `lookup`, on the entry of the key.
unfoldable pub classify_list : Option VerifiedRelayListCacheRecord → ℕ → ℕ → RelayListCacheLookup
classify_list none now window = list_missing
classify_list (some r) now window = elim (checked_sub now r.source_event.created_at) [
  | none ↦ list_clock_rollback r
  | some age ↦ if leb age window then list_fresh r else list_offline_stale r
]

unfoldable pub lookup : EventLib → RelayListCache → Bytes → ℕ → ℕ → RelayListCacheLookup
lookup lib cache public_key now freshness_window_seconds =
    classify_list (Assoc.lookup (lib.hex_encode public_key) cache) now freshness_window_seconds
