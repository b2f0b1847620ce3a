-- ===== src/Examples/Caches.antt =====
-- The cache and the routes that are chosen from it.
use oma_chat.Base.{
  map_err, is_lower_hex, ok_or, anyb, bytes_cmp, ◌∙◌, reject_if, sym, Result, list_eq, ◌<◌, ◌≡◌,
  ◌≢◌, refl, ◌↔◌, ◌⊎◌, some, [], ◌∷◌, ok, err, replicate, Bytes, text, bytes_eq,
}
use oma_chat.Base.Assoc
use oma_chat.Nostr.Event.{
  event_id, check_fields, check_tags, decode_hex, validate, check_signature, verify, default_limits,
}
use oma_chat.Nostr.Inbox.{validate_policy, verify_dm_inbox, default_policy}
use oma_chat.Nostr.DmRelayCache.{
  cache_format_version, PersistedDmRelayCache, insert_sorted, sort, conflict, CacheMutation,
  classify, to_json, DmRelayCacheError, is_refused_endpoint, store, to_cache_record,
  canonical_endpoints, insert_canonical, restore, Cache, CacheJson, VerifiedDmRelayRecord,
  canonicalize_and_validate, insert, stored, lookup, from_json, persisted, rollback,
}
use oma_chat.Nostr.DmRelayCache.Canonical.{
  IsCanonicalRecord, canonicalize_and_validate-IsCanonicalRecord,
}
use oma_chat.Nostr.DmRelayCache.Insert.{
  IsCache, insert-unless_stored, insert-newest, insert-IsCache, empty-IsCache,
}
use oma_chat.Nostr.DmRelayCache.Reading.{IsRestored, IsAnswer, lookup-IsAnswer, from_json-IsCache}
use oma_chat.Nostr.DmRelayRouting.{
  route_verified, route_looked_up, DmRelayRoute, route, verified_fresh, default_routing_policy,
  route_dm_relays,
}
use oma_chat.Nostr.DmRelayRouting.Routes.{IsRoute, IsJustified, route_dm_relays-IsJustified}
use oma_chat.Nostr.Discovery.{
  parse_nip17_dm_relay_list, parse_relay_list, merge_tags, merge_relay, merge_url, add_flags,
  normalize_relay_url, is_refused_relay_url, validate_limits, nip17_fields,
}
use oma_chat.Nostr.Urls.{secure_or_loopback, is_secure_or_loopback}
use oma_chat.Nostr.RoutedPublish.{RoutedDmPublishPlan, plan_routed_dm_publish}
use oma_chat.Nostr.RoutedPublish.Plans.{IsRoutable, IsPlanned, plan_routed_dm_publish_lem}
use oma_chat.Examples.Libraries.{plain_events, plain_urls, plain_json, hex}
use oma_chat.Examples.Events.{relays_event}
use oma_chat.Examples.Relays.{gift_wrap}

-- The record of the inbox as it is given, then as it is kept.
abbrev given : VerifiedDmRelayRecord
given = record {
  recipient_pubkey = replicate 32 2;
  source_event_id = replicate 32 3;
  source_created_at = 100;
  verified_at = 200;
  relays = text "wss://b" ∷ text "wss://a" ∷ [];
  source_event = relays_event;
}

abbrev kept : VerifiedDmRelayRecord
kept = record given { relays = text "wss://a" ∷ text "wss://b" ∷ [] }

abbrev key : Bytes
key = hex (replicate 32 2)

abbrev one_entry : Cache
one_entry = (key, kept) ∷ []

canonicalize : canonicalize_and_validate plain_events plain_urls given ≡ ok kept
unfolding canonicalize_and_validate canonical_endpoints is_refused_endpoint is_secure_or_loopback
    sort insert_sorted bytes_cmp anyb bytes_eq list_eq reject_if ok_or
canonicalize = refl

canonicalize_and_validate-IsCanonicalRecord_example :
    IsCanonicalRecord plain_events plain_urls kept × (kept ≡ record given { relays = kept.relays })
canonicalize_and_validate-IsCanonicalRecord_example =
    canonicalize_and_validate-IsCanonicalRecord plain_events plain_urls given kept canonicalize

insert-given : insert plain_events plain_urls plain_json [] given ≡ (one_entry, ok stored)
unfolding insert insert_canonical store to_json conflict canonicalize_and_validate
    canonical_endpoints is_refused_endpoint is_secure_or_loopback sort insert_sorted bytes_cmp anyb
    bytes_eq list_eq reject_if ok_or Assoc.lookup Assoc.insert
insert-given = refl

-- The same list again, and an older one.
abbrev older : VerifiedDmRelayRecord
older = record given {
  source_created_at = 99;
  source_event = record relays_event { created_at = 99 };
}

insert-older : (insert plain_events plain_urls plain_json one_entry older).1 ≡ err rollback
unfolding insert insert_canonical store to_json conflict canonicalize_and_validate
    canonical_endpoints is_refused_endpoint is_secure_or_loopback sort insert_sorted bytes_cmp anyb
    bytes_eq list_eq reject_if ok_or Assoc.lookup Assoc.insert
insert-older = refl

older_not_stored : (insert plain_events plain_urls plain_json one_entry older).1 ≢ ok stored
older_not_stored h = different (sym insert-older ∙ h)
  where
    different : ◌≢◌ {A = Result DmRelayCacheError CacheMutation} (err rollback) (ok stored)
    different e = cc

insert-unless_stored_example :
    (insert plain_events plain_urls plain_json one_entry older).0 ≡ one_entry
insert-unless_stored_example =
    insert-unless_stored plain_events plain_urls plain_json one_entry older (tt, tt)
      older_not_stored

there : Assoc.lookup key one_entry ≡ some kept
unfolding Assoc.lookup bytes_eq list_eq
there = refl

insert-newest_example :
    (new : VerifiedDmRelayRecord) × (Assoc.lookup key
        (insert plain_events plain_urls plain_json one_entry older).0
      ≡ some new)
    × ((new ≡ kept) ⊎ (100 < new.source_created_at))
insert-newest_example =
    insert-newest plain_events plain_urls plain_json one_entry older key kept (tt, tt) there

insert-IsCache_example :
    IsCache plain_events plain_urls (insert plain_events plain_urls plain_json [] given).0
insert-IsCache_example =
    insert-IsCache plain_events plain_urls plain_json [] given
      (empty-IsCache plain_events plain_urls)

lookup-IsAnswer_example :
    IsAnswer
      (lookup plain_events one_entry (replicate 32 2) 150 100)
      (Assoc.lookup key one_entry)
      150
      100
lookup-IsAnswer_example = lookup-IsAnswer plain_events one_entry (replicate 32 2) 150 100

-- Reading back what was written of the one entry.
abbrev reading : CacheJson
reading = record { to_vec = λ c. some (text "{}"); from_slice = λ b. some (persisted one_entry) }

read_back :
    from_json plain_events plain_urls reading 300 default_limits default_policy (text "{}")
    ≡ ok one_entry
unfolding from_json restore to_cache_record insert insert_canonical store to_json conflict
    canonicalize_and_validate canonical_endpoints is_refused_endpoint is_secure_or_loopback sort
    insert_sorted bytes_cmp anyb Assoc.values Assoc.lookup Assoc.insert verify_dm_inbox
    validate_policy secure_or_loopback parse_nip17_dm_relay_list parse_relay_list merge_tags
    merge_relay merge_url add_flags normalize_relay_url is_refused_relay_url validate_limits
    nip17_fields verify check_signature validate decode_hex check_tags check_fields event_id
    is_lower_hex bytes_eq list_eq reject_if ok_or map_err
read_back = refl

from_json-IsCache_example :
    IsCache plain_events plain_urls one_entry
    × ((persisted : PersistedDmRelayCache) × (reading.from_slice (text "{}") ≡ some persisted)
        × (persisted.version ≡ cache_format_version)
        × IsRestored plain_events plain_urls reading 300 default_limits default_policy []
            persisted.records)
from_json-IsCache_example =
    from_json-IsCache plain_events plain_urls reading 300 default_limits default_policy (text "{}")
      one_entry read_back

one_entry-IsCache : IsCache plain_events plain_urls one_entry
one_entry-IsCache =
    (from_json-IsCache plain_events plain_urls reading 300 default_limits default_policy (text "{}")
      one_entry read_back).0

abbrev pub to : DmRelayRoute
to = route (replicate 32 2) (text "wss://a" ∷ text "wss://b" ∷ []) (verified_fresh (replicate 32 3))

route_entry :
    route_dm_relays plain_events plain_urls one_entry (replicate 32 2) 200 [] default_routing_policy
    ≡ ok to
unfolding route_dm_relays route_looked_up route_verified lookup classify Assoc.lookup bytes_eq
    list_eq reject_if
route_entry = refl

route_dm_relays-IsJustified_example :
    IsRoute plain_urls to
    × IsJustified plain_events one_entry
        (replicate 32 2)
        200
        []
        default_routing_policy
        to
        to.provenance
route_dm_relays-IsJustified_example =
    route_dm_relays-IsJustified plain_events plain_urls one_entry (replicate 32 2) 200 []
      default_routing_policy to one_entry-IsCache route_entry

abbrev pub plan : RoutedDmPublishPlan
plan = record {
  event = gift_wrap;
  recipient_public_key = replicate 32 2;
  relay_urls = text "wss://a" ∷ text "wss://b" ∷ [];
  provenance = verified_fresh (replicate 32 3);
  required_acknowledgements = 2;
}

plan_routed_dm_publish_lem_example :
    (plan_routed_dm_publish plain_events gift_wrap to 200 default_limits ≡ ok plan) ↔ (
      IsRoutable plain_events gift_wrap to 200 default_limits plan
      × IsPlanned plain_events gift_wrap to 200 default_limits plan)
plan_routed_dm_publish_lem_example =
    plan_routed_dm_publish_lem plain_events gift_wrap to 200 default_limits plan
