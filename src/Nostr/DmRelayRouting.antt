-- ===== src/Nostr/DmRelayRouting.antt =====
-- crates/omachat-nostr/src/dm_relay_routing.rs: which relays a message to a recipient goes to. The
-- Schnorr key check is the field `is_verifying_key` of `EventLib`.
pub mod Routes
use oma_chat.Base.{
  ℕ, ◌*◌, min, Bool, true, false, not, List, [], ◌∷◌, Result, ok, err, ◌>>=◌, ◌>>◌, reject_if,
  ok_or, ltb, length, anyb, is_empty, Bytes, bytes_eq, if◌then◌else◌,
}
use oma_chat.Nostr.Event.{EventLib}
use oma_chat.Nostr.Urls.{UrlLib}
use oma_chat.Nostr.Inbox.{VerifiedDmInbox}
use oma_chat.Nostr.DmRelayCache.{
  Cache, VerifiedDmRelayRecord, DmRelayCacheLookup, missing, fresh, offline_stale,
  unusable_clock_rollback, lookup, sort, is_refused_endpoint, max_dm_relay_endpoint_bytes,
  max_dm_relays_per_recipient,
}

pub record DmRelayRoutingPolicy : Type 0 where
  pub freshness_window_seconds : ℕ
  pub allow_stale_offline : Bool
  pub allow_bootstrap_when_missing : Bool

-- `DmRelayRoutingPolicy::default`.
abbrev pub default_routing_policy : DmRelayRoutingPolicy
default_routing_policy = record {
  freshness_window_seconds = 30 * 24 * 60 * 60;
  allow_stale_offline = false;
  allow_bootstrap_when_missing = false;
}

-- The first two carry the id of the source event.
pub data DmRelayRouteProvenance : Type 0 where
  verified_fresh verified_offline_stale : Bytes → DmRelayRouteProvenance
  bootstrap_missing_metadata : DmRelayRouteProvenance

pub record DmRelayRoute : Type 0 where
  pub recipient_public_key : Bytes
  pub relay_urls : List Bytes
  pub provenance : DmRelayRouteProvenance
  pub required_acknowledgements : ℕ

pub data DmRelayRoutingError : Type 0 where
  invalid_recipient_public_key invalid_source_event_id missing_metadata : DmRelayRoutingError
  stale_metadata clock_rollback no_relay_endpoints too_many_relay_endpoints : DmRelayRoutingError
  relay_endpoint_too_long invalid_relay_endpoint duplicate_relay_endpoint : DmRelayRoutingError

abbrev pub route : Bytes → List Bytes → DmRelayRouteProvenance → DmRelayRoute
route recipient_public_key relay_urls provenance = record {
  recipient_public_key = recipient_public_key;
  relay_urls = relay_urls;
  provenance = provenance;
  required_acknowledgements = min (length relay_urls) 2;
}

unfoldable pub route_verified :
    VerifiedDmRelayRecord → Bool → Result DmRelayRoutingError DmRelayRoute
route_verified r stale = do
  reject_if (is_empty r.relays) no_relay_endpoints
  ok (
      route r.recipient_pubkey r.relays (
        if stale
        then verified_offline_stale r.source_event_id
        else verified_fresh r.source_event_id))

-- The loop of `route_bootstrap` over the endpoints; one list, latest first, is `canonical` and `seen`.
pub bootstrap_endpoints : UrlLib → List Bytes → List Bytes → Result DmRelayRoutingError (List Bytes)
bootstrap_endpoints urls [] seen = ok seen
bootstrap_endpoints urls (endpoint ∷ endpoints) seen =
    reject_if (ltb max_dm_relay_endpoint_bytes (length endpoint)) relay_endpoint_too_long
    >> (ok_or (urls.parse endpoint) invalid_relay_endpoint >>= λ parsed.
        (reject_if (is_refused_endpoint urls parsed) invalid_relay_endpoint
          >> (reject_if (anyb (λ u. bytes_eq u parsed.serialization) seen) duplicate_relay_endpoint
              >> bootstrap_endpoints urls endpoints (parsed.serialization ∷ seen))))

pub route_bootstrap : UrlLib → Bytes → List Bytes → Result DmRelayRoutingError DmRelayRoute
route_bootstrap urls recipient_public_key bootstrap_relays = do
  reject_if (is_empty bootstrap_relays) no_relay_endpoints
  reject_if (ltb max_dm_relays_per_recipient (length bootstrap_relays)) too_many_relay_endpoints
  canonical ← bootstrap_endpoints urls bootstrap_relays []
  ok (route recipient_public_key (sort canonical) bootstrap_missing_metadata)

-- The `match` of `route_dm_relays` on what the cache answers.
unfoldable pub route_looked_up :
    UrlLib
    → Bytes
    → List Bytes
    → DmRelayRoutingPolicy
    → DmRelayCacheLookup
    → Result DmRelayRoutingError DmRelayRoute
route_looked_up urls recipient_pubkey bootstrap_relays policy (fresh r) = route_verified r false
route_looked_up urls recipient_pubkey bootstrap_relays policy (offline_stale r) =
    if policy.allow_stale_offline then route_verified r true else err stale_metadata
route_looked_up urls recipient_pubkey bootstrap_relays policy (unusable_clock_rollback r) =
    err clock_rollback
route_looked_up urls recipient_pubkey bootstrap_relays policy missing =
    if policy.allow_bootstrap_when_missing
    then route_bootstrap urls recipient_pubkey bootstrap_relays
    else err missing_metadata

module _ (lib : EventLib) (urls : UrlLib) where
  unfoldable pub route_dm_relays :
      Cache
      → Bytes
      → ℕ
      → List Bytes
      → DmRelayRoutingPolicy
      → Result DmRelayRoutingError DmRelayRoute
  route_dm_relays cache recipient_pubkey now bootstrap_relays policy = do
    reject_if (not (lib.is_verifying_key recipient_pubkey)) invalid_recipient_public_key
    route_looked_up urls recipient_pubkey bootstrap_relays policy
        (lookup lib cache recipient_pubkey now policy.freshness_window_seconds)

  pub route_verified_dm_inbox : VerifiedDmInbox → Result DmRelayRoutingError DmRelayRoute
  route_verified_dm_inbox inbox = do
    recipient_public_key ←
        ok_or (lib.hex_decode 32 inbox.recipient_public_key) invalid_recipient_public_key
    reject_if (not (lib.is_verifying_key recipient_public_key)) invalid_recipient_public_key
    source_event_id ← ok_or (lib.hex_decode 32 inbox.source_event_id) invalid_source_event_id
    reject_if (is_empty inbox.relay_urls) no_relay_endpoints
    ok (route recipient_public_key inbox.relay_urls (verified_fresh source_event_id))
