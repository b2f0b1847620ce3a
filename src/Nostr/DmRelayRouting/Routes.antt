-- ===== src/Nostr/DmRelayRouting/Routes.antt =====
-- The routes of crates/omachat-nostr/src/dm_relay_routing.rs.
use oma_chat.Base.{
  if◌then◌else◌, ltb_false→le, ℕ, ◌≤◌, ◌<◌, ◌+◌, ◌≡◌, refl, Bool, true, false, none, some, List, [],
  ◌∷◌, ok, arith, ltb, length, min, is_empty, Bytes, All, >>=-elim, ok_or-elim, reject_if-elim,
  ok-injective, subst, Bool-cases, inl, inr, sym, anyb, bytes_eq, ok_or, reject_if,
}
use oma_chat.Base.Assoc
use oma_chat.Nostr.Event.{EventLib}
use oma_chat.Nostr.Urls.{Url, UrlLib}
use oma_chat.Nostr.DmRelayCache.{
  Cache, VerifiedDmRelayRecord, lookup, missing, fresh, offline_stale, unusable_clock_rollback,
  DmRelayCacheLookup, canonical_endpoints, is_refused_endpoint, max_dm_relay_endpoint_bytes,
}
use oma_chat.Nostr.DmRelayCache.Canonical.{IsAscending, IsEndpoint, sort-IsEndpointList}
use oma_chat.Nostr.DmRelayCache.Insert.{IsCache}
use oma_chat.Nostr.DmRelayCache.Reading.{IsAnswer, lookup-IsAnswer}
use oma_chat.Nostr.DmRelayRouting.{
  DmRelayRoutingPolicy, DmRelayRoute, DmRelayRouteProvenance, verified_fresh,
  verified_offline_stale, bootstrap_missing_metadata, route_verified, route_bootstrap,
  bootstrap_endpoints, route_looked_up, route_dm_relays,
}

canonical_endpoints-step :
    (urls : UrlLib) (e : Bytes) (parsed : Url) (es seen out : List Bytes)
    → ltb max_dm_relay_endpoint_bytes (length e) ≡ false
    → urls.parse e ≡ some parsed
    → is_refused_endpoint urls parsed ≡ false
    → anyb (λ u. bytes_eq u parsed.serialization) seen ≡ false
    → canonical_endpoints urls es (parsed.serialization ∷ seen) ≡ ok out
    → canonical_endpoints urls (e ∷ es) seen ≡ ok out
unfolding canonical_endpoints reject_if ok_or
canonical_endpoints-step urls e parsed es seen out short p fine unseen rest =
    rw (short, p, fine, unseen) rest

-- The loop of the bootstrap relays accepts what the cache's loop accepts, with the same result.
bootstrap_endpoints-eq-ok :
    (urls : UrlLib) (es seen out : List Bytes)
    → bootstrap_endpoints urls es seen ≡ ok out
    → canonical_endpoints urls es seen ≡ ok out
unfolding bootstrap_endpoints canonical_endpoints
bootstrap_endpoints-eq-ok urls [] seen out h = cc
bootstrap_endpoints-eq-ok urls (e ∷ es) seen out h = reject_if-elim _ _ _ h λ short h₁.
    ok_or-elim (urls.parse e) _ _ h₁ λ parsed p h₂. reject_if-elim _ _ _ h₂ λ fine h₃.
      reject_if-elim _ _ _ h₃ λ unseen rest.
        canonical_endpoints-step urls e parsed es seen out short p fine unseen
          (bootstrap_endpoints-eq-ok urls es (parsed.serialization ∷ seen) out rest)

module _ (lib : EventLib) (cache : Cache) (recipient : Bytes) (now : ℕ) (bootstrap : List Bytes)
    (policy : DmRelayRoutingPolicy) where
  -- Why a route may be taken: by the record of the recipient, inside the freshness window or, where
  -- the policy allows, after it; or, where the policy allows, because there is no record.
  abbrev pub IsJustified : DmRelayRoute → DmRelayRouteProvenance → Type 0
  IsJustified to (verified_fresh id) =
      (r : VerifiedDmRelayRecord) × (Assoc.lookup (lib.hex_encode recipient) cache ≡ some r)
      × (r.source_event_id ≡ id)
      × (to.relay_urls ≡ r.relays)
      × (r.source_created_at ≤ now)
      × (now ≤ r.source_created_at + policy.freshness_window_seconds)
  IsJustified to (verified_offline_stale id) =
      (r : VerifiedDmRelayRecord) × (Assoc.lookup (lib.hex_encode recipient) cache ≡ some r)
      × (r.source_event_id ≡ id)
      × (to.relay_urls ≡ r.relays)
      × (r.source_created_at + policy.freshness_window_seconds < now)
      × (policy.allow_stale_offline ≡ true)
  IsJustified to bootstrap_missing_metadata =
      (Assoc.lookup (lib.hex_encode recipient) cache ≡ none)
      × (length to.relay_urls ≡ length bootstrap)
      × (policy.allow_bootstrap_when_missing ≡ true)

-- One to three accepted endpoints in their order, and one acknowledgement for one relay or two for
-- more.
pub record IsRoute (urls : UrlLib) (to : DmRelayRoute) : Type 0 where
  pub ascending : IsAscending to.relay_urls
  pub endpoints : All (IsEndpoint urls) to.relay_urls
  pub some_relay : 0 < length to.relay_urls
  pub few : length to.relay_urls ≤ 3
  pub quorum : to.required_acknowledgements ≡ min (length to.relay_urls) 2

is_empty-false : (us : List Bytes) → is_empty us ≡ false → 0 < length us
is_empty-false [] h = cc
is_empty-false (u ∷ us) h = omega arith

module _ (urls : UrlLib) where
  route_bootstrap-IsRoute :
      (recipient : Bytes) (bootstrap : List Bytes) (to : DmRelayRoute)
      → route_bootstrap urls recipient bootstrap ≡ ok to
      → IsRoute urls to
        × (to.provenance ≡ bootstrap_missing_metadata)
        × (length to.relay_urls ≡ length bootstrap)
  unfolding route_bootstrap
  route_bootstrap-IsRoute recipient bootstrap to h = reject_if-elim _ _ _ h λ some_relay h₁.
      reject_if-elim _ _ _ h₁ λ few h₂.
        >>=-elim (bootstrap_endpoints urls bootstrap []) _ h₂ λ out accepted built.
          let l =
            sort-IsEndpointList urls bootstrap out
              (bootstrap_endpoints-eq-ok urls bootstrap [] out accepted) in
          subst
            (λ to.
              IsRoute urls to
              × (to.provenance ≡ bootstrap_missing_metadata)
              × (length to.relay_urls ≡ length bootstrap))
            (ok-injective built)
            (
              record {
                ascending = l.ascending;
                endpoints = l.endpoints;
                some_relay = omega (arith, l.size, is_empty-false bootstrap some_relay);
                few = omega (arith, l.size, ltb_false→le _ _ few);
                quorum = refl;
              },
              refl,
              l.size,
            )

  route_verified-IsRoute :
      (lib : EventLib) (cache : Cache) (key : Bytes) (r : VerifiedDmRelayRecord) (stale : Bool)
      (to : DmRelayRoute)
      → IsCache lib urls cache
      → Assoc.lookup key cache ≡ some r
      → route_verified r stale ≡ ok to
      → IsRoute urls to
        × (to.relay_urls ≡ r.relays)
        × (to.provenance ≡ (
            if stale
            then verified_offline_stale r.source_event_id
            else verified_fresh r.source_event_id))
  unfolding route_verified
  route_verified-IsRoute lib cache key r stale to inv present h =
      let (canonical, mine) = inv.records key r present in
      reject_if-elim _ _ _ h λ some_relay built.
        subst
          (λ to.
            IsRoute urls to
            × (to.relay_urls ≡ r.relays)
            × (to.provenance ≡ (
                if stale
                then verified_offline_stale r.source_event_id
                else verified_fresh r.source_event_id)))
          (ok-injective built)
          (
            record {
              ascending = canonical.ascending;
              endpoints = canonical.endpoints;
              some_relay = is_empty-false r.relays some_relay;
              few = canonical.few;
              quorum = refl;
            },
            refl,
            refl,
          )

module _ (lib : EventLib) (urls : UrlLib) (cache : Cache) (recipient : Bytes) (now : ℕ)
    (bootstrap : List Bytes) (policy : DmRelayRoutingPolicy) (to : DmRelayRoute) where
  Chosen : Type 0
  Chosen = IsRoute urls to × IsJustified lib cache recipient now bootstrap policy to to.provenance

  justified :
      (p : DmRelayRouteProvenance)
      → to.provenance ≡ p
      → IsRoute urls to
      → IsJustified lib cache recipient now bootstrap policy to p
      → Chosen
  unfolding Chosen
  justified p e r j = (r, subst (IsJustified lib cache recipient now bootstrap policy to) (sym e) j)

  route_looked_up-Chosen :
      (found : DmRelayCacheLookup)
      → IsCache lib urls cache
      → IsAnswer found
          (Assoc.lookup (lib.hex_encode recipient) cache)
          now
          policy.freshness_window_seconds
      → route_looked_up urls recipient bootstrap policy found ≡ ok to
      → Chosen
  unfolding route_looked_up
  route_looked_up-Chosen missing inv absent h =
      elim (Bool-cases policy.allow_bootstrap_when_missing) [
        | inl allowed ↦
            let (r, p, n) = route_bootstrap-IsRoute urls recipient bootstrap to (ground arith) in
            justified bootstrap_missing_metadata p r (absent, n, allowed)
        | inr refused ↦ ground arith
      ]
  route_looked_up-Chosen (fresh q) inv (present, past, young) h =
      let (r, u, p) = route_verified-IsRoute urls lib cache _ q false to inv present h in
      justified (verified_fresh q.source_event_id) p r (q, present, refl, u, past, young)
  route_looked_up-Chosen (offline_stale q) inv (present, aged) h =
      elim (Bool-cases policy.allow_stale_offline) [
        | inl allowed ↦
            let (r, u, p) =
              route_verified-IsRoute urls lib cache _ q true to inv present (ground arith) in
            justified (verified_offline_stale q.source_event_id) p r
              (q, present, refl, u, aged, allowed)
        | inr refused ↦ ground arith
      ]
  route_looked_up-Chosen (unusable_clock_rollback q) inv answer h = cc

  -- A route that is chosen from a cache that keeps its invariant leads to between one and three
  -- distinct accepted endpoints, asks for as many acknowledgements as there are relays, but for two
  -- at most, and is justified by what the cache holds of the recipient and by the policy: a record
  -- that is too old or missing is passed over only where the policy allows that.
  pub route_dm_relays-IsJustified :
      IsCache lib urls cache
      → route_dm_relays lib urls cache recipient now bootstrap policy ≡ ok to
      → IsRoute urls to × IsJustified lib cache recipient now bootstrap policy to to.provenance
  unfolding route_dm_relays Chosen
  route_dm_relays-IsJustified inv h = reject_if-elim _ _ _ h λ key rest.
      route_looked_up-Chosen (lookup lib cache recipient now policy.freshness_window_seconds) inv
        (lookup-IsAnswer lib cache recipient now policy.freshness_window_seconds) rest
