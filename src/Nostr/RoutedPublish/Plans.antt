-- ===== src/Nostr/RoutedPublish/Plans.antt =====
-- The plans of crates/omachat-nostr/src/dm_routed_publish.rs.
use oma_chat.Base.{
  bytes_eq_iff, ℕ, ◌<◌, ◌≡◌, ◌==◌, ==_iff, ◌||◌, false, List, [], ◌∷◌, ok, arith, length, is_empty,
  Bytes, >>=-elim, reject_if-elim, reject_if, map_err, map_err-eq-ok, not-eq-false, ok-injective,
  sym, ◌↔◌, ap,
}
use oma_chat.Nostr.Event.{Tag, SignedEvent, EventLimits, EventLib, verify}
use oma_chat.Nostr.Tags.{recipient_tags, is_misaddressed}
use oma_chat.Nostr.Inbox.{gift_wrap_kind}
use oma_chat.Nostr.DmRelayRouting.{DmRelayRoute}
use oma_chat.Nostr.RoutedPublish.{
  RoutedDmPublishPlan, is_misrouted, plan_routed_dm_publish, invalid_event,
}

-- There is one recipient tag, made of the name and the recipient alone.
abbrev pub IsRoutedTo : Bytes → List Tag → Type 0
IsRoutedTo recipient tags = (name : Bytes) × (recipient_tags tags ≡ (name ∷ recipient ∷ []) ∷ [])

is_misrouted_cases :
    (recipient : Bytes) (tags : List Tag)
    → (is_misrouted recipient tags ≡ false)
      ↔ ((name : Bytes) × (tags ≡ (name ∷ recipient ∷ []) ∷ []))
unfolding is_misrouted is_misaddressed
is_misrouted_cases recipient [] = (λ h. cc, λ h. cc)
is_misrouted_cases recipient (t ∷ u ∷ tags) = (λ h. cc, λ h. cc)
is_misrouted_cases recipient ([] ∷ []) = (λ h. ground arith, λ h. cc)
is_misrouted_cases recipient ((n ∷ []) ∷ []) = (λ h. ground arith, λ h. cc)
is_misrouted_cases recipient ((n ∷ r ∷ []) ∷ []) = (
  λ h. (n, ground (arith, bytes_eq_iff r recipient)),
  λ h. ground (arith, bytes_eq_iff r recipient),
)
is_misrouted_cases recipient ((n ∷ r ∷ x ∷ t) ∷ []) = (λ h. ground arith, λ h. cc)

nonempty : (us : List Bytes) (n : ℕ) → (is_empty us || (n == 0)) ≡ false → (0 < length us) × (0 < n)
nonempty [] n h = cc
nonempty (u ∷ us) n h = (omega arith, ground arith)

empty_false : (us : List Bytes) (n : ℕ) → 0 < length us → 0 < n → (is_empty us || (n == 0)) ≡ false
empty_false [] n h k = ground arith
empty_false (u ∷ us) n h k = ground arith

module _ (lib : EventLib) (event : SignedEvent) (route : DmRelayRoute) (now : ℕ)
    (event_limits : EventLimits) (plan : RoutedDmPublishPlan) where
  -- A gift wrap that may be published along the route.
  abbrev pub IsRoutable : Type 0
  IsRoutable =
      (verify lib event now event_limits ≡ ok tt)
      × (event.kind ≡ gift_wrap_kind)
      × IsRoutedTo (lib.hex_encode route.recipient_public_key) event.tags
      × (0 < length route.relay_urls)
      × (0 < route.required_acknowledgements)

  -- The plan takes everything but the event from the route.
  abbrev pub IsPlanned : Type 0
  IsPlanned = plan ≡ record {
    event = event;
    recipient_public_key = route.recipient_public_key;
    relay_urls = route.relay_urls;
    provenance = route.provenance;
    required_acknowledgements = route.required_acknowledgements;
  }

  plan_routed_dm_publish-to :
      plan_routed_dm_publish lib event route now event_limits ≡ ok plan → IsRoutable × IsPlanned
  unfolding plan_routed_dm_publish
  plan_routed_dm_publish-to h =
      >>=-elim (map_err invalid_event (verify lib event now event_limits)) _ h λ u v h₁.
        reject_if-elim _ _ _ h₁ λ kind h₂. reject_if-elim _ _ _ h₂ λ address h₃.
          reject_if-elim _ _ _ h₃ λ some_relay built. (
            (
              map_err-eq-ok _ _ v,
              (==_iff _ _).0 (not-eq-false _ kind),
              (is_misrouted_cases _ _).0 address,
              (nonempty route.relay_urls route.required_acknowledgements some_relay).0,
              (nonempty route.relay_urls route.required_acknowledgements some_relay).1,
            ),
            sym (ok-injective built),
          )

  plan_routed_dm_publish-from :
      IsRoutable → IsPlanned → plan_routed_dm_publish lib event route now event_limits ≡ ok plan
  unfolding plan_routed_dm_publish reject_if map_err
  plan_routed_dm_publish-from (v, kind, address, some_relay, quorum) made =
      rw
        (
          v,
          (==_iff _ _).1 kind,
          (is_misrouted_cases _ _).1 address,
          empty_false route.relay_urls route.required_acknowledgements some_relay quorum,
        )
        (ap ok (sym made))

  -- A plan is made exactly for a gift wrap that verifies, has kind 1059, whose only `p` tag has no
  -- field but the name and the route's recipient, along a route with relays and a quorum; it takes
  -- recipient, relays, provenance and quorum from the route.
  pub plan_routed_dm_publish_lem :
      (plan_routed_dm_publish lib event route now event_limits ≡ ok plan) ↔ (IsRoutable × IsPlanned)
  plan_routed_dm_publish_lem =
      (plan_routed_dm_publish-to, λ (r, p). plan_routed_dm_publish-from r p)
