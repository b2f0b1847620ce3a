-- ===== src/Nostr/RoutedPublish.antt =====
-- crates/omachat-nostr/src/dm_routed_publish.rs: the plan to publish a gift wrap along a route.
pub mod Plans
use oma_chat.Base.{
  ℕ, ◌==◌, Bool, true, false, not, ◌||◌, List, [], ◌∷◌, Result, ok, err, ◌>>=◌, ◌>>◌, reject_if,
  map_err, length, is_empty, Bytes, if◌then◌else◌,
}
use oma_chat.Nostr.Event.{Tag, SignedEvent, EventLimits, EventError, EventLib, verify}
use oma_chat.Nostr.Tags.{recipient_tags, is_misaddressed}
use oma_chat.Nostr.Inbox.{gift_wrap_kind}
use oma_chat.Nostr.DmRelayRouting.{DmRelayRoute, DmRelayRouteProvenance}

pub record RoutedDmPublishPlan : Type 0 where
  pub event : SignedEvent
  pub recipient_public_key : Bytes
  pub relay_urls : List Bytes
  pub provenance : DmRelayRouteProvenance
  pub required_acknowledgements : ℕ

pub data RoutedDmPublishError : Type 0 where
  invalid_event : EventError → RoutedDmPublishError
  wrong_kind recipient_mismatch empty_route : RoutedDmPublishError

-- Not one tag, or a tag that is not the name and the recipient and no more.
pub is_misrouted : Bytes → List Tag → Bool
is_misrouted recipient (tag ∷ []) = not (length tag == 2) || is_misaddressed recipient (tag ∷ [])
is_misrouted recipient tags = true

pub plan_routed_dm_publish :
    EventLib
    → SignedEvent
    → DmRelayRoute
    → ℕ
    → EventLimits
    → Result RoutedDmPublishError RoutedDmPublishPlan
plan_routed_dm_publish lib event route now event_limits = do
  map_err invalid_event (verify lib event now event_limits)
  reject_if (not (event.kind == gift_wrap_kind)) wrong_kind
  let recipient = lib.hex_encode route.recipient_public_key
  reject_if (is_misrouted recipient (recipient_tags event.tags)) recipient_mismatch
  reject_if (is_empty route.relay_urls || (route.required_acknowledgements == 0)) empty_route
  ok (record {
    event = event;
    recipient_public_key = route.recipient_public_key;
    relay_urls = route.relay_urls;
    provenance = route.provenance;
    required_acknowledgements = route.required_acknowledgements;
  })
