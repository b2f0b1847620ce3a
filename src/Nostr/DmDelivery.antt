-- ===== src/Nostr/DmDelivery.antt =====
-- crates/omachat-nostr/src/dm_delivery.rs: the delivery of a planned gift wrap to the relays that
-- have authenticated the sender's own key.
pub mod Authentication
pub mod Spawning
use oma_chat.Base.{
  ℕ, ◌==◌, Bool, true, false, not, ◌||◌, Option, none, some, List, [], ◌∷◌, map, Result, ok, err,
  ◌>>=◌, ◌>>◌, reject_if, map_err, ltb, leb, length, filterb, is_empty, Bytes, bytes_eq,
  if◌then◌else◌,
}
use oma_chat.Nostr.Event.{SignedEvent}
use oma_chat.Nostr.RoutedPublish.{RoutedDmPublishPlan}
use oma_chat.Nostr.Pool
use oma_chat.Nostr.Pool.{
  RelayPool, RelayConnection, RelayError, RelayPoolError, PoolPublishResult, PoolNotification,
  RelayNotification, authenticated, authentication_rejected, is_disconnected, default_pool_config,
  publish_to_indices, has_index,
}

pub data DmDeliveryError : Type 0 where
  invalid_plan ephemeral_authentication_identity : DmDeliveryError
  pool_error : RelayPoolError → DmDeliveryError
  authentication_timeout unexpected_authenticated_principal pool_stopped : DmDeliveryError
  rejected_by_relay : Bytes → DmDeliveryError

pub record AuthenticatedRelayState : Type 0 where
  pub expected_public_key : Bytes
  -- a `HashSet`: no index stands twice
  pub authenticated_relays : List ℕ

pub record AuthenticatedDmDelivery : Type 0 where
  pub pool : RelayPool
  pub plan : RoutedDmPublishPlan
  pub authentication : AuthenticatedRelayState

abbrev pub without_index : ℕ → List ℕ → List ℕ
without_index i indices = filterb (λ j. not (j == i)) indices

abbrev pub with_index : ℕ → List ℕ → List ℕ
with_index i indices = if has_index i indices then indices else i ∷ indices

-- `AuthenticatedRelayState::apply`: the state afterwards, and the result.
unfoldable pub apply :
    AuthenticatedRelayState
    → ℕ
    → RelayNotification
    → AuthenticatedRelayState × Result DmDeliveryError (Unit {0})
apply st relay_index (authenticated public_key) =
    if not (bytes_eq public_key st.expected_public_key)
    then (st, err unexpected_authenticated_principal)
    else (
      record st { authenticated_relays = with_index relay_index st.authenticated_relays },
      ok tt,
    )
apply st relay_index (authentication_rejected public_key message) = (
  record st { authenticated_relays = without_index relay_index st.authenticated_relays },
  if bytes_eq public_key st.expected_public_key
      then err (rejected_by_relay message)
      else err unexpected_authenticated_principal,
)
apply st relay_index is_disconnected =
    (record st { authenticated_relays = without_index relay_index st.authenticated_relays }, ok tt)
apply st relay_index _ = (st, ok tt)

-- The loop of `wait_until_authenticated`, on the notifications that the pool yields before the
-- deadline, in their order; `none` is the end of the pool, and the end of the list the deadline.
unfoldable pub await_quorum :
    ℕ
    → AuthenticatedRelayState
    → List (Option PoolNotification)
    → AuthenticatedRelayState × Result DmDeliveryError (Unit {0})
await_quorum required st [] =
    if ltb (length st.authenticated_relays) required
    then (st, err authentication_timeout)
    else (st, ok tt)
await_quorum required st (none ∷ arrivals) =
    if ltb (length st.authenticated_relays) required then (st, err pool_stopped) else (st, ok tt)
await_quorum required st (some n ∷ arrivals) =
    let (next, answer) = apply st n.relay_index n.notification in
    let rest = await_quorum required next arrivals in
    if ltb (length st.authenticated_relays) required
    then (elim answer [ ok u ↦ rest | err e ↦ (next, err e) ])
    else (st, ok tt)

unfoldable pub wait_until_authenticated :
    AuthenticatedDmDelivery
    → ℕ
    → List (Option PoolNotification)
    → AuthenticatedDmDelivery × Result DmDeliveryError (Unit {0})
wait_until_authenticated d timeout arrivals =
    let (st, answer) = await_quorum d.plan.required_acknowledgements d.authentication arrivals in
    if timeout == 0
    then (d, err authentication_timeout)
    else (record d { authentication = st }, answer)

unfoldable pub publish : AuthenticatedDmDelivery → Result DmDeliveryError PoolPublishResult
publish d = map_err pool_error (
    publish_to_indices d.pool d.plan.event d.authentication.authenticated_relays
      d.plan.required_acknowledgements)

-- `AuthenticatedDmDelivery::spawn`, of which `authentication_public_key` is the signer's key in
-- hexadecimal, and `configure` makes the configuration of a relay with the signer in it.
unfoldable pub spawn {ℓ} :
    {C : Type ℓ}
    → (C → Result RelayError RelayConnection)
    → (Bytes → C)
    → RoutedDmPublishPlan
    → Bytes
    → Result DmDeliveryError AuthenticatedDmDelivery
spawn spawn_connection configure plan authentication_public_key = do
  reject_if (bytes_eq authentication_public_key plan.event.pubkey) ephemeral_authentication_identity
  reject_if
      (is_empty plan.relay_urls
        || ((plan.required_acknowledgements == 0)
            || ltb (length plan.relay_urls) plan.required_acknowledgements))
      invalid_plan
  pool ← map_err pool_error (
      Pool.spawn spawn_connection (map configure plan.relay_urls)
        (record default_pool_config { acknowledgement_threshold = plan.required_acknowledgements }))
  ok (record {
    pool = pool;
    plan = plan;
    authentication = record {
      expected_public_key = authentication_public_key;
      authenticated_relays = [];
    };
  })
