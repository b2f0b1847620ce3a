-- ===== src/Examples/Deliveries.antt =====
-- The memory of ids, the pool and a delivery.
use oma_chat.Base.{
  allb, ◌&&◌, map, ◌⊎◌, list_eq, bytes_eq, filterb, map_err, anyb, if◌then◌else◌, reject_if, Bool,
  ◌≡◌, refl, ◌↔◌, true, false, Option, some, none, [], ◌∷◌, ok, err, Result, arith, length,
  replicate, Bytes, text, List, All,
}
use oma_chat.Nostr.Dedup.{
  contains, without, with, expire, make_room, enter, nothing_seen, Seen, remember,
}
use oma_chat.Nostr.Dedup.Window.{IsWindow}
use oma_chat.Nostr.Dedup.Recent.{remember-IsWindow}
use oma_chat.Nostr.Dedup.Coverage.{IsRemembered}
use oma_chat.Nostr.Dedup.History.{remember-IsRemembered, started, remembered}
use oma_chat.Nostr.Pool.{
  has_filters, tally, attempts, collect, RelayConnection, RelayPool, RelayPoolConfig, RelayError,
  connected, disconnected, PublishAcknowledgement, PoolPublishResult, PoolNotification,
  authenticated, is_disconnected, default_pool_config, has_index, not_connected,
}
use oma_chat.Nostr.Pool.Publishing.{IsPublished, IsSelection, publish_to_indices-IsPublished}
use oma_chat.Base.Assoc
use oma_chat.Nostr.Pool.Subscriptions.{AreSynced, subscribe-AreSynced}
use oma_chat.Nostr.Pool
use oma_chat.Nostr.DmDelivery
use oma_chat.Nostr.DmDelivery.{
  apply, await_quorum, AuthenticatedDmDelivery, wait_until_authenticated,
}
use oma_chat.Nostr.DmDelivery.Authentication.{publish-IsFromLive, IsHistory, IsDelivered}
use oma_chat.Nostr.DmDelivery.Spawning.{IsStart, spawn-IsStart}
use oma_chat.Examples.Libraries.{hex}
use oma_chat.Examples.Relays.{gift_wrap}
use oma_chat.Examples.Caches.{plan}

-- Two ids, taken in at the times 1 and 5.
abbrev two_seen : Seen
two_seen = record {
  seen = text "a" ∷ text "b" ∷ [];
  seen_order = (1, text "a") ∷ (5, text "b") ∷ [];
}

two_seen-IsWindow : IsWindow 2 two_seen
unfolding contains anyb bytes_eq list_eq
two_seen-IsWindow = record { synced = refl; distinct = (refl, (refl, tt)); bounded = omega arith }

-- A memory of one id, that took in `a` at the time 1 and then `b` at the time 5.
remember-IsRemembered_example :
    ((remember 1 10 6
        (text "a")
        (remember 1 10 5 (text "b") (remember 1 10 1 (text "a") nothing_seen).0).0).1
      ≡ false)
    ↔ IsRemembered 1 10 6 (text "a") 0 ((5, text "b") ∷ (1, text "a") ∷ [])
unfolding remember expire make_room enter contains without with anyb filterb bytes_eq list_eq
remember-IsRemembered_example =
    remember-IsRemembered 1 10 ((5, text "b") ∷ (1, text "a") ∷ [])
      (remember 1 10 5 (text "b") (remember 1 10 1 (text "a") nothing_seen).0).0 5 6 (text "a")
      (omega arith)
      (remembered ((1, text "a") ∷ []) (remember 1 10 1 (text "a") nothing_seen).0 1 5 (text "b")
        (remembered [] nothing_seen 0 1 (text "a") (started 0) (omega arith)) (omega arith))
      (omega arith)

remember-IsWindow_example : IsWindow 2 (remember 2 10 6 (text "c") two_seen).0
remember-IsWindow_example =
    remember-IsWindow 2 10 6 (text "c") two_seen two_seen-IsWindow (omega arith)

-- A connection that accepts everything, and one that is down.
abbrev acknowledgement : PublishAcknowledgement
acknowledgement = record { event_id = gift_wrap.id; message = [] }

abbrev up : RelayConnection
up = record { health = connected; publish = λ e. ok acknowledgement; subscribe = λ i f. ok tt }

abbrev down : RelayConnection
down = record {
  health = disconnected;
  publish = λ e. err not_connected;
  subscribe = λ i f. err not_connected;
}

-- The configuration of a relay says whether it is up.
abbrev connect : Bool → Result RelayError RelayConnection
connect is_up = ok (if is_up then up else down)

abbrev pool_of : List RelayConnection → RelayPoolConfig → RelayPool
pool_of connections config = record {
  connections = connections;
  config = config;
  subscriptions = [];
  subscription_sync = replicate (length connections) [];
  memory = record { seen = []; seen_order = [] };
  closed_notifications = [];
}

abbrev pool : RelayPool
pool = pool_of (up ∷ down ∷ []) default_pool_config

spawn_pool : Pool.spawn connect (true ∷ false ∷ []) default_pool_config ≡ ok pool
unfolding Pool.spawn collect reject_if map_err
spawn_pool = refl

abbrev one_outcome : PoolPublishResult
one_outcome = record {
  accepted = 1;
  attempted = 1;
  outcomes = record { relay_index = 0; result = ok acknowledgement } ∷ [];
}

publish_all : Pool.publish pool gift_wrap ≡ ok one_outcome
unfolding Pool.publish attempts tally reject_if filterb
publish_all = refl

publish_first : Pool.publish_to_indices pool gift_wrap (0 ∷ []) 1 ≡ ok one_outcome
unfolding Pool.publish_to_indices attempts tally reject_if filterb anyb
publish_first = refl

publish_to_indices-IsPublished_example :
    IsSelection pool (0 ∷ []) 1
    × IsPublished gift_wrap (λ i. has_index i (0 ∷ [])) (up ∷ down ∷ []) 1 one_outcome
publish_to_indices-IsPublished_example =
    publish_to_indices-IsPublished pool gift_wrap (0 ∷ []) 1 one_outcome publish_first

-- The delivery of the plan by two relays that are up.
abbrev signer : Bytes
signer = hex (replicate 32 8)

abbrev delivery : AuthenticatedDmDelivery
delivery = record {
  pool = pool_of (up ∷ up ∷ []) (record default_pool_config { acknowledgement_threshold = 2 });
  plan = plan;
  authentication = record { expected_public_key = signer; authenticated_relays = [] };
}

start_delivery : DmDelivery.spawn connect (λ u. true) plan signer ≡ ok delivery
unfolding DmDelivery.spawn Pool.spawn collect reject_if map_err bytes_eq list_eq
start_delivery = refl

-- The second relay authenticates, then the first.
abbrev arrivals : List (Option PoolNotification)
arrivals =
    some (record { relay_index = 1; notification = authenticated signer })
    ∷ some (record { relay_index = 0; notification = authenticated signer })
    ∷ none
    ∷ []

wait_two : (wait_until_authenticated delivery 30 arrivals).1 ≡ ok tt
unfolding wait_until_authenticated await_quorum apply bytes_eq list_eq anyb filterb
wait_two = refl

abbrev two_outcomes : PoolPublishResult
two_outcomes = record {
  accepted = 2;
  attempted = 2;
  outcomes =
      record { relay_index = 0; result = ok acknowledgement }
      ∷ record { relay_index = 1; result = ok acknowledgement }
      ∷ [];
}

delivery_started : IsStart signer plan delivery
delivery_started = spawn-IsStart connect (λ u. true) plan signer delivery start_delivery

publish_two : DmDelivery.publish (wait_until_authenticated delivery 30 arrivals).0 ≡ ok two_outcomes
unfolding DmDelivery.publish Pool.publish_to_indices attempts tally reject_if filterb anyb map_err
    wait_until_authenticated await_quorum apply bytes_eq list_eq
publish_two = refl

publish-IsFromLive_example :
    (history : List PoolNotification) × IsHistory 2 delivery.authentication [] arrivals history
    × IsDelivered delivery signer 30 arrivals delivery.pool delivery.plan history two_outcomes
publish-IsFromLive_example =
    publish-IsFromLive delivery signer 30 arrivals two_outcomes delivery_started.tracked wait_two
      publish_two

-- A first subscription, which one of the two connections accepts.
subscribe-AreSynced_example :
    ((Pool.subscribe pool (text "dm") (text "{}" ∷ []) ≡ (pool, []))
      × (has_filters (Assoc.lookup (text "dm") []) (text "{}" ∷ []) ≡ true)
      × All (λ synced. contains synced (text "dm") ≡ true) pool.subscription_sync)
    ⊎ ((has_filters (Assoc.lookup (text "dm") []) (text "{}" ∷ [])
            && allb (λ synced. contains synced (text "dm")) pool.subscription_sync
          ≡ false)
        × ((Pool.subscribe pool (text "dm") (text "{}" ∷ [])).1
            ≡ map
                (λ (c : RelayConnection). c.subscribe (text "dm") (text "{}" ∷ []))
                pool.connections)
        × (Assoc.lookup
              (text "dm")
              (Pool.subscribe pool (text "dm") (text "{}" ∷ [])).0.subscriptions
            ≡ some (text "{}" ∷ []))
        × AreSynced
            (text "dm")
            (text "{}" ∷ [])
            pool.connections
            (Pool.subscribe pool (text "dm") (text "{}" ∷ [])).0.subscription_sync)
subscribe-AreSynced_example = subscribe-AreSynced pool (text "dm") (text "{}" ∷ []) refl
