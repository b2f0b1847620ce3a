-- ===== src/Nostr/Pool.antt =====
-- crates/omachat-nostr/src/pool.rs: the relay pool. The connections of relay.rs are actors of their
-- own: the pool sees of each its health and how it answers a request, which are the fields of
-- `RelayConnection`. A `HashSet` of indices is a list; the subscriptions are a sorted map, their
-- filters the text of the JSON.
pub mod Publishing
pub mod Spawning
pub mod Subscriptions
use oma_chat.Base.{
  ℕ, zero, suc, ◌+◌, ◌<◌, ◌*◌, ◌==◌, Bool, true, false, not, ◌||◌, ◌&&◌, Option, none, some, List,
  [], ◌∷◌, ◌++◌, map, Result, ok, err, ◌>>=◌, ◌>>◌, reject_if, map_err, is_ok, ltb, leb, length,
  anyb, allb, filterb, replicate, is_empty, Bytes, bytes_eq, list_eq, if◌then◌else◌, get_elem?,
}
use oma_chat.Base.Assoc
use oma_chat.Base.Assoc.{BTreeMap}
use oma_chat.Nostr.Event.{SignedEvent}
use oma_chat.Nostr.Dedup
use oma_chat.Nostr.Dedup.{Seen, nothing_seen, contains, without, with}

pub record RelayPoolConfig : Type 0 where
  pub acknowledgement_threshold : ℕ
  pub dedup_capacity : ℕ
  -- in seconds
  pub dedup_ttl : ℕ

-- `RelayPoolConfig::default`.
abbrev pub default_pool_config : RelayPoolConfig
default_pool_config = record {
  acknowledgement_threshold = 1;
  dedup_capacity = 10000;
  dedup_ttl = 5 * 60;
}

pub data RelayHealth : Type 0 where
  connecting connected disconnected stopped : RelayHealth

pub data RelayError : Type 0 where
  invalid_config url io web_socket socks frame : Bytes → RelayError
  utf8 backpressure connect_timeout response_timeout shutdown_timeout : RelayError
  not_connected actor_stopped task duplicate_publish : RelayError
  publish_rejected authentication : Bytes → RelayError

pub data RelayNotification : Type 0 where
  is_connected is_disconnected : RelayNotification
  event : Bytes → SignedEvent → RelayNotification
  end_of_stored_events : Bytes → RelayNotification
  closed : Bytes → Bytes → RelayNotification
  notice auth_challenge authenticated : Bytes → RelayNotification
  -- the key, then the message
  authentication_rejected : Bytes → Bytes → RelayNotification

pub record PublishAcknowledgement : Type 0 where
  pub event_id : Bytes
  pub message : Bytes

pub record RelayConnection : Type 0 where
  pub health : RelayHealth
  pub publish : SignedEvent → Result RelayError PublishAcknowledgement
  pub subscribe : Bytes → List Bytes → Result RelayError (Unit {0})

pub record RelayPublishOutcome : Type 0 where
  pub relay_index : ℕ
  pub result : Result RelayError PublishAcknowledgement

pub record PoolPublishResult : Type 0 where
  pub accepted : ℕ
  pub attempted : ℕ
  pub outcomes : List RelayPublishOutcome

pub record PoolNotification : Type 0 where
  pub relay_index : ℕ
  pub notification : RelayNotification

-- The configurations that are refused are told apart by their messages.
pub data RelayPoolError : Type 0 where
  no_relay threshold_misfit zero_dedup selection_misfit : RelayPoolError
  connection : RelayError → RelayPoolError
  -- accepted, required and attempted
  acknowledgement_threshold_missed : ℕ → ℕ → ℕ → RelayPoolError

pub record RelayPool : Type 0 where
  pub connections : List RelayConnection
  pub config : RelayPoolConfig
  pub subscriptions : BTreeMap (List Bytes)
  pub subscription_sync : List (List Bytes)
  pub memory : Seen
  pub closed_notifications : List ℕ

-- The first connection that fails to spawn ends the collection.
unfoldable pub collect {ℓ} :
    {C : Type ℓ}
    → (C → Result RelayError RelayConnection)
    → List C
    → Result RelayError (List RelayConnection)
collect spawn_connection [] = ok []
collect spawn_connection (c ∷ configs) = do
  head ← spawn_connection c
  rest ← collect spawn_connection configs
  ok (head ∷ rest)

unfoldable pub spawn {ℓ} :
    {C : Type ℓ}
    → (C → Result RelayError RelayConnection)
    → List C
    → RelayPoolConfig
    → Result RelayPoolError RelayPool
spawn spawn_connection relay_configs config = do
  reject_if (is_empty relay_configs) no_relay
  reject_if
      ((config.acknowledgement_threshold == 0)
        || ltb (length relay_configs) config.acknowledgement_threshold)
      threshold_misfit
  reject_if ((config.dedup_capacity == 0) || (config.dedup_ttl == 0)) zero_dedup
  connections ← map_err connection (collect spawn_connection relay_configs)
  ok (record {
    connections = connections;
    config = config;
    subscriptions = [];
    subscription_sync = replicate (length connections) [];
    memory = nothing_seen;
    closed_notifications = [];
  })

abbrev pub is_healthy : RelayConnection → Bool
is_healthy c = elim c.health [
  | connected ↦ true
  | connecting ↦ false
  | disconnected ↦ false
  | stopped ↦ false
]

abbrev pub has_index : ℕ → List ℕ → Bool
has_index i indices = anyb (λ j. j == i) indices

-- `enumerate`, `filter` and the joined attempts: the outcomes of the connections from index `i` on.
unfoldable pub attempts :
    SignedEvent → (ℕ → Bool) → ℕ → List RelayConnection → List RelayPublishOutcome
attempts e eligible i [] = []
attempts e eligible i (c ∷ connections) =
    let rest = attempts e eligible (1 + i) connections in
    if eligible i && is_healthy c
    then record { relay_index = i; result = c.publish e } ∷ rest
    else rest

abbrev pub accepted_of : List RelayPublishOutcome → ℕ
accepted_of outcomes = length (filterb (λ (o : RelayPublishOutcome). is_ok o.result) outcomes)

-- What `publish` and `publish_to_indices` make of the outcomes.
unfoldable pub tally : ℕ → List RelayPublishOutcome → Result RelayPoolError PoolPublishResult
tally required outcomes = do
  let accepted = accepted_of outcomes
  let attempted = length outcomes
  reject_if (ltb accepted required) (acknowledgement_threshold_missed accepted required attempted)
  ok (record { accepted = accepted; attempted = attempted; outcomes = outcomes })

unfoldable pub publish : RelayPool → SignedEvent → Result RelayPoolError PoolPublishResult
publish pool e =
    tally pool.config.acknowledgement_threshold (attempts e (λ i. true) 0 pool.connections)

-- The indices are those of a `HashSet`: none stands twice.
unfoldable pub publish_to_indices :
    RelayPool → SignedEvent → List ℕ → ℕ → Result RelayPoolError PoolPublishResult
publish_to_indices pool e relay_indices required = do
  reject_if
      (is_empty relay_indices
        || ((required == 0)
            || (ltb (length relay_indices) required
                || anyb (λ i. leb (length pool.connections) i) relay_indices)))
      selection_misfit
  tally required (attempts e (λ i. has_index i relay_indices) 0 pool.connections)

-- `remember_event` at the time `now`.
pub remember_event : RelayPool → ℕ → Bytes → RelayPool × Bool
remember_event pool now id =
    let (memory, is_new) =
      Dedup.remember pool.config.dedup_capacity pool.config.dedup_ttl now id pool.memory in
    (record pool { memory = memory }, is_new)

-- The connections' answers are entered into their sets of synchronised subscriptions.
unfoldable pub enter_synced :
    Bytes → List (List Bytes) → List (Result RelayError (Unit {0})) → List (List Bytes)
enter_synced id [] results = []
enter_synced id (synced ∷ sync) [] = synced ∷ sync
enter_synced id (synced ∷ sync) (result ∷ results) =
    (if is_ok result then with synced id else synced) ∷ enter_synced id sync results

-- `self.subscriptions.get(&id) == Some(&filters)`.
abbrev pub has_filters : Option (List Bytes) → List Bytes → Bool
has_filters none filters = false
has_filters (some old) filters = list_eq bytes_eq old filters

unfoldable pub subscribe :
    RelayPool → Bytes → List Bytes → RelayPool × List (Result RelayError (Unit {0}))
subscribe pool id filters =
    let results = map (λ (c : RelayConnection). c.subscribe id filters) pool.connections in
    let cleared = map (λ synced. without synced id) pool.subscription_sync in
    if has_filters (Assoc.lookup id pool.subscriptions) filters
      && allb (λ synced. contains synced id) pool.subscription_sync
    then (pool, [])
    else (
      record pool {
        subscriptions = Assoc.insert id filters pool.subscriptions;
        subscription_sync = enter_synced id cleared results;
      },
      results,
    )
