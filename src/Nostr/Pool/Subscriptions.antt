-- ===== src/Nostr/Pool/Subscriptions.antt =====
-- The subscriptions of the pool of crates/omachat-nostr/src/pool.rs.
use oma_chat.Base.{
  ◌≡◌, refl, true, false, ◌&&◌, some, List, [], ◌∷◌, arith, length, All, allb, anyb, allb-All, map,
  is_ok, Bytes, bytes_eq_refl, Bool-cases, inl, inr, ap, ◌∙◌, if◌then◌else◌, filterb, ◌⊎◌,
}
use oma_chat.Base.Assoc
use oma_chat.Base.Assoc.{lookup-insert}
use oma_chat.Nostr.Dedup.{contains, without, with}
use oma_chat.Nostr.Dedup.Window.{contains-snoc}
use oma_chat.Nostr.Pool.{RelayPool, RelayConnection, enter_synced, has_filters, subscribe}

contains-without : (id : Bytes) (set : List Bytes) → contains (without set id) id ≡ false
unfolding contains without anyb filterb
contains-without id [] = refl
contains-without id (x ∷ set) = ground (arith, contains-without id set)

contains-with : (id : Bytes) (set : List Bytes) → contains (with set id) id ≡ true
unfolding with
contains-with id set = ground (arith, contains-snoc set id id, bytes_eq_refl id)

-- The set of each connection has the subscription exactly if the connection has accepted it.
abbrev pub AreSynced : Bytes → List Bytes → List RelayConnection → List (List Bytes) → Type 0
AreSynced id filters [] [] = Unit
AreSynced id filters [] (synced ∷ sync) = ⊥
AreSynced id filters (c ∷ connections) [] = ⊥
AreSynced id filters (c ∷ connections) (synced ∷ sync) =
    (contains synced id ≡ is_ok (c.subscribe id filters)) × AreSynced id filters connections sync

enter_synced-AreSynced :
    (id : Bytes) (filters : List Bytes) (connections : List RelayConnection)
    (sync : List (List Bytes))
    → length sync ≡ length connections
    → AreSynced id filters connections (
        enter_synced id
          (map (λ synced. without synced id) sync)
          (map (λ (c : RelayConnection). c.subscribe id filters) connections))
unfolding enter_synced
enter_synced-AreSynced id filters [] [] h = tt
enter_synced-AreSynced id filters [] (synced ∷ sync) h = omega (arith, h)
enter_synced-AreSynced id filters (c ∷ connections) [] h = omega (arith, h)
enter_synced-AreSynced id filters (c ∷ connections) (synced ∷ sync) h = (
  elim (Bool-cases (is_ok (c.subscribe id filters))) [
    | inl accepted ↦ ground (arith, contains-with id (without synced id))
    | inr refused ↦ ground (arith, contains-without id synced)
  ],
  enter_synced-AreSynced id filters connections sync (omega (arith, h)),
)

-- In a pool with one set for each connection: where the filters asked for already stand and every
-- set has the subscription, nothing changes and nothing is sent. Otherwise it is asked of every
-- connection, its filters stand afterwards, and a connection's set has it exactly if that connection
-- has accepted it.
pub subscribe-AreSynced :
    (pool : RelayPool) (id : Bytes) (filters : List Bytes)
    → length pool.subscription_sync ≡ length pool.connections
    → ((subscribe pool id filters ≡ (pool, []))
        × (has_filters (Assoc.lookup id pool.subscriptions) filters ≡ true)
        × All (λ synced. contains synced id ≡ true) pool.subscription_sync)
      ⊎ ((has_filters (Assoc.lookup id pool.subscriptions) filters
              && allb (λ synced. contains synced id) pool.subscription_sync
            ≡ false)
          × ((subscribe pool id filters).1
              ≡ map (λ (c : RelayConnection). c.subscribe id filters) pool.connections)
          × (Assoc.lookup id (subscribe pool id filters).0.subscriptions ≡ some filters)
          × AreSynced id filters pool.connections (subscribe pool id filters).0.subscription_sync)
unfolding subscribe
subscribe-AreSynced pool id filters sizes =
    elim (Bool-cases (
      has_filters (Assoc.lookup id pool.subscriptions) filters
      && allb (λ synced. contains synced id) pool.subscription_sync)) [
        | inl same ↦ inl (
          rw same refl,
          ground arith,
          allb-All (λ synced. contains synced id) pool.subscription_sync (ground arith),
        )
        | inr other ↦ inr (
          other,
          rw other refl,
          rw other (
              lookup-insert id id filters pool.subscriptions
              ∙ ap (λ b. if b then some filters else Assoc.lookup id pool.subscriptions)
                  (bytes_eq_refl id)),
          rw other
              (enter_synced-AreSynced id filters pool.connections pool.subscription_sync sizes),
        )
      ]
