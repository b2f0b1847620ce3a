-- ===== src/Nostr/Pool/Spawning.antt =====
-- The start of the pool of crates/omachat-nostr/src/pool.rs.
use oma_chat.Base.{
  ◌∙◌, ℕ, ◌≤◌, ◌<◌, ◌≡◌, refl, [], ◌∷◌, List, ok, arith, length, Result, >>=-elim, reject_if-elim,
  ok-injective, subst, map_err, map_err-eq-ok, length-replicate,
}
use oma_chat.Nostr.Dedup.{nothing_seen}
use oma_chat.Nostr.Dedup.Window.{IsWindow}
use oma_chat.Nostr.Pool.{
  RelayConnection, RelayError, RelayPool, RelayPoolConfig, collect, spawn, connection,
}

-- A pool of `n` connections whose threshold they can meet, with an empty memory that can hold an id,
-- and with no subscription.
pub record IsPool (n : ℕ) (config : RelayPoolConfig) (pool : RelayPool) : Type 0 where
  pub connections : length pool.connections ≡ n
  pub config_kept : pool.config ≡ config
  pub reachable : config.acknowledgement_threshold ≤ n
  pub asked : 0 < config.acknowledgement_threshold
  pub capacity : 0 < config.dedup_capacity
  pub ttl : 0 < config.dedup_ttl
  pub window : IsWindow config.dedup_capacity pool.memory
  pub per_relay : length pool.subscription_sync ≡ n

length-collect {ℓ} :
    {C : Type ℓ} (spawn_connection : C → Result RelayError RelayConnection) (cs : List C)
    (out : List RelayConnection)
    → collect spawn_connection cs ≡ ok out
    → length out ≡ length cs
unfolding collect
length-collect spawn_connection [] out h = subst (λ l. length l ≡ 0) (ok-injective h) refl
length-collect spawn_connection (c ∷ cs) out h = >>=-elim (spawn_connection c) _ h λ head made h₁.
    >>=-elim (collect spawn_connection cs) _ h₁ λ rest made_rest built.
      subst (λ l. length l ≡ length (c ∷ cs)) (ok-injective built)
        (omega (arith, length-collect spawn_connection cs rest made_rest))

nothing_seen-IsWindow : (n : ℕ) → IsWindow n nothing_seen
nothing_seen-IsWindow n = record { synced = refl; distinct = tt; bounded = omega arith }

-- A pool is spawned only with a threshold that its relays can meet and a memory that can hold an id;
-- it has a connection and a set of synchronised subscriptions for each configuration.
pub spawn-IsPool {ℓ} :
    {C : Type ℓ} (spawn_connection : C → Result RelayError RelayConnection) (cs : List C)
    (config : RelayPoolConfig) (pool : RelayPool)
    → spawn spawn_connection cs config ≡ ok pool
    → IsPool (length cs) config pool
unfolding spawn
spawn-IsPool spawn_connection cs config pool h = reject_if-elim _ _ _ h λ some_relay h₁.
    reject_if-elim _ _ _ h₁ λ threshold h₂. reject_if-elim _ _ _ h₂ λ dedup h₃.
      >>=-elim (map_err connection (collect spawn_connection cs)) _ h₃ λ made all built.
        let n = length-collect spawn_connection cs made (map_err-eq-ok _ _ all) in
        subst (IsPool (length cs) config) (ok-injective built) (record {
          connections = n;
          config_kept = refl;
          reachable = ground arith;
          asked = ground arith;
          capacity = ground arith;
          ttl = ground arith;
          window = nothing_seen-IsWindow config.dedup_capacity;
          per_relay = length-replicate (length made) [] ∙ n;
        })
