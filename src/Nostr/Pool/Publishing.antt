-- ===== src/Nostr/Pool/Publishing.antt =====
-- Publication to the pool of crates/omachat-nostr/src/pool.rs.
use oma_chat.Base.{
  anyb-All, All-map, ℕ, suc, ◌≤◌, ◌<◌, ◌+◌, ◌≡◌, refl, Bool, true, false, ◌&&◌, ◌||◌, some, List,
  [], ◌∷◌, ok, arith, ltb, leb, length, anyb, All, get_elem?, is_empty, Bool-cases, inl, inr,
  reject_if-elim, ok-injective, subst, length-filterb-le, ltb_false→le, ◌==◌,
}
use oma_chat.Nostr.Event.{SignedEvent}
use oma_chat.Nostr.Pool.{
  RelayPool, RelayConnection, RelayPublishOutcome, PoolPublishResult, is_healthy, has_index,
  attempts, accepted_of, tally, publish_to_indices, publish,
}

module _ (e : SignedEvent) (eligible : ℕ → Bool) (connections : List RelayConnection) where
  -- The outcome is the answer of an eligible connection that was healthy, under its index.
  abbrev pub IsOutcome : RelayPublishOutcome → Type 0
  IsOutcome o =
      (c : RelayConnection) × (get_elem? connections o.relay_index ≡ some c)
      × (eligible o.relay_index ≡ true)
      × (is_healthy c ≡ true)
      × (o.result ≡ c.publish e)

  -- The list `cs` is what follows the first `i` connections.
  StandsAt : ℕ → List RelayConnection → Type 0
  StandsAt i cs =
      (k : ℕ) (c : RelayConnection)
      → get_elem? cs k ≡ some c
      → get_elem? connections (i + k) ≡ some c

  StandsAt-tail :
      (i : ℕ) (c : RelayConnection) (cs : List RelayConnection)
      → StandsAt i (c ∷ cs)
      → StandsAt (1 + i) cs
  unfolding StandsAt
  StandsAt-tail i c cs h k d g =
      subst (λ n. get_elem? connections n ≡ some d) (omega arith) (h (suc k) d g)

  attempts-IsOutcome :
      (i : ℕ) (cs : List RelayConnection) → StandsAt i cs → All IsOutcome (attempts e eligible i cs)
  unfolding attempts StandsAt
  attempts-IsOutcome i [] h = tt
  attempts-IsOutcome i (c ∷ cs) h =
      let rest = attempts-IsOutcome (1 + i) cs (StandsAt-tail i c cs h) in
      elim (Bool-cases (eligible i && is_healthy c)) [
        | inl chosen ↦ rw chosen (
          (
            c,
            subst (λ n. get_elem? connections n ≡ some c) (omega arith) (h 0 c refl),
            ground arith,
            ground arith,
            refl,
          ),
          rest,
        )
        | inr passed ↦ rw passed rest
      ]

  attempts-All : All IsOutcome (attempts e eligible 0 connections)
  unfolding StandsAt
  attempts-All =
      attempts-IsOutcome 0 connections
        (λ k c g. subst (λ n. get_elem? connections n ≡ some c) (omega arith) g)

-- What a publication reports: the answers of eligible connections and of no others, and at least
-- `required` of them positive.
pub record IsPublished (e : SignedEvent) (eligible : ℕ → Bool) (connections : List RelayConnection)
    (required : ℕ) (r : PoolPublishResult) : Type 0 where
  pub outcomes : All (IsOutcome e eligible connections) r.outcomes
  pub counted : r.accepted ≡ accepted_of r.outcomes
  pub attempted : r.attempted ≡ length r.outcomes
  pub enough : required ≤ r.accepted
  pub sound : r.accepted ≤ r.attempted

tally-IsPublished :
    (e : SignedEvent) (eligible : ℕ → Bool) (connections : List RelayConnection) (required : ℕ)
    (r : PoolPublishResult)
    → tally required (attempts e eligible 0 connections) ≡ ok r
    → IsPublished e eligible connections required r
unfolding tally
tally-IsPublished e eligible connections required r h = reject_if-elim _ _ _ h λ enough built.
    subst (IsPublished e eligible connections required) (ok-injective built) (record {
      outcomes = attempts-All e eligible connections;
      counted = refl;
      attempted = refl;
      enough = ltb_false→le _ _ enough;
      sound = length-filterb-le _ _;
    })

-- A publication to the whole pool succeeds only with the answers of healthy connections, of which as
-- many as the configured threshold are positive.
pub publish-IsPublished :
    (pool : RelayPool) (e : SignedEvent) (r : PoolPublishResult)
    → publish pool e ≡ ok r
    → IsPublished e (λ i. true) pool.connections pool.config.acknowledgement_threshold r
unfolding publish
publish-IsPublished pool e r h =
    tally-IsPublished e (λ i. true) pool.connections pool.config.acknowledgement_threshold r h

-- The selection and the threshold fit the pool.
abbrev pub IsSelection : RelayPool → List ℕ → ℕ → Type 0
IsSelection pool indices required =
    (0 < required) × (required ≤ length indices) × All (λ i. i < length pool.connections) indices

fits :
    (n required : ℕ) (indices : List ℕ)
    → (is_empty indices
        || ((required == 0) || (ltb (length indices) required || anyb (λ i. leb n i) indices)))
      ≡ false
    → (0 < required) × (required ≤ length indices) × All (λ i. i < n) indices
fits n required indices h = (
  ground arith,
  ground arith,
  All-map (λ i k. ground arith) indices (anyb-All (λ i. leb n i) indices (ground arith)),
)

-- A publication to selected connections succeeds only if selection and threshold fit the pool, with
-- answers of selected healthy connections alone, of which as many as asked for are positive.
pub publish_to_indices-IsPublished :
    (pool : RelayPool) (e : SignedEvent) (indices : List ℕ) (required : ℕ) (r : PoolPublishResult)
    → publish_to_indices pool e indices required ≡ ok r
    → IsSelection pool indices required
      × IsPublished e (λ i. has_index i indices) pool.connections required r
unfolding publish_to_indices
publish_to_indices-IsPublished pool e indices required r h = reject_if-elim _ _ _ h λ fit rest. (
  fits (length pool.connections) required indices fit,
  tally-IsPublished e (λ i. has_index i indices) pool.connections required r rest,
)
